-- ===== src/Config.antt =====
-- python/synapse_client/config.py: which gateway a client talks to.
pub mod Laws
use synapse_network_sdk.Base.{
  String, Option, none, some, List, [], ◌∷◌, or_else, str_eq, if◌then◌else◌,
}
use synapse_network_sdk.Strings.{◌+++◌, truthy, str_or, strip, rstrip_slash}
use synapse_network_sdk.Runtime.{Result, ok, err, value_error, and_then}
use synapse_network_sdk.Host.{Host}

-- `GATEWAY_URLS.get(e)`
unfoldable pub gateway_urls : String → Option String
gateway_urls e =
    if str_eq e "staging"
    then some "https://api-staging.synapse-network.ai"
    else if str_eq e "prod"
    then some "https://api.synapse-network.ai"
    else none

abbrev pub default_environment : String
default_environment = "prod"

-- `os.getenv(k, "")`
unfoldable pub getenv_or_empty : Host → String → String
getenv_or_empty H k = or_else (H.getenv k) ""

unfoldable pub unsupported : String → String
unsupported selected =
    "unsupported Synapse environment '" +++ selected +++ "'. Expected one of: prod, staging"

-- The lookup that both the explicit and the ambient environment end in.
unfoldable pub select_environment : String → Result String
unfolding gateway_urls unsupported rstrip_slash
select_environment selected = elim (gateway_urls selected) [
  | none ↦ err (value_error (unsupported selected))
  | some url ↦ ok (rstrip_slash url)
]

-- The last step: `SYNAPSE_ENV`, or the default.
unfoldable pub ambient_environment : Host → String
unfolding getenv_or_empty strip str_or
ambient_environment H =
    H.lower (strip (str_or (getenv_or_empty H "SYNAPSE_ENV") default_environment))

unfoldable pub resolve_gateway_url : Host → Option String → Option String → Result String
unfolding strip truthy rstrip_slash getenv_or_empty ambient_environment select_environment
resolve_gateway_url H environment gateway_url =
    let explicit_url = strip (or_else gateway_url "") in
    let explicit_environment = strip (or_else environment "") in
    let env_url = strip (getenv_or_empty H "SYNAPSE_GATEWAY") in
    if truthy explicit_url
    then ok (rstrip_slash explicit_url)
    else if truthy explicit_environment
    then select_environment (H.lower explicit_environment)
    else if truthy env_url
    then ok (rstrip_slash env_url)
    else select_environment (ambient_environment H)
