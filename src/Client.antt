-- ===== src/Client.antt =====
-- python/synapse_client/client.py, `class SynapseClient`: the client, its headers, and the parts of
-- its methods that stand in the modules below. A client's own fields never change, so its methods
-- act on the history of events alone (Host.antt).
pub mod Response
pub mod Discovery
pub mod Polling
pub mod Invoke
pub mod Rediscovery
use synapse_network_sdk.Base.{String, Option, none, some, List, [], ◌∷◌, or_else, if◌then◌else◌}
use synapse_network_sdk.Base.Int.{ℤ}
use synapse_network_sdk.Json.{Json}
use synapse_network_sdk.Strings.{◌+++◌, truthy, str_or, strip}
use synapse_network_sdk.Runtime.{Result, ok, err, value_error, and_then}
use synapse_network_sdk.Host.{Host, Request}
use synapse_network_sdk.Config.{getenv_or_empty, resolve_gateway_url}

-- `_resolve_agent_key`
unfoldable pub resolve_agent_key : Host → Option String → String
unfolding getenv_or_empty strip str_or
resolve_agent_key H api_key = strip (
    str_or (or_else api_key "")
      (str_or (getenv_or_empty H "SYNAPSE_AGENT_KEY") (getenv_or_empty H "SYNAPSE_API_KEY")))

pub record SynapseClient : Type 0 where
  pub api_key : String
  pub gateway_url : String
  pub timeout_sec : ℤ

-- `SynapseClient.__init__`: the gateway is resolved before the key is tested.
unfoldable pub new_client :
    Host → Option String → Option String → Option String → ℤ → Result SynapseClient
unfolding resolve_agent_key resolve_gateway_url truthy
new_client H api_key gateway_url environment timeout_sec =
    let key = resolve_agent_key H api_key in
    and_then (resolve_gateway_url H environment gateway_url) (λ gateway.
      if truthy key
      then ok (record { api_key = key; gateway_url = gateway; timeout_sec = timeout_sec })
      else err
          (value_error "api_key is required. Pass it via init or set SYNAPSE_AGENT_KEY env var."))

-- `_headers`
unfoldable pub headers : SynapseClient → Option String → List (String × String)
unfolding truthy
headers c request_id =
    let id = or_else request_id "" in
    ("Content-Type", "application/json")
    ∷ ("X-Credential", c.api_key)
    ∷ (if truthy id then ("X-Request-Id", id) ∷ [] else [])

-- `requests.post(f"{self.gateway_url}{path}", headers=…, json=…, timeout=…)` and `requests.get`
unfoldable pub post_request : SynapseClient → String → Option String → Json → Request
unfolding headers
post_request c path request_id body = record {
  method = "POST";
  url = c.gateway_url +++ path;
  headers = headers c request_id;
  json = some body;
  timeout = c.timeout_sec;
}

unfoldable pub get_request : SynapseClient → String → List (String × String) → Request
get_request c path hs = record {
  method = "GET";
  url = c.gateway_url +++ path;
  headers = hs;
  json = none;
  timeout = c.timeout_sec;
}
