-- ===== src/Tests/Config.antt =====
-- Gateway resolution in a world without environment variables.
use synapse_network_sdk.Base.{◌≡◌, refl, none, some}
use synapse_network_sdk.Runtime.{ok, err, value_error}
use synapse_network_sdk.Config.{resolve_gateway_url, unsupported}
use synapse_network_sdk.Config.Laws.{
  Resolved, resolve_gateway_url-Resolved, resolve_gateway_url-eq-first, settled, first_of_priority,
  sources, ambient,
}
use synapse_network_sdk.Tests.World.{world}

default_is_prod : resolve_gateway_url world none none ≡ ok "https://api.synapse-network.ai"
unfolding resolve_gateway_url
default_is_prod = refl

explicit_url_is_trimmed :
    resolve_gateway_url world (some "staging") (some " https://gw// ") ≡ ok "https://gw"
unfolding resolve_gateway_url
explicit_url_is_trimmed = refl

unknown_environment :
    resolve_gateway_url world (some "dev") none ≡ err (value_error (unsupported "dev"))
unfolding resolve_gateway_url
unknown_environment = refl

resolve_gateway_url-Resolved_example :
    Resolved (resolve_gateway_url world (some "staging") (some " "))
resolve_gateway_url-Resolved_example =
    resolve_gateway_url-Resolved world (some "staging") (some " ")

resolve_gateway_url-eq-first_example :
    resolve_gateway_url world (some "staging") (some " ")
    ≡ settled (first_of_priority (sources world (some "staging") (some " ")) (ambient world))
resolve_gateway_url-eq-first_example =
    resolve_gateway_url-eq-first world (some "staging") (some " ")
