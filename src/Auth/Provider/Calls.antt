-- ===== src/Auth/Provider/Calls.antt =====
-- _auth_provider_control.py: provider secrets, the calls that name a service's record, earnings and
-- withdrawals.
use synapse_network_sdk.Base.{String, Option, none, some, or_else, List, [], if◌then◌else◌}
use synapse_network_sdk.Base.Int.{ℤ}
use synapse_network_sdk.Strings.{◌+++◌, truthy}
use synapse_network_sdk.Json.{
  Json, num, str, arr, obj, Fields, end, field, get, put_some, is_empty, dict_or_empty, dicts,
}
use synapse_network_sdk.Runtime.{
  Float, authentication, Result, ok, err, ◌>>=◌, lift_result, Action, and_then, or_invalid,
}
use synapse_network_sdk.Host.{Host}
use synapse_network_sdk.Models.Readers.{each}
use synapse_network_sdk.Models.Control.{
  ProviderSecret, read_provider_secret, IssueProviderSecretResult, ProviderSecretDeleteResult,
  read_provider_secret_delete_result, ProviderRegistrationGuide, read_provider_registration_guide,
  ServiceManifestDraft, read_service_manifest_draft, ProviderServiceUpdateResult,
  read_provider_service_update_result, ProviderServiceDeleteResult,
  read_provider_service_delete_result, ProviderServicePingResult, read_provider_service_ping_result,
  ProviderServiceHealthHistory, read_provider_service_health_history, ProviderEarningsSummary,
  read_provider_earnings_summary, ProviderWithdrawalCapability, read_provider_withdrawal_capability,
  ProviderWithdrawalIntentResult, read_provider_withdrawal_intent_result, ProviderWithdrawalList,
  read_provider_withdrawal_list,
}
use synapse_network_sdk.Auth.{SynapseAuth, require_value, query_path, authorized_request}
use synapse_network_sdk.Auth.Credentials.{credential_options_body}
use synapse_network_sdk.Auth.Finance.{idempotent_request, limited_path}

abbrev pub services_path : String
services_path = "/api/v1/services/"

-- `body["destinationAddress"]` is set for an address that is not empty
abbrev pub destination : Option String → Option Json
destination none = none
destination (some s) = if truthy s then some (str s) else none

module _ (H : Host) where
  -- the secret of an answer
  unfoldable pub issued_secret : Fields → Result IssueProviderSecretResult
  unfolding get
  issued_secret payload =
      let secret = dict_or_empty (get "secret" payload) in
      if is_empty secret
      then err (authentication ("Provider secret payload missing: " +++ H.show_json (obj payload)))
      else and_then (or_invalid (read_provider_secret H secret)) (λ s. ok (record { secret = s }))

  -- `issue_provider_secret`, whose body is made as that of `issue_credential` is
  unfoldable pub issue_provider_secret : Fields → Action SynapseAuth IssueProviderSecretResult
  unfolding credential_options_body authorized_request issued_secret
  issue_provider_secret options = do
    payload ←
        authorized_request H "POST" "/api/v1/secrets/provider/issue"
          (some (obj (credential_options_body options)))
    lift_result (issued_secret payload)

  -- the secrets of an answer
  unfoldable pub listed_secrets : Fields → Result (List ProviderSecret)
  unfolding get dicts
  listed_secrets payload = elim (get "secrets" payload) [
    | arr vs ↦ or_invalid (each (read_provider_secret H) (dicts vs))
    | other ↦ ok []
  ]

  unfoldable pub list_provider_secrets : Action SynapseAuth (List ProviderSecret)
  unfolding authorized_request listed_secrets
  list_provider_secrets = do
    payload ← authorized_request H "GET" "/api/v1/secrets/provider/list" none
    lift_result (listed_secrets payload)

  unfoldable pub delete_provider_secret : String → Action SynapseAuth ProviderSecretDeleteResult
  unfolding require_value authorized_request
  delete_provider_secret secret_id = do
    id ← lift_result (require_value secret_id "secret_id")
    payload ← authorized_request H "DELETE" ("/api/v1/secrets/provider/" +++ id) none
    lift_result (or_invalid (read_provider_secret_delete_result H payload))

  unfoldable pub get_registration_guide : Action SynapseAuth ProviderRegistrationGuide
  unfolding authorized_request
  get_registration_guide = do
    payload ← authorized_request H "GET" "/api/v1/services/registration-guide" none
    lift_result (or_invalid (read_provider_registration_guide H payload))

  unfoldable pub parse_curl_to_service_manifest : String → Action SynapseAuth ServiceManifestDraft
  unfolding require_value authorized_request
  parse_curl_to_service_manifest curl_command = do
    command ← lift_result (require_value curl_command "curl_command")
    payload ←
        authorized_request H "POST" "/api/v1/services/parse-curl"
          (some (obj (field "curlCommand" (str command) end)))
    lift_result (or_invalid (read_service_manifest_draft H payload))

  -- a call that requires a service's record, and asks under a path that its identifier is put in
  unfoldable pub service_request :
      String → String → String → Option Json → Action SynapseAuth Fields
  unfolding require_value authorized_request
  service_request method service_record_id rest body = do
    id ← lift_result (require_value service_record_id "service_record_id")
    authorized_request H method (services_path +++ id +++ rest) body

  unfoldable pub update_provider_service :
      String → Option Fields → Action SynapseAuth ProviderServiceUpdateResult
  unfolding service_request
  update_provider_service service_record_id patch = do
    payload ← service_request "PUT" service_record_id "" (some (obj (or_else patch end)))
    lift_result (or_invalid (read_provider_service_update_result H payload))

  unfoldable pub delete_provider_service : String → Action SynapseAuth ProviderServiceDeleteResult
  unfolding service_request
  delete_provider_service service_record_id = do
    payload ← service_request "DELETE" service_record_id "" none
    lift_result (or_invalid (read_provider_service_delete_result H payload))

  unfoldable pub ping_provider_service : String → Action SynapseAuth ProviderServicePingResult
  unfolding service_request
  ping_provider_service service_record_id = do
    payload ← service_request "POST" service_record_id "/ping" none
    lift_result (or_invalid (read_provider_service_ping_result H payload))

  unfoldable pub get_provider_service_health_history :
      String → ℤ → Action SynapseAuth ProviderServiceHealthHistory
  unfolding require_value authorized_request query_path
  get_provider_service_health_history service_record_id limit = do
    id ← lift_result (require_value service_record_id "service_record_id")
    payload ←
        authorized_request H "GET"
          (query_path H (services_path +++ id +++ "/health/history")
            (field "limitPerTarget" (num (H.show_int limit)) end))
          none
    lift_result (or_invalid (read_provider_service_health_history H payload))

  unfoldable pub get_provider_earnings_summary : Action SynapseAuth ProviderEarningsSummary
  unfolding authorized_request
  get_provider_earnings_summary = do
    payload ← authorized_request H "GET" "/api/v1/providers/earnings/summary" none
    lift_result (or_invalid (read_provider_earnings_summary H payload))

  unfoldable pub get_provider_withdrawal_capability :
      Action SynapseAuth ProviderWithdrawalCapability
  unfolding authorized_request
  get_provider_withdrawal_capability = do
    payload ← authorized_request H "GET" "/api/v1/providers/withdrawals/capability" none
    lift_result (or_invalid (read_provider_withdrawal_capability H payload))

  unfoldable pub create_provider_withdrawal_intent :
      Float → Option String → Option String → Action SynapseAuth ProviderWithdrawalIntentResult
  unfolding idempotent_request put_some
  create_provider_withdrawal_intent amount_usdc idempotency_key destination_address = do
    payload ←
        idempotent_request H "provider-withdraw-" idempotency_key
          "/api/v1/providers/withdrawals/intent"
          (put_some "destinationAddress" (destination destination_address)
            (field "amountUsdc" (num (H.show_float amount_usdc)) end))
    lift_result (or_invalid (read_provider_withdrawal_intent_result H payload))

  unfoldable pub list_provider_withdrawals : ℤ → Action SynapseAuth ProviderWithdrawalList
  unfolding authorized_request limited_path
  list_provider_withdrawals limit = do
    payload ← authorized_request H "GET" (limited_path H "/api/v1/providers/withdrawals" limit) none
    lift_result (or_invalid (read_provider_withdrawal_list H payload))
