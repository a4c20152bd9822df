-- ===== src/Provider.antt =====
-- python/synapse_client/provider.py, `class SynapseProvider`: the provider's view of an owner's
-- session. Each method is one of the session's, under a shorter name.
use synapse_network_sdk.Base.{String, Option, List}
use synapse_network_sdk.Base.Int.{ℤ}
use synapse_network_sdk.Json.{Fields}
use synapse_network_sdk.Runtime.{Float, Action}
use synapse_network_sdk.Host.{Host}
use synapse_network_sdk.Models.Provider.{
  ProviderService, ProviderServiceRegistrationResult, ProviderServiceStatus,
}
use synapse_network_sdk.Models.Control.{
  ProviderSecret, IssueProviderSecretResult, ProviderSecretDeleteResult, ProviderRegistrationGuide,
  ServiceManifestDraft, ProviderServiceUpdateResult, ProviderServiceDeleteResult,
  ProviderServicePingResult, ProviderServiceHealthHistory, ProviderEarningsSummary,
  ProviderWithdrawalCapability, ProviderWithdrawalIntentResult, ProviderWithdrawalList,
}
use synapse_network_sdk.Auth.{SynapseAuth}
use synapse_network_sdk.Auth.Provider.{
  Registration, register_provider_service, register_llm_service, list_provider_services,
}
use synapse_network_sdk.Auth.Provider.Calls.{
  issue_provider_secret, list_provider_secrets, delete_provider_secret, get_registration_guide,
  parse_curl_to_service_manifest, update_provider_service, delete_provider_service,
  ping_provider_service, get_provider_service_health_history, get_provider_earnings_summary,
  get_provider_withdrawal_capability, create_provider_withdrawal_intent, list_provider_withdrawals,
}
use synapse_network_sdk.Auth.Provider.Lookup.{get_provider_service, get_provider_service_status}

-- A method of the facade, with its arguments.
pub data Method : Type 0 where
  issue_secret : Fields → Method
  list_secrets : Method
  delete_secret : String → Method
  registration_guide : Method
  parse_curl : String → Method
  register_service register_llm : Registration → Method
  list_services : Method
  get_service get_service_status : String → Method
  update_service : String → Option Fields → Method
  delete_service ping_service : String → Method
  get_service_health_history : String → ℤ → Method
  get_earnings_summary get_withdrawal_capability : Method
  create_withdrawal_intent : Float → Option String → Option String → Method
  list_withdrawals : ℤ → Method

abbrev pub Answer : Method → Type 0
Answer (issue_secret _) = IssueProviderSecretResult
Answer list_secrets = List ProviderSecret
Answer (delete_secret _) = ProviderSecretDeleteResult
Answer registration_guide = ProviderRegistrationGuide
Answer (parse_curl _) = ServiceManifestDraft
Answer (register_service _) = ProviderServiceRegistrationResult
Answer (register_llm _) = ProviderServiceRegistrationResult
Answer list_services = List ProviderService
Answer (get_service _) = ProviderService
Answer (get_service_status _) = ProviderServiceStatus
Answer (update_service _ _) = ProviderServiceUpdateResult
Answer (delete_service _) = ProviderServiceDeleteResult
Answer (ping_service _) = ProviderServicePingResult
Answer (get_service_health_history _ _) = ProviderServiceHealthHistory
Answer get_earnings_summary = ProviderEarningsSummary
Answer get_withdrawal_capability = ProviderWithdrawalCapability
Answer (create_withdrawal_intent _ _ _) = ProviderWithdrawalIntentResult
Answer (list_withdrawals _) = ProviderWithdrawalList

-- `self._auth.…`
unfoldable pub call : Host → (m : Method) → Action SynapseAuth (Answer m)
call H (issue_secret options) = issue_provider_secret H options
call H list_secrets = list_provider_secrets H
call H (delete_secret secret_id) = delete_provider_secret H secret_id
call H registration_guide = get_registration_guide H
call H (parse_curl curl_command) = parse_curl_to_service_manifest H curl_command
call H (register_service a) = register_provider_service H a
call H (register_llm a) = register_llm_service H a
call H list_services = list_provider_services H
call H (get_service service_id) = get_provider_service H service_id
call H (get_service_status service_id) = get_provider_service_status H service_id
call H (update_service service_record_id patch) = update_provider_service H service_record_id patch
call H (delete_service service_record_id) = delete_provider_service H service_record_id
call H (ping_service service_record_id) = ping_provider_service H service_record_id
call H (get_service_health_history service_record_id limit) =
    get_provider_service_health_history H service_record_id limit
call H get_earnings_summary = get_provider_earnings_summary H
call H get_withdrawal_capability = get_provider_withdrawal_capability H
call H (create_withdrawal_intent amount_usdc idempotency_key destination_address) =
    create_provider_withdrawal_intent H amount_usdc idempotency_key destination_address
call H (list_withdrawals limit) = list_provider_withdrawals H limit
