-- ===== src/Session/Keeps.antt =====
-- What a program cannot do to a session through its calls.
use synapse_network_sdk.Base.{false, ◌≡◌, List, [], ◌∷◌}
use synapse_network_sdk.Runtime.Steps.{occurrences}
use synapse_network_sdk.Host.{Host}
use synapse_network_sdk.Auth.{SynapseAuth, get_token}
use synapse_network_sdk.Auth.Local.{
  Held, is_foreign, IsLocal, Kept, Kept-refl, Kept-trans, IsLocal-authenticate, IsLocal-logout,
  IsLocal-get_owner_profile,
}
use synapse_network_sdk.Auth.Credentials.Local.{
  IsLocal-issue_credential, IsLocal-list_credentials, IsLocal-list_active_credentials,
  IsLocal-get_credential_status, IsLocal-check_credential_status, IsLocal-revoke_credential,
  IsLocal-rotate_credential, IsLocal-delete_credential, IsLocal-update_credential_quota,
  IsLocal-update_credential, IsLocal-get_credential_audit_logs, IsLocal-ensure_credential,
}
use synapse_network_sdk.Auth.Finance.Local.{
  IsLocal-get_balance, IsLocal-register_deposit_intent, IsLocal-confirm_deposit,
  IsLocal-set_spending_limit, IsLocal-redeem_voucher, IsLocal-get_usage_logs,
  IsLocal-get_finance_audit_logs, IsLocal-get_risk_overview,
}
use synapse_network_sdk.Auth.Provider.Local.{
  IsLocal-issue_provider_secret, IsLocal-list_provider_secrets, IsLocal-delete_provider_secret,
  IsLocal-get_registration_guide, IsLocal-parse_curl_to_service_manifest,
  IsLocal-register_provider_service, IsLocal-register_llm_service, IsLocal-list_provider_services,
  IsLocal-get_provider_service, IsLocal-get_provider_service_status,
  IsLocal-update_provider_service, IsLocal-delete_provider_service, IsLocal-ping_provider_service,
  IsLocal-get_provider_service_health_history, IsLocal-get_provider_earnings_summary,
  IsLocal-get_provider_withdrawal_capability, IsLocal-create_provider_withdrawal_intent,
  IsLocal-list_provider_withdrawals,
}
use synapse_network_sdk.Provider.{Method, call}
use synapse_network_sdk.Session.{Operation}
use synapse_network_sdk.Session.Run.{perform, run}

module _ (H : Host) where
  call-IsLocal : (m : Method) → IsLocal (call H m)
  unfolding call
  call-IsLocal (Method.issue_secret options) = IsLocal-issue_provider_secret H options
  call-IsLocal Method.list_secrets = IsLocal-list_provider_secrets H
  call-IsLocal (Method.delete_secret secret_id) = IsLocal-delete_provider_secret H secret_id
  call-IsLocal Method.registration_guide = IsLocal-get_registration_guide H
  call-IsLocal (Method.parse_curl curl_command) =
      IsLocal-parse_curl_to_service_manifest H curl_command
  call-IsLocal (Method.register_service a) = IsLocal-register_provider_service H a
  call-IsLocal (Method.register_llm a) = IsLocal-register_llm_service H a
  call-IsLocal Method.list_services = IsLocal-list_provider_services H
  call-IsLocal (Method.get_service service_id) = IsLocal-get_provider_service H service_id
  call-IsLocal (Method.get_service_status service_id) =
      IsLocal-get_provider_service_status H service_id
  call-IsLocal (Method.update_service service_record_id patch) =
      IsLocal-update_provider_service H service_record_id patch
  call-IsLocal (Method.delete_service service_record_id) =
      IsLocal-delete_provider_service H service_record_id
  call-IsLocal (Method.ping_service service_record_id) =
      IsLocal-ping_provider_service H service_record_id
  call-IsLocal (Method.get_service_health_history service_record_id limit) =
      IsLocal-get_provider_service_health_history H service_record_id limit
  call-IsLocal Method.get_earnings_summary = IsLocal-get_provider_earnings_summary H
  call-IsLocal Method.get_withdrawal_capability = IsLocal-get_provider_withdrawal_capability H
  call-IsLocal (Method.create_withdrawal_intent amount_usdc idempotency_key destination_address) =
      IsLocal-create_provider_withdrawal_intent H amount_usdc idempotency_key destination_address
  call-IsLocal (Method.list_withdrawals limit) = IsLocal-list_provider_withdrawals H limit

  perform-Kept : (o : Operation) (s : SynapseAuth) → Kept s (perform H o s)
  unfolding perform get_token
  perform-Kept (Operation.authenticate force_refresh) = (IsLocal-authenticate H force_refresh).keeps
  perform-Kept Operation.get_token = (IsLocal-authenticate H false).keeps
  perform-Kept Operation.logout = (IsLocal-logout H).keeps
  perform-Kept Operation.get_owner_profile = (IsLocal-get_owner_profile H).keeps
  perform-Kept (Operation.issue_credential options) = (IsLocal-issue_credential H options).keeps
  perform-Kept Operation.list_credentials = (IsLocal-list_credentials H).keeps
  perform-Kept Operation.list_active_credentials = (IsLocal-list_active_credentials H).keeps
  perform-Kept (Operation.get_credential_status credential_id) =
      (IsLocal-get_credential_status H credential_id).keeps
  perform-Kept (Operation.check_credential_status credential_id) =
      (IsLocal-check_credential_status H credential_id).keeps
  perform-Kept (Operation.revoke_credential credential_id) =
      (IsLocal-revoke_credential H credential_id).keeps
  perform-Kept (Operation.rotate_credential credential_id) =
      (IsLocal-rotate_credential H credential_id).keeps
  perform-Kept (Operation.delete_credential credential_id) =
      (IsLocal-delete_credential H credential_id).keeps
  perform-Kept (Operation.update_credential_quota credential_id options) =
      (IsLocal-update_credential_quota H credential_id options).keeps
  perform-Kept (Operation.update_credential credential_id options) =
      (IsLocal-update_credential H credential_id options).keeps
  perform-Kept (Operation.get_credential_audit_logs limit) =
      (IsLocal-get_credential_audit_logs H limit).keeps
  perform-Kept (Operation.ensure_credential name options) =
      (IsLocal-ensure_credential H name options).keeps
  perform-Kept Operation.get_balance = (IsLocal-get_balance H).keeps
  perform-Kept (Operation.register_deposit_intent tx_hash amount_usdc idempotency_key) =
      (IsLocal-register_deposit_intent H tx_hash amount_usdc idempotency_key).keeps
  perform-Kept (Operation.confirm_deposit intent_id event_key confirmations) =
      (IsLocal-confirm_deposit H intent_id event_key confirmations).keeps
  perform-Kept (Operation.set_spending_limit limit) = (IsLocal-set_spending_limit H limit).keeps
  perform-Kept (Operation.redeem_voucher voucher_code idempotency_key) =
      (IsLocal-redeem_voucher H voucher_code idempotency_key).keeps
  perform-Kept (Operation.get_usage_logs limit) = (IsLocal-get_usage_logs H limit).keeps
  perform-Kept (Operation.get_finance_audit_logs limit) =
      (IsLocal-get_finance_audit_logs H limit).keeps
  perform-Kept Operation.get_risk_overview = (IsLocal-get_risk_overview H).keeps
  perform-Kept (Operation.provider m) = (call-IsLocal m).keeps

  run-Kept-all : (os : List Operation) (s : SynapseAuth) → Kept s (run H os s)
  unfolding run
  run-Kept-all [] s = Kept-refl s
  run-Kept-all (o ∷ os) s =
      Kept-trans s (perform H o s) (run H os (perform H o s)) (perform-Kept o s)
        (run-Kept-all os (perform H o s))

  -- Any calls of an owner's session, with any arguments and whether they return or raise, leave the
  -- wallet address, the gateway, the timeout and the signer as they were, send every request to a
  -- path of that gateway, and leave a token that is not empty, or none, where they find such.
  pub run-Kept :
      (os : List Operation) (s : SynapseAuth)
      → Held s.token
      → let s' = run H os s in
        (s'.wallet_address ≡ s.wallet_address)
        × (s'.gateway_url ≡ s.gateway_url)
        × (s'.timeout_sec ≡ s.timeout_sec)
        × (s'.signer ≡ s.signer)
        × Held s'.token
        × (occurrences (is_foreign s.gateway_url) s'.trace
            ≡ occurrences (is_foreign s.gateway_url) s.trace)
  run-Kept os s h =
      let k = run-Kept-all os s in
      (k.wallet_address, k.gateway_url, k.timeout_sec, k.signer, k.token h, k.requests)
