-- ===== src/Session/Run.antt =====
-- What a call of a session, and a program of such calls, does to the session.
use synapse_network_sdk.Base.{List, [], ◌∷◌}
use synapse_network_sdk.Runtime.{Action}
use synapse_network_sdk.Host.{Host}
use synapse_network_sdk.Auth.{SynapseAuth, authenticate, get_token, logout, get_owner_profile}
use synapse_network_sdk.Auth.Credentials.{
  issue_credential, list_credentials, list_active_credentials,
}
use synapse_network_sdk.Auth.Credentials.Calls.{
  get_credential_status, check_credential_status, revoke_credential, rotate_credential,
  delete_credential, update_credential_quota, get_credential_audit_logs, update_credential,
  ensure_credential,
}
use synapse_network_sdk.Auth.Finance.{
  get_balance, register_deposit_intent, confirm_deposit, set_spending_limit, redeem_voucher,
  get_usage_logs, get_finance_audit_logs, get_risk_overview,
}
use synapse_network_sdk.Provider.{call}
use synapse_network_sdk.Session.{Operation}

module _ (H : Host) where
  -- the session behind an action, whatever the action returns or raises
  abbrev after : {A : Type 0} → Action SynapseAuth A → SynapseAuth → SynapseAuth
  after m s = (m s).1

  -- the session behind a call
  unfoldable pub perform : Operation → SynapseAuth → SynapseAuth
  perform (Operation.authenticate force_refresh) = after (authenticate H force_refresh)
  perform Operation.get_token = after (get_token H)
  perform Operation.logout = after (logout H)
  perform Operation.get_owner_profile = after (get_owner_profile H)
  perform (Operation.issue_credential options) = after (issue_credential H options)
  perform Operation.list_credentials = after (list_credentials H)
  perform Operation.list_active_credentials = after (list_active_credentials H)
  perform (Operation.get_credential_status credential_id) =
      after (get_credential_status H credential_id)
  perform (Operation.check_credential_status credential_id) =
      after (check_credential_status H credential_id)
  perform (Operation.revoke_credential credential_id) = after (revoke_credential H credential_id)
  perform (Operation.rotate_credential credential_id) = after (rotate_credential H credential_id)
  perform (Operation.delete_credential credential_id) = after (delete_credential H credential_id)
  perform (Operation.update_credential_quota credential_id options) =
      after (update_credential_quota H credential_id options)
  perform (Operation.update_credential credential_id options) =
      after (update_credential H credential_id options)
  perform (Operation.get_credential_audit_logs limit) = after (get_credential_audit_logs H limit)
  perform (Operation.ensure_credential name options) = after (ensure_credential H name options)
  perform Operation.get_balance = after (get_balance H)
  perform (Operation.register_deposit_intent tx_hash amount_usdc idempotency_key) =
      after (register_deposit_intent H tx_hash amount_usdc idempotency_key)
  perform (Operation.confirm_deposit intent_id event_key confirmations) =
      after (confirm_deposit H intent_id event_key confirmations)
  perform (Operation.set_spending_limit limit) = after (set_spending_limit H limit)
  perform (Operation.redeem_voucher voucher_code idempotency_key) =
      after (redeem_voucher H voucher_code idempotency_key)
  perform (Operation.get_usage_logs limit) = after (get_usage_logs H limit)
  perform (Operation.get_finance_audit_logs limit) = after (get_finance_audit_logs H limit)
  perform Operation.get_risk_overview = after (get_risk_overview H)
  perform (Operation.provider m) = after (call H m)

  -- the session behind calls one after the other
  unfoldable pub run : List Operation → SynapseAuth → SynapseAuth
  unfolding perform
  run [] s = s
  run (o ∷ os) s = run os (perform o s)
