-- ===== src/Session.antt =====
-- The public calls of an owner's session, python/synapse_client/auth.py with its mixins and the
-- facade provider.py, and what a program that makes several of them does to the session.
pub mod Run
pub mod Keeps
use synapse_network_sdk.Base.{String, Bool, Option}
use synapse_network_sdk.Base.Int.{ℤ}
use synapse_network_sdk.Json.{Fields}
use synapse_network_sdk.Runtime.{Float}
use synapse_network_sdk.Provider.{Method}

-- A call, with its arguments.
pub data Operation : Type 0 where
  authenticate : Bool → Operation
  get_token logout get_owner_profile : Operation
  issue_credential : Fields → Operation
  list_credentials list_active_credentials : Operation
  get_credential_status check_credential_status revoke_credential : String → Operation
  rotate_credential delete_credential : String → Operation
  update_credential_quota update_credential : String → Fields → Operation
  get_credential_audit_logs : ℤ → Operation
  ensure_credential : String → Fields → Operation
  get_balance : Operation
  register_deposit_intent : String → Float → Option String → Operation
  confirm_deposit : String → String → ℤ → Operation
  set_spending_limit : Option Float → Operation
  redeem_voucher : String → Option String → Operation
  get_usage_logs get_finance_audit_logs : ℤ → Operation
  get_risk_overview : Operation
  provider : Method → Operation
