-- ===== src/Auth/Finance/Local.antt =====
-- The calls of _auth_finance.py keep what a session's calls keep.
use synapse_network_sdk.Base.{String, true, ◌≡◌, refl, Option, none, some, or_else}
use synapse_network_sdk.Base.Int.{ℤ}
use synapse_network_sdk.Strings.{◌+++◌, truthy}
use synapse_network_sdk.Strings.Prefix.{starts_with, starts_with-longer}
use synapse_network_sdk.Json.{num, obj, Fields, end, field}
use synapse_network_sdk.Runtime.{Float}
use synapse_network_sdk.Host.{Host}
use synapse_network_sdk.Auth.{set_header, require_value}
use synapse_network_sdk.Auth.Local.{
  IsLocal, IsLocal-bind, IsLocal-lift, IsLocal-pure, IsLocal-if, IsLocal-uuid, IsLocal-request,
  IsLocal-authorized_headers, IsLocal-authorized_request, IsLocal-asked, query_path-rooted,
}
use synapse_network_sdk.Auth.Finance.{
  get_balance, idempotency_key_or, idempotent_request, register_deposit_intent, confirm_deposit,
  set_spending_limit, redeem_voucher, limited_path, get_usage_logs, get_finance_audit_logs,
  get_risk_overview,
}

module _ (H : Host) where
  pub IsLocal-get_balance : IsLocal (get_balance H)
  unfolding get_balance starts_with
  IsLocal-get_balance = IsLocal-asked H "GET" "/api/v1/balance" none _ refl

  IsLocal-idempotency_key_or :
      (prefix : String) (given : Option String) → IsLocal (idempotency_key_or H prefix given)
  unfolding idempotency_key_or
  IsLocal-idempotency_key_or prefix given =
      IsLocal-if (truthy (or_else given "")) (IsLocal-pure _)
        (IsLocal-bind (IsLocal-uuid H) (λ hex. IsLocal-pure (prefix +++ hex)))

  pub IsLocal-idempotent_request :
      (prefix : String) (given : Option String) (path : String) (body : Fields)
      → starts_with "/" path ≡ true
      → IsLocal (idempotent_request H prefix given path body)
  unfolding idempotent_request
  IsLocal-idempotent_request prefix given path body rooted =
      IsLocal-bind (IsLocal-authorized_headers H) (λ hs.
        IsLocal-bind (IsLocal-idempotency_key_or prefix given) (λ key.
          IsLocal-request H "POST" path (set_header "X-Idempotency-Key" key hs) (some (obj body))
            rooted))

  pub IsLocal-register_deposit_intent :
      (tx_hash : String) (amount_usdc : Float) (idempotency_key : Option String)
      → IsLocal (register_deposit_intent H tx_hash amount_usdc idempotency_key)
  unfolding register_deposit_intent starts_with
  IsLocal-register_deposit_intent tx_hash amount_usdc idempotency_key =
      IsLocal-bind
        (IsLocal-idempotent_request "deposit-" idempotency_key "/api/v1/balance/deposit/intent" _
          refl)
        (λ p. IsLocal-lift _)

  pub IsLocal-confirm_deposit :
      (intent_id event_key : String) (confirmations : ℤ)
      → IsLocal (confirm_deposit H intent_id event_key confirmations)
  unfolding confirm_deposit starts_with
  IsLocal-confirm_deposit intent_id event_key confirmations =
      IsLocal-asked H "POST" ("/api/v1/balance/deposit/intents/" +++ intent_id +++ "/confirm") _ _
        (starts_with-longer "/" "/api/v1/balance/deposit/intents/" (intent_id +++ "/confirm") refl)

  pub IsLocal-set_spending_limit : (limit : Option Float) → IsLocal (set_spending_limit H limit)
  unfolding set_spending_limit starts_with
  IsLocal-set_spending_limit limit =
      IsLocal-bind (IsLocal-authorized_request H "PUT" "/api/v1/balance/spending-limit" _ refl)
        (λ p. IsLocal-pure tt)

  pub IsLocal-redeem_voucher :
      (voucher_code : String) (idempotency_key : Option String)
      → IsLocal (redeem_voucher H voucher_code idempotency_key)
  unfolding redeem_voucher starts_with
  IsLocal-redeem_voucher voucher_code idempotency_key =
      IsLocal-bind (IsLocal-lift (require_value voucher_code "voucher_code")) (λ code.
        IsLocal-bind
          (IsLocal-idempotent_request "voucher-" idempotency_key "/api/v1/balance/vouchers/redeem" _
            refl)
          (λ p. IsLocal-lift _))

  pub limited_path-rooted :
      (path : String) (limit : ℤ)
      → starts_with "/" path ≡ true
      → starts_with "/" (limited_path H path limit) ≡ true
  unfolding limited_path
  limited_path-rooted path limit h =
      query_path-rooted H path (field "limit" (num (H.show_int limit)) end) h

  pub IsLocal-get_usage_logs : (limit : ℤ) → IsLocal (get_usage_logs H limit)
  unfolding get_usage_logs starts_with
  IsLocal-get_usage_logs limit =
      IsLocal-asked H "GET" (limited_path H "/api/v1/usage/logs" limit) none _
        (limited_path-rooted "/api/v1/usage/logs" limit refl)

  pub IsLocal-get_finance_audit_logs : (limit : ℤ) → IsLocal (get_finance_audit_logs H limit)
  unfolding get_finance_audit_logs starts_with
  IsLocal-get_finance_audit_logs limit =
      IsLocal-asked H "GET" (limited_path H "/api/v1/finance/audit-logs" limit) none _
        (limited_path-rooted "/api/v1/finance/audit-logs" limit refl)

  pub IsLocal-get_risk_overview : IsLocal (get_risk_overview H)
  unfolding get_risk_overview starts_with
  IsLocal-get_risk_overview = IsLocal-asked H "GET" "/api/v1/finance/risk-overview" none _ refl
