-- ===== src/Auth/Finance.antt =====
-- python/synapse_client/_auth_finance.py: the owner's balance, deposits, vouchers and logs.
pub mod Vouchers
pub mod Local
use synapse_network_sdk.Base.{String, true, false, Option, none, some, or_else, if◌then◌else◌}
use synapse_network_sdk.Base.Int.{ℤ}
use synapse_network_sdk.Strings.{◌+++◌, truthy}
use synapse_network_sdk.Json.{Json, bool, num, str, obj, Fields, end, field, get, as_dict}
use synapse_network_sdk.Runtime.{Float, ◌>>=◌, pure, lift_result, Action, or_invalid}
use synapse_network_sdk.Host.{Host, uuid}
use synapse_network_sdk.Models.Finance.{
  BalanceSummary, read_balance_summary, DepositIntentResult, read_deposit_intent_result,
  DepositConfirmResult, read_deposit_confirm_result, VoucherRedeemResult,
  read_voucher_redeem_result, UsageLogList, read_usage_log_list, FinanceAuditLogList,
  read_finance_audit_log_list, RiskOverview, read_risk_overview,
}
use synapse_network_sdk.Auth.{
  SynapseAuth, through_history, set_header, require_value, query_path, authorized_headers,
  authorized_request, request,
}

-- the body of `set_spending_limit`
unfoldable pub spending_limit_body : Option Json → Fields
spending_limit_body none = field "allowUnlimited" (bool true) end
spending_limit_body (some limit) =
    field "spendingLimitUsdc" limit (field "allowUnlimited" (bool false) end)

-- the balance of an answer: its object `balance`, or the answer itself
unfoldable pub balance_payload : Fields → Fields
unfolding get
balance_payload payload = or_else (as_dict (get "balance" payload)) payload

module _ (H : Host) where
  unfoldable pub get_balance : Action SynapseAuth BalanceSummary
  unfolding authorized_request balance_payload
  get_balance = do
    payload ← authorized_request H "GET" "/api/v1/balance" none
    lift_result (or_invalid (read_balance_summary H (balance_payload payload)))

  -- `idempotency_key or f"{prefix}{uuid4().hex}"`
  unfoldable pub idempotency_key_or : String → Option String → Action SynapseAuth String
  unfolding truthy through_history uuid
  idempotency_key_or prefix given =
      let key = or_else given "" in
      let fresh = (do hex ← through_history (uuid H); pure (prefix +++ hex)) in
      if truthy key then pure key else fresh

  -- a request with the header `X-Idempotency-Key`
  unfoldable pub idempotent_request :
      String → Option String → String → Fields → Action SynapseAuth Fields
  unfolding authorized_headers idempotency_key_or set_header request
  idempotent_request prefix given path body = do
    hs ← authorized_headers H
    key ← idempotency_key_or prefix given
    request H "POST" path (set_header "X-Idempotency-Key" key hs) (some (obj body))

  unfoldable pub register_deposit_intent :
      String → Float → Option String → Action SynapseAuth DepositIntentResult
  unfolding idempotent_request
  register_deposit_intent tx_hash amount_usdc idempotency_key = do
    payload ←
        idempotent_request "deposit-" idempotency_key "/api/v1/balance/deposit/intent"
          (field "txHash" (str tx_hash) (field "amountUsdc" (num (H.show_float amount_usdc)) end))
    lift_result (or_invalid (read_deposit_intent_result H payload))

  unfoldable pub confirm_deposit : String → String → ℤ → Action SynapseAuth DepositConfirmResult
  unfolding authorized_request
  confirm_deposit intent_id event_key confirmations = do
    payload ←
        authorized_request H "POST"
          ("/api/v1/balance/deposit/intents/" +++ intent_id +++ "/confirm")
          (some (
            obj (
              field "eventKey" (str event_key)
                (field "confirmations" (num (H.show_int confirmations)) end))))
    lift_result (or_invalid (read_deposit_confirm_result H payload))

  abbrev limit_value : Option Float → Option Json
  limit_value none = none
  limit_value (some x) = some (num (H.show_float x))

  unfoldable pub set_spending_limit : Option Float → Action SynapseAuth (Unit {0})
  unfolding authorized_request spending_limit_body
  set_spending_limit spending_limit_usdc = do
    payload ←
        authorized_request H "PUT" "/api/v1/balance/spending-limit"
          (some (obj (spending_limit_body (limit_value spending_limit_usdc))))
    pure tt

  unfoldable pub redeem_voucher : String → Option String → Action SynapseAuth VoucherRedeemResult
  unfolding require_value idempotent_request
  redeem_voucher voucher_code idempotency_key = do
    code ← lift_result (require_value voucher_code "voucher_code")
    payload ←
        idempotent_request "voucher-" idempotency_key "/api/v1/balance/vouchers/redeem"
          (field "voucherCode" (str code) end)
    lift_result (or_invalid (read_voucher_redeem_result H payload))

  -- the path of a listing with a limit
  unfoldable pub limited_path : String → ℤ → String
  unfolding query_path
  limited_path path limit = query_path H path (field "limit" (num (H.show_int limit)) end)

  unfoldable pub get_usage_logs : ℤ → Action SynapseAuth UsageLogList
  unfolding authorized_request limited_path
  get_usage_logs limit = do
    payload ← authorized_request H "GET" (limited_path "/api/v1/usage/logs" limit) none
    lift_result (or_invalid (read_usage_log_list H payload))

  unfoldable pub get_finance_audit_logs : ℤ → Action SynapseAuth FinanceAuditLogList
  unfolding authorized_request limited_path
  get_finance_audit_logs limit = do
    payload ← authorized_request H "GET" (limited_path "/api/v1/finance/audit-logs" limit) none
    lift_result (or_invalid (read_finance_audit_log_list H payload))

  unfoldable pub get_risk_overview : Action SynapseAuth RiskOverview
  unfolding authorized_request
  get_risk_overview = do
    payload ← authorized_request H "GET" "/api/v1/finance/risk-overview" none
    lift_result (or_invalid (read_risk_overview H payload))
