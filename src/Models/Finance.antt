-- ===== src/Models/Finance.antt =====
-- models.py and _control_result_models.py: the answers of the balance and finance endpoints.
use synapse_network_sdk.Base.{String, Option, or_else, some, List}
use synapse_network_sdk.Strings.{str_or}
use synapse_network_sdk.Json.{Json, num, Fields}
use synapse_network_sdk.Host.{Host, Kind}
use synapse_network_sdk.Models.Readers.{
  ◌>>=◌, text_field, dict_field, dicts_field, optional_text, optional_any,
}

pub record BalanceSummary : Type 0 where
  pub owner_balance : Json
  pub consumer_available_balance : Json
  pub provider_receivable : Json
  pub platform_fee_accrued : Json

unfoldable pub read_balance_summary : Host → Fields → Option BalanceSummary
read_balance_summary H p = do
  owner_balance ← H.read Kind.anything "owner_balance" "ownerBalance" (num "0") p
  consumer_available_balance ←
      H.read Kind.anything "consumer_available_balance" "consumerAvailableBalance" (num "0") p
  provider_receivable ← H.read Kind.anything "provider_receivable" "providerReceivable" (num "0") p
  platform_fee_accrued ←
      H.read Kind.anything "platform_fee_accrued" "platformFeeAccrued" (num "0") p
  some (record {
    owner_balance = owner_balance;
    consumer_available_balance = consumer_available_balance;
    provider_receivable = provider_receivable;
    platform_fee_accrued = platform_fee_accrued;
  })

pub record DepositIntentRecord : Type 0 where
  pub id : Option String
  pub intent_id : Option String
  pub deposit_intent_id : Option String
  pub event_key : Option String
  pub tx_hash : Option String

unfoldable pub read_deposit_intent_record : Host → Fields → Option DepositIntentRecord
read_deposit_intent_record H p = do
  id ← optional_text H "id" "id" p
  intent_id ← optional_text H "intent_id" "intentId" p
  deposit_intent_id ← optional_text H "deposit_intent_id" "depositIntentId" p
  event_key ← optional_text H "event_key" "eventKey" p
  tx_hash ← optional_text H "tx_hash" "txHash" p
  some (record {
    id = id;
    intent_id = intent_id;
    deposit_intent_id = deposit_intent_id;
    event_key = event_key;
    tx_hash = tx_hash;
  })

-- `resolved_id` and `resolved_event_key`
unfoldable pub resolved_id : DepositIntentRecord → String
unfolding str_or
resolved_id r =
    str_or (or_else r.id "") (str_or (or_else r.intent_id "") (or_else r.deposit_intent_id ""))

unfoldable pub resolved_event_key : DepositIntentRecord → String
unfolding str_or
resolved_event_key r = str_or (or_else r.event_key "") (or_else r.tx_hash "")

pub record DepositIntentResult : Type 0 where
  pub status : String
  pub tx_hash : String
  pub intent : DepositIntentRecord

unfoldable pub read_deposit_intent_result : Host → Fields → Option DepositIntentResult
read_deposit_intent_result H p = do
  status ← text_field H "status" "status" "success" p
  tx_hash ← text_field H "tx_hash" "tx_hash" "" p
  intent_fields ← dict_field H "intent" "intent" p
  intent ← read_deposit_intent_record H intent_fields
  some (record { status = status; tx_hash = tx_hash; intent = intent })

pub record DepositConfirmResult : Type 0 where
  pub status : String
  pub intent : DepositIntentRecord

unfoldable pub read_deposit_confirm_result : Host → Fields → Option DepositConfirmResult
read_deposit_confirm_result H p = do
  status ← text_field H "status" "status" "success" p
  intent_fields ← dict_field H "intent" "intent" p
  intent ← read_deposit_intent_record H intent_fields
  some (record { status = status; intent = intent })

pub record VoucherRedeemResult : Type 0 where
  pub status : String
  pub voucher_code : Option String

unfoldable pub read_voucher_redeem_result : Host → Fields → Option VoucherRedeemResult
read_voucher_redeem_result H p = do
  status ← text_field H "status" "status" "success" p
  voucher_code ← optional_text H "voucher_code" "voucherCode" p
  some (record { status = status; voucher_code = voucher_code })

pub record UsageLogList : Type 0 where
  pub logs : List Fields

unfoldable pub read_usage_log_list : Host → Fields → Option UsageLogList
read_usage_log_list H p = do logs ← dicts_field H "logs" "logs" p; some (record { logs = logs })

pub record FinanceAuditLogList : Type 0 where
  pub logs : List Fields

unfoldable pub read_finance_audit_log_list : Host → Fields → Option FinanceAuditLogList
read_finance_audit_log_list H p = do
  logs ← dicts_field H "logs" "logs" p
  some (record { logs = logs })

pub record RiskOverview : Type 0 where
  pub risk : Option Json

unfoldable pub read_risk_overview : Host → Fields → Option RiskOverview
read_risk_overview H p = do risk ← optional_any H "risk" "risk" p; some (record { risk = risk })
