-- ===== src/Models/Invocation.antt =====
-- models.py: what the gateway answers to an invocation and to a receipt lookup.
use synapse_network_sdk.Base.{String, Bool, false, ◌||◌, str_eq, Option, some}
use synapse_network_sdk.Base.Int.{ℤ}
use synapse_network_sdk.Json.{Fields}
use synapse_network_sdk.Runtime.{Float}
use synapse_network_sdk.Host.{Host}
use synapse_network_sdk.Models.Readers.{
  ◌>>=◌, nested, text_field, flag_field, float_field, dict_field, optional_text, optional_int,
  optional_dict,
}

pub record InvocationReceipt : Type 0 where
  pub quote_id : String
  pub invocation_id : String

unfoldable pub read_invocation_receipt : Host → Fields → Option InvocationReceipt
read_invocation_receipt H p = do
  quote_id ← text_field H "quote_id" "quoteId" "" p
  invocation_id ← text_field H "invocation_id" "invocationId" "" p
  some (record { quote_id = quote_id; invocation_id = invocation_id })

pub record InvocationError : Type 0 where
  pub code : String
  pub message : String
  pub retryable : Bool
  pub action : String

unfoldable pub read_invocation_error : Host → Fields → Option InvocationError
read_invocation_error H p = do
  code ← text_field H "code" "code" "INVOCATION_FAILED" p
  message ← text_field H "message" "message" "Invocation failed" p
  retryable ← flag_field H "retryable" "retryable" false p
  action ← text_field H "action" "action" "stop" p
  some (record { code = code; message = message; retryable = retryable; action = action })

pub record LlmUsage : Type 0 where
  pub input_tokens : Option ℤ
  pub output_tokens : Option ℤ
  pub total_tokens : Option ℤ
  pub prompt_tokens : Option ℤ
  pub completion_tokens : Option ℤ

unfoldable pub read_llm_usage : Host → Fields → Option LlmUsage
read_llm_usage H p = do
  input_tokens ← optional_int H "input_tokens" "inputTokens" p
  output_tokens ← optional_int H "output_tokens" "outputTokens" p
  total_tokens ← optional_int H "total_tokens" "totalTokens" p
  prompt_tokens ← optional_int H "prompt_tokens" "prompt_tokens" p
  completion_tokens ← optional_int H "completion_tokens" "completion_tokens" p
  some (record {
    input_tokens = input_tokens;
    output_tokens = output_tokens;
    total_tokens = total_tokens;
    prompt_tokens = prompt_tokens;
    completion_tokens = completion_tokens;
  })

pub record SynapseBillingMetadata : Type 0 where
  pub price_model : Option String
  pub hold_usdc : Option String
  pub charged_usdc : Option String
  pub released_usdc : Option String
  pub provider_revenue_usdc : Option String
  pub platform_fee_usdc : Option String
  pub pre_auth_mode : Option String

unfoldable pub read_synapse_billing_metadata : Host → Fields → Option SynapseBillingMetadata
read_synapse_billing_metadata H p = do
  price_model ← optional_text H "price_model" "priceModel" p
  hold_usdc ← optional_text H "hold_usdc" "holdUsdc" p
  charged_usdc ← optional_text H "charged_usdc" "chargedUsdc" p
  released_usdc ← optional_text H "released_usdc" "releasedUsdc" p
  provider_revenue_usdc ← optional_text H "provider_revenue_usdc" "providerRevenueUsdc" p
  platform_fee_usdc ← optional_text H "platform_fee_usdc" "platformFeeUsdc" p
  pre_auth_mode ← optional_text H "pre_auth_mode" "preAuthMode" p
  some (record {
    price_model = price_model;
    hold_usdc = hold_usdc;
    charged_usdc = charged_usdc;
    released_usdc = released_usdc;
    provider_revenue_usdc = provider_revenue_usdc;
    platform_fee_usdc = platform_fee_usdc;
    pre_auth_mode = pre_auth_mode;
  })

pub record InvocationResponse : Type 0 where
  pub invocation_id : String
  pub status : String
  pub charged_usdc : Float
  pub result : Fields
  pub usage : Option LlmUsage
  pub synapse : Option SynapseBillingMetadata
  pub error : Option InvocationError
  pub receipt : Option InvocationReceipt

unfoldable pub read_invocation_response : Host → Fields → Option InvocationResponse
read_invocation_response H p = do
  invocation_id ← text_field H "invocation_id" "invocationId" "" p
  status ← text_field H "status" "status" "PENDING" p
  charged_usdc ← float_field H "charged_usdc" "chargedUsdc" H.zero_float p
  result ← dict_field H "result" "result" p
  usage_fields ← optional_dict H "usage" "usage" p
  usage ← nested (read_llm_usage H) usage_fields
  synapse_fields ← optional_dict H "synapse" "synapse" p
  synapse ← nested (read_synapse_billing_metadata H) synapse_fields
  error_fields ← optional_dict H "error" "error" p
  error ← nested (read_invocation_error H) error_fields
  receipt_fields ← optional_dict H "receipt" "receipt" p
  receipt ← nested (read_invocation_receipt H) receipt_fields
  some (record {
    invocation_id = invocation_id;
    status = status;
    charged_usdc = charged_usdc;
    result = result;
    usage = usage;
    synapse = synapse;
    error = error;
    receipt = receipt;
  })

-- `status in {…}` of `is_terminal` and of `TERMINAL_STATUSES` in client.py, which list the same.
unfoldable pub is_terminal : InvocationResponse → Bool
is_terminal r =
    str_eq r.status "SUCCEEDED"
    || str_eq r.status "FAILED_RETRYABLE"
    || str_eq r.status "FAILED_FINAL"
    || str_eq r.status "SETTLED"

unfoldable pub succeeded : InvocationResponse → Bool
succeeded r = str_eq r.status "SUCCEEDED" || str_eq r.status "SETTLED"
