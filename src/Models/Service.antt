-- ===== src/Models/Service.antt =====
-- models.py: discovered services, their prices and health, and the template of a quote.
use synapse_network_sdk.Base.{String, Bool, false, ◌||◌, str_eq, Option, some, List}
use synapse_network_sdk.Base.Int.{ℤ, pos}
use synapse_network_sdk.Json.{Json, Fields}
use synapse_network_sdk.Host.{Host}
use synapse_network_sdk.Models.Readers.{
  ◌>>=◌, each, text_field, int_field, flag_field, dict_field, dicts_field, texts_field,
  optional_text, optional_int, optional_any, mode_field,
}

pub record ServicePricing : Type 0 where
  pub amount : String
  pub currency : String
  pub price_model : Option String
  pub input_price_per_1m_tokens_usdc : Option String
  pub output_price_per_1m_tokens_usdc : Option String
  pub default_max_output_tokens : Option ℤ
  pub hold_buffer_multiplier : Option Json
  pub max_auto_hold_usdc : Option String

unfoldable pub read_service_pricing : Host → Fields → Option ServicePricing
read_service_pricing H p = do
  amount ← text_field H "amount" "amount" "0" p
  currency ← text_field H "currency" "currency" "USDC" p
  price_model ← optional_text H "price_model" "priceModel" p
  input_price_per_1m_tokens_usdc ←
      optional_text H "input_price_per_1m_tokens_usdc" "inputPricePer1MTokensUsdc" p
  output_price_per_1m_tokens_usdc ←
      optional_text H "output_price_per_1m_tokens_usdc" "outputPricePer1MTokensUsdc" p
  default_max_output_tokens ← optional_int H "default_max_output_tokens" "defaultMaxOutputTokens" p
  hold_buffer_multiplier ← optional_any H "hold_buffer_multiplier" "holdBufferMultiplier" p
  max_auto_hold_usdc ← optional_text H "max_auto_hold_usdc" "maxAutoHoldUsdc" p
  some (record {
    amount = amount;
    currency = currency;
    price_model = price_model;
    input_price_per_1m_tokens_usdc = input_price_per_1m_tokens_usdc;
    output_price_per_1m_tokens_usdc = output_price_per_1m_tokens_usdc;
    default_max_output_tokens = default_max_output_tokens;
    hold_buffer_multiplier = hold_buffer_multiplier;
    max_auto_hold_usdc = max_auto_hold_usdc;
  })

pub record ServiceHealthSummary : Type 0 where
  pub overall_status : String
  pub healthy_targets : ℤ
  pub total_targets : ℤ
  pub last_checked_at : Option ℤ
  pub runtime_available : Bool

unfoldable pub read_service_health_summary : Host → Fields → Option ServiceHealthSummary
read_service_health_summary H p = do
  overall_status ← text_field H "overall_status" "overallStatus" "unknown" p
  healthy_targets ← int_field H "healthy_targets" "healthyTargets" (pos 0) p
  total_targets ← int_field H "total_targets" "totalTargets" (pos 0) p
  last_checked_at ← optional_int H "last_checked_at" "lastCheckedAt" p
  runtime_available ← flag_field H "runtime_available" "runtimeAvailable" false p
  some (record {
    overall_status = overall_status;
    healthy_targets = healthy_targets;
    total_targets = total_targets;
    last_checked_at = last_checked_at;
    runtime_available = runtime_available;
  })

pub record ServiceInvokeSpec : Type 0 where
  pub method : String
  pub targets : List Fields
  pub timeout_ms : Option ℤ
  pub request : Fields
  pub response : Fields
  pub headers_template : Fields
  pub examples : List Fields

unfoldable pub read_service_invoke_spec : Host → Fields → Option ServiceInvokeSpec
read_service_invoke_spec H p = do
  method ← text_field H "method" "method" "POST" p
  targets ← dicts_field H "targets" "targets" p
  timeout_ms ← optional_int H "timeout_ms" "timeoutMs" p
  request ← dict_field H "request" "request" p
  response ← dict_field H "response" "response" p
  headers_template ← dict_field H "headers_template" "headersTemplate" p
  examples ← dicts_field H "examples" "examples" p
  some (record {
    method = method;
    targets = targets;
    timeout_ms = timeout_ms;
    request = request;
    response = response;
    headers_template = headers_template;
    examples = examples;
  })

pub record SchemaDocument : Type 0 where
  pub body : Fields

unfoldable pub read_schema_document : Host → Fields → Option SchemaDocument
read_schema_document H p = do body ← dict_field H "body" "body" p; some (record { body = body })

pub record RuntimePayload : Type 0 where
  pub body : Fields

unfoldable pub read_runtime_payload : Host → Fields → Option RuntimePayload
read_runtime_payload H p = do body ← dict_field H "body" "body" p; some (record { body = body })

pub record QuoteInputPreview : Type 0 where
  pub content_type : String
  pub payload_schema : SchemaDocument
  pub sample : RuntimePayload

unfoldable pub read_quote_input_preview : Host → Fields → Option QuoteInputPreview
read_quote_input_preview H p = do
  content_type ← text_field H "content_type" "contentType" "application/json" p
  payload_schema_fields ← dict_field H "payload_schema" "payloadSchema" p
  payload_schema ← read_schema_document H payload_schema_fields
  sample_fields ← dict_field H "sample" "sample" p
  sample ← read_runtime_payload H sample_fields
  some (record { content_type = content_type; payload_schema = payload_schema; sample = sample })

pub record QuoteTemplate : Type 0 where
  pub service_id : String
  pub input_preview : QuoteInputPreview
  pub response_mode : String

unfoldable pub read_quote_template : Host → Fields → Option QuoteTemplate
read_quote_template H p = do
  service_id ← text_field H "service_id" "serviceId" "" p
  input_preview_fields ← dict_field H "input_preview" "inputPreview" p
  input_preview ← read_quote_input_preview H input_preview_fields
  response_mode ← mode_field H "response_mode" "responseMode" "sync" p
  some (record {
    service_id = service_id;
    input_preview = input_preview;
    response_mode = response_mode;
  })

pub record DiscoveredService : Type 0 where
  pub service_id : String
  pub service_name : String
  pub service_kind : String
  pub price_model : String
  pub pricing : ServicePricing
  pub input_price_per_1m_tokens_usdc : Option String
  pub output_price_per_1m_tokens_usdc : Option String
  pub default_max_output_tokens : Option ℤ
  pub max_auto_hold_usdc : Option String
  pub summary : String
  pub tags : List String
  pub status : String
  pub health : ServiceHealthSummary
  pub invoke : ServiceInvokeSpec
  pub quote_template : QuoteTemplate

unfoldable pub read_discovered_service : Host → Fields → Option DiscoveredService
read_discovered_service H p = do
  service_id ← text_field H "service_id" "serviceId" "" p
  service_name ← text_field H "service_name" "serviceName" "" p
  service_kind ← text_field H "service_kind" "serviceKind" "api" p
  price_model ← text_field H "price_model" "priceModel" "fixed" p
  pricing_fields ← dict_field H "pricing" "pricing" p
  pricing ← read_service_pricing H pricing_fields
  input_price_per_1m_tokens_usdc ←
      optional_text H "input_price_per_1m_tokens_usdc" "inputPricePer1MTokensUsdc" p
  output_price_per_1m_tokens_usdc ←
      optional_text H "output_price_per_1m_tokens_usdc" "outputPricePer1MTokensUsdc" p
  default_max_output_tokens ← optional_int H "default_max_output_tokens" "defaultMaxOutputTokens" p
  max_auto_hold_usdc ← optional_text H "max_auto_hold_usdc" "maxAutoHoldUsdc" p
  summary ← text_field H "summary" "summary" "" p
  tags ← texts_field H "tags" "tags" p
  status ← text_field H "status" "status" "unknown" p
  health_fields ← dict_field H "health" "health" p
  health ← read_service_health_summary H health_fields
  invoke_fields ← dict_field H "invoke" "invoke" p
  invoke ← read_service_invoke_spec H invoke_fields
  quote_template_fields ← dict_field H "quote_template" "quoteTemplate" p
  quote_template ← read_quote_template H quote_template_fields
  some (record {
    service_id = service_id;
    service_name = service_name;
    service_kind = service_kind;
    price_model = price_model;
    pricing = pricing;
    input_price_per_1m_tokens_usdc = input_price_per_1m_tokens_usdc;
    output_price_per_1m_tokens_usdc = output_price_per_1m_tokens_usdc;
    default_max_output_tokens = default_max_output_tokens;
    max_auto_hold_usdc = max_auto_hold_usdc;
    summary = summary;
    tags = tags;
    status = status;
    health = health;
    invoke = invoke;
    quote_template = quote_template;
  })

pub record DiscoveryResponse : Type 0 where
  pub request_id : String
  pub count : ℤ
  pub page : ℤ
  pub page_size : ℤ
  pub total_count : ℤ
  pub has_more : Bool
  pub results : List DiscoveredService

unfoldable pub read_discovery_response : Host → Fields → Option DiscoveryResponse
read_discovery_response H p = do
  request_id ← text_field H "request_id" "requestId" "" p
  count ← int_field H "count" "count" (pos 0) p
  page ← int_field H "page" "page" (pos 1) p
  page_size ← int_field H "page_size" "pageSize" (pos 10) p
  total_count ← int_field H "total_count" "totalCount" (pos 0) p
  has_more ← flag_field H "has_more" "hasMore" false p
  results_fields ← dicts_field H "results" "results" p
  results ← each (read_discovered_service H) results_fields
  some (record {
    request_id = request_id;
    count = count;
    page = page;
    page_size = page_size;
    total_count = total_count;
    has_more = has_more;
    results = results;
  })

-- `price_usdc`: the amount as a `Decimal`, or `None` where it is no number.
unfoldable pub price_usdc : Host → DiscoveredService → Option String
price_usdc H s = H.parse_decimal s.pricing.amount

unfoldable pub is_llm : DiscoveredService → Bool
is_llm s = str_eq s.service_kind "llm" || str_eq s.price_model "token_metered"
