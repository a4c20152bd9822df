-- ===== src/Models/Provider.antt =====
-- models.py and _control_result_models.py: the answers of the provider endpoints.
use synapse_network_sdk.Base.{String, Bool, true, false, Option, some, List}
use synapse_network_sdk.Base.Int.{ℤ, pos}
use synapse_network_sdk.Json.{Json, Fields}
use synapse_network_sdk.Host.{Host}
use synapse_network_sdk.Models.Readers.{
  ◌>>=◌, nested, text_field, int_field, flag_field, dict_field, texts_field, optional_text,
  optional_int, optional_dict, optional_any,
}
use synapse_network_sdk.Models.Service.{
  ServicePricing, read_service_pricing, ServiceHealthSummary, read_service_health_summary,
  ServiceInvokeSpec, read_service_invoke_spec,
}

pub record ProviderProfile : Type 0 where
  pub display_name : String

unfoldable pub read_provider_profile : Host → Fields → Option ProviderProfile
read_provider_profile H p = do
  display_name ← text_field H "display_name" "displayName" "" p
  some (record { display_name = display_name })

pub record ProviderPayoutAccount : Type 0 where
  pub payout_address : String
  pub chain_id : ℤ
  pub settlement_currency : String
  pub status : String

unfoldable pub read_provider_payout_account : Host → Fields → Option ProviderPayoutAccount
read_provider_payout_account H p = do
  payout_address ← text_field H "payout_address" "payoutAddress" "" p
  chain_id ← int_field H "chain_id" "chainId" (pos 0) p
  settlement_currency ← text_field H "settlement_currency" "settlementCurrency" "USDC" p
  status ← text_field H "status" "status" "active" p
  some (record {
    payout_address = payout_address;
    chain_id = chain_id;
    settlement_currency = settlement_currency;
    status = status;
  })

pub record ProviderGovernance : Type 0 where
  pub terms_accepted : Bool
  pub risk_acknowledged : Bool
  pub note : Option String

unfoldable pub read_provider_governance : Host → Fields → Option ProviderGovernance
read_provider_governance H p = do
  terms_accepted ← flag_field H "terms_accepted" "termsAccepted" false p
  risk_acknowledged ← flag_field H "risk_acknowledged" "riskAcknowledged" false p
  note ← optional_text H "note" "note" p
  some (record {
    terms_accepted = terms_accepted;
    risk_acknowledged = risk_acknowledged;
    note = note;
  })

pub record ProviderService : Type 0 where
  pub id : Option String
  pub service_id : String
  pub owner_address : String
  pub service_name : String
  pub service_kind : String
  pub price_model : String
  pub summary : String
  pub status : String
  pub is_active : Bool
  pub pricing : ServicePricing
  pub input_price_per_1m_tokens_usdc : Option String
  pub output_price_per_1m_tokens_usdc : Option String
  pub default_max_output_tokens : Option ℤ
  pub max_auto_hold_usdc : Option String
  pub tags : List String
  pub role : Option String
  pub address : Option String
  pub auth : Fields
  pub provider_profile : Option ProviderProfile
  pub payout_account : Option ProviderPayoutAccount
  pub governance : Option ProviderGovernance
  pub health : ServiceHealthSummary
  pub runtime_available : Bool
  pub invoke : ServiceInvokeSpec
  pub created_at : Option Json
  pub updated_at : Option Json

unfoldable pub read_provider_service : Host → Fields → Option ProviderService
read_provider_service H p = do
  id ← optional_text H "id" "id" p
  service_id ← text_field H "service_id" "serviceId" "" p
  owner_address ← text_field H "owner_address" "ownerAddress" "" p
  service_name ← text_field H "service_name" "serviceName" "" p
  service_kind ← text_field H "service_kind" "serviceKind" "api" p
  price_model ← text_field H "price_model" "priceModel" "fixed" p
  summary ← text_field H "summary" "summary" "" p
  status ← text_field H "status" "status" "unknown" p
  is_active ← flag_field H "is_active" "isActive" true p
  pricing_fields ← dict_field H "pricing" "pricing" p
  pricing ← read_service_pricing H pricing_fields
  input_price_per_1m_tokens_usdc ←
      optional_text H "input_price_per_1m_tokens_usdc" "inputPricePer1MTokensUsdc" p
  output_price_per_1m_tokens_usdc ←
      optional_text H "output_price_per_1m_tokens_usdc" "outputPricePer1MTokensUsdc" p
  default_max_output_tokens ← optional_int H "default_max_output_tokens" "defaultMaxOutputTokens" p
  max_auto_hold_usdc ← optional_text H "max_auto_hold_usdc" "maxAutoHoldUsdc" p
  tags ← texts_field H "tags" "tags" p
  role ← optional_text H "role" "role" p
  address ← optional_text H "address" "address" p
  auth ← dict_field H "auth" "auth" p
  provider_profile_fields ← optional_dict H "provider_profile" "providerProfile" p
  provider_profile ← nested (read_provider_profile H) provider_profile_fields
  payout_account_fields ← optional_dict H "payout_account" "payoutAccount" p
  payout_account ← nested (read_provider_payout_account H) payout_account_fields
  governance_fields ← optional_dict H "governance" "governance" p
  governance ← nested (read_provider_governance H) governance_fields
  health_fields ← dict_field H "health" "health" p
  health ← read_service_health_summary H health_fields
  runtime_available ← flag_field H "runtime_available" "runtimeAvailable" false p
  invoke_fields ← dict_field H "invoke" "invoke" p
  invoke ← read_service_invoke_spec H invoke_fields
  created_at ← optional_any H "created_at" "createdAt" p
  updated_at ← optional_any H "updated_at" "updatedAt" p
  some (record {
    id = id;
    service_id = service_id;
    owner_address = owner_address;
    service_name = service_name;
    service_kind = service_kind;
    price_model = price_model;
    summary = summary;
    status = status;
    is_active = is_active;
    pricing = pricing;
    input_price_per_1m_tokens_usdc = input_price_per_1m_tokens_usdc;
    output_price_per_1m_tokens_usdc = output_price_per_1m_tokens_usdc;
    default_max_output_tokens = default_max_output_tokens;
    max_auto_hold_usdc = max_auto_hold_usdc;
    tags = tags;
    role = role;
    address = address;
    auth = auth;
    provider_profile = provider_profile;
    payout_account = payout_account;
    governance = governance;
    health = health;
    runtime_available = runtime_available;
    invoke = invoke;
    created_at = created_at;
    updated_at = updated_at;
  })

pub record ProviderServiceRegistrationResult : Type 0 where
  pub status : String
  pub service_id : String
  pub service : ProviderService

unfoldable pub read_provider_service_registration_result :
    Host → Fields → Option ProviderServiceRegistrationResult
read_provider_service_registration_result H p = do
  status ← text_field H "status" "status" "success" p
  service_id ← text_field H "service_id" "serviceId" "" p
  service_fields ← dict_field H "service" "service" p
  service ← read_provider_service H service_fields
  some (record { status = status; service_id = service_id; service = service })

pub record ProviderServiceStatus : Type 0 where
  pub service_id : String
  pub lifecycle_status : String
  pub runtime_available : Bool
  pub health : ServiceHealthSummary

unfoldable pub read_provider_service_status : Host → Fields → Option ProviderServiceStatus
read_provider_service_status H p = do
  service_id ← text_field H "service_id" "serviceId" "" p
  lifecycle_status ← text_field H "lifecycle_status" "lifecycleStatus" "unknown" p
  runtime_available ← flag_field H "runtime_available" "runtimeAvailable" false p
  health_fields ← dict_field H "health" "health" p
  health ← read_service_health_summary H health_fields
  some (record {
    service_id = service_id;
    lifecycle_status = lifecycle_status;
    runtime_available = runtime_available;
    health = health;
  })
