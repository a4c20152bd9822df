-- ===== src/Models/Control.antt =====
-- models.py and _control_result_models.py: the answers of the provider endpoints that do not register a
-- service.
use synapse_network_sdk.Base.{String, Bool, Option, none, some, List}
use synapse_network_sdk.Base.Int.{ℤ}
use synapse_network_sdk.Json.{Json, Items, Fields}
use synapse_network_sdk.Runtime.{Float}
use synapse_network_sdk.Host.{Host, Kind}
use synapse_network_sdk.Models.Readers.{
  ◌>>=◌, nested, text_field, dict_field, dicts_field, items_field, optional_text, optional_int,
  optional_float, optional_dict, optional_any,
}
use synapse_network_sdk.Models.Provider.{ProviderService, read_provider_service}

pub record ProviderSecret : Type 0 where
  pub id : String
  pub name : Option String
  pub owner_address : String
  pub secret_key : String
  pub masked_key : String
  pub status : String
  pub rpm : Option ℤ
  pub credit_limit : Option Float
  pub reset_interval : Option String
  pub expiration : Option ℤ
  pub created_at : Option Json
  pub updated_at : Option Json
  pub revoked_at : Option Json

unfoldable pub read_provider_secret : Host → Fields → Option ProviderSecret
read_provider_secret H p = do
  id ← text_field H "id" "id" "" p
  name ← optional_text H "name" "name" p
  owner_address ← text_field H "owner_address" "ownerAddress" "" p
  secret_key ← text_field H "secret_key" "secretKey" "" p
  masked_key ← text_field H "masked_key" "maskedKey" "" p
  status ← text_field H "status" "status" "active" p
  rpm ← optional_int H "rpm" "rpm" p
  credit_limit ← optional_float H "credit_limit" "creditLimit" p
  reset_interval ← optional_text H "reset_interval" "resetInterval" p
  expiration ← optional_int H "expiration" "expiration" p
  created_at ← optional_any H "created_at" "createdAt" p
  updated_at ← optional_any H "updated_at" "updatedAt" p
  revoked_at ← optional_any H "revoked_at" "revokedAt" p
  some (record {
    id = id;
    name = name;
    owner_address = owner_address;
    secret_key = secret_key;
    masked_key = masked_key;
    status = status;
    rpm = rpm;
    credit_limit = credit_limit;
    reset_interval = reset_interval;
    expiration = expiration;
    created_at = created_at;
    updated_at = updated_at;
    revoked_at = revoked_at;
  })

pub record IssueProviderSecretResult : Type 0 where
  pub secret : ProviderSecret

pub record ProviderSecretDeleteResult : Type 0 where
  pub status : String
  pub secret_id : String

unfoldable pub read_provider_secret_delete_result :
    Host → Fields → Option ProviderSecretDeleteResult
read_provider_secret_delete_result H p = do
  status ← text_field H "status" "status" "success" p
  secret_id ← text_field H "secret_id" "secretId" "" p
  some (record { status = status; secret_id = secret_id })

pub record ProviderRegistrationGuide : Type 0 where
  pub steps : Items
  pub requirements : Fields

unfoldable pub read_provider_registration_guide : Host → Fields → Option ProviderRegistrationGuide
read_provider_registration_guide H p = do
  steps ← items_field H "steps" "steps" p
  requirements ← dict_field H "requirements" "requirements" p
  some (record { steps = steps; requirements = requirements })

pub record ServiceManifestDraft : Type 0 where
  pub data_object : Fields
  pub manifest : Fields

unfoldable pub read_service_manifest_draft : Host → Fields → Option ServiceManifestDraft
read_service_manifest_draft H p = do
  data_object ← dict_field H "data" "data" p
  manifest ← dict_field H "manifest" "manifest" p
  some (record { data_object = data_object; manifest = manifest })

pub record ProviderServiceUpdateResult : Type 0 where
  pub status : String
  pub service : Option ProviderService

unfoldable pub read_provider_service_update_result :
    Host → Fields → Option ProviderServiceUpdateResult
read_provider_service_update_result H p = do
  status ← text_field H "status" "status" "success" p
  service_fields ← optional_dict H "service" "service" p
  service ← nested (read_provider_service H) service_fields
  some (record { status = status; service = service })

pub record ProviderServiceDeleteResult : Type 0 where
  pub status : String
  pub service_id : String

unfoldable pub read_provider_service_delete_result :
    Host → Fields → Option ProviderServiceDeleteResult
read_provider_service_delete_result H p = do
  status ← text_field H "status" "status" "success" p
  service_id ← text_field H "service_id" "serviceId" "" p
  some (record { status = status; service_id = service_id })

pub record ProviderServicePingResult : Type 0 where
  pub status : String
  pub health : Fields

unfoldable pub read_provider_service_ping_result : Host → Fields → Option ProviderServicePingResult
read_provider_service_ping_result H p = do
  status ← text_field H "status" "status" "success" p
  health ← dict_field H "health" "health" p
  some (record { status = status; health = health })

pub record ProviderServiceHealthHistory : Type 0 where
  pub history : List Fields

unfoldable pub read_provider_service_health_history :
    Host → Fields → Option ProviderServiceHealthHistory
read_provider_service_health_history H p = do
  history ← dicts_field H "history" "history" p
  some (record { history = history })

pub record ProviderEarningsSummary : Type 0 where
  pub total : Option Json

unfoldable pub read_provider_earnings_summary : Host → Fields → Option ProviderEarningsSummary
read_provider_earnings_summary H p = do
  total ← optional_any H "total" "total" p
  some (record { total = total })

pub record ProviderWithdrawalCapability : Type 0 where
  pub available : Option Bool

unfoldable pub read_provider_withdrawal_capability :
    Host → Fields → Option ProviderWithdrawalCapability
read_provider_withdrawal_capability H p = do
  available ← H.read (Kind.optional Kind.flag) "available" "available" none p
  some (record { available = available })

pub record ProviderWithdrawalIntentResult : Type 0 where
  pub status : String
  pub intent_id : String
  pub amount_usdc : Option Json
  pub intent : Fields

unfoldable pub read_provider_withdrawal_intent_result :
    Host → Fields → Option ProviderWithdrawalIntentResult
read_provider_withdrawal_intent_result H p = do
  status ← text_field H "status" "status" "success" p
  intent_id ← text_field H "intent_id" "intentId" "" p
  amount_usdc ← optional_any H "amount_usdc" "amountUsdc" p
  intent ← dict_field H "intent" "intent" p
  some (record {
    status = status;
    intent_id = intent_id;
    amount_usdc = amount_usdc;
    intent = intent;
  })

pub record ProviderWithdrawalList : Type 0 where
  pub withdrawals : List Fields

unfoldable pub read_provider_withdrawal_list : Host → Fields → Option ProviderWithdrawalList
read_provider_withdrawal_list H p = do
  withdrawals ← dicts_field H "withdrawals" "withdrawals" p
  some (record { withdrawals = withdrawals })
