-- ===== src/Auth/Provider.antt =====
-- python/synapse_client/_auth_provider_control.py, `register_provider_service` and what it is made
-- of, and the listing of services.
pub mod Checks
pub mod Calls
pub mod Lookup
pub mod Local
use synapse_network_sdk.Base.{
  String, Bool, true, false, Option, none, some, or_else, List, [], ◌∷◌, str_eq, if◌then◌else◌,
}
use synapse_network_sdk.Base.Int.{ℤ}
use synapse_network_sdk.Strings.{◌+++◌, truthy, str_or, strip}
use synapse_network_sdk.Json.{
  Json, null, bool, num, str, arr, obj, nil, cons, Fields, end, field, get, put_some, is_empty,
  dicts, texts,
}
use synapse_network_sdk.Runtime.{
  value_error, Result, ok, err, ◌>>=◌, ◌>>◌, pure, raise_if, lift_result, Action, or_invalid,
}
use synapse_network_sdk.Host.{Host}
use synapse_network_sdk.Models.Readers.{each}
use synapse_network_sdk.Models.Provider.{
  ProviderService, read_provider_service, ProviderServiceRegistrationResult,
  read_provider_service_registration_result,
}
use synapse_network_sdk.Client.Invoke.{Cost, amount, written, cost_text}
use synapse_network_sdk.Auth.{SynapseAuth, through_history, require_value, authorized_request}
use synapse_network_sdk.Auth.ServiceId.{default_service_id}

-- The arguments of `register_provider_service`.
pub record Registration : Type 0 where
  pub service_name : String
  pub endpoint_url : String
  pub base_price_usdc : Option Cost
  pub description_for_model : String
  pub service_kind : String
  pub price_model : Option String
  pub input_price_per_1m_tokens_usdc : Option Cost
  pub output_price_per_1m_tokens_usdc : Option Cost
  pub default_max_output_tokens : Option ℤ
  pub hold_buffer_multiplier : Option Cost
  pub max_auto_hold_usdc : Option Cost
  pub service_id : Option String
  pub provider_display_name : Option String
  pub payout_address : Option String
  pub chain_id : ℤ
  pub settlement_currency : String
  pub tags : Option (List String)
  pub status : String
  pub is_active : Bool
  pub input_schema : Option Fields
  pub output_schema : Option Fields
  pub endpoint_method : String
  pub health_path : String
  pub health_method : String
  pub health_timeout_ms : ℤ
  pub request_timeout_ms : ℤ
  pub governance_note : Option String

-- The four texts that `_provider_service_values` gives.
pub record ServiceValues : Type 0 where
  pub service_id : String
  pub name : String
  pub endpoint : String
  pub summary : String

-- `resolved_price_model`
unfoldable pub resolved_price_model : Registration → String
unfolding str_or
resolved_price_model a =
    str_or (or_else a.price_model "")
      (if str_eq a.service_kind "llm" then "token_metered" else "fixed")

-- the arguments that `register_llm_service` passes on
unfoldable pub llm_registration : Registration → Registration
llm_registration a = record a { service_kind = "llm"; price_model = some "token_metered" }

-- `schema or default`
unfoldable pub schema_or : Option Fields → Fields → Fields
schema_or none other = other
schema_or (some schema) other = if is_empty schema then other else schema

-- `_provider_profile`
unfoldable pub provider_profile : Option String → String → Fields
unfolding str_or strip
provider_profile display_name service_name =
    field "displayName"
      (str (str_or (strip (str_or (or_else display_name "") service_name)) service_name)) end

module _ (H : Host) where
  -- a value of `float | str` that is passed on as it is
  unfoldable pub raw_value : Cost → Json
  raw_value (amount x) = num (H.show_float x)
  raw_value (written s) = str s

  abbrev integer_value : Option ℤ → Option Json
  integer_value none = none
  integer_value (some n) = some (num (H.show_int n))

  abbrev raw_option : Option Cost → Option Json
  raw_option none = none
  raw_option (some c) = some (raw_value c)

  abbrev text_option : Option Cost → Option Json
  text_option none = none
  text_option (some c) = some (str (cost_text H c))

  -- the pricing of a token-metered service, with its two prices
  unfoldable pub metered_pricing : Registration → Cost → Cost → Fields
  unfolding put_some raw_value cost_text
  metered_pricing a input output = put_some "maxAutoHoldUsdc" (text_option a.max_auto_hold_usdc) (
      put_some "holdBufferMultiplier" (raw_option a.hold_buffer_multiplier) (
        put_some "defaultMaxOutputTokens" (integer_value a.default_max_output_tokens) (
          field "priceModel" (str "token_metered") (
            field "inputPricePer1MTokensUsdc" (str (cost_text H input)) (
              field "outputPricePer1MTokensUsdc" (str (cost_text H output))
                (field "currency" (str "USDC") end))))))

  unfoldable pub metered : Registration → Option Cost → Option Cost → Result Fields
  unfolding metered_pricing
  metered a none output = err (value_error "input_price_per_1m_tokens_usdc is required")
  metered a (some input) none = err (value_error "output_price_per_1m_tokens_usdc is required")
  metered a (some input) (some output) = ok (metered_pricing a input output)

  unfoldable pub fixed_price : Option Cost → Result Fields
  unfolding cost_text
  fixed_price none = err (value_error "base_price_usdc is required")
  fixed_price (some price) =
      ok (field "amount" (str (cost_text H price)) (field "currency" (str "USDC") end))

  -- `_provider_pricing`
  unfoldable pub provider_pricing : Registration → String → Result Fields
  unfolding metered fixed_price
  provider_pricing a price_model =
      if str_eq price_model "token_metered"
      then metered a a.input_price_per_1m_tokens_usdc a.output_price_per_1m_tokens_usdc
      else fixed_price a.base_price_usdc

  -- `_provider_invoke_config`
  unfoldable pub provider_invoke_config : Registration → String → Fields
  unfolding schema_or
  provider_invoke_config a endpoint = field "method" (str a.endpoint_method) (
      field "targets" (arr (cons (obj (field "url" (str endpoint) end)) nil)) (
        field "timeoutMs" (num (H.show_int a.request_timeout_ms)) (
          field "request"
            (obj (
              field "body"
                (obj (
                  schema_or a.input_schema (
                    field "type" (str "object")
                      (field "properties" (obj end) (field "required" (arr nil) end)))))
                end))
            (field "response"
              (obj (
                field "body"
                  (obj (
                    schema_or a.output_schema
                      (field "type" (str "object") (field "properties" (obj end) end))))
                  end))
              end))))

  -- `_provider_health_check`
  unfoldable pub provider_health_check : Registration → Fields
  provider_health_check a = field "path" (str a.health_path) (
      field "method" (str a.health_method) (
        field "timeoutMs" (num (H.show_int a.health_timeout_ms)) (
          field "successCodes" (arr (cons (num "200") nil))
            (field "healthyThreshold" (num "1") (field "unhealthyThreshold" (num "3") end)))))

  -- `_provider_payout_account`
  unfoldable pub provider_payout_account : String → Registration → Fields
  unfolding str_or strip
  provider_payout_account wallet_address a =
      field "payoutAddress"
        (str (str_or (strip (str_or (or_else a.payout_address "") wallet_address)) wallet_address))
        (field "chainId" (num (H.show_int a.chain_id))
          (field "settlementCurrency" (str a.settlement_currency) end))

  abbrev note_value : Option String → Json
  note_value none = null
  note_value (some s) = str s

  -- the body that `_provider_service_body` gives, with its pricing
  unfoldable pub service_body : String → Registration → ServiceValues → Fields → Fields
  unfolding resolved_price_model provider_invoke_config provider_health_check provider_profile
      provider_payout_account texts
  service_body wallet_address a v pricing = field "serviceId" (str v.service_id) (
      field "agentToolName" (str v.service_id) (
        field "serviceName" (str v.name) (
          field "serviceKind" (str a.service_kind) (
            field "priceModel" (str (resolved_price_model a)) (
              field "role" (str "Provider") (
                field "status" (str a.status) (
                  field "isActive" (bool a.is_active) (
                    field "pricing" (obj pricing) (
                      field "summary" (str v.summary) (
                        field "tags" (arr (texts (or_else a.tags []))) (
                          field "auth" (obj (field "type" (str "gateway_signed") end)) (
                            field "invoke" (obj (provider_invoke_config a v.endpoint)) (
                              field "healthCheck" (obj (provider_health_check a)) (
                                field "providerProfile"
                                  (obj (provider_profile a.provider_display_name v.name))
                                  (field "payoutAccount"
                                    (obj (provider_payout_account wallet_address a))
                                    (field "governance"
                                      (obj (
                                        field "termsAccepted" (bool true) (
                                          field "riskAcknowledged" (bool true)
                                            (field "note" (note_value a.governance_note) end))))
                                      end))))))))))))))))

  -- `str(service_id or "").strip() or self._default_service_id(name)`
  unfoldable pub resolved_service_id : Option String → String → Action SynapseAuth String
  unfolding strip truthy through_history default_service_id
  resolved_service_id service_id name =
      let given = strip (or_else service_id "") in
      let made = through_history (default_service_id H name) in
      if truthy given then pure given else made

  -- `_provider_service_values`
  unfoldable pub provider_service_values : Registration → Action SynapseAuth ServiceValues
  unfolding require_value resolved_service_id strip
  provider_service_values a = do
    name ← lift_result (require_value a.service_name "service_name")
    endpoint ← lift_result (require_value a.endpoint_url "endpoint_url")
    summary ← lift_result (require_value a.description_for_model "description_for_model")
    id ← resolved_service_id a.service_id name
    pure (record { service_id = id; name = name; endpoint = endpoint; summary = summary })

  -- the request of a registration, behind its pricing
  unfoldable pub post_service :
      Registration → ServiceValues → Fields → Action SynapseAuth ProviderServiceRegistrationResult
  unfolding authorized_request service_body
  post_service a v pricing s =
      (do
        payload ←
            authorized_request H "POST" "/api/v1/services"
              (some (obj (service_body s.wallet_address a v pricing)))
        lift_result (or_invalid (read_provider_service_registration_result H payload)))
        s

  unfoldable pub register_provider_service :
      Registration → Action SynapseAuth ProviderServiceRegistrationResult
  unfolding provider_service_values provider_pricing resolved_price_model post_service
  register_provider_service a = do
    v ← provider_service_values a
    pricing ← lift_result (provider_pricing a (resolved_price_model a))
    post_service a v pricing

  unfoldable pub register_llm_service :
      Registration → Action SynapseAuth ProviderServiceRegistrationResult
  unfolding register_provider_service llm_registration
  register_llm_service a = register_provider_service (llm_registration a)

  -- the services of an answer
  unfoldable pub listed_services : Fields → Result (List ProviderService)
  unfolding get dicts
  listed_services payload = elim (get "services" payload) [
    | arr vs ↦ or_invalid (each (read_provider_service H) (dicts vs))
    | other ↦ ok []
  ]

  unfoldable pub list_provider_services : Action SynapseAuth (List ProviderService)
  unfolding authorized_request listed_services
  list_provider_services = do
    payload ← authorized_request H "GET" "/api/v1/services" none
    lift_result (listed_services payload)
