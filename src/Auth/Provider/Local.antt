-- ===== src/Auth/Provider/Local.antt =====
-- The calls of _auth_provider_control.py keep what a session's calls keep.
use synapse_network_sdk.Base.{
  String, Bool, true, false, if◌then◌else◌, refl, Option, none, some, or_else,
}
use synapse_network_sdk.Base.Int.{ℤ}
use synapse_network_sdk.Strings.{◌+++◌, truthy, strip}
use synapse_network_sdk.Strings.Prefix.{starts_with, starts_with-longer}
use synapse_network_sdk.Json.{Json, num, obj, Fields, end, field}
use synapse_network_sdk.Runtime.{Float, Action, pure, ◌>>=◌}
use synapse_network_sdk.Host.{Host, Trace, uuid}
use synapse_network_sdk.Auth.{through_history, require_value, query_path}
use synapse_network_sdk.Auth.Local.{
  IsLocal, IsLocal-bind, IsLocal-lift, Kept-refl, IsLocal-pure, IsLocal-if, IsLocal-uuid,
  IsLocal-authorized_request, IsLocal-asked, query_path-rooted,
}
use synapse_network_sdk.Auth.Finance.{limited_path}
use synapse_network_sdk.Auth.Finance.Local.{IsLocal-idempotent_request, limited_path-rooted}
use synapse_network_sdk.Auth.Credentials.{credential_options_body}
use synapse_network_sdk.Auth.ServiceId.{slug, keep_first, default_service_id}
use synapse_network_sdk.Auth.Provider.{
  Registration, ServiceValues, service_body, provider_pricing, resolved_price_model,
  llm_registration, resolved_service_id, provider_service_values, post_service,
  register_provider_service, register_llm_service, list_provider_services,
}
use synapse_network_sdk.Auth.Provider.Calls.{
  services_path, issue_provider_secret, list_provider_secrets, delete_provider_secret,
  get_registration_guide, parse_curl_to_service_manifest, service_request, update_provider_service,
  delete_provider_service, ping_provider_service, get_provider_service_health_history,
  get_provider_earnings_summary, get_provider_withdrawal_capability,
  create_provider_withdrawal_intent, list_provider_withdrawals,
}
use synapse_network_sdk.Auth.Provider.Lookup.{
  get_provider_service, status_of, get_provider_service_status,
}

module _ (H : Host) where
  IsLocal-default_service_id :
      (name : String) → IsLocal (through_history (default_service_id H name))
  unfolding default_service_id through_history uuid
  IsLocal-default_service_id name = by_slug (truthy (slug H name)) (slug H name)
    where
      made : Action Trace String
      made = do hex ← uuid H; pure ("service_" +++ keep_first 8 hex)

      by_slug : (b : Bool) (x : String) → IsLocal (through_history (if b then pure x else made))
      by_slug true x = record { keeps = Kept-refl }
      by_slug false x = record { keeps = (IsLocal-uuid H).keeps }

  IsLocal-resolved_service_id :
      (service_id : Option String) (name : String) → IsLocal (resolved_service_id H service_id name)
  unfolding resolved_service_id
  IsLocal-resolved_service_id service_id name =
      IsLocal-if (truthy (strip (or_else service_id ""))) (IsLocal-pure _)
        (IsLocal-default_service_id name)

  IsLocal-provider_service_values : (a : Registration) → IsLocal (provider_service_values H a)
  unfolding provider_service_values
  IsLocal-provider_service_values a =
      IsLocal-bind (IsLocal-lift (require_value a.service_name "service_name")) (λ name.
        IsLocal-bind (IsLocal-lift (require_value a.endpoint_url "endpoint_url")) (λ endpoint.
          IsLocal-bind
            (IsLocal-lift (require_value a.description_for_model "description_for_model"))
            (λ summary.
              IsLocal-bind (IsLocal-resolved_service_id a.service_id name) (λ id. IsLocal-pure _))))

  IsLocal-post_service :
      (a : Registration) (v : ServiceValues) (pricing : Fields)
      → IsLocal (post_service H a v pricing)
  unfolding post_service starts_with
  IsLocal-post_service a v pricing = record {
    keeps = λ s.
        (IsLocal-asked H "POST" "/api/v1/services"
            (some (obj (service_body H s.wallet_address a v pricing))) _ refl).keeps
          s;
  }

  pub IsLocal-register_provider_service :
      (a : Registration) → IsLocal (register_provider_service H a)
  unfolding register_provider_service
  IsLocal-register_provider_service a = IsLocal-bind (IsLocal-provider_service_values a) (λ v.
      IsLocal-bind (IsLocal-lift (provider_pricing H a (resolved_price_model a)))
        (IsLocal-post_service a v))

  pub IsLocal-register_llm_service : (a : Registration) → IsLocal (register_llm_service H a)
  unfolding register_llm_service
  IsLocal-register_llm_service a = IsLocal-register_provider_service (llm_registration a)

  pub IsLocal-list_provider_services : IsLocal (list_provider_services H)
  unfolding list_provider_services starts_with
  IsLocal-list_provider_services = IsLocal-asked H "GET" "/api/v1/services" none _ refl

  pub IsLocal-get_provider_service :
      (service_id : String) → IsLocal (get_provider_service H service_id)
  unfolding get_provider_service
  IsLocal-get_provider_service service_id =
      IsLocal-bind (IsLocal-lift (require_value service_id "service_id"))
        (λ id. IsLocal-bind IsLocal-list_provider_services (λ services. IsLocal-lift _))

  pub IsLocal-get_provider_service_status :
      (service_id : String) → IsLocal (get_provider_service_status H service_id)
  unfolding get_provider_service_status
  IsLocal-get_provider_service_status service_id =
      IsLocal-bind (IsLocal-get_provider_service service_id)
        (λ service. IsLocal-lift (status_of H service))

  pub IsLocal-issue_provider_secret : (options : Fields) → IsLocal (issue_provider_secret H options)
  unfolding issue_provider_secret starts_with
  IsLocal-issue_provider_secret options =
      IsLocal-asked H "POST" "/api/v1/secrets/provider/issue"
        (some (obj (credential_options_body options))) _ refl

  pub IsLocal-list_provider_secrets : IsLocal (list_provider_secrets H)
  unfolding list_provider_secrets starts_with
  IsLocal-list_provider_secrets = IsLocal-asked H "GET" "/api/v1/secrets/provider/list" none _ refl

  pub IsLocal-delete_provider_secret :
      (secret_id : String) → IsLocal (delete_provider_secret H secret_id)
  unfolding delete_provider_secret starts_with
  IsLocal-delete_provider_secret secret_id =
      IsLocal-bind (IsLocal-lift (require_value secret_id "secret_id")) (λ id.
        IsLocal-asked H "DELETE" ("/api/v1/secrets/provider/" +++ id) none _
          (starts_with-longer "/" "/api/v1/secrets/provider/" id refl))

  pub IsLocal-get_registration_guide : IsLocal (get_registration_guide H)
  unfolding get_registration_guide starts_with
  IsLocal-get_registration_guide =
      IsLocal-asked H "GET" "/api/v1/services/registration-guide" none _ refl

  pub IsLocal-parse_curl_to_service_manifest :
      (curl_command : String) → IsLocal (parse_curl_to_service_manifest H curl_command)
  unfolding parse_curl_to_service_manifest starts_with
  IsLocal-parse_curl_to_service_manifest curl_command =
      IsLocal-bind (IsLocal-lift (require_value curl_command "curl_command"))
        (λ command. IsLocal-asked H "POST" "/api/v1/services/parse-curl" _ _ refl)

  -- A path that an identifier is put in.
  IsLocal-service_request :
      (method service_record_id rest : String) (body : Option Json)
      → IsLocal (service_request H method service_record_id rest body)
  unfolding service_request starts_with
  IsLocal-service_request method service_record_id rest body =
      IsLocal-bind (IsLocal-lift (require_value service_record_id "service_record_id")) (λ id.
        IsLocal-authorized_request H method (services_path +++ id +++ rest) body
          (starts_with-longer "/" services_path (id +++ rest) refl))

  pub IsLocal-update_provider_service :
      (service_record_id : String) (patch : Option Fields)
      → IsLocal (update_provider_service H service_record_id patch)
  unfolding update_provider_service
  IsLocal-update_provider_service service_record_id patch =
      IsLocal-bind
        (IsLocal-service_request "PUT" service_record_id "" (some (obj (or_else patch end))))
        (λ p. IsLocal-lift _)

  pub IsLocal-delete_provider_service :
      (service_record_id : String) → IsLocal (delete_provider_service H service_record_id)
  unfolding delete_provider_service
  IsLocal-delete_provider_service service_record_id =
      IsLocal-bind (IsLocal-service_request "DELETE" service_record_id "" none)
        (λ p. IsLocal-lift _)

  pub IsLocal-ping_provider_service :
      (service_record_id : String) → IsLocal (ping_provider_service H service_record_id)
  unfolding ping_provider_service
  IsLocal-ping_provider_service service_record_id =
      IsLocal-bind (IsLocal-service_request "POST" service_record_id "/ping" none)
        (λ p. IsLocal-lift _)

  pub IsLocal-get_provider_service_health_history :
      (service_record_id : String) (limit : ℤ)
      → IsLocal (get_provider_service_health_history H service_record_id limit)
  unfolding get_provider_service_health_history starts_with
  IsLocal-get_provider_service_health_history service_record_id limit =
      IsLocal-bind (IsLocal-lift (require_value service_record_id "service_record_id")) (λ id.
        let path = services_path +++ id +++ "/health/history" in
        let params = field "limitPerTarget" (num (H.show_int limit)) end in
        IsLocal-asked H "GET" (query_path H path params) none _ (
          query_path-rooted H path params
            (starts_with-longer "/" services_path (id +++ "/health/history") refl)))

  pub IsLocal-get_provider_earnings_summary : IsLocal (get_provider_earnings_summary H)
  unfolding get_provider_earnings_summary starts_with
  IsLocal-get_provider_earnings_summary =
      IsLocal-asked H "GET" "/api/v1/providers/earnings/summary" none _ refl

  pub IsLocal-get_provider_withdrawal_capability : IsLocal (get_provider_withdrawal_capability H)
  unfolding get_provider_withdrawal_capability starts_with
  IsLocal-get_provider_withdrawal_capability =
      IsLocal-asked H "GET" "/api/v1/providers/withdrawals/capability" none _ refl

  pub IsLocal-create_provider_withdrawal_intent :
      (amount_usdc : Float) (idempotency_key destination_address : Option String)
      → IsLocal
          (create_provider_withdrawal_intent H amount_usdc idempotency_key destination_address)
  unfolding create_provider_withdrawal_intent starts_with
  IsLocal-create_provider_withdrawal_intent amount_usdc idempotency_key destination_address =
      IsLocal-bind
        (IsLocal-idempotent_request H "provider-withdraw-" idempotency_key
          "/api/v1/providers/withdrawals/intent" _ refl)
        (λ p. IsLocal-lift _)

  pub IsLocal-list_provider_withdrawals : (limit : ℤ) → IsLocal (list_provider_withdrawals H limit)
  unfolding list_provider_withdrawals starts_with
  IsLocal-list_provider_withdrawals limit =
      IsLocal-asked H "GET" (limited_path H "/api/v1/providers/withdrawals" limit) none _
        (limited_path-rooted H "/api/v1/providers/withdrawals" limit refl)
