-- ===== src/Client/Response.antt =====
-- client.py, `_response_payload` to `_price_mismatch_error`: a response becomes its JSON object, or
-- one of the SDK's exceptions.
pub mod Mapping
pub mod Prices
use synapse_network_sdk.Base.{
  String, Bool, true, false, not, ◌&&◌, ◌||◌, ◌==◌, Option, none, some, str_eq, if◌then◌else◌,
}
use synapse_network_sdk.Strings.{truthy, str_or, strip}
use synapse_network_sdk.Json.{
  Json, null, bool, num, str, arr, obj, Fields, end, get, is_empty, is_nil, dict_or_empty, as_dict,
}
use synapse_network_sdk.Runtime.{
  Float, Error, budget_exceeded, discovery, invoke, insufficient_funds, authentication,
  price_mismatch, value_error, type_error, Result, ok, err, and_then, ErrorClass, is_instance,
  message_of,
}
use synapse_network_sdk.Host.{Host, Response}

-- `_payment_error`
unfoldable pub payment_error : String → String → Error
payment_error code message =
    if str_eq code "BUDGET_EXHAUSTED" || str_eq code "CREDENTIAL_CREDIT_LIMIT_EXCEEDED"
    then insufficient_funds message
    else budget_exceeded message

-- `raise` of an exception that is computed first
abbrev pub raise_result : Result Error → Result (Unit {0})
raise_result e = and_then e err

module _ (H : Host) where
  -- `bool(v)`
  unfoldable pub json_truthy : Json → Bool
  unfolding truthy
  json_truthy null = false
  json_truthy (bool b) = b
  json_truthy (num n) = not (H.is_zero (H.literal n))
  json_truthy (str s) = truthy s
  json_truthy (arr vs) = not (is_nil vs)
  json_truthy (obj d) = not (is_empty d)

  -- `str(v)`
  unfoldable pub str_of : Json → String
  str_of null = "None"
  str_of (bool true) = "True"
  str_of (bool false) = "False"
  str_of (num n) = H.show_json (num n)
  str_of (str s) = s
  str_of (arr vs) = H.show_json (arr vs)
  str_of (obj d) = H.show_json (obj d)

  -- `str(v or other)`
  unfoldable pub str_or_else : Json → String → String
  unfolding json_truthy str_of
  str_or_else v other = if json_truthy v then str_of v else other

  -- `float(v)`
  unfoldable pub float_of : Json → Result Float
  float_of null = err (type_error "float() argument must be a string or a real number")
  float_of (bool true) = ok (H.literal "1")
  float_of (bool false) = ok (H.literal "0")
  float_of (num n) = ok (H.literal n)
  float_of (str s) = elim (H.parse_float s) [
    | none ↦ err (value_error "could not convert string to float")
    | some x ↦ ok x
  ]
  float_of (arr _) = err (type_error "float() argument must be a string or a real number")
  float_of (obj _) = err (type_error "float() argument must be a string or a real number")

  -- `float(v or 0)`
  unfoldable pub float_or_zero : Json → Result Float
  unfolding json_truthy float_of
  float_or_zero v = if json_truthy v then float_of v else ok H.zero_float

  -- `_response_payload`
  unfoldable pub response_payload : Response → Fields
  response_payload r = elim r.json [ none ↦ end | some v ↦ dict_or_empty v ]

  -- the part of `_error_message` and `_error_code` behind `payload.get("detail")`
  unfoldable pub detail_message : Json → String → String → String
  unfolding str_or_else strip truthy str_or get
  detail_message (obj d) body_text fallback =
      str_or_else (get "message" d) (str_or_else (get "code" d) fallback)
  detail_message (str s) body_text fallback =
      if truthy (strip s) then strip s else str_or (strip body_text) fallback
  detail_message null body_text fallback = str_or (strip body_text) fallback
  detail_message (bool _) body_text fallback = str_or (strip body_text) fallback
  detail_message (num _) body_text fallback = str_or (strip body_text) fallback
  detail_message (arr _) body_text fallback = str_or (strip body_text) fallback

  -- `_error_message`
  unfoldable pub error_message : Response → String → String
  error_message r fallback = detail_message (get "detail" (response_payload r)) r.text fallback

  unfoldable pub detail_code : Option Fields → String
  unfolding str_or_else get
  detail_code none = ""
  detail_code (some d) = str_or_else (get "code" d) ""

  -- `_error_code`
  unfoldable pub error_code : Response → String
  error_code r = detail_code (as_dict (get "detail" (response_payload r)))

  -- `_price_mismatch_error`, which raises where a price is no number
  unfoldable pub mismatch_prices : Option Fields → String → Result Error
  unfolding float_or_zero get
  mismatch_prices none message = ok (price_mismatch message H.zero_float H.zero_float)
  mismatch_prices (some d) message =
      and_then (float_or_zero (get "expectedPriceUsdc" d)) (λ expected.
        and_then (float_or_zero (get "currentPriceUsdc" d))
          (λ current. ok (price_mismatch message expected current)))

  -- `payload.get("detail") or {}`, if it is a dictionary
  unfoldable pub mismatch_detail : Json → Option Fields
  unfolding json_truthy
  mismatch_detail detail = if json_truthy detail then as_dict detail else some end

  unfoldable pub price_mismatch_error : Response → String → Result Error
  price_mismatch_error r message =
      mismatch_prices (mismatch_detail (get "detail" (response_payload r))) message

  -- `_raise_for_error`
  unfoldable pub raise_for_error : Response → Error → Result (Unit {0})
  raise_for_error r default_error =
      let code = error_code r in
      let message = error_message r (message_of default_error) in
      if r.is_ok
      then ok tt
      else if r.status_code == 401
      then err (authentication message)
      else if r.status_code == 402
      then err (payment_error code message)
      else if r.status_code == 422 && str_eq code "PRICE_MISMATCH"
      then raise_result (price_mismatch_error r message)
      else if is_instance default_error ErrorClass.discovery
      then err (discovery message)
      else err (invoke message)
