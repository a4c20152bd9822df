-- ===== src/Client/Response/Prices.antt =====
-- The prices of a price mismatch.
use synapse_network_sdk.Base.{String, true, false, ◌≡◌, refl, eq_iff, ◌∙◌, none, some, arith}
use synapse_network_sdk.Strings.{truthy}
use synapse_network_sdk.Json.{Json, null, num, str, obj, Fields, end, field, get}
use synapse_network_sdk.Runtime.{
  Float, Error, price_mismatch, value_error, ok, err, message_of, ErrorClass, is_instance,
}
use synapse_network_sdk.Host.{Host, Response}
use synapse_network_sdk.Client.Response.{
  json_truthy, str_of, str_or_else, float_of, float_or_zero, response_payload, error_code,
  detail_code, error_message, mismatch_prices, mismatch_detail, price_mismatch_error, raise_result,
  raise_for_error,
}

-- A bad response of status 422 that carries this detail, which has the code PRICE_MISMATCH.
pub record IsMismatchWith (H : Host) (r : Response) (d : Fields) : Type 0 where
  pub bad : r.is_ok ≡ false
  pub status : r.status_code ≡ 422
  pub detail : get "detail" (response_payload H r) ≡ obj d
  pub code : get "code" d ≡ str "PRICE_MISMATCH"

-- The number that a price of the detail stands for: a number or the text of a number stands for
-- itself; where there is no price, which is a missing key, null or an empty text, it is 0.0.
pub data IsPrice (H : Host) : Json → Float → Type 0 where
  absent : IsPrice H null H.zero_float
  blank : IsPrice H (str "") H.zero_float
  zero : (n : String) → H.is_zero (H.literal n) ≡ true → IsPrice H (num n) H.zero_float
  number : (n : String) → H.is_zero (H.literal n) ≡ false → IsPrice H (num n) (H.literal n)
  text : (s : String) (x : Float) → truthy s ≡ true → H.parse_float s ≡ some x → IsPrice H (str s) x

float_or_zero-IsPrice : (H : Host) (v : Json) (x : Float) → IsPrice H v x → float_or_zero H v ≡ ok x
unfolding float_or_zero float_of json_truthy truthy
float_or_zero-IsPrice H _ _ absent = refl
float_or_zero-IsPrice H _ _ blank = refl
float_or_zero-IsPrice H _ _ (zero n h) = rw h refl
float_or_zero-IsPrice H _ _ (number n h) = rw h refl
float_or_zero-IsPrice H _ _ (text s x given readable) = ground arith

module _ (H : Host) (r : Response) (d : Fields) (is_mismatch : IsMismatchWith H r d) where
  code_lem : error_code H r ≡ "PRICE_MISMATCH"
  unfolding error_code detail_code str_or_else json_truthy str_of truthy
  code_lem = rw is_mismatch.detail (rw is_mismatch.code)

  mismatch_detail_lem : (e : Fields) → mismatch_detail H (obj e) ≡ some e
  unfolding mismatch_detail
  mismatch_detail_lem end = refl
  mismatch_detail_lem (field k v e) = refl

  price_mismatch_error_lem :
      (m : String) → price_mismatch_error H r m ≡ mismatch_prices H (some d) m
  unfolding price_mismatch_error
  price_mismatch_error_lem m = rw is_mismatch.detail (rw mismatch_detail_lem)

  -- What is raised is what the reading of the prices gives.
  raised :
      (default_error : Error)
      → raise_for_error H r default_error
        ≡ raise_result (mismatch_prices H (some d) (error_message H r (message_of default_error)))
  unfolding raise_for_error
  raised default_error =
      let m = error_message H r (message_of default_error) in
      ground (
        arith,
        is_mismatch.bad,
        is_mismatch.status,
        code_lem,
        eq_iff (error_code H r) "PRICE_MISMATCH",
        price_mismatch_error_lem m,
      )

  -- A price mismatch each of whose prices is a number, the text of a number, or not there, which
  -- counts as 0.0, raises a PriceMismatchError with those two numbers and the response's message.
  pub raise_for_error_prices :
      (default_error : Error) (expected current : Float)
      → IsPrice H (get "expectedPriceUsdc" d) expected
      → IsPrice H (get "currentPriceUsdc" d) current
      → raise_for_error H r default_error
        ≡ err (price_mismatch (error_message H r (message_of default_error)) expected current)
  unfolding mismatch_prices
  raise_for_error_prices default_error expected current x y =
      raised default_error
      ∙ (rw (float_or_zero-IsPrice H (get "expectedPriceUsdc" d) expected x)
          (rw (float_or_zero-IsPrice H (get "currentPriceUsdc" d) current y) refl))

  unreadable_lem :
      (s : String)
      → truthy s ≡ true
      → H.parse_float s ≡ none
      → float_or_zero H (str s) ≡ err (value_error "could not convert string to float")
  unfolding float_or_zero float_of json_truthy
  unreadable_lem s nonempty unreadable = ground arith

  -- Where the expected price of a price mismatch is a text that is no number, what is raised is not
  -- an exception of the SDK, so no handler for PriceMismatchError or SynapseClientError sees it.
  pub raise_for_error_unreadable :
      (default_error : Error) (s : String)
      → get "expectedPriceUsdc" d ≡ str s
      → truthy s ≡ true
      → H.parse_float s ≡ none
      → (e : Error) × (raise_for_error H r default_error ≡ err e)
        × (is_instance e ErrorClass.client_error ≡ false)
  unfolding mismatch_prices is_instance
  raise_for_error_unreadable default_error s given nonempty unreadable = (
    value_error "could not convert string to float",
    raised default_error ∙ rw given (rw (unreadable_lem s nonempty unreadable)),
    refl,
  )
