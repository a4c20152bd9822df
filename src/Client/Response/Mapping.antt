-- ===== src/Client/Response/Mapping.antt =====
-- Which exception a response becomes.
use synapse_network_sdk.Base.{
  String, true, false, ◌||◌, ◌≡◌, refl, ◌≢◌, ◌↔◌, ◌⊎◌, Option, none, some, arith, str_eq,
}
use mathlib.Core.Path.{subst}
use synapse_network_sdk.Json.{Json, Fields, get}
use synapse_network_sdk.Runtime.{
  Float, Error, authentication, price_mismatch, Result, ok, err, stalled, ErrorClass, is_instance,
  message_of, and_then,
}
use synapse_network_sdk.Host.{Host, Response}
use synapse_network_sdk.Client.Response.{
  float_of, float_or_zero, mismatch_prices, mismatch_detail, response_payload, error_code,
  error_message, payment_error, price_mismatch_error, raise_for_error,
}

module _ (H : Host) (r : Response) (default_error : Error) where
  -- The response refuses a price.
  abbrev pub IsMismatch : Type 0
  IsMismatch = (r.status_code ≡ 422) × (str_eq (error_code H r) "PRICE_MISMATCH" ≡ true)

  -- No exception for a good response; for a bad one an exception of the SDK, or whatever the
  -- reading of a price mismatch raises.
  abbrev pub Classified : Result (Unit {0}) → Type 0
  Classified (ok _) = r.is_ok ≡ true
  Classified (err e) =
      (r.is_ok ≡ false)
      × ((is_instance e ErrorClass.client_error ≡ true)
          ⊎ (IsMismatch
              × (price_mismatch_error H r (error_message H r (message_of default_error)) ≡ err e)))
  Classified stalled = ⊥

  -- The reading of a price mismatch ends, and gives an exception of the SDK if it gives one.
  abbrev IsSdkError : Result Error → Type 0
  IsSdkError (ok e) = is_instance e ErrorClass.client_error ≡ true
  IsSdkError (err _) = Unit
  IsSdkError stalled = ⊥

  two_prices-IsSdkError :
      (m : String) (x y : Result Float)
      → x ≢ stalled
      → y ≢ stalled
      → IsSdkError (and_then x (λ p. and_then y (λ q. ok (price_mismatch m p q))))
  unfolding is_instance
  two_prices-IsSdkError m (ok p) (ok q) h k = refl
  two_prices-IsSdkError m (ok p) (err e) h k = tt
  two_prices-IsSdkError m (ok p) stalled h k = k refl
  two_prices-IsSdkError m (err e) y h k = tt
  two_prices-IsSdkError m stalled y h k = h refl

  float_or_zero-ne-stalled : (v : Json) → float_or_zero H v ≢ stalled
  unfolding float_or_zero float_of
  float_or_zero-ne-stalled v = ground arith

  mismatch_prices-IsSdkError :
      (detail : Option Fields) (m : String) → IsSdkError (mismatch_prices H detail m)
  unfolding mismatch_prices is_instance
  mismatch_prices-IsSdkError none m = refl
  mismatch_prices-IsSdkError (some d) m =
      two_prices-IsSdkError m (float_or_zero H (get "expectedPriceUsdc" d))
        (float_or_zero H (get "currentPriceUsdc" d))
        (float_or_zero-ne-stalled (get "expectedPriceUsdc" d))
        (float_or_zero-ne-stalled (get "currentPriceUsdc" d))

  price_mismatch_error-IsSdkError : (m : String) → IsSdkError (price_mismatch_error H r m)
  unfolding price_mismatch_error
  price_mismatch_error-IsSdkError m =
      mismatch_prices-IsSdkError (mismatch_detail H (get "detail" (response_payload H r))) m

  payment_error_lem :
      (code m : String) → is_instance (payment_error code m) ErrorClass.client_error ≡ true
  unfolding payment_error is_instance
  payment_error_lem code m = ground arith

  -- raise_for_error returns exactly on good responses; what it raises on a bad one is an exception
  -- of the SDK, unless a price mismatch carries a price that cannot be read.
  pub raise_for_error-Classified : Classified (raise_for_error H r default_error)
  unfolding raise_for_error is_instance
  raise_for_error-Classified =
      let m = error_message H r (message_of default_error) in
      ground (arith, payment_error_lem (error_code H r) m, price_mismatch_error-IsSdkError m)

  pub raise_for_error-ne-stalled : raise_for_error H r default_error ≢ stalled
  raise_for_error-ne-stalled h = subst Classified h raise_for_error-Classified

  -- An AuthenticationError is raised exactly for a bad response of status 401, and no other status
  -- or body leads to one.
  raise_for_error-authentication_iff :
      (m : String)
      → (raise_for_error H r default_error ≡ err (authentication m)) ↔ (
          (r.is_ok ≡ false)
          × (r.status_code ≡ 401)
          × (error_message H r (message_of default_error) ≡ m))
  unfolding raise_for_error payment_error price_mismatch_error mismatch_prices
  raise_for_error-authentication_iff m = ground arith

  -- A bad response of status 402 raises a BudgetExceededError, which is an InsufficientFundsError
  -- exactly for the codes BUDGET_EXHAUSTED and CREDENTIAL_CREDIT_LIMIT_EXCEEDED; it carries the
  -- response's message.
  pub raise_for_error_payment :
      r.is_ok ≡ false
      → r.status_code ≡ 402
      → (e : Error) × (raise_for_error H r default_error ≡ err e)
        × (is_instance e ErrorClass.budget_exceeded ≡ true)
        × (is_instance e ErrorClass.insufficient_funds ≡ (
            str_eq (error_code H r) "BUDGET_EXHAUSTED"
            || str_eq (error_code H r) "CREDENTIAL_CREDIT_LIMIT_EXCEEDED"))
        × (message_of e ≡ error_message H r (message_of default_error))
  unfolding raise_for_error payment_error is_instance message_of
  raise_for_error_payment bad status = (
    payment_error (error_code H r) (error_message H r (message_of default_error)),
    ground arith,
    ground arith,
    ground arith,
    ground arith,
  )
