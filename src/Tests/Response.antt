-- ===== src/Tests/Response.antt =====
-- Responses of the small world.
use synapse_network_sdk.Base.{◌≡◌, refl, ◌||◌, false, true, none, some, str_eq}
use synapse_network_sdk.Strings.{truthy}
use synapse_network_sdk.Json.{str, obj, Fields, end, field, get}
use synapse_network_sdk.Runtime.{
  Error, ErrorClass, invoke, insufficient_funds, price_mismatch, err, is_instance, message_of,
}
use synapse_network_sdk.Host.{Response}
use synapse_network_sdk.Client.Response.{
  raise_for_error, error_code, error_message, response_payload, detail_code, detail_message,
  payment_error, str_or_else,
}
use synapse_network_sdk.Client.Response.Mapping.{
  Classified, raise_for_error-Classified, raise_for_error_payment,
}
use synapse_network_sdk.Client.Response.Prices.{
  text, IsMismatchWith, raise_for_error_prices, raise_for_error_unreadable,
}
use synapse_network_sdk.Tests.World.{world, mismatch}

abbrev failure : Error
failure = invoke "service invocation failed"

abbrev exhausted : Response
exhausted = record {
  status_code = 402;
  is_ok = false;
  json = some (
      obj (
        field "detail"
          (obj (
            field "code" (str "BUDGET_EXHAUSTED")
              (field "message" (str "Budget is exhausted.") end)))
          end));
  text = "";
}

exhausted_raises :
    raise_for_error world exhausted failure ≡ err (insufficient_funds "Budget is exhausted.")
unfolding raise_for_error error_code error_message detail_code detail_message payment_error get
    response_payload message_of str_or_else
exhausted_raises = refl

raise_for_error-Classified_example :
    Classified world exhausted failure (raise_for_error world exhausted failure)
raise_for_error-Classified_example = raise_for_error-Classified world exhausted failure

abbrev unauthorized : Response
unauthorized = record { status_code = 401; is_ok = false; json = none; text = "bad key" }

raise_for_error_payment_example :
    (e : Error) × (raise_for_error world exhausted failure ≡ err e)
    × (is_instance e ErrorClass.budget_exceeded ≡ true)
    × (is_instance e ErrorClass.insufficient_funds ≡ (
        str_eq (error_code world exhausted) "BUDGET_EXHAUSTED"
        || str_eq (error_code world exhausted) "CREDENTIAL_CREDIT_LIMIT_EXCEEDED"))
    × (message_of e ≡ error_message world exhausted (message_of failure))
raise_for_error_payment_example = raise_for_error_payment world exhausted failure refl refl

abbrev changed : Response
changed = record {
  status_code = 422;
  is_ok = false;
  json = some (obj (field "detail" (obj mismatch) end));
  text = "";
}

changed-IsMismatchWith : IsMismatchWith world changed mismatch
unfolding get response_payload
changed-IsMismatchWith = record { bad = refl; status = refl; detail = refl; code = refl }

raise_for_error_prices_example :
    raise_for_error world changed failure
    ≡ err (price_mismatch (error_message world changed (message_of failure)) 10000 12000)
unfolding get truthy
raise_for_error_prices_example =
    raise_for_error_prices world changed mismatch changed-IsMismatchWith failure 10000 12000
      (text "0.01" 10000 refl refl) (text "0.012" 12000 refl refl)

abbrev unreadable : Fields
unreadable = field "code" (str "PRICE_MISMATCH") (field "expectedPriceUsdc" (str "about 0.01") end)

abbrev vague : Response
vague = record {
  status_code = 422;
  is_ok = false;
  json = some (obj (field "detail" (obj unreadable) end));
  text = "";
}

vague-IsMismatchWith : IsMismatchWith world vague unreadable
unfolding get response_payload
vague-IsMismatchWith = record { bad = refl; status = refl; detail = refl; code = refl }

raise_for_error_unreadable_example :
    (e : Error) × (raise_for_error world vague failure ≡ err e)
    × (is_instance e ErrorClass.client_error ≡ false)
unfolding get truthy
raise_for_error_unreadable_example =
    raise_for_error_unreadable world vague unreadable vague-IsMismatchWith failure "about 0.01" refl
      refl refl
