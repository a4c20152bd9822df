-- ===== src/Evidence/Events.antt =====
-- `validate_events`: what the events of a log have to show.
pub mod Accepts
use synapse_network_sdk.Base.{
  String, Bool, true, false, not, ◌||◌, ◌&&◌, Option, none, some, List, [], ◌∷◌, ◌++◌, str_eq,
  if◌then◌else◌,
}
use synapse_network_sdk.Strings.{◌+++◌}
use synapse_network_sdk.Strings.Lists.{join}
use synapse_network_sdk.Json.{Json, Fields, get}
use synapse_network_sdk.Runtime.{Result, ok, err, and_then}
use synapse_network_sdk.Host.{Host}
use synapse_network_sdk.Client.Response.{json_truthy}
use synapse_network_sdk.Evidence.{Tools, languages, is_paid, compared, text_field, decimal_or_none}

-- `sorted(REQUIRED_SCENARIOS)`
abbrev pub sorted_scenarios : List String
sorted_scenarios =
    "auth-negative" ∷ "fixed-price" ∷ "health" ∷ "llm" ∷ "local-negative" ∷ "owner-provider-parity"
    ∷ []

-- `seen`, as the pairs of a language and a scenario that it holds
abbrev pub Seen : Type 0
Seen = List (String × String)

unfoldable pub is_seen : String → String → Seen → Bool
is_seen language scenario [] = false
is_seen language scenario ((l, s) ∷ seen) =
    str_eq l language && str_eq s scenario || is_seen language scenario seen

-- the scenarios of a sorted list that a language has not shown: a set less a set, sorted
unfoldable pub missing : String → Seen → List String → List String
unfolding is_seen
missing language seen [] = []
missing language seen (s ∷ scenarios) =
    let rest = missing language seen scenarios in if is_seen language s seen then rest else s ∷ rest

unfoldable pub language_error : String → List String → List String
unfolding join
language_error language [] = []
language_error language (s ∷ ss) = (language +++ " missing scenarios: " +++ join ", " (s ∷ ss)) ∷ []

-- the second loop
unfoldable pub language_errors : Seen → List String → List String
unfolding language_error missing
language_errors seen [] = []
language_errors seen (language ∷ ls) =
    language_error language (missing language seen sorted_scenarios) ++ language_errors seen ls

module _ (H : Host) (T : Tools) where
  unfoldable pub seen_of : List Fields → Seen
  unfolding text_field
  seen_of [] = []
  seen_of (e ∷ es) = (text_field H T "language" e, text_field H T "scenario" e) ∷ seen_of es

  -- the errors of a charge that is a number
  unfoldable pub bounded_charge : String → String → String → Result (List String)
  bounded_charge language max_cost charge = and_then (compared (T.at_most_zero charge)) (λ low.
      if low
      then ok ((language +++ " llm chargedUsdc must be > 0, got " +++ charge) ∷ [])
      else and_then (compared (T.exceeds charge max_cost)) (λ high.
        if high
        then ok (
            (language +++ " llm chargedUsdc " +++ charge +++ " exceeds maxCostUsdc " +++ max_cost)
            ∷ [])
        else ok []))

  unfoldable pub charge_errors : String → String → Option String → Result (List String)
  unfolding bounded_charge
  charge_errors language max_cost none =
      ok ((language +++ " llm did not emit numeric chargedUsdc") ∷ [])
  charge_errors language max_cost (some charge) = bounded_charge language max_cost charge

  unfoldable pub id_errors : String → String → Json → List String
  unfolding is_paid json_truthy
  id_errors language scenario id =
      if is_paid scenario && not (json_truthy H id)
      then (language +++ " " +++ scenario +++ " did not emit invocationId") ∷ []
      else []

  -- the errors of one event, given its language and its scenario
  unfoldable pub errors_of : String → String → Fields → String → Result (List String)
  unfolding id_errors charge_errors decimal_or_none get
  errors_of language scenario event max_cost =
      let charged =
        charge_errors language max_cost (decimal_or_none H T (get "chargedUsdc" event)) in
      let missing_id = id_errors language scenario (get "invocationId" event) in
      if str_eq scenario "llm"
      then and_then charged (λ errors. ok (missing_id ++ errors))
      else ok missing_id

  -- the first loop
  unfoldable pub event_errors : List Fields → String → Result (List String)
  unfolding errors_of text_field
  event_errors [] max_cost = ok []
  event_errors (e ∷ es) max_cost =
      and_then (errors_of (text_field H T "language" e) (text_field H T "scenario" e) e max_cost)
        (λ xs. and_then (event_errors es max_cost) (λ ys. ok (xs ++ ys)))

  unfoldable pub validate_events : List Fields → String → Result (List String)
  unfolding event_errors seen_of language_errors
  validate_events events max_cost =
      and_then (event_errors events max_cost)
        (λ errors. ok (errors ++ language_errors (seen_of events) languages))
