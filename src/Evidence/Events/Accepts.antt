-- ===== src/Evidence/Events/Accepts.antt =====
-- What it means that `validate_events` finds nothing.
use synapse_network_sdk.Base.{
  String, Bool, true, false, not, ◌≡◌, refl, inl, inr, ◌↔◌, ◌&&◌, Option, none, some, List, [], ◌∷◌,
  ◌++◌, str_eq, eq_iff, if◌then◌else◌, All, Any,
}
use synapse_network_sdk.Strings.{◌+++◌}
use synapse_network_sdk.Json.{Json, Fields, get}
use synapse_network_sdk.Runtime.{ok, and_then}
use synapse_network_sdk.Host.{Host}
use synapse_network_sdk.Client.Response.{json_truthy}
use synapse_network_sdk.Evidence.{
  Tools, languages, required_scenarios, is_paid, compared, text_field, decimal_or_none,
}
use synapse_network_sdk.Evidence.Results.{each_iff, or_iff, and_iff, concat-nil_iff, more-nil_iff}
use synapse_network_sdk.Evidence.Events.{
  sorted_scenarios, Seen, is_seen, missing, language_error, language_errors, seen_of,
  bounded_charge, charge_errors, id_errors, errors_of, event_errors, validate_events,
}

missing-nil_iff :
    (language : String) (seen : Seen) (scenarios : List String)
    → (missing language seen scenarios ≡ []) ↔ All (λ s. is_seen language s seen ≡ true) scenarios
unfolding missing
missing-nil_iff language seen [] = (λ h. tt, λ h. refl)
missing-nil_iff language seen (s ∷ scenarios) =
    by_seen (is_seen language s seen) (missing language seen scenarios) refl
      (missing-nil_iff language seen scenarios)
  where
    by_seen :
        (b : Bool) (rest : List String)
        → is_seen language s seen ≡ b
        → ((rest ≡ []) ↔ All (λ s. is_seen language s seen ≡ true) scenarios)
        → ((if b then rest else s ∷ rest) ≡ [])
          ↔ All (λ s. is_seen language s seen ≡ true) (s ∷ scenarios)
    by_seen true rest e w = (λ h. (e, w.0 h), λ h. w.1 h.1)
    by_seen false rest e w = (λ h. cc, λ h. cc)

language_error-nil_iff :
    (language : String) (ms rest : List String)
    → (language_error language ms ++ rest ≡ []) ↔ ((ms ≡ []) × (rest ≡ []))
unfolding language_error
language_error-nil_iff language [] rest = (λ h. (refl, h), λ h. h.1)
language_error-nil_iff language (m ∷ ms) rest = (λ h. cc, λ h. cc)

language_errors-nil_iff :
    (seen : Seen) (ls : List String)
    → (language_errors seen ls ≡ []) ↔ All (λ l. missing l seen sorted_scenarios ≡ []) ls
unfolding language_errors
language_errors-nil_iff seen [] = (λ h. tt, λ h. refl)
language_errors-nil_iff seen (l ∷ ls) =
    let w = language_error-nil_iff l (missing l seen sorted_scenarios) (language_errors seen ls) in
    let v = language_errors-nil_iff seen ls in
    (λ h. let k = w.0 h in (k.0, v.0 k.1), λ h. w.1 (h.0, v.1 h.1))

module _ (H : Host) (T : Tools) where
  -- A charge is a number above zero and not above the maximum.
  abbrev pub ChargeAccepted : Json → String → Type 0
  ChargeAccepted v max_cost =
      (charge : String) × (decimal_or_none H T v ≡ some charge)
      × (T.at_most_zero charge ≡ some false)
      × (T.exceeds charge max_cost ≡ some false)

  -- A paid call names its invocation, and that of a language model is charged as it may be.
  abbrev pub EventAccepted : String → Fields → Type 0
  EventAccepted max_cost e =
      (is_paid (text_field H T "scenario" e) ≡ true → json_truthy H (get "invocationId" e) ≡ true)
      × (text_field H T "scenario" e ≡ "llm" → ChargeAccepted (get "chargedUsdc" e) max_cost)

  -- Some event shows the scenario in the language.
  abbrev pub Shown : List Fields → String → String → Type 0
  Shown es language scenario =
      Any (λ e. (text_field H T "language" e ≡ language) × (text_field H T "scenario" e ≡ scenario))
        es

  is_seen_iff :
      (es : List Fields) (l s : String) → (is_seen l s (seen_of H T es) ≡ true) ↔ Shown es l s
  unfolding is_seen seen_of
  is_seen_iff [] l s = (λ h. cc, λ h. absurd h)
  is_seen_iff (e ∷ es) l s =
      let le = text_field H T "language" e in
      let se = text_field H T "scenario" e in
      (
        λ h. elim ((or_iff (str_eq le l && str_eq se s) (is_seen l s (seen_of H T es))).0 h) [
          | inl here ↦
              let k = (and_iff (str_eq le l) (str_eq se s)).0 here in
              inl ((eq_iff le l).0 k.0, (eq_iff se s).0 k.1)
          | inr there ↦ inr ((is_seen_iff es l s).0 there)
        ],
        λ h. (or_iff (str_eq le l && str_eq se s) (is_seen l s (seen_of H T es))).1 (elim h [
          | inl here ↦ inl (
              (and_iff (str_eq le l) (str_eq se s)).1
                ((eq_iff le l).1 here.0, (eq_iff se s).1 here.1))
          | inr there ↦ inr ((is_seen_iff es l s).1 there)
        ]),
      )

  bounded_charge-nil_iff :
      (language max_cost charge : String)
      → (bounded_charge H T language max_cost charge ≡ ok [])
        ↔ ((T.at_most_zero charge ≡ some false) × (T.exceeds charge max_cost ≡ some false))
  unfolding bounded_charge
  bounded_charge-nil_iff language max_cost charge =
      by_tests (T.at_most_zero charge) (T.exceeds charge max_cost)
    where
      by_tests :
          (low high : Option Bool)
          → (and_then (compared low) (λ low.
                if low
                then ok ((language +++ " llm chargedUsdc must be > 0, got " +++ charge) ∷ [])
                else and_then (compared high) (λ high.
                  if high
                  then ok (
                      (language +++ " llm chargedUsdc " +++ charge +++ " exceeds maxCostUsdc "
                        +++ max_cost)
                      ∷ [])
                  else ok []))
              ≡ ok [])
            ↔ ((low ≡ some false) × (high ≡ some false))
      by_tests none high = (λ h. cc, λ h. cc)
      by_tests (some true) high = (λ h. cc, λ h. cc)
      by_tests (some false) none = (λ h. cc, λ h. cc)
      by_tests (some false) (some true) = (λ h. cc, λ h. cc)
      by_tests (some false) (some false) = (λ h. (refl, refl), λ h. refl)

  charge_errors-nil_iff :
      (language max_cost : String) (o : Option String)
      → (charge_errors H T language max_cost o ≡ ok []) ↔ (
          (charge : String) × (o ≡ some charge)
          × (T.at_most_zero charge ≡ some false)
          × (T.exceeds charge max_cost ≡ some false))
  unfolding charge_errors
  charge_errors-nil_iff language max_cost none = (λ h. cc, λ (c, e, k, l). cc)
  charge_errors-nil_iff language max_cost (some charge) =
      let w = bounded_charge-nil_iff language max_cost charge in
      (λ h. let k = w.0 h in (charge, refl, k.0, k.1), λ (c, e, k, l). w.1 (cc, cc))

  id_errors-nil_iff :
      (language scenario : String) (id : Json)
      → (id_errors H T language scenario id ≡ [])
        ↔ (is_paid scenario ≡ true → json_truthy H id ≡ true)
  unfolding id_errors
  id_errors-nil_iff language scenario id = by_tests (is_paid scenario) (json_truthy H id)
    where
      by_tests :
          (paid given : Bool)
          → ((if paid && not given
                then (language +++ " " +++ scenario +++ " did not emit invocationId") ∷ []
                else [])
              ≡ [])
            ↔ (paid ≡ true → given ≡ true)
      by_tests true true = (λ h _. refl, λ h. refl)
      by_tests true false = (λ h. cc, λ h. let k = h refl in cc)
      by_tests false given = (λ h e. cc, λ h. refl)

  errors_of-nil_iff :
      (max_cost : String) (e : Fields)
      → (errors_of H T (text_field H T "language" e) (text_field H T "scenario" e) e max_cost
          ≡ ok [])
        ↔ EventAccepted max_cost e
  unfolding errors_of
  errors_of-nil_iff max_cost e =
      let language = text_field H T "language" e in
      let scenario = text_field H T "scenario" e in
      let charge = decimal_or_none H T (get "chargedUsdc" e) in
      let first = id_errors H T language scenario (get "invocationId" e) in
      let w =
        more-nil_iff (str_eq scenario "llm") first (charge_errors H T language max_cost charge) in
      let i = id_errors-nil_iff language scenario (get "invocationId" e) in
      let c = charge_errors-nil_iff language max_cost charge in
      let is_llm = eq_iff scenario "llm" in
      (
        λ h. let k = w.0 h in (i.0 k.0, λ l. c.0 (k.1 (is_llm.1 l))),
        λ h. w.1 (i.1 h.0, λ l. c.1 (h.1 (is_llm.0 l))),
      )

  event_errors-nil_iff :
      (es : List Fields) (max_cost : String)
      → (event_errors H T es max_cost ≡ ok []) ↔ All (EventAccepted max_cost) es
  unfolding event_errors
  event_errors-nil_iff [] max_cost = (λ h. tt, λ h. refl)
  event_errors-nil_iff (e ∷ es) max_cost =
      let here =
        errors_of H T (text_field H T "language" e) (text_field H T "scenario" e) e max_cost in
      let w = concat-nil_iff here (event_errors H T es max_cost) in
      let a = errors_of-nil_iff max_cost e in
      let v = event_errors-nil_iff es max_cost in
      (λ h. let k = w.0 h in (a.0 k.0, v.0 k.1), λ h. w.1 (a.1 h.0, v.1 h.1))

  -- Each language has shown each of the scenarios that are required of it.
  abbrev pub Complete : List Fields → Type 0
  Complete es = All (λ language. All (Shown es language) required_scenarios) languages

  missing-Shown_iff :
      (es : List Fields) (l : String)
      → (missing l (seen_of H T es) sorted_scenarios ≡ []) ↔ All (Shown es l) required_scenarios
  missing-Shown_iff es l =
      let w = missing-nil_iff l (seen_of H T es) sorted_scenarios in
      let v = is_seen_iff es l in
      (
        λ h.
            let (a, (f, (he, (ll, (ln, (o, u)))))) = w.0 h in
            (
              (v "owner-provider-parity").0 o,
              (
                (v "health").0 he,
                (
                  (v "fixed-price").0 f,
                  ((v "llm").0 ll, ((v "local-negative").0 ln, ((v "auth-negative").0 a, tt))),
                ),
              ),
            ),
        λ h.
            let (o, (he, (f, (ll, (ln, (a, u)))))) = h in
            w.1 (
              (v "auth-negative").1 a,
              (
                (v "fixed-price").1 f,
                (
                  (v "health").1 he,
                  (
                    (v "llm").1 ll,
                    ((v "local-negative").1 ln, ((v "owner-provider-parity").1 o, tt)),
                  ),
                ),
              ),
            ),
      )

  language_errors-Complete :
      (es : List Fields) → (language_errors (seen_of H T es) languages ≡ []) ↔ Complete es
  language_errors-Complete es =
      let w = language_errors-nil_iff (seen_of H T es) languages in
      let v = each_iff languages (missing-Shown_iff es) in (λ h. v.0 (w.0 h), λ h. w.1 (v.1 h))

  -- The check of the events returns and finds nothing exactly when every event is accepted (a paid call
  -- names its invocation, and a language model's charge is a number above zero and not above the
  -- maximum), and each of the five languages shows each of the six scenarios.
  pub validate_events_iff :
      (events : List Fields) (max_cost : String)
      → (validate_events H T events max_cost ≡ ok [])
        ↔ (All (EventAccepted max_cost) events × Complete events)
  unfolding validate_events
  validate_events_iff events max_cost =
      let w =
        concat-nil_iff (event_errors H T events max_cost)
          (ok (language_errors (seen_of H T events) languages)) in
      let e = event_errors-nil_iff events max_cost in
      let c = language_errors-Complete events in
      (λ h. let k = w.0 h in (e.0 k.0, c.0 cc), λ h. let k = c.1 h.1 in w.1 (e.1 h.0, cc))
