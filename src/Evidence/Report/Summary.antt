-- ===== src/Evidence/Report/Summary.antt =====
-- What the summary of a report says.
use synapse_network_sdk.Base.{
  String, Bool, true, false, ◌≡◌, ◌≢◌, refl, sym, ◌↔◌, ◌⊎◌, inl, inr, ◌&&◌, Option, none, some,
  is_some, List, [], ◌∷◌, str_eq, eq_iff, if◌then◌else◌, All,
}
use synapse_network_sdk.Json.{Json, null, Fields, get?, get}
use synapse_network_sdk.Host.{Host}
use synapse_network_sdk.Client.Response.{str_of}
use synapse_network_sdk.Evidence.{Tools, languages, required_scenarios, text_field}
use synapse_network_sdk.Evidence.Results.{and_iff}
use synapse_network_sdk.Evidence.Events.Accepts.{Shown, Complete}
use synapse_network_sdk.Evidence.Report.{
  last_event, all_shown, language_row, language_rows, build_summary,
}

is_some_later :
    (later : Option Fields) (same : Bool) (e : Fields)
    → (is_some (elim later as (λ _. Option Fields) [
      | some l ↦ some l
      | none ↦ if same then some e else none
    ])
        ≡ true)
      ↔ ((same ≡ true) ⊎ (is_some later ≡ true))
is_some_later (some l) same e = (λ h. inr refl, λ h. refl)
is_some_later none true e = (λ h. inl refl, λ h. refl)
is_some_later none false e = (λ h. cc, λ h. elim h [ inl k ↦ cc | inr k ↦ cc ])

-- A word that an event can have, which is not the text of a missing value.
abbrev Word : String → Type 0
Word s = (str_eq s "" ≡ false) × (str_eq s "None" ≡ false)

differs : (s t : String) → str_eq s t ≡ false → s ≢ t
differs s t h e = let k = (eq_iff s t).1 e in cc

scenario_words : All Word required_scenarios
scenario_words = (
  (refl, refl),
  ((refl, refl), ((refl, refl), ((refl, refl), ((refl, refl), ((refl, refl), tt))))),
)

language_words : All Word languages
language_words = ((refl, refl), ((refl, refl), ((refl, refl), ((refl, refl), ((refl, refl), tt)))))

module _ (H : Host) (T : Tools) where
  -- A language and a scenario that are words, not the text of a missing value.
  same_text :
      (key word : String) (e : Fields)
      → Word word
      → (str_of H (get key e) ≡ word) ↔ (text_field H T key e ≡ word)
  unfolding text_field get str_of
  same_text key word e w = by_value (get? key e)
    where
      by_value :
          (o : Option Json)
          → (str_of H (elim o as (λ _. Json) [ none ↦ null | some v ↦ v ]) ≡ word)
            ↔ ((elim o as (λ _. String) [ none ↦ "" | some v ↦ str_of H v ]) ≡ word)
      by_value none =
          (λ e. absurd (differs word "None" w.1 (sym e)), λ e. absurd (differs word "" w.0 (sym e)))
      by_value (some v) = (λ e. e, λ e. e)

  last_event_iff :
      (l s : String)
      → Word l
      → Word s
      → (es : List Fields) → (is_some (last_event H T l s es) ≡ true) ↔ Shown H T es l s
  unfolding last_event
  last_event_iff l s wl ws [] = (λ h. cc, λ h. absurd h)
  last_event_iff l s wl ws (e ∷ es) =
      let le = str_of H (get "language" e) in
      let se = str_of H (get "scenario" e) in
      let w = is_some_later (last_event H T l s es) (str_eq le l && str_eq se s) e in
      let v = and_iff (str_eq le l) (str_eq se s) in
      let tl = same_text "language" l e wl in
      let ts = same_text "scenario" s e ws in
      let rest = last_event_iff l s wl ws es in
      (
        λ h. elim (w.0 h) [
          | inl here ↦
              let k = v.0 here in inl (tl.0 ((eq_iff le l).0 k.0), ts.0 ((eq_iff se s).0 k.1))
          | inr there ↦ inr (rest.0 there)
        ],
        λ h. w.1 (elim h [
          | inl here ↦ inl (v.1 ((eq_iff le l).1 (tl.1 here.0), (eq_iff se s).1 (ts.1 here.1)))
          | inr there ↦ inr (rest.1 there)
        ]),
      )

  all_shown_iff :
      (l : String) (es : List Fields) (scenarios : List String)
      → (all_shown H T l es scenarios ≡ true)
        ↔ All (λ s. is_some (last_event H T l s es) ≡ true) scenarios
  unfolding all_shown
  all_shown_iff l es [] = (λ h. tt, λ h. refl)
  all_shown_iff l es (s ∷ scenarios) =
      let w = and_iff (is_some (last_event H T l s es)) (all_shown H T l es scenarios) in
      let v = all_shown_iff l es scenarios in
      (λ h. let k = w.0 h in (k.0, v.0 k.1), λ h. w.1 (h.0, v.1 h.1))

  words_iff :
      (l : String) (es : List Fields)
      → Word l
      → (scenarios : List String) → All Word scenarios
      → All (λ s. is_some (last_event H T l s es) ≡ true) scenarios ↔ All (Shown H T es l) scenarios
  words_iff l es w [] h = (λ k. k, λ k. k)
  words_iff l es w (s ∷ scenarios) h =
      let a = last_event_iff l s w h.0 es in
      let b = words_iff l es w scenarios h.1 in (λ k. (a.0 k.0, b.0 k.1), λ k. (a.1 k.0, b.1 k.1))

  rows_iff :
      (es : List Fields) (ls : List String)
      → All Word ls
      → All (λ row. row.passed ≡ true) (language_rows H T es ls)
        ↔ All (λ l. All (Shown H T es l) required_scenarios) ls
  unfolding language_rows language_row
  rows_iff es [] h = (λ k. k, λ k. k)
  rows_iff es (l ∷ ls) h =
      let a = all_shown_iff l es required_scenarios in
      let b = words_iff l es h.0 required_scenarios scenario_words in
      let c = rows_iff es ls h.1 in (λ k. (b.0 (a.0 k.0), c.0 k.1), λ k. (a.1 (b.1 k.0), c.1 k.1))

  -- All rows of the summary say that their language passed exactly when each language shows each of
  -- the scenarios that are required of it, which is what the check of the events asks of the log.
  pub build_summary-Complete :
      (events : List Fields)
      → All (λ row. row.passed ≡ true) (build_summary H T events) ↔ Complete H T events
  unfolding build_summary
  build_summary-Complete events = rows_iff events languages language_words
