-- ===== src/Evidence/Report/Passes.antt =====
-- What it means that `main` exits with 0.
use mathlib.Core.Path.{subst}
use synapse_network_sdk.Base.{
  ℕ, String, Bool, true, false, ◌≡◌, refl, ap, ◌∙◌, ◌&&◌, Option, none, some, List, [], ◌∷◌,
  if◌then◌else◌, All, length, ◌==◌, arith,
}
use synapse_network_sdk.Strings.Lists.{sorted_set}
use synapse_network_sdk.Json.{str, Fields, get}
use synapse_network_sdk.Runtime.{invalid_operation, Result, ok, err}
use synapse_network_sdk.Host.{Host}
use synapse_network_sdk.Evidence.{Tools, is_paid, parse_events}
use synapse_network_sdk.Evidence.Results.{and_then_ok}
use synapse_network_sdk.Evidence.Events.{validate_events}
use synapse_network_sdk.Evidence.Events.Accepts.{EventAccepted, Complete, validate_events_iff}
use synapse_network_sdk.Evidence.Store.{Db, Query, query_db, expected_ids, validate_db}
use synapse_network_sdk.Evidence.Store.Charged.{Backed, id_of, validate_db-Backed}
use synapse_network_sdk.Evidence.Report.{
  Evidence, is_clean, load_screenshots, max_cost_of, evidence_of, main,
}
use synapse_network_sdk.Evidence.Report.Summary.{build_summary-Complete}

-- The last step of `main`: the evidence, and what it exits with.
exits_clean :
    (ev e : Evidence)
    → ◌≡◌ {A = Result (Evidence × ℕ)} (ok (ev, if is_clean ev then 0 else 1)) (ok (e, 0))
    → (ev ≡ e) × (ev.event_errors ≡ []) × (ev.db_errors ≡ [])
unfolding is_clean
exits_clean ev e h = by_tests (length ev.event_errors == 0) (length ev.db_errors == 0) refl refl h
  where
    is_nil : (l : List String) → (length l == 0) ≡ true → l ≡ []
    is_nil [] k = refl
    is_nil (x ∷ l) k = ground arith

    code : {n m : ℕ} → ◌≡◌ {A = Result (Evidence × ℕ)} (ok (ev, n)) (ok (e, m)) → n ≡ m
    code k = cc

    by_tests :
        (a b : Bool)
        → (length ev.event_errors == 0) ≡ a
        → (length ev.db_errors == 0) ≡ b
        → ◌≡◌ {A = Result (Evidence × ℕ)} (ok (ev, if a && b then 0 else 1)) (ok (e, 0))
        → (ev ≡ e) × (ev.event_errors ≡ []) × (ev.db_errors ≡ [])
    by_tests true true x y k = (cc, is_nil ev.event_errors x, is_nil ev.db_errors y)
    by_tests true false x y k = let z = code k in ground arith
    by_tests false b x y k = let z = code k in ground arith

module _ (H : Host) (T : Tools) where
  -- Every paid event is backed by the rows that the database has of its invocation.
  abbrev pub AllBacked : String → List Fields → Db → Type 0
  AllBacked max_cost events db =
      All
        (λ e.
          (scenario : String)
          → get "scenario" e ≡ str scenario
          → is_paid scenario ≡ true
          → Backed H T db max_cost scenario (id_of H T e))
        events

  max_cost_of_lem : (text d : String) → max_cost_of H T text ≡ ok d → H.parse_decimal text ≡ some d
  unfolding max_cost_of
  max_cost_of_lem text d h = by_parse (H.parse_decimal text) h
    where
      by_parse :
          (o : Option String)
          → (elim o as (λ _. Result String) [
            | none ↦ err (invalid_operation "ConversionSyntax")
            | some d ↦ ok d
          ])
            ≡ ok d
          → o ≡ some d
      by_parse none h = cc
      by_parse (some x) h = cc

  -- If the report returns and exits with 0, its log is accepted event by event, each language shows
  -- each required scenario, the summary says that each passed, and every paid call is backed by the
  -- rows that the database has of it, within the maximum that the argument gives.
  pub main_passes :
      (query : Query) (run_id command max_cost_usdc log : String) (screenshots : Option String)
      (e : Evidence)
      → main H T query run_id command max_cost_usdc log screenshots ≡ ok (e, 0)
      → (max_cost : String) × (H.parse_decimal max_cost_usdc ≡ some max_cost)
        × All (EventAccepted H T max_cost) (parse_events H T log)
        × Complete H T (parse_events H T log)
        × All (λ row. row.passed ≡ true) e.summary
        × AllBacked max_cost (parse_events H T log) e.db
  unfolding main evidence_of
  main_passes query run_id command max_cost_usdc log screenshots e h =
      let events = parse_events H T log in
      let m = (and_then_ok (max_cost_of H T max_cost_usdc) _ (e, 0)).0 h in
      let v = (and_then_ok (validate_events H T events m.0) _ (e, 0)).0 m.2 in
      let i = (and_then_ok (expected_ids H T events) _ (e, 0)).0 v.2 in
      let q = (and_then_ok (query_db H T query run_id (sorted_set i.0)) _ (e, 0)).0 i.2 in
      let d = (and_then_ok (validate_db H T events q.0 m.0) _ (e, 0)).0 q.2 in
      let t = (and_then_ok (load_screenshots H T screenshots) _ (e, 0)).0 d.2 in
      let c = exits_clean (evidence_of H T run_id command events q.0 t.0 v.0 d.0) e t.2 in
      let accepted = (validate_events_iff H T events m.0).0 (v.1 ∙ ap ok c.1) in
      let backed = validate_db-Backed H T events q.0 m.0 (d.1 ∙ ap ok c.2) in
      (
        m.0,
        max_cost_of_lem max_cost_usdc m.0 m.1,
        accepted.0,
        accepted.1,
        subst (λ ev. All (λ row. row.passed ≡ true) ev.summary) c.0
            ((build_summary-Complete H T events).1 accepted.1),
        subst (λ ev. AllBacked m.0 events ev.db) c.0 backed,
      )
