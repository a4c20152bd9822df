-- ===== src/Evidence/Store/Charged.antt =====
-- What it means that `validate_db` finds nothing.
use synapse_network_sdk.Base.{
  String, Bool, true, false, ◌≡◌, refl, ap, sym, ◌∙◌, inl, inr, Option, none, some, List, [], ◌∷◌,
  ◌++◌, eq_iff, if◌then◌else◌, All, Any,
}
use mathlib.Core.Path.{subst}
use synapse_network_sdk.Strings.{◌+++◌}
use synapse_network_sdk.Json.{Json, str, Fields, get}
use synapse_network_sdk.Runtime.{ok, and_then}
use synapse_network_sdk.Host.{Host}
use synapse_network_sdk.Client.Response.{str_of, str_or_else}
use synapse_network_sdk.Evidence.{
  Tools, is_paid, paid_scenario, compared, text_field, decimal_or_none,
}
use synapse_network_sdk.Evidence.Results.{and_then_ok, append-nil_iff, concat-nil_iff}
use synapse_network_sdk.Evidence.Events.Accepts.{ChargeAccepted}
use synapse_network_sdk.Evidence.Store.{
  Db, keyed_rows, row_of, ledger_of, audit_of, expected_ids, charge_bounds, db_charge_errors,
  absent, llm_errors, row_errors, paid_errors, db_errors, validate_db,
}
use synapse_network_sdk.Evidence.Store.Rows.{
  Audits, pick, row_of-Any, audit_of-Audits, ledger_of-Any, keyed_rows-From,
}

is_paid_lem :
    (j : Json) (scenario : String) (b : Bool)
    → j ≡ str scenario
    → is_paid scenario ≡ true
    → paid_scenario j ≡ ok b
    → b ≡ true
unfolding paid_scenario
is_paid_lem j scenario b e h k = by_value (ap paid_scenario (sym e) ∙ k)
  where
    by_value : ok (is_paid scenario) ≡ ok b → b ≡ true
    by_value l = cc

carry_over :
    {P Q : Fields → Type 0} (rows : List Fields)
    → ((r : Fields) → P r → Q r)
    → Any P rows
    → Any Q rows
carry_over [] f h = absurd h
carry_over (r ∷ rows) f (inl h) = inl (f r h)
carry_over (r ∷ rows) f (inr h) = inr (carry_over rows f h)

module _ (H : Host) (T : Tools) where
  -- What a paid call of the scenario has to have in the database: a row of it, and for a language
  -- model a charge that is accepted, ledger entries and audit events.
  abbrev pub Backed : Db → String → String → String → Type 0
  Backed db max_cost scenario id =
      Any
        (λ row.
          (get "invocation_id" row ≡ str id)
          × (scenario ≡ "llm" → ChargeAccepted H T (get "charged_usdc" row) max_cost))
        db.invocations
      × (scenario ≡ "llm"
          → Any (λ row. text_field H T "reference_id" row ≡ id) db.ledger_entries
            × Any (Audits H T id) db.audit_events)

  charge_bounds-nil :
      (language low max_cost : String) (o : Option String)
      → charge_bounds H T language low max_cost o ≡ ok []
      → (charge : String) × (o ≡ some charge)
        × (T.at_most_zero charge ≡ some false)
        × (T.exceeds charge max_cost ≡ some false)
  unfolding charge_bounds
  charge_bounds-nil language low max_cost none h = cc
  charge_bounds-nil language low max_cost (some charge) h =
      let k = by_tests (T.at_most_zero charge) (T.exceeds charge max_cost) h in
      (charge, refl, k.0, k.1)
    where
      by_tests :
          (at_most high : Option Bool)
          → and_then (compared at_most) (λ at_most.
            if at_most
            then ok (low ∷ [])
            else and_then (compared high) (λ high.
              if high
              then ok (
                  (language +++ " llm DB charge " +++ charge +++ " exceeds maxCostUsdc "
                    +++ max_cost)
                  ∷ [])
              else ok []))
            ≡ ok []
          → (at_most ≡ some false) × (high ≡ some false)
      by_tests none high h = cc
      by_tests (some true) high h = cc
      by_tests (some false) none h = cc
      by_tests (some false) (some true) h = cc
      by_tests (some false) (some false) h = (refl, refl)

  llm_errors-nil :
      (language id : String) (row : Fields) (ids : List String) (db : Db) (max_cost : String)
      → llm_errors H T language id row
          (ledger_of H T id db.ledger_entries)
          (audit_of H T ids id db.audit_events)
          max_cost
        ≡ ok []
      → ChargeAccepted H T (get "charged_usdc" row) max_cost
        × Any (λ row. text_field H T "reference_id" row ≡ id) db.ledger_entries
        × Any (Audits H T id) db.audit_events
  unfolding llm_errors db_charge_errors
  llm_errors-nil language id row ids db max_cost h =
      let no_ledger = language +++ " llm invocation " +++ id +++ " missing ledger entries" in
      let no_audit = language +++ " llm invocation " +++ id +++ " missing audit events" in
      let ledger = absent (ledger_of H T id db.ledger_entries) no_ledger in
      let audit = absent (audit_of H T ids id db.audit_events) no_audit in
      let k =
        (concat-nil_iff (db_charge_errors H T language (get "charged_usdc" row) max_cost)
            (ok (ledger ++ audit))).0
          h in
      let l = (append-nil_iff ledger audit).0 cc in
      (
        charge_bounds-nil language
            (language +++ " llm DB charge must be > 0, got " +++ str_of H (get "charged_usdc" row))
            max_cost (decimal_or_none H T (get "charged_usdc" row)) k.0,
        ledger_of-Any H T id db.ledger_entries no_ledger l.0,
        audit_of-Audits H T ids id db.audit_events no_audit l.1,
      )

  row_errors-nil :
      (language scenario id : String) (keyed : List (Json × Fields)) (db : Db) (ids : List String)
      (max_cost : String) (o : Option Fields)
      → keyed_rows H T db.invocations ≡ ok keyed
      → row_of id keyed ≡ o
      → row_errors H T language scenario id db ids max_cost o ≡ ok []
      → Backed db max_cost scenario id
  unfolding row_errors
  row_errors-nil language scenario id keyed db ids max_cost none e k h = cc
  row_errors-nil language scenario id keyed db ids max_cost (some row) e k h =
      let errors =
        llm_errors H T language id row (ledger_of H T id db.ledger_entries)
          (audit_of H T ids id db.audit_events) max_cost in
      let charged = (λ (l : scenario ≡ "llm").
        llm_errors-nil language id row ids db max_cost
          (subst (λ b. (if b then errors else ok []) ≡ ok []) ((eq_iff scenario "llm").1 l) h)) in
      let found =
        pick id db.invocations keyed row (keyed_rows-From H T db.invocations keyed e)
          (row_of-Any id keyed row k) in
      (
        carry_over db.invocations
            (λ r (same, key). (
              key,
              λ l.
                  subst (λ r. ChargeAccepted H T (get "charged_usdc" r) max_cost) (sym same)
                    (charged l).0,
            ))
            found,
        λ l. let c = charged l in (c.1, c.2),
      )

  -- the identifier that `validate_db` takes of an event
  abbrev pub id_of : Fields → String
  id_of e = str_or_else H (get "invocationId" e) ""

  db_errors-nil :
      (es : List Fields) (keyed : List (Json × Fields)) (db : Db) (ids : List String)
      (max_cost : String)
      → keyed_rows H T db.invocations ≡ ok keyed
      → db_errors H T es keyed db ids max_cost ≡ ok []
      → All
          (λ e.
            (scenario : String)
            → get "scenario" e ≡ str scenario
            → is_paid scenario ≡ true
            → Backed db max_cost scenario (id_of e))
          es
  unfolding db_errors paid_errors str_of
  db_errors-nil [] keyed db ids max_cost k h = tt
  db_errors-nil (e ∷ es) keyed db ids max_cost k h =
      let rest = db_errors H T es keyed db ids max_cost in
      let errors = (λ (b : Bool). if b then paid_errors H T e keyed db ids max_cost else ok []) in
      let w =
        (and_then_ok (paid_scenario (get "scenario" e))
            (λ paid. and_then (errors paid) (λ xs. and_then rest (λ ys. ok (xs ++ ys)))) []).0
          h in
      let v = (concat-nil_iff (errors w.0) rest).0 w.2 in
      (
        λ scenario is paid.
            row_errors-nil (str_of H (get "language" e)) scenario (id_of e) keyed db ids max_cost
              (row_of (id_of e) keyed) k refl
              (subst
                (λ j.
                  row_errors H T (str_of H (get "language" e)) (str_of H j) (id_of e) db ids
                    max_cost (row_of (id_of e) keyed)
                  ≡ ok [])
                is
                (subst (λ b. errors b ≡ ok [])
                  (is_paid_lem (get "scenario" e) scenario w.0 is paid w.1) v.0)),
        db_errors-nil es keyed db ids max_cost k v.1,
      )

  -- If the check of the rows returns and finds nothing, every paid call of the log, that is every event
  -- whose scenario is fixed-price or llm, has a row of its invocation in the database; for a call of a
  -- language model the charge of such a row is a number above zero and not above the maximum, the
  -- ledger has an entry of it, and the audit has an event that has its identifier or names it.
  pub validate_db-Backed :
      (events : List Fields) (db : Db) (max_cost : String)
      → validate_db H T events db max_cost ≡ ok []
      → All
          (λ e.
            (scenario : String)
            → get "scenario" e ≡ str scenario
            → is_paid scenario ≡ true
            → Backed db max_cost scenario (id_of e))
          events
  unfolding validate_db
  validate_db-Backed events db max_cost h =
      let tail = (λ (keyed : List (Json × Fields)).
        and_then (expected_ids H T events)
          (λ ids. db_errors H T events keyed db (T.set_order ids) max_cost)) in
      let w = (and_then_ok (keyed_rows H T db.invocations) tail []).0 h in
      let v =
        (and_then_ok (expected_ids H T events)
            (λ ids. db_errors H T events w.0 db (T.set_order ids) max_cost) []).0
          w.2 in
      db_errors-nil events w.0 db (T.set_order v.0) max_cost w.1 v.2
