-- ===== src/Evidence/Store/Rows.antt =====
-- The rows that `validate_db` finds under an identifier are rows of the database that have it.
use synapse_network_sdk.Base.{
  String, Bool, true, false, ◌≡◌, refl, ap, ◌∙◌, ◌⊎◌, inl, inr, ◌&&◌, Option, none, some, List, [],
  ◌∷◌, str_eq, eq_iff, if◌then◌else◌, All, Any, Bool-cases,
}
use mathlib.Core.Path.{subst}
use synapse_network_sdk.Strings.{truthy, strip}
use synapse_network_sdk.Strings.Prefix.{contains}
use synapse_network_sdk.Json.{Json, null, bool, num, str, arr, obj, Fields, get}
use synapse_network_sdk.Runtime.{Error, Result, ok, err, stalled, and_then, type_error}
use synapse_network_sdk.Host.{Host}
use synapse_network_sdk.Client.Response.{json_truthy, str_or_else}
use synapse_network_sdk.Evidence.{Tools, text_field}
use synapse_network_sdk.Evidence.Results.{and_iff}
use synapse_network_sdk.Evidence.Store.{
  keyed_row, keyed_rows, row_of, ledger_of, named_in, audit_invocation_id, audit_of, absent,
}

named_in_lem :
    (detail : String) (ids : List String)
    → truthy (named_in detail ids) ≡ true
    → contains (named_in detail ids) detail ≡ true
unfolding named_in
named_in_lem detail [] h = cc
named_in_lem detail (id ∷ ids) h =
    by_test (truthy id && contains id detail) refl (named_in_lem detail ids) h
  where
    by_test :
        (b : Bool)
        → (truthy id && contains id detail) ≡ b
        → (truthy (named_in detail ids) ≡ true → contains (named_in detail ids) detail ≡ true)
        → truthy (if b then id else named_in detail ids) ≡ true
        → contains (if b then id else named_in detail ids) detail ≡ true
    by_test true e rest h = ((and_iff (truthy id) (contains id detail)).0 e).1
    by_test false e rest h = rest h

-- One of the rows is the second part, and has the first as its identifier.
abbrev pub From : List Fields → Json × Fields → Type 0
From rows p = Any (λ row. (row ≡ p.1) × (get "invocation_id" row ≡ p.0)) rows

later-From :
    (row : Fields) (rows : List Fields) (keyed : List (Json × Fields))
    → All (From rows) keyed
    → All (From (row ∷ rows)) keyed
later-From row rows [] h = tt
later-From row rows (p ∷ keyed) h = (inr h.0, later-From row rows keyed h.1)

pub row_of-Any :
    (id : String) (keyed : List (Json × Fields)) (r : Fields)
    → row_of id keyed ≡ some r
    → Any (λ p. (p.0 ≡ str id) × (p.1 ≡ r)) keyed
unfolding row_of
row_of-Any id [] r h = cc
row_of-Any id ((key, row) ∷ keyed) r h = by_later (row_of id keyed) key (row_of-Any id keyed) h
  where
    by_same :
        (s : String) (b : Bool)
        → str_eq s id ≡ b
        → (if b then some row else none) ≡ some r
        → Any (λ p. (p.0 ≡ str id) × (p.1 ≡ r)) ((str s, row) ∷ keyed)
    by_same s true e h = let k = (eq_iff s id).0 e in inl (ap str k, cc)
    by_same s false e h = cc

    by_later :
        (later : Option Fields) (key : Json)
        → ((r : Fields) → later ≡ some r → Any (λ p. (p.0 ≡ str id) × (p.1 ≡ r)) keyed)
        → (elim later as (λ _. Option Fields) [
          | some r ↦ some r
          | none ↦ elim key as (λ _. Option Fields) [
            | str s ↦ if str_eq s id then some row else none
            | other ↦ none
          ]
        ])
          ≡ some r
        → Any (λ p. (p.0 ≡ str id) × (p.1 ≡ r)) ((key, row) ∷ keyed)
    by_later (some l) key rest h = inr (rest r h)
    by_later none (str s) rest h = by_same s (str_eq s id) refl h
    by_later none null rest h = cc
    by_later none (bool _) rest h = cc
    by_later none (num _) rest h = cc
    by_later none (arr _) rest h = cc
    by_later none (obj _) rest h = cc

From-eq :
    (rows : List Fields) (p q : Json × Fields) → p.0 ≡ q.0 → p.1 ≡ q.1 → From rows p → From rows q
From-eq [] p q h k f = f
From-eq (row ∷ rows) p q h k (inl f) = inl (f.0 ∙ k, f.1 ∙ h)
From-eq (row ∷ rows) p q h k (inr f) = inr (From-eq rows p q h k f)

pub pick :
    (id : String) (rows : List Fields) (keyed : List (Json × Fields)) (r : Fields)
    → All (From rows) keyed
    → Any (λ p. (p.0 ≡ str id) × (p.1 ≡ r)) keyed
    → Any (λ row. (row ≡ r) × (get "invocation_id" row ≡ str id)) rows
pick id rows [] r a h = absurd h
pick id rows (p ∷ keyed) r a (inl h) = From-eq rows p (str id, r) h.0 h.1 a.0
pick id rows (p ∷ keyed) r a (inr h) = pick id rows keyed r a.1 h

the_keys :
    {ks ls : List (Json × Fields)}
    → ◌≡◌ {A = Result (List (Json × Fields))} (ok ks) (ok ls)
    → ks ≡ ls
the_keys h = cc

module _ (H : Host) (T : Tools) where
  -- An audit row that is about an invocation: it has its identifier, or its detail names it.
  abbrev pub Audits : String → Fields → Type 0
  Audits id row =
      (strip (str_or_else H (get "invocation_id" row) "") ≡ id)
      ⊎ (contains id (str_or_else H (get "detail_json" row) "") ≡ true)

  audit_invocation_id-Audits :
      (row : Fields) (ids : List String)
      → truthy (audit_invocation_id H T row ids) ≡ true
      → Audits (audit_invocation_id H T row ids) row
  unfolding audit_invocation_id
  audit_invocation_id-Audits row ids h =
      by_direct (strip (str_or_else H (get "invocation_id" row) ""))
        (str_or_else H (get "detail_json" row) "") h
    where
      by_direct :
          (direct detail : String)
          → truthy (if truthy direct then direct else named_in detail ids) ≡ true
          → (direct ≡ (if truthy direct then direct else named_in detail ids))
            ⊎ (contains (if truthy direct then direct else named_in detail ids) detail ≡ true)
      by_direct direct detail h = elim (Bool-cases (truthy direct)) [
        | inl given ↦ inl (rw given refl)
        | inr empty ↦ inr (
            rw empty (
              named_in_lem detail ids
                (subst (λ b. truthy (if b then direct else named_in detail ids) ≡ true) empty h)))
      ]

  pub audit_of-Audits :
      (ids : List String) (id : String) (rows : List Fields) (error : String)
      → absent (audit_of H T ids id rows) error ≡ []
      → Any (Audits id) rows
  unfolding audit_of absent
  audit_of-Audits ids id [] error h = cc
  audit_of-Audits ids id (row ∷ rows) error h =
      let owner = audit_invocation_id H T row ids in
      by_owner (truthy owner && str_eq owner id) refl (audit_of-Audits ids id rows error) h
    where
      by_owner :
          (b : Bool)
          → (truthy (audit_invocation_id H T row ids)
              && str_eq (audit_invocation_id H T row ids) id)
            ≡ b
          → (absent (audit_of H T ids id rows) error ≡ [] → Any (Audits id) rows)
          → absent (if b then row ∷ audit_of H T ids id rows else audit_of H T ids id rows) error
            ≡ []
          → Any (Audits id) (row ∷ rows)
      by_owner true e rest h =
          let owner = audit_invocation_id H T row ids in
          let k = (and_iff (truthy owner) (str_eq owner id)).0 e in
          inl (
            subst (λ x. Audits x row) ((eq_iff owner id).0 k.1)
              (audit_invocation_id-Audits row ids k.0))
      by_owner false e rest h = inr (rest h)

  pub ledger_of-Any :
      (id : String) (rows : List Fields) (error : String)
      → absent (ledger_of H T id rows) error ≡ []
      → Any (λ row. text_field H T "reference_id" row ≡ id) rows
  unfolding ledger_of absent
  ledger_of-Any id [] error h = cc
  ledger_of-Any id (row ∷ rows) error h =
      by_owner (str_eq (text_field H T "reference_id" row) id) refl (ledger_of-Any id rows error) h
    where
      by_owner :
          (b : Bool)
          → str_eq (text_field H T "reference_id" row) id ≡ b
          → (absent (ledger_of H T id rows) error ≡ []
              → Any (λ row. text_field H T "reference_id" row ≡ id) rows)
          → absent (if b then row ∷ ledger_of H T id rows else ledger_of H T id rows) error ≡ []
          → Any (λ row. text_field H T "reference_id" row ≡ id) (row ∷ rows)
      by_owner true e rest h = inl ((eq_iff (text_field H T "reference_id" row) id).0 e)
      by_owner false e rest h = inr (rest h)

  pub keyed_rows-From :
      (rows : List Fields) (keyed : List (Json × Fields))
      → keyed_rows H T rows ≡ ok keyed
      → All (From rows) keyed
  unfolding keyed_rows keyed_row
  keyed_rows-From [] keyed h = subst (All (From [])) (the_keys h) tt
  keyed_rows-From (row ∷ rows) keyed h =
      by_value (get "invocation_id" row) refl (keyed_rows H T rows) (keyed_rows-From rows) h
    where
      Rows : Type 0
      Rows = Result (List (Json × Fields))

      Sound : Rows → Type 0
      Sound q = (ks : List (Json × Fields)) → q ≡ ok ks → All (From rows) ks

      skipped : (q : Rows) → Sound q → q ≡ ok keyed → All (From (row ∷ rows)) keyed
      skipped q ih h = later-From row rows keyed (ih keyed h)

      kept :
          (v : Json)
          → get "invocation_id" row ≡ v
          → (b : Bool) (q : Rows) → Sound q
          → (if b then and_then q (λ ks. ok ((v, row) ∷ ks)) else q) ≡ ok keyed
          → All (From (row ∷ rows)) keyed
      kept v e false q ih h = skipped q ih h
      kept v e true (ok ks) ih h =
          subst (All (From (row ∷ rows))) (the_keys h)
            (inl (refl, e), later-From row rows ks (ih ks refl))
      kept v e true (err x) ih h = cc
      kept v e true stalled ih h = cc

      refused :
          (x : Error) (b : Bool) (q : Rows)
          → Sound q
          → (if b then err x else q) ≡ ok keyed
          → All (From (row ∷ rows)) keyed
      refused x true q ih h = cc
      refused x false q ih h = skipped q ih h

      by_value :
          (v : Json)
          → get "invocation_id" row ≡ v
          → (q : Rows) → Sound q
          → keyed_row H T v row q ≡ ok keyed
          → All (From (row ∷ rows)) keyed
      by_value null e q ih h = kept null e (json_truthy H null) q ih h
      by_value (bool b) e q ih h = kept (bool b) e (json_truthy H (bool b)) q ih h
      by_value (num n) e q ih h = kept (num n) e (json_truthy H (num n)) q ih h
      by_value (str s) e q ih h = kept (str s) e (json_truthy H (str s)) q ih h
      by_value (arr vs) e q ih h =
          refused (type_error "unhashable type") (json_truthy H (arr vs)) q ih h
      by_value (obj d) e q ih h =
          refused (type_error "unhashable type") (json_truthy H (obj d)) q ih h
