-- ===== src/Evidence/Results.antt =====
-- Results that are lists of errors: what it means that there is none.
use synapse_network_sdk.Base.{
  Bool, true, false, ◌≡◌, refl, ◌⊎◌, inl, inr, ◌↔◌, ◌||◌, ◌&&◌, List, [], ◌∷◌, ◌++◌, if◌then◌else◌,
  All,
}
use synapse_network_sdk.Runtime.{Result, ok, err, stalled, and_then}

-- Both parts of a result return, the second with the value.
pub and_then_ok :
    {A B : Type 0} (r : Result A) (f : A → Result B) (b : B)
    → (and_then r f ≡ ok b) ↔ ((a : A) × (r ≡ ok a) × (f a ≡ ok b))
and_then_ok (ok a) f b = ((λ h. (a, refl, h)), λ (x, e, h). cc)
and_then_ok (err e) f b = (λ h. cc, λ (x, e, h). cc)
and_then_ok stalled f b = (λ h. cc, λ (x, e, h). cc)

pub append-nil_iff : {A : Type 0} (xs ys : List A) → (xs ++ ys ≡ []) ↔ ((xs ≡ []) × (ys ≡ []))
append-nil_iff [] ys = (λ h. (refl, h), λ h. h.1)
append-nil_iff (x ∷ xs) ys = (λ h. cc, λ h. cc)

pub each_iff :
    {A : Type 0} {P Q : A → Type 0} (xs : List A) → ((x : A) → P x ↔ Q x) → All P xs ↔ All Q xs
each_iff [] w = (λ h. h, λ h. h)
each_iff (x ∷ xs) w =
    let v = each_iff xs w in (λ h. ((w x).0 h.0, v.0 h.1), λ h. ((w x).1 h.0, v.1 h.1))

-- A disjunction of Boolean tests.
pub or_iff : (a b : Bool) → ((a || b) ≡ true) ↔ ((a ≡ true) ⊎ (b ≡ true))
or_iff true b = (λ h. inl refl, λ h. refl)
or_iff false b = (λ h. inr h, λ h. elim h [ inl e ↦ cc | inr e ↦ e ])

pub and_iff : (a b : Bool) → ((a && b) ≡ true) ↔ ((a ≡ true) × (b ≡ true))
and_iff true b = (λ h. (refl, h), λ h. h.1)
and_iff false b = (λ h. cc, λ h. cc)

-- Two results, whose lists are put together.
pub concat-nil_iff :
    {A : Type 0} (r q : Result (List A))
    → (and_then r (λ xs. and_then q (λ ys. ok (xs ++ ys))) ≡ ok []) ↔ ((r ≡ ok []) × (q ≡ ok []))
concat-nil_iff (ok xs) (ok ys) =
    let w = append-nil_iff xs ys in
    (λ h. let k = w.0 cc in (cc, cc), λ h. let k = w.1 (cc, cc) in cc)
concat-nil_iff (ok xs) (err e) = (λ h. cc, λ h. cc)
concat-nil_iff (ok xs) stalled = (λ h. cc, λ h. cc)
concat-nil_iff (err e) q = (λ h. cc, λ h. cc)
concat-nil_iff stalled q = (λ h. cc, λ h. cc)

-- More errors under a test.
pub more-nil_iff :
    {A : Type 0} (b : Bool) (first : List A) (r : Result (List A))
    → ((if b then and_then r (λ errors. ok (first ++ errors)) else ok first) ≡ ok [])
      ↔ ((first ≡ []) × (b ≡ true → r ≡ ok []))
more-nil_iff true first r =
    let w = concat-nil_iff (ok first) r in
    (λ h. let k = w.0 h in (cc, λ _. k.1), λ h. w.1 (cc, h.1 refl))
more-nil_iff false first r = (λ h. (cc, λ e. cc), λ h. cc)
