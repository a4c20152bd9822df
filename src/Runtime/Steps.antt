-- ===== src/Runtime/Steps.antt =====
-- Rules for chains of actions: the cases of a bind, and how often an event occurs in a history.
use synapse_network_sdk.Base.{ℕ, ◌+◌, Bool, ◌≡◌, refl, ◌≢◌, List, [], ◌∷◌, if◌then◌else◌}
use synapse_network_sdk.Runtime.{Result, ok, err, stalled, Error, Action, ◌>>=◌}

-- What holds of the value of a run that returns.
abbrev pub Returns : {A : Type 0} → (A → Type 0) → Result A → Type 0
Returns P (ok a) = P a
Returns P (err _) = Unit
Returns P stalled = Unit

module _ {S A B : Type 0} where
  by_result :
      (Q : Result B × S → Type 0) (f : A → Action S B) (r : Result A) (s : S)
      → ((a : A) → r ≡ ok a → Q (f a s))
      → ((e : Error) → r ≡ err e → Q (err e, s))
      → (r ≡ stalled → Q (stalled, s))
      → Q (◌>>=◌ (λ t. (r, t)) f s)
  by_result Q f (ok a) s on_ok on_err on_stalled = on_ok a refl
  by_result Q f (err e) s on_ok on_err on_stalled = on_err e refl
  by_result Q f stalled s on_ok on_err on_stalled = on_stalled refl

  -- A claim about a bind, by how its first part ended.
  pub bind_cases :
      (Q : Result B × S → Type 0) (m : Action S A) (f : A → Action S B) (s : S)
      → ((a : A) → (m s).0 ≡ ok a → Q (f a (m s).1))
      → ((e : Error) → (m s).0 ≡ err e → Q (err e, (m s).1))
      → ((m s).0 ≡ stalled → Q (stalled, (m s).1))
      → Q ((m >>= f) s)
  bind_cases Q m f s = by_result Q f (m s).0 (m s).1

  pub bind-ne-stalled :
      (m : Action S A) (f : A → Action S B) (s : S)
      → (m s).0 ≢ stalled
      → ((a : A) → (f a (m s).1).0 ≢ stalled)
      → ((m >>= f) s).0 ≢ stalled
  bind-ne-stalled m f s ends later =
      bind_cases (λ p. p.0 ≢ stalled) m f s (λ a _. later a) (λ e _ h. cc) (λ h. absurd (ends h))

  pub bind-Returns :
      (P : B → Type 0) (m : Action S A) (f : A → Action S B) (s : S)
      → ((a : A) → (m s).0 ≡ ok a → Returns P (f a (m s).1).0)
      → Returns P ((m >>= f) s).0
  bind-Returns P m f s later = bind_cases (λ p. Returns P p.0) m f s later (λ _ _. tt) (λ _. tt)

  -- The final state satisfies what the state between satisfies, if the second part keeps it.
  pub bind_state :
      (R : S → Type 0) (m : Action S A) (f : A → Action S B) (s : S)
      → R (m s).1
      → ((a : A) → R (m s).1 → R (f a (m s).1).1)
      → R ((m >>= f) s).1
  bind_state R m f s now later =
      bind_cases (λ p. R p.1) m f s (λ a _. later a now) (λ _ _. now) (λ _. now)

-- A chain of three actions, whichever two are taken together.
pub bind_assoc :
    {S A B C : Type 0} (m : Action S A) (f : A → Action S B) (g : B → Action S C) (s : S)
    → ((m >>= f) >>= g) s ≡ (m >>= λ a. f a >>= g) s
bind_assoc {S = S} {A = A} m f g s = by_first (m s).0 (m s).1
  where
    by_first :
        (r : Result A) (t : S)
        → ((◌>>=◌ (λ u. (r, u)) f) >>= g) t ≡ ◌>>=◌ (λ u. (r, u)) (λ a. f a >>= g) t
    by_first (ok a) t = refl
    by_first (err e) t = refl
    by_first stalled t = refl

-- The occurrences of the events that a test picks.
module _ {E : Type 0} (p : E → Bool) where
  abbrev pub occurrences : List E → ℕ
  occurrences [] = 0
  occurrences (e ∷ es) = (if p e then 1 else 0) + occurrences es
