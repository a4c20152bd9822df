-- ===== src/Quality/Loops.antt =====
-- Loops that collect failures: what it means that they find none.
use synapse_network_sdk.Base.{
  ℕ, ◌≤◌, String, Bool, true, false, ◌≡◌, ◌≢◌, refl, ◌↔◌, ltb, List, [], ◌∷◌, ◌++◌, str_eq,
  if◌then◌else◌, All, arith,
}
use synapse_network_sdk.Strings.Prefix.{is_before}
use synapse_network_sdk.Strings.Lists.{insert, sorted_set}
use synapse_network_sdk.Evidence.Results.{append-nil_iff, each_iff}
use synapse_network_sdk.Quality.{FilePath, path_before, insert_path, sort_paths, collect}
use synapse_network_sdk.Quality.Checks.{exit_code}

pub collect-nil_iff :
    {A : Type 0} (f : A → List String) (xs : List A) → (collect f xs ≡ []) ↔ All (λ x. f x ≡ []) xs
unfolding collect
collect-nil_iff f [] = (λ h. tt, λ h. refl)
collect-nil_iff f (x ∷ xs) =
    let w = append-nil_iff (f x) (collect f xs) in
    let v = collect-nil_iff f xs in (λ h. let k = w.0 h in (k.0, v.0 k.1), λ h. w.1 (h.0, v.1 h.1))

pub insert_path-All :
    (P : FilePath → Type 0) (p : FilePath) (qs : List FilePath)
    → All P (insert_path p qs) ↔ (P p × All P qs)
unfolding insert_path
insert_path-All P p [] = (λ h. h, λ h. h)
insert_path-All P p (q ∷ qs) =
    by_order (path_before q p) (insert_path p qs) (insert_path-All P p qs)
  where
    by_order :
        (b : Bool) (rest : List FilePath)
        → (All P rest ↔ (P p × All P qs))
        → All P (if b then q ∷ rest else p ∷ q ∷ qs) ↔ (P p × (P q × All P qs))
    by_order true rest w =
        (λ h. let k = w.0 h.1 in (k.0, (h.0, k.1)), λ h. (h.1.0, w.1 (h.0, h.1.1)))
    by_order false rest w = (λ h. h, λ h. h)

pub sort_paths-All : (P : FilePath → Type 0) (ps : List FilePath) → All P (sort_paths ps) ↔ All P ps
unfolding sort_paths
sort_paths-All P [] = (λ h. h, λ h. h)
sort_paths-All P (p ∷ ps) =
    let w = insert_path-All P p (sort_paths ps) in
    let v = sort_paths-All P ps in (λ h. let k = w.0 h in (k.0, v.0 k.1), λ h. w.1 (h.0, v.1 h.1))

pub insert-cons : (s : String) (ts : List String) → insert s ts ≢ []
unfolding insert
insert-cons s [] h = cc
insert-cons s (t ∷ ts) h = by_tests (str_eq s t) (is_before s t) (insert s ts) h
  where
    by_tests :
        (a b : Bool) (rest : List String)
        → (if a then t ∷ ts else if b then s ∷ t ∷ ts else t ∷ rest) ≢ []
    by_tests true b rest h = cc
    by_tests false true rest h = cc
    by_tests false false rest h = cc

pub sorted_set-nil_iff : (ss : List String) → (sorted_set ss ≡ []) ↔ (ss ≡ [])
unfolding sorted_set
sorted_set-nil_iff [] = (λ h. h, λ h. h)
sorted_set-nil_iff (s ∷ ss) = (λ h. absurd (insert-cons s (sorted_set ss) h), λ h. cc)

pub append-All :
    {A : Type 0} (P : A → Type 0) (xs ys : List A) → All P (xs ++ ys) ↔ (All P xs × All P ys)
append-All P [] ys = (λ h. (tt, h), λ h. h.1)
append-All P (x ∷ xs) ys =
    let w = append-All P xs ys in
    (λ h. let k = w.0 h.1 in ((h.0, k.0), k.1), λ h. (h.0.0, w.1 (h.0.1, h.1)))

-- One failure under a test.
pub single-nil_iff : (b : Bool) (s : String) → ((if b then s ∷ [] else []) ≡ []) ↔ (b ≡ false)
single-nil_iff true s = (λ h. cc, λ h. cc)
single-nil_iff false s = (λ h. refl, λ h. refl)

pub not_above_iff : (a b : ℕ) → (ltb a b ≡ false) ↔ (b ≤ a)
not_above_iff a b = (λ h. ground arith, λ h. ground arith)

pub exit_code_iff : (failures : List String) → (exit_code failures ≡ 0) ↔ (failures ≡ [])
unfolding exit_code
exit_code_iff [] = (λ h. refl, λ h. refl)
exit_code_iff (x ∷ xs) = (λ h. ground arith, λ h. cc)

-- Two equivalences one after the other.
pub iff_trans : {A B C : Type 0} → A ↔ B → B ↔ C → A ↔ C
iff_trans w v = (λ a. v.0 (w.0 a), λ c. w.1 (v.1 c))

-- A loop over sorted files that finds nothing.
pub sorted-nil_iff :
    {P : FilePath → Type 0} (f : FilePath → List String) (ps : List FilePath)
    → ((p : FilePath) → (f p ≡ []) ↔ P p)
    → (collect f (sort_paths ps) ≡ []) ↔ All P ps
sorted-nil_iff {P = P} f ps w =
    iff_trans (collect-nil_iff f (sort_paths ps))
      (iff_trans (each_iff (sort_paths ps) w) (sort_paths-All P ps))
