-- ===== src/Quality/Lengths.antt =====
-- The checks of the lengths of files and of functions.
use synapse_network_sdk.Base.{
  ◌≤◌, String, Bool, true, false, ◌≡◌, refl, ◌↔◌, ltb, List, [], ◌∷◌, ◌++◌, if◌then◌else◌, length,
  All,
}
use synapse_network_sdk.Strings.{◌+++◌}
use synapse_network_sdk.Strings.Prefix.{contains}
use synapse_network_sdk.Host.{Host}
use synapse_network_sdk.Evidence.Results.{each_iff}
use synapse_network_sdk.Quality.{
  FilePath, FunctionNode, Repository, python_source, typescript_source, max_python_function_lines,
  has_ignored, collect, relative, limit_of,
}
use synapse_network_sdk.Quality.Checks.{
  kept_files, iter_files, length_failures, check_file_lengths, effective_lines_for_node,
  function_failures, file_function_failures, check_python_function_lengths,
}
use synapse_network_sdk.Quality.Loops.{
  collect-nil_iff, sort_paths-All, append-All, single-nil_iff, not_above_iff, iff_trans,
}

module _ (H : Host) (R : Repository) where
  -- The property holds of the files that are found and whose path has no ignored directory.
  abbrev pub Found : FilePath → String → (FilePath → Type 0) → Type 0
  Found root suffix P = All (λ p. has_ignored (R.root ++ p) ≡ false → P p) (R.rglob root suffix)

  kept_files-All :
      (P : FilePath → Type 0) (ps : List FilePath)
      → All P (kept_files H R ps) ↔ All (λ p. has_ignored (R.root ++ p) ≡ false → P p) ps
  unfolding kept_files
  kept_files-All P [] = (λ h. h, λ h. h)
  kept_files-All P (p ∷ ps) =
      by_test (has_ignored (R.root ++ p)) (kept_files H R ps) (kept_files-All P ps)
    where
      by_test :
          (b : Bool) (rest : List FilePath)
          → (All P rest ↔ All (λ p. has_ignored (R.root ++ p) ≡ false → P p) ps)
          → All P (if b then rest else p ∷ rest)
            ↔ ((b ≡ false → P p) × All (λ p. has_ignored (R.root ++ p) ≡ false → P p) ps)
      by_test true rest w = (λ h. (λ e. cc, w.0 h), λ h. w.1 h.1)
      by_test false rest w = (λ h. (λ e. h.0, w.0 h.1), λ h. (h.0 refl, w.1 h.1))

  iter_files-Found :
      (root : FilePath) (suffix : String) (P : FilePath → Type 0)
      → All P (iter_files H R root suffix) ↔ Found root suffix P
  unfolding iter_files
  iter_files-Found root suffix P =
      iff_trans (sort_paths-All P (kept_files H R (R.rglob root suffix)))
        (kept_files-All P (R.rglob root suffix))

  abbrev pub WithinLimit : FilePath → Type 0
  WithinLimit p = length (R.lines p) ≤ limit_of p

  length_failures-nil_iff : (p : FilePath) → (length_failures H R p ≡ []) ↔ WithinLimit p
  unfolding length_failures
  length_failures-nil_iff p =
      iff_trans (single-nil_iff (ltb (limit_of p) (length (R.lines p))) _)
        (not_above_iff (limit_of p) (length (R.lines p)))

  pub file_lengths-nil_iff :
      (check_file_lengths H R ≡ [])
      ↔ (Found python_source ".py" WithinLimit × Found typescript_source ".ts" WithinLimit)
  unfolding check_file_lengths
  file_lengths-nil_iff =
      let ps = iter_files H R python_source ".py" in
      let ts = iter_files H R typescript_source ".ts" in
      let w =
        iff_trans (collect-nil_iff (length_failures H R) (ps ++ ts)) (
          iff_trans (each_iff (ps ++ ts) length_failures-nil_iff) (append-All WithinLimit ps ts)) in
      let a = iter_files-Found python_source ".py" WithinLimit in
      let b = iter_files-Found typescript_source ".ts" WithinLimit in
      (λ h. let k = w.0 h in (a.0 k.0, b.0 k.1), λ h. w.1 (a.1 h.0, b.1 h.1))

  -- The functions of a file outside the tests have at most forty lines with code.
  abbrev pub ShortFunctions : FilePath → Type 0
  ShortFunctions p =
      contains "/test/" ("/" +++ relative p) ≡ false
      → All (λ n. effective_lines_for_node H R p n ≤ max_python_function_lines) (R.functions p)

  function_failures-nil_iff :
      (p : FilePath) (n : FunctionNode)
      → (function_failures H R p n ≡ [])
        ↔ (effective_lines_for_node H R p n ≤ max_python_function_lines)
  unfolding function_failures
  function_failures-nil_iff p n =
      let total = effective_lines_for_node H R p n in
      iff_trans (single-nil_iff (ltb max_python_function_lines total) _)
        (not_above_iff max_python_function_lines total)

  file_function_failures-nil_iff :
      (p : FilePath) → (file_function_failures H R p ≡ []) ↔ ShortFunctions p
  unfolding file_function_failures
  file_function_failures-nil_iff p =
      by_test (contains "/test/" ("/" +++ relative p))
        (collect (function_failures H R p) (R.functions p))
        (iff_trans (collect-nil_iff (function_failures H R p) (R.functions p))
          (each_iff (R.functions p) (function_failures-nil_iff p)))
    where
      by_test :
          {Q : Type 0} (b : Bool) (failures : List String)
          → ((failures ≡ []) ↔ Q)
          → ((if b then [] else failures) ≡ []) ↔ (b ≡ false → Q)
      by_test true failures w = (λ h e. cc, λ h. refl)
      by_test false failures w = (λ h e. w.0 h, λ h. w.1 (h refl))

  pub function_lengths-nil_iff :
      (check_python_function_lengths H R ≡ []) ↔ Found python_source ".py" ShortFunctions
  unfolding check_python_function_lengths
  function_lengths-nil_iff =
      let ps = iter_files H R python_source ".py" in
      iff_trans (collect-nil_iff (file_function_failures H R) ps) (
        iff_trans (each_iff ps file_function_failures-nil_iff)
          (iter_files-Found python_source ".py" ShortFunctions))
