-- ===== src/Quality/Passes.antt =====
-- What it means that the gate passes.
use synapse_network_sdk.Base.{
  String, Bool, true, false, ◌≡◌, refl, sym, ◌∙◌, ◌↔◌, ◌||◌, List, [], ◌∷◌, ◌++◌, All,
}
use synapse_network_sdk.Host.{Host}
use synapse_network_sdk.Evidence.Results.{append-nil_iff}
use synapse_network_sdk.Quality.{
  FilePath, Pattern, Repository, ignored_dirs, python_source, typescript_source,
  python_typed_return_files, typescript_typed_return_files, go_typed_return_files,
  java_typed_return_files, dotnet_typed_return_files, is_member, has_ignored,
}
use synapse_network_sdk.Quality.Checks.{
  check_file_lengths, check_python_function_lengths, check_python_public_return_models,
  check_typescript_public_return_models, check_go_public_return_models,
  check_java_public_return_models, check_dotnet_public_return_models,
  check_public_sdk_return_models, gate_failures, exit_code, gate,
}
use synapse_network_sdk.Quality.Loops.{exit_code_iff}
use synapse_network_sdk.Quality.Lengths.{
  Found, WithinLimit, ShortFunctions, file_lengths-nil_iff, function_lengths-nil_iff,
}
use synapse_network_sdk.Quality.Returns.{
  TypedFunction, ConstructorsOnly, NoMaps, python_returns-nil_iff, typescript_returns-nil_iff,
  go_returns-nil_iff, java_returns-nil_iff, dotnet_returns-nil_iff,
}

has_ignored-append : (ps qs : List String) → has_ignored ps ≡ true → has_ignored (ps ++ qs) ≡ true
unfolding has_ignored
has_ignored-append [] qs h = cc
has_ignored-append (p ∷ ps) qs h = by_part (is_member p ignored_dirs) h (has_ignored-append ps qs)
  where
    by_part :
        (b : Bool)
        → (b || has_ignored ps) ≡ true
        → (has_ignored ps ≡ true → has_ignored (ps ++ qs) ≡ true)
        → (b || has_ignored (ps ++ qs)) ≡ true
    by_part true h rest = refl
    by_part false h rest = rest h

vacuous :
    (P : FilePath → Type 0) (root : List String) (ps : List FilePath)
    → has_ignored root ≡ true
    → All (λ p. has_ignored (root ++ p) ≡ false → P p) ps
vacuous P root [] h = tt
vacuous P root (p ∷ ps) h = ((λ e. let k = has_ignored-append root p h in cc), vacuous P root ps h)

-- Seven lists of failures, one behind the other.
all-nil_iff :
    (a b c d e f g : List String)
    → (a ++ (b ++ (c ++ (d ++ (e ++ (f ++ g))))) ≡ [])
      ↔ ((a ≡ []) × (b ≡ []) × (c ≡ []) × (d ≡ []) × (e ≡ []) × (f ≡ []) × (g ≡ []))
all-nil_iff a b c d e f g =
    let w0 = append-nil_iff a (b ++ (c ++ (d ++ (e ++ (f ++ g))))) in
    let w1 = append-nil_iff b (c ++ (d ++ (e ++ (f ++ g)))) in
    let w2 = append-nil_iff c (d ++ (e ++ (f ++ g))) in
    let w3 = append-nil_iff d (e ++ (f ++ g)) in
    let w4 = append-nil_iff e (f ++ g) in
    let w5 = append-nil_iff f g in
    (
      λ h.
          let k0 = w0.0 h in
          let k1 = w1.0 k0.1 in
          let k2 = w2.0 k1.1 in
          let k3 = w3.0 k2.1 in
          let k4 = w4.0 k3.1 in let k5 = w5.0 k4.1 in (k0.0, k1.0, k2.0, k3.0, k4.0, k5.0, k5.1),
      λ h. w0.1 (h.0, w1.1 (h.1, w2.1 (h.2, w3.1 (h.3, w4.1 (h.4, w5.1 (h.5, h.6)))))),
    )

module _ (H : Host) (R : Repository) where
  gate_lem :
      gate H R
      ≡ exit_code (
          check_file_lengths H R
          ++ (check_python_function_lengths H R
              ++ (check_python_public_return_models H R
                  ++ (check_typescript_public_return_models H R
                      ++ (check_go_public_return_models H R
                          ++ (check_java_public_return_models H R
                              ++ check_dotnet_public_return_models H R))))))
  unfolding gate gate_failures check_public_sdk_return_models
  gate_lem = refl

  -- The gate returns 0 exactly when every Python and TypeScript file that is found, and whose path has
  -- no ignored directory, is within its limit of lines, every Python function there has at most forty
  -- lines with code unless its file is below a directory named test, and the files that are listed
  -- for it have no public method that returns a raw dictionary, as the patterns find them, but for
  -- what the patterns take for a method and is a TypeScript constructor.
  pub gate_iff : (gate H R ≡ 0) ↔ (
      Found H R python_source ".py" (WithinLimit H R)
      × Found H R typescript_source ".ts" (WithinLimit H R)
      × Found H R python_source ".py" (ShortFunctions H R)
      × All (λ p. All (TypedFunction H R) (R.functions p)) python_typed_return_files
      × All
          (λ p.
            ConstructorsOnly H R Pattern.typescript_function p
            × ConstructorsOnly H R Pattern.typescript_method p)
          typescript_typed_return_files
      × All (NoMaps H R) go_typed_return_files
      × All (λ p. R.find Pattern.java p ≡ []) java_typed_return_files
      × All (λ p. R.find Pattern.dotnet p ≡ []) dotnet_typed_return_files)
  gate_iff =
      let f = file_lengths-nil_iff H R in
      let n = function_lengths-nil_iff H R in
      let p = python_returns-nil_iff H R in
      let t = typescript_returns-nil_iff H R in
      let g = go_returns-nil_iff H R in
      let j = java_returns-nil_iff H R in
      let d = dotnet_returns-nil_iff H R in
      let all =
        all-nil_iff (check_file_lengths H R) (check_python_function_lengths H R)
          (check_python_public_return_models H R) (check_typescript_public_return_models H R)
          (check_go_public_return_models H R) (check_java_public_return_models H R)
          (check_dotnet_public_return_models H R) in
      let code = exit_code_iff _ in
      (
        λ h.
            let a = all.0 (code.0 (sym gate_lem ∙ h)) in
            let l = f.0 a.0 in (l.0, l.1, n.0 a.1, p.0 a.2, t.0 a.3, g.0 a.4, j.0 a.5, d.0 a.6),
        λ h.
            gate_lem
            ∙ code.1 (all.1 (f.1 (h.0, h.1), n.1 h.2, p.1 h.3, t.1 h.4, g.1 h.5, j.1 h.6, d.1 h.7)),
      )

  -- Where a directory above the repository has one of the ignored names, as `build` or `dist`, the
  -- checks of the lengths find nothing, whatever the files are.
  pub ignored_root :
      has_ignored R.root ≡ true
      → (check_file_lengths H R ≡ []) × (check_python_function_lengths H R ≡ [])
  ignored_root h = (
    (file_lengths-nil_iff H R).1 (
      vacuous _ R.root (R.rglob python_source ".py") h,
      vacuous _ R.root (R.rglob typescript_source ".ts") h,
    ),
    (function_lengths-nil_iff H R).1 (vacuous _ R.root (R.rglob python_source ".py") h),
  )
