-- ===== src/Quality/Returns.antt =====
-- The checks of what public methods return.
use mathlib.Core.Path.{subst}
use synapse_network_sdk.Base.{
  String, Bool, true, false, ◌≡◌, refl, ◌↔◌, Option, none, some, List, [], ◌∷◌, ◌++◌, str_eq,
  if◌then◌else◌, All,
}
use synapse_network_sdk.Strings.{◌+++◌}
use synapse_network_sdk.Strings.Prefix.{starts_with}
use synapse_network_sdk.Host.{Host}
use synapse_network_sdk.Evidence.Results.{append-nil_iff, each_iff}
use synapse_network_sdk.Quality.{
  FilePath, FunctionNode, Match, Pattern, Repository, python_typed_return_files,
  typescript_typed_return_files, go_typed_return_files, java_typed_return_files,
  dotnet_typed_return_files, is_member, collect, any_in, go_forbidden,
}
use synapse_network_sdk.Quality.Checks.{
  raw_returns, python_return_failures, check_python_public_return_models, typescript_failures,
  check_typescript_public_return_models, go_failures, check_go_public_return_models,
  check_java_public_return_models, check_dotnet_public_return_models, raw_failure,
}
use synapse_network_sdk.Quality.Loops.{
  collect-nil_iff, sorted_set-nil_iff, single-nil_iff, iff_trans, sorted-nil_iff,
}

the_text : {a b : String} → ◌≡◌ {A = Option String} (some a) (some b) → a ≡ b
the_text e = cc

-- A loop in which every item fails.
each_fails :
    {A : Type 0} (message : A → String) (xs : List A)
    → (collect (λ x. message x ∷ []) xs ≡ []) ↔ (xs ≡ [])
unfolding collect
each_fails message [] = (λ k. refl, λ k. refl)
each_fails message (x ∷ xs) = (λ k. cc, λ k. cc)

module _ (H : Host) (R : Repository) where
  -- A public function of Python is not annotated with a raw dictionary.
  abbrev pub TypedFunction : FunctionNode → Type 0
  TypedFunction n =
      (annotation : String)
      → n.returns ≡ some annotation
      → starts_with "_" n.name ≡ false
      → is_member annotation raw_returns ≡ false

  python_failures-nil_iff :
      (p : FilePath) (n : FunctionNode) → (python_return_failures H R p n ≡ []) ↔ TypedFunction n
  unfolding python_return_failures
  python_failures-nil_iff p n = by_returns n.returns
    where
      by_tests :
          (hidden raw : Bool) (s : String)
          → ((if hidden then [] else if raw then s ∷ [] else []) ≡ [])
            ↔ (hidden ≡ false → raw ≡ false)
      by_tests true raw s = (λ h e. cc, λ h. refl)
      by_tests false true s = (λ h. cc, λ h. let k = h refl in cc)
      by_tests false false s = (λ h e. refl, λ h. refl)

      by_returns :
          (o : Option String)
          → ((elim o as (λ _. List String) [
            | none ↦ []
            | some annotation ↦
                if starts_with "_" n.name
                then []
                else if is_member annotation raw_returns
                then raw_failure H R p n.lineno n.name (annotation +++ "; use a SDK model") ∷ []
                else []
          ])
              ≡ [])
            ↔ ((annotation : String)
                → o ≡ some annotation
                → starts_with "_" n.name ≡ false
                → is_member annotation raw_returns ≡ false)
      by_returns none = (λ h a e. cc, λ h. refl)
      by_returns (some a) =
          let w =
            by_tests (starts_with "_" n.name) (is_member a raw_returns)
              (raw_failure H R p n.lineno n.name (a +++ "; use a SDK model")) in
          (
            λ h b e k. subst (λ x. is_member x raw_returns ≡ false) (the_text e) (w.0 h k),
            λ h. w.1 (h a refl),
          )

  pub python_returns-nil_iff :
      (check_python_public_return_models H R ≡ [])
      ↔ All (λ p. All TypedFunction (R.functions p)) python_typed_return_files
  unfolding check_python_public_return_models
  python_returns-nil_iff =
      sorted-nil_iff (λ path. collect (python_return_failures H R path) (R.functions path))
        python_typed_return_files
        (λ p.
          iff_trans (collect-nil_iff (python_return_failures H R p) (R.functions p))
            (each_iff (R.functions p) (python_failures-nil_iff p)))

  -- The only method of TypeScript that is matched is the constructor.
  abbrev pub ConstructorsOnly : Pattern → FilePath → Type 0
  ConstructorsOnly pattern p = All (λ m. str_eq m.group_one "constructor" ≡ true) (R.find pattern p)

  typescript_match_iff :
      (p : FilePath) (m : Match)
      → (typescript_failures H R p m ≡ []) ↔ (str_eq m.group_one "constructor" ≡ true)
  unfolding typescript_failures
  typescript_match_iff p m =
      by_test (str_eq m.group_one "constructor")
        (raw_failure H R p m.lineno m.group_one "Record; use a named SDK result type")
    where
      by_test : (b : Bool) (s : String) → ((if b then [] else s ∷ []) ≡ []) ↔ (b ≡ true)
      by_test true s = (λ h. refl, λ h. refl)
      by_test false s = (λ h. cc, λ h. cc)

  typescript_file_iff :
      (p : FilePath)
      → (collect (typescript_failures H R p) (R.find Pattern.typescript_function p)
            ++ collect (typescript_failures H R p) (R.find Pattern.typescript_method p)
          ≡ [])
        ↔ (ConstructorsOnly Pattern.typescript_function p
            × ConstructorsOnly Pattern.typescript_method p)
  typescript_file_iff p =
      let by_pattern = (λ (pattern : Pattern).
        iff_trans (collect-nil_iff (typescript_failures H R p) (R.find pattern p))
          (each_iff (R.find pattern p) (typescript_match_iff p))) in
      let f = by_pattern Pattern.typescript_function in
      let m = by_pattern Pattern.typescript_method in
      let w =
        append-nil_iff (collect (typescript_failures H R p) (R.find Pattern.typescript_function p))
          (collect (typescript_failures H R p) (R.find Pattern.typescript_method p)) in
      (λ h. let k = w.0 h in (f.0 k.0, m.0 k.1), λ h. w.1 (f.1 h.0, m.1 h.1))

  pub typescript_returns-nil_iff :
      (check_typescript_public_return_models H R ≡ [])
      ↔ All
          (λ p.
            ConstructorsOnly Pattern.typescript_function p
            × ConstructorsOnly Pattern.typescript_method p)
          typescript_typed_return_files
  unfolding check_typescript_public_return_models
  typescript_returns-nil_iff =
      iff_trans (sorted_set-nil_iff _)
        (sorted-nil_iff _ typescript_typed_return_files typescript_file_iff)

  abbrev pub NoMaps : FilePath → Type 0
  NoMaps p = All (λ m. any_in go_forbidden m.group_two ≡ false) (R.find Pattern.go p)

  go_match_iff :
      (p : FilePath) (m : Match)
      → (go_failures H R p m ≡ []) ↔ (any_in go_forbidden m.group_two ≡ false)
  unfolding go_failures
  go_match_iff p m = single-nil_iff (any_in go_forbidden m.group_two) _

  pub go_returns-nil_iff :
      (check_go_public_return_models H R ≡ []) ↔ All NoMaps go_typed_return_files
  unfolding check_go_public_return_models
  go_returns-nil_iff =
      sorted-nil_iff (λ path. collect (go_failures H R path) (R.find Pattern.go path))
        go_typed_return_files
        (λ p.
          iff_trans (collect-nil_iff (go_failures H R p) (R.find Pattern.go p))
            (each_iff (R.find Pattern.go p) (go_match_iff p)))

  pub java_returns-nil_iff :
      (check_java_public_return_models H R ≡ [])
      ↔ All (λ p. R.find Pattern.java p ≡ []) java_typed_return_files
  unfolding check_java_public_return_models
  java_returns-nil_iff = sorted-nil_iff _ java_typed_return_files (λ p.
      each_fails
        (λ m.
          raw_failure H R p m.lineno m.group_two (m.group_one +++ "; use a named SDK result class"))
        (R.find Pattern.java p))

  pub dotnet_returns-nil_iff :
      (check_dotnet_public_return_models H R ≡ [])
      ↔ All (λ p. R.find Pattern.dotnet p ≡ []) dotnet_typed_return_files
  unfolding check_dotnet_public_return_models
  dotnet_returns-nil_iff = sorted-nil_iff _ dotnet_typed_return_files (λ p.
      each_fails
        (λ m.
          raw_failure H R p m.lineno m.group_two
            (m.group_one +++ "; use a named SDK result record"))
        (R.find Pattern.dotnet p))
