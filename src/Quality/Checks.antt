-- ===== src/Quality/Checks.antt =====
-- source_quality_checks.py: the checks, and `main`.
use synapse_network_sdk.Base.{
  ℕ, String, ltb, none, some, or_else, List, [], ◌∷◌, ◌++◌, str_eq, if◌then◌else◌, length,
}
use synapse_network_sdk.Base.Int.{pos}
use synapse_network_sdk.Strings.{◌+++◌}
use synapse_network_sdk.Strings.Prefix.{starts_with, contains}
use synapse_network_sdk.Strings.Lists.{sorted_set}
use synapse_network_sdk.Host.{Host}
use synapse_network_sdk.Quality.{
  FilePath, FunctionNode, Match, Pattern, Repository, python_source, typescript_source,
  max_python_function_lines, python_typed_return_files, typescript_typed_return_files,
  go_typed_return_files, java_typed_return_files, dotnet_typed_return_files, is_member, has_ignored,
  sort_paths, collect, relative, limit_of, count_effective, slice, any_in, go_forbidden,
}

-- `annotation in forbidden`
abbrev pub raw_returns : List String
raw_returns = "Dict[str, Any]" ∷ "dict" ∷ "typing.Dict[str, Any]" ∷ []

unfoldable pub exit_code : List String → ℕ
exit_code [] = 0
exit_code (_ ∷ _) = 1

module _ (H : Host) (R : Repository) where
  -- the filter of `iter_files`
  unfoldable pub kept_files : List FilePath → List FilePath
  unfolding has_ignored
  kept_files [] = []
  kept_files (p ∷ ps) =
      let rest = kept_files ps in if has_ignored (R.root ++ p) then rest else p ∷ rest

  unfoldable pub iter_files : FilePath → String → List FilePath
  unfolding kept_files sort_paths
  iter_files root suffix = sort_paths (kept_files (R.rglob root suffix))

  -- `f"{n}"`
  abbrev pub number : ℕ → String
  number n = H.show_int (pos n)

  -- the loop body of `check_file_lengths`
  unfoldable pub length_failures : FilePath → List String
  unfolding limit_of relative
  length_failures path =
      let total = length (R.lines path) in
      if ltb (limit_of path) total
      then (relative path
          +++ " has "
          +++ number total
          +++ " lines; limit is "
          +++ number (limit_of path))
        ∷ []
      else []

  unfoldable pub check_file_lengths : List String
  unfolding collect iter_files length_failures
  check_file_lengths =
      collect length_failures (iter_files python_source ".py" ++ iter_files typescript_source ".ts")

  unfoldable pub effective_lines_for_node : FilePath → FunctionNode → ℕ
  unfolding slice count_effective
  effective_lines_for_node path node =
      count_effective (slice (or_else node.body_lineno node.lineno) node.end_lineno (R.lines path))

  -- the inner loop body of `check_python_function_lengths`
  unfoldable pub function_failures : FilePath → FunctionNode → List String
  unfolding effective_lines_for_node relative
  function_failures path node =
      let total = effective_lines_for_node path node in
      if ltb max_python_function_lines total
      then (relative path
          +++ ":"
          +++ number node.lineno
          +++ " "
          +++ node.name
          +++ " has "
          +++ number total
          +++ " effective lines; limit is "
          +++ number max_python_function_lines)
        ∷ []
      else []

  unfoldable pub file_function_failures : FilePath → List String
  unfolding collect function_failures contains relative
  file_function_failures path =
      if contains "/test/" ("/" +++ relative path)
      then []
      else collect (function_failures path) (R.functions path)

  unfoldable pub check_python_function_lengths : List String
  unfolding collect file_function_failures iter_files
  check_python_function_lengths = collect file_function_failures (iter_files python_source ".py")

  -- `{relative(path)}:{lineno} {name} returns raw …`
  unfoldable pub raw_failure : FilePath → ℕ → String → String → String
  unfolding relative
  raw_failure path lineno name rest =
      relative path +++ ":" +++ number lineno +++ " " +++ name +++ " returns raw " +++ rest

  unfoldable pub python_return_failures : FilePath → FunctionNode → List String
  unfolding raw_failure starts_with is_member
  python_return_failures path node = elim node.returns [
    | none ↦ []
    | some annotation ↦
        if starts_with "_" node.name
        then []
        else if is_member annotation raw_returns
        then raw_failure path node.lineno node.name (annotation +++ "; use a SDK model") ∷ []
        else []
  ]

  unfoldable pub check_python_public_return_models : List String
  unfolding collect python_return_failures sort_paths
  check_python_public_return_models =
      collect (λ path. collect (python_return_failures path) (R.functions path))
        (sort_paths python_typed_return_files)

  unfoldable pub typescript_failures : FilePath → Match → List String
  unfolding raw_failure
  typescript_failures path m =
      if str_eq m.group_one "constructor"
      then []
      else raw_failure path m.lineno m.group_one "Record; use a named SDK result type" ∷ []

  unfoldable pub check_typescript_public_return_models : List String
  unfolding collect typescript_failures sort_paths sorted_set
  check_typescript_public_return_models = sorted_set (
      collect
        (λ path.
          collect (typescript_failures path) (R.find Pattern.typescript_function path)
          ++ collect (typescript_failures path) (R.find Pattern.typescript_method path))
        (sort_paths typescript_typed_return_files))

  unfoldable pub go_failures : FilePath → Match → List String
  unfolding raw_failure any_in
  go_failures path m =
      if any_in go_forbidden m.group_two
      then raw_failure path m.lineno m.group_one "map; use a named SDK result struct" ∷ []
      else []

  unfoldable pub check_go_public_return_models : List String
  unfolding collect go_failures sort_paths
  check_go_public_return_models =
      collect (λ path. collect (go_failures path) (R.find Pattern.go path))
        (sort_paths go_typed_return_files)

  unfoldable pub check_java_public_return_models : List String
  unfolding collect raw_failure sort_paths
  check_java_public_return_models =
      collect
        (λ path.
          collect
            (λ m.
              raw_failure path m.lineno m.group_two
                (m.group_one +++ "; use a named SDK result class")
              ∷ [])
            (R.find Pattern.java path))
        (sort_paths java_typed_return_files)

  unfoldable pub check_dotnet_public_return_models : List String
  unfolding collect raw_failure sort_paths
  check_dotnet_public_return_models =
      collect
        (λ path.
          collect
            (λ m.
              raw_failure path m.lineno m.group_two
                (m.group_one +++ "; use a named SDK result record")
              ∷ [])
            (R.find Pattern.dotnet path))
        (sort_paths dotnet_typed_return_files)

  unfoldable pub check_public_sdk_return_models : List String
  unfolding check_python_public_return_models check_typescript_public_return_models
      check_go_public_return_models check_java_public_return_models
      check_dotnet_public_return_models
  check_public_sdk_return_models =
      check_python_public_return_models
      ++ (check_typescript_public_return_models
          ++ (check_go_public_return_models
              ++ (check_java_public_return_models ++ check_dotnet_public_return_models)))

  unfoldable pub gate_failures : List String
  unfolding check_file_lengths check_python_function_lengths check_public_sdk_return_models
  gate_failures =
      check_file_lengths ++ (check_python_function_lengths ++ check_public_sdk_return_models)

  -- what `main` returns
  unfoldable pub gate : ℕ
  unfolding gate_failures exit_code
  gate = exit_code gate_failures
