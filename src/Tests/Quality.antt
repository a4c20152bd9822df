-- ===== src/Tests/Quality.antt =====
-- The gate on a small repository, and on one that is checked out below a directory named build.
use synapse_network_sdk.Base.{true, ◌≡◌, refl, ◌↔◌, some, [], ◌∷◌, All}
use synapse_network_sdk.Quality.{
  FunctionNode, Pattern, Repository, python_source, typescript_source, python_typed_return_files,
  typescript_typed_return_files, go_typed_return_files, java_typed_return_files,
  dotnet_typed_return_files, has_ignored,
}
use synapse_network_sdk.Quality.Checks.{check_file_lengths, check_python_function_lengths, gate}
use synapse_network_sdk.Quality.Lengths.{Found, WithinLimit, ShortFunctions}
use synapse_network_sdk.Quality.Returns.{TypedFunction, ConstructorsOnly, NoMaps}
use synapse_network_sdk.Quality.Passes.{gate_iff, ignored_root}
use synapse_network_sdk.Tests.World.{world}

abbrev node : FunctionNode
node = record {
  lineno = 1;
  name = "login";
  end_lineno = 3;
  body_lineno = some 2;
  returns = some "dict";
}

abbrev repository : Repository
repository = record {
  root = "home" ∷ "sdk" ∷ [];
  rglob = λ dir suffix. ("python" ∷ "synapse_client" ∷ "auth.py" ∷ []) ∷ [];
  lines = λ path. "def login(self) -> dict:" ∷ "    # a comment" ∷ "    return {}" ∷ [];
  functions = λ path. node ∷ [];
  find = λ pattern path. [];
}

abbrev built : Repository
built = record repository { root = "tmp" ∷ "build" ∷ "sdk" ∷ [] }

gate_iff_example : (gate world repository ≡ 0) ↔ (
    Found world repository python_source ".py" (WithinLimit world repository)
    × Found world repository typescript_source ".ts" (WithinLimit world repository)
    × Found world repository python_source ".py" (ShortFunctions world repository)
    × All
        (λ p. All (TypedFunction world repository) (repository.functions p))
        python_typed_return_files
    × All
        (λ p.
          ConstructorsOnly world repository Pattern.typescript_function p
          × ConstructorsOnly world repository Pattern.typescript_method p)
        typescript_typed_return_files
    × All (NoMaps world repository) go_typed_return_files
    × All (λ p. repository.find Pattern.java p ≡ []) java_typed_return_files
    × All (λ p. repository.find Pattern.dotnet p ≡ []) dotnet_typed_return_files)
gate_iff_example = gate_iff world repository

-- The public function that is annotated with a raw dictionary is found.
refuses : gate world repository ≡ 1
unfolding gate
refuses = refl

hidden : has_ignored built.root ≡ true
unfolding has_ignored
hidden = refl

ignored_root_example :
    (check_file_lengths world built ≡ []) × (check_python_function_lengths world built ≡ [])
ignored_root_example = ignored_root world built hidden
