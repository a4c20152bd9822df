-- ===== src/Quality.antt =====
-- scripts/ci/source_quality_checks.py: the gate on the lengths of source files and of functions, and
-- on the public methods that return raw dictionaries. The files are read, and Python's is parsed, by
-- the argument: a repository whose files can be read and parsed.
pub mod Checks
pub mod Loops
pub mod Lengths
pub mod Returns
pub mod Passes
use synapse_network_sdk.Base.{
  ℕ, zero, suc, ◌-◌, ◌+◌, String, Bool, true, false, not, ◌||◌, ◌&&◌, ltb, leb, Option, none, some,
  or_else, List, [], ◌∷◌, ◌++◌, str_eq, if◌then◌else◌, length,
}
use synapse_network_sdk.Base.Int.{pos}
use synapse_network_sdk.Strings.{◌+++◌, truthy, strip}
use synapse_network_sdk.Strings.Prefix.{starts_with, contains, is_before}
use synapse_network_sdk.Strings.Lists.{join, sorted_set}
use synapse_network_sdk.Host.{Host}

-- The parts of a path below `ROOT`.
abbrev pub FilePath : Type 0
FilePath = List String

-- A function of a Python file: `lineno`, `name`, `end_lineno`, `body[0].lineno` if it has a body, and
-- `ast.unparse(returns)`.
pub record FunctionNode : Type 0 where
  pub lineno : ℕ
  pub name : String
  pub end_lineno : ℕ
  pub body_lineno : Option ℕ
  pub returns : Option String

-- A match of a pattern: its line, and its groups.
pub record Match : Type 0 where
  pub lineno : ℕ
  pub group_one : String
  pub group_two : String

-- The regular expressions: two of TypeScript, and those of Go, Java and C#.
pub data Pattern : Type 0 where
  typescript_function typescript_method go java dotnet : Pattern

pub record Repository : Type 0 where
  -- the parts of `ROOT`
  pub root : List String
  -- `root.rglob("*" + suffix)`
  pub rglob : FilePath → String → List FilePath
  -- `path.read_text().splitlines()`
  pub lines : FilePath → List String
  -- the function definitions that `ast.walk` meets
  pub functions : FilePath → List FunctionNode
  -- `pattern.finditer(text)`
  pub find : Pattern → FilePath → List Match

abbrev pub python_source : FilePath
python_source = "python" ∷ "synapse_client" ∷ []

abbrev pub typescript_source : FilePath
typescript_source = "typescript" ∷ "src" ∷ []

abbrev pub max_source_lines : ℕ
max_source_lines = 500

abbrev pub max_test_lines : ℕ
max_test_lines = 700

abbrev pub max_python_function_lines : ℕ
max_python_function_lines = 40

abbrev pub ignored_dirs : List String
ignored_dirs =
    "__pycache__" ∷ ".pytest_cache" ∷ ".venv" ∷ "dist" ∷ "build" ∷ "coverage" ∷ "node_modules" ∷ []

abbrev pub below : FilePath → List String → List FilePath
below dir [] = []
below dir (name ∷ names) = (dir ++ (name ∷ [])) ∷ below dir names

abbrev pub python_typed_return_files : List FilePath
python_typed_return_files = below python_source (
    "auth.py" ∷ "_auth_credentials.py" ∷ "_auth_finance.py" ∷ "_auth_provider_control.py"
    ∷ "provider.py" ∷ [])

abbrev pub typescript_typed_return_files : List FilePath
typescript_typed_return_files =
    below typescript_source ("auth.ts" ∷ "auth_provider_control.ts" ∷ "provider.ts" ∷ [])

abbrev pub go_typed_return_files : List FilePath
go_typed_return_files = below ("go" ∷ "synapse" ∷ []) ("auth.go" ∷ "provider_control.go" ∷ [])

abbrev pub java_typed_return_files : List FilePath
java_typed_return_files =
    below ("java" ∷ "src" ∷ "main" ∷ "java" ∷ "ai" ∷ "synapsenetwork" ∷ "sdk" ∷ [])
      ("SynapseAuth.java" ∷ "SynapseProvider.java" ∷ [])

abbrev pub dotnet_typed_return_files : List FilePath
dotnet_typed_return_files =
    below ("dotnet" ∷ "src" ∷ "SynapseNetwork.Sdk" ∷ [])
      ("SynapseAuth.cs" ∷ "SynapseProvider.cs" ∷ [])

unfoldable pub is_member : String → List String → Bool
is_member s [] = false
is_member s (t ∷ ts) = str_eq s t || is_member s ts

-- `any(part in IGNORED_DIRS for part in parts)`
unfoldable pub has_ignored : List String → Bool
unfolding is_member
has_ignored [] = false
has_ignored (part ∷ parts) = is_member part ignored_dirs || has_ignored parts

-- the order of paths, by their parts
unfoldable pub path_before : FilePath → FilePath → Bool
unfolding is_before
path_before p [] = false
path_before [] (t ∷ q) = true
path_before (s ∷ p) (t ∷ q) = is_before s t || str_eq s t && path_before p q

-- `sorted(paths)`
unfoldable pub insert_path : FilePath → List FilePath → List FilePath
unfolding path_before
insert_path p [] = p ∷ []
insert_path p (q ∷ qs) =
    let rest = insert_path p qs in if path_before q p then q ∷ rest else p ∷ q ∷ qs

unfoldable pub sort_paths : List FilePath → List FilePath
unfolding insert_path
sort_paths [] = []
sort_paths (p ∷ ps) = insert_path p (sort_paths ps)

-- a loop that collects the failures of each item
unfoldable pub collect : {A : Type 0} → (A → List String) → List A → List String
collect f [] = []
collect f (x ∷ xs) = f x ++ collect f xs

-- `relative`
unfoldable pub relative : FilePath → String
unfolding join
relative path = join "/" path

-- the limit of a file
unfoldable pub limit_of : FilePath → ℕ
unfolding contains relative
limit_of path =
    if contains "/test/" ("/" +++ relative path) || contains "/tests/" ("/" +++ relative path)
    then max_test_lines
    else max_source_lines

-- `sum(1 for line in lines if line.strip() and not line.strip().startswith("#"))`
unfoldable pub count_effective : List String → ℕ
unfolding truthy strip starts_with
count_effective [] = 0
count_effective (line ∷ ls) =
    let rest = count_effective ls in
    if truthy (strip line) && not (starts_with "#" (strip line)) then 1 + rest else rest

abbrev pub drop_lines : ℕ → List String → List String
drop_lines n [] = []
drop_lines zero (l ∷ ls) = l ∷ ls
drop_lines (suc n) (l ∷ ls) = drop_lines n ls

abbrev pub take_lines : ℕ → List String → List String
take_lines n [] = []
take_lines zero (l ∷ ls) = []
take_lines (suc n) (l ∷ ls) = l ∷ take_lines n ls

-- `source[start - 1 : end]`, for a start from 1 on
unfoldable pub slice : ℕ → ℕ → List String → List String
slice start end source = take_lines (end - (start - 1)) (drop_lines (start - 1) source)

unfoldable pub any_in : List String → String → Bool
unfolding contains
any_in [] text = false
any_in (item ∷ items) text = contains item text || any_in items text

abbrev pub go_forbidden : List String
go_forbidden =
    "map[string]any" ∷ "map[string]interface{}" ∷ "[]map[string]any" ∷ "[]map[string]interface{}"
    ∷ []
