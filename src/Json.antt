-- ===== src/Json.antt =====
-- JSON values as the SDK sees them after `response.json()` and before `json=`, and the `dict`
-- operations that it applies to them. A number is kept as the text of its literal.
pub mod Laws
use synapse_network_sdk.Base.{
  String, Bool, true, false, not, ◌&&◌, Option, none, some, List, [], ◌∷◌, str_eq, if◌then◌else◌,
}
use synapse_network_sdk.Strings.{truthy}

mutual
  pub data Json : Type 0 where
    null : Json
    bool : Bool → Json
    num : String → Json
    str : String → Json
    arr : Items → Json
    obj : Fields → Json

  pub data Items : Type 0 where
    nil : Items
    cons : Json → Items → Items

  pub data Fields : Type 0 where
    end : Fields
    field : String → Json → Fields → Fields

-- `d.get(k)`, where `none` stands for a missing key.
unfoldable pub get? : String → Fields → Option Json
get? k end = none
get? k (field j v d) = if str_eq j k then some v else get? k d

-- `d.get(k)`, where a missing key gives `None`.
unfoldable pub get : String → Fields → Json
unfolding get?
get k d = elim (get? k d) [ none ↦ null | some v ↦ v ]

-- `k in d`
unfoldable pub has_key : String → Fields → Bool
unfolding get?
has_key k d = elim (get? k d) [ none ↦ false | some _ ↦ true ]

-- `d[k] = v`
unfoldable pub put : String → Json → Fields → Fields
put k v end = field k v end
put k v (field j w d) = if str_eq j k then field j v d else field j w (put k v d)

-- `d[k] = v` under `if v is not None`
unfoldable pub put_some : String → Option Json → Fields → Fields
unfolding put
put_some k none d = d
put_some k (some v) d = put k v d

-- `bool(d)`
abbrev pub is_empty : Fields → Bool
is_empty end = true
is_empty (field _ _ _) = false

abbrev pub is_nil : Items → Bool
is_nil nil = true
is_nil (cons _ _) = false

-- `isinstance(v, dict)`, with the dictionary.
abbrev pub as_dict : Json → Option Fields
as_dict (obj d) = some d
as_dict null = none
as_dict (bool _) = none
as_dict (num _) = none
as_dict (str _) = none
as_dict (arr _) = none

-- `v if isinstance(v, dict) else {}`
abbrev pub dict_or_empty : Json → Fields
dict_or_empty (obj d) = d
dict_or_empty null = end
dict_or_empty (bool _) = end
dict_or_empty (num _) = end
dict_or_empty (str _) = end
dict_or_empty (arr _) = end

-- `[item for item in items if isinstance(item, dict)]`
unfoldable pub dicts : Items → List Fields
dicts nil = []
dicts (cons v vs) = elim (as_dict v) [ none ↦ dicts vs | some d ↦ d ∷ dicts vs ]

-- A list of texts as a JSON array.
unfoldable pub texts : List String → Items
texts [] = nil
texts (s ∷ ss) = cons (str s) (texts ss)

-- `{k: v for k, v in d.items() if v is not None}`
unfoldable pub without_nulls : Fields → Fields
without_nulls end = end
without_nulls (field k null d) = without_nulls d
without_nulls (field k (bool b) d) = field k (bool b) (without_nulls d)
without_nulls (field k (num n) d) = field k (num n) (without_nulls d)
without_nulls (field k (str s) d) = field k (str s) (without_nulls d)
without_nulls (field k (arr vs) d) = field k (arr vs) (without_nulls d)
without_nulls (field k (obj e) d) = field k (obj e) (without_nulls d)
