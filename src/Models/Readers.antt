-- ===== src/Models/Readers.antt =====
-- Reading the fields of a model: a chain of `Option`, which fails where pydantic refuses a field.
use synapse_network_sdk.Base.{Bool, String, Option, none, some, List, [], ◌∷◌}
use synapse_network_sdk.Base.Int.{ℤ}
use synapse_network_sdk.Json.{Json, Items, nil, Fields, end}
use synapse_network_sdk.Runtime.{Float}
use synapse_network_sdk.Host.{Host, Kind}

infixl 5 ◌>>=◌
abbrev pub ◌>>=◌ : {A B : Type 0} → Option A → (A → Option B) → Option B
none >>= f = none
some a >>= f = f a

-- A nested model that may be absent, and a list of nested models.
abbrev pub nested : {A : Type 0} → (Fields → Option A) → Option Fields → Option (Option A)
nested f none = some none
nested f (some p) = f p >>= λ a. some (some a)

unfoldable pub each : {A : Type 0} → (Fields → Option A) → List Fields → Option (List A)
each f [] = some []
each f (p ∷ ps) = f p >>= λ a. each f ps >>= λ as_read. some (a ∷ as_read)

module _ (H : Host) where
  abbrev pub text_field : String → String → String → Fields → Option String
  text_field name alias d p = H.read Kind.text name alias d p

  abbrev pub int_field : String → String → ℤ → Fields → Option ℤ
  int_field name alias d p = H.read Kind.integer name alias d p

  abbrev pub flag_field : String → String → Bool → Fields → Option Bool
  flag_field name alias d p = H.read Kind.flag name alias d p

  abbrev pub float_field : String → String → Float → Fields → Option Float
  float_field name alias d p = H.read Kind.number name alias d p

  abbrev pub dict_field : String → String → Fields → Option Fields
  dict_field name alias p = H.read Kind.object name alias end p

  abbrev pub dicts_field : String → String → Fields → Option (List Fields)
  dicts_field name alias p = H.read Kind.objects name alias [] p

  abbrev pub texts_field : String → String → Fields → Option (List String)
  texts_field name alias p = H.read Kind.names name alias [] p

  abbrev pub items_field : String → String → Fields → Option Items
  items_field name alias p = H.read Kind.items name alias nil p

  abbrev pub optional_text : String → String → Fields → Option (Option String)
  optional_text name alias p = H.read (Kind.optional Kind.text) name alias none p

  abbrev pub optional_int : String → String → Fields → Option (Option ℤ)
  optional_int name alias p = H.read (Kind.optional Kind.integer) name alias none p

  abbrev pub optional_float : String → String → Fields → Option (Option Float)
  optional_float name alias p = H.read (Kind.optional Kind.number) name alias none p

  abbrev pub optional_dict : String → String → Fields → Option (Option Fields)
  optional_dict name alias p = H.read (Kind.optional Kind.object) name alias none p

  abbrev pub optional_any : String → String → Fields → Option (Option Json)
  optional_any name alias p = H.read (Kind.optional Kind.anything) name alias none p

  abbrev pub mode_field : String → String → String → Fields → Option String
  mode_field name alias d p = H.read Kind.mode name alias d p
