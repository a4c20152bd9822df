-- ===== src/Strings/Lists.antt =====
-- Python's `separator.join(texts)`, and `sorted` of a set of texts.
use synapse_network_sdk.Base.{String, List, [], ◌∷◌, str_eq, if◌then◌else◌}
use synapse_network_sdk.Strings.{◌+++◌}
use synapse_network_sdk.Strings.Prefix.{is_before}

-- `separator.join(texts)`
unfoldable pub join : String → List String → String
join separator [] = ""
join separator (s ∷ []) = s
join separator (s ∷ t ∷ ts) = s +++ separator +++ join separator (t ∷ ts)

-- a text is put into a sorted list, unless it is there
unfoldable pub insert : String → List String → List String
unfolding is_before
insert s [] = s ∷ []
insert s (t ∷ ts) =
    let rest = insert s ts in
    if str_eq s t then t ∷ ts else if is_before s t then s ∷ t ∷ ts else t ∷ rest

-- `sorted` of the set of the texts
unfoldable pub sorted_set : List String → List String
unfolding insert
sorted_set [] = []
sorted_set (s ∷ ss) = insert s (sorted_set ss)
