-- ===== src/Json/Laws.antt =====
-- The laws of the dictionary operations.
use synapse_network_sdk.Base.{
  String, false, ◌≡◌, refl, Option, none, some, arith, str_eq, eq_iff, eq_refl, if◌then◌else◌,
}
use synapse_network_sdk.Json.{Json, Fields, end, field, get?, put, put_some}

pub get?-put :
    (k j : String) (v : Json) (d : Fields)
    → get? j (put k v d) ≡ (if str_eq k j then some v else get? j d)
unfolding get? put
get?-put k j v end = refl
get?-put k j v (field i w d) = ground (arith, eq_iff k j, eq_iff i k, eq_iff i j, get?-put k j v d)

pub get?-put_self : (k : String) (v : Json) (d : Fields) → get? k (put k v d) ≡ some v
get?-put_self k v d = rw get?-put (rw eq_refl)

pub get?-put_ne :
    (k j : String) (v : Json) (d : Fields) → str_eq k j ≡ false → get? j (put k v d) ≡ get? j d
get?-put_ne k j v d h = rw get?-put (rw h)

pub get?-put_some :
    (k j : String) (o : Option Json) (d : Fields)
    → get? j (put_some k o d)
      ≡ elim o [ none ↦ get? j d | some v ↦ if str_eq k j then some v else get? j d ]
unfolding put_some
get?-put_some k j none d = refl
get?-put_some k j (some v) d = get?-put k j v d
