-- ===== src/Client/Discovery/Paging.antt =====
-- Pages: which results `discover` and `search` ask for.
use synapse_network_sdk.Base.{ℕ, suc, ◌+◌, ◌-◌, ◌*◌, ◌/◌, ◌%◌, ◌≤◌, ◌<◌, ◌≡◌, ap, refl, ◌↔◌, arith}
use synapse_network_sdk.Base.Int.{ℤ, pos, at_least_one-pos}
use native.Mathlib.Nat.{div-add-mod', mod-lt}
use synapse_network_sdk.Client.Discovery.{page_of, page_size_of}

-- The index of the first result of a page.
abbrev pub page_start : ℤ → ℕ → ℕ
page_start limit offset = (page_of limit (pos offset) - 1) * page_size_of limit

page_of_lem :
    (limit : ℤ) (offset : ℕ) → page_of limit (pos offset) ≡ suc (offset / page_size_of limit)
unfolding page_of page_size_of
page_of_lem limit offset = refl

page_start_lem :
    (limit : ℤ) (offset : ℕ)
    → page_start limit offset ≡ offset / page_size_of limit * page_size_of limit
page_start_lem limit offset =
    rw (page_of_lem limit offset)
      (ap (λ n. n * page_size_of limit) (pred_lem (offset / page_size_of limit)))
  where
    pred_lem : (n : ℕ) → suc n - 1 ≡ n
    pred_lem n = omega arith

page_size_of-pos : (limit : ℤ) → 0 < page_size_of limit
unfolding page_size_of
page_size_of-pos limit = at_least_one-pos limit

-- For an offset from 0 up, the page that is asked for holds the result at the offset: it begins at
-- or before the offset, and ends behind it.
pub page_holds_offset :
    (limit : ℤ) (offset : ℕ)
    → (page_start limit offset ≤ offset) × (offset < page_start limit offset + page_size_of limit)
page_holds_offset limit offset =
    let size = page_size_of limit in
    let start : page_start limit offset ≡ offset / size * size = page_start_lem limit offset in
    omega (arith, start, div-add-mod' offset size, mod-lt offset (page_size_of-pos limit))

-- The page begins at the offset itself exactly if the page size divides the offset: for any other
-- offset the first results are ones that the offset should have skipped.
pub page_start_iff :
    (limit : ℤ) (offset : ℕ)
    → (page_start limit offset ≡ offset) ↔ (offset % page_size_of limit ≡ 0)
page_start_iff limit offset =
    let size = page_size_of limit in
    let start : page_start limit offset ≡ offset / size * size = page_start_lem limit offset in
    (
      λ same. omega (arith, start, div-add-mod' offset size),
      λ divides. omega (arith, start, div-add-mod' offset size),
    )
