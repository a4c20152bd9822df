-- ===== src/Strings/Laws.antt =====
-- What is left after stripping.
use Prim.Native.String.{[], ◌∷◌}
use synapse_network_sdk.Base.{
  Char, String, Bool, true, false, ◌≡◌, refl, inl, inr, ap, ◌∙◌, Bool-cases,
}
use synapse_network_sdk.Strings.{
  truthy, is_space, is_slash, strip_left, keep_before, strip_right, strip, rstrip_slash,
}

-- The first, or the last, character of a text fails the test; an empty text passes.
abbrev pub HeadFails : (Char → Bool) → String → Type 0
HeadFails p [] = Unit
HeadFails p (c ∷ _) = p c ≡ false

abbrev pub LastFails : (Char → Bool) → String → Type 0
LastFails p [] = Unit
LastFails p (c ∷ []) = p c ≡ false
LastFails p (_ ∷ d ∷ s) = LastFails p (d ∷ s)

pub strip_left-HeadFails : (p : Char → Bool) (s : String) → HeadFails p (strip_left p s)
unfolding strip_left
strip_left-HeadFails p [] = tt
strip_left-HeadFails p (c ∷ s) = elim (Bool-cases (p c)) [
  | inl space ↦ rw space (strip_left-HeadFails p s)
  | inr kept ↦ rw kept kept
]

keep_before-LastFails :
    (p : Char → Bool) (b : Bool) (c : Char) (s : String)
    → p c ≡ b
    → LastFails p s
    → LastFails p (keep_before b c s)
unfolding keep_before
keep_before-LastFails p true c [] e h = tt
keep_before-LastFails p true c (d ∷ s) e h = h
keep_before-LastFails p false c [] e h = e
keep_before-LastFails p false c (d ∷ s) e h = h

pub strip_right-LastFails : (p : Char → Bool) (s : String) → LastFails p (strip_right p s)
unfolding strip_right
strip_right-LastFails p [] = tt
strip_right-LastFails p (c ∷ s) =
    keep_before-LastFails p (p c) c (strip_right p s) refl (strip_right-LastFails p s)

keep_before-HeadFails :
    (p : Char → Bool) (c : Char) (s : String) → p c ≡ false → HeadFails p (keep_before (p c) c s)
unfolding keep_before
keep_before-HeadFails p c s e = rw e e

pub strip_right-HeadFails :
    (p : Char → Bool) (s : String) → HeadFails p s → HeadFails p (strip_right p s)
unfolding strip_right
strip_right-HeadFails p [] h = tt
strip_right-HeadFails p (c ∷ s) h = keep_before-HeadFails p c (strip_right p s) h

pub strip_left_of_HeadFails : (p : Char → Bool) (s : String) → HeadFails p s → strip_left p s ≡ s
unfolding strip_left
strip_left_of_HeadFails p [] h = refl
strip_left_of_HeadFails p (c ∷ s) h = rw h

pub strip_right_of_LastFails : (p : Char → Bool) (s : String) → LastFails p s → strip_right p s ≡ s
unfolding strip_right keep_before
strip_right_of_LastFails p [] h = refl
strip_right_of_LastFails p (c ∷ []) h = rw h
strip_right_of_LastFails p (c ∷ d ∷ s) h =
    ap (keep_before (p c) c) (strip_right_of_LastFails p (d ∷ s) h) ∙ kept (p c)
  where
    kept : (b : Bool) → keep_before b c (d ∷ s) ≡ c ∷ d ∷ s
    kept true = refl
    kept false = refl

-- Stripping twice is stripping once.
pub strip_idem : (s : String) → strip (strip s) ≡ strip s
unfolding strip
strip_idem s =
    let t = strip_left is_space s in
    ap (strip_right is_space) (
      strip_left_of_HeadFails is_space (strip_right is_space t)
        (strip_right-HeadFails is_space t (strip_left-HeadFails is_space s)))
    ∙ strip_right_of_LastFails is_space (strip_right is_space t) (strip_right-LastFails is_space t)

pub rstrip_slash-LastFails : (s : String) → LastFails is_slash (rstrip_slash s)
unfolding rstrip_slash
rstrip_slash-LastFails s = strip_right-LastFails is_slash s

pub truthy-iff_ne : (s : String) → truthy s ≡ false → s ≡ ""
unfolding truthy
truthy-iff_ne [] h = refl
truthy-iff_ne (c ∷ s) h = cc
