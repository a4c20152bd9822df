-- ===== src/Strings/Prefix.antt =====
-- Python's `str.startswith`, `part in text`, and the order of texts.
use Prim.Native.String.{[], ◌∷◌}
use text.Mathlib.TextLemmas.{nil-append, cons-append}
use synapse_network_sdk.Base.{
  Char, code, String, Bool, true, false, ◌&&◌, ◌||◌, ltb, ◌==◌, ◌≡◌, refl, ap, ◌∙◌, arith, Option,
  none, some, if◌then◌else◌, Bool-cases, inl, inr,
}
use synapse_network_sdk.Strings.{◌+++◌}

-- `url.startswith(prefix)`
unfoldable pub starts_with : String → String → Bool
starts_with [] url = true
starts_with (c ∷ prefix) [] = false
starts_with (c ∷ prefix) (d ∷ url) = code c == code d && starts_with prefix url

-- `part in text`
unfoldable pub contains : String → String → Bool
unfolding starts_with
contains part [] = starts_with part []
contains part (c ∷ text) = starts_with part (c ∷ text) || contains part text

-- `s < t`, by code points
unfoldable pub is_before : String → String → Bool
is_before s [] = false
is_before [] (d ∷ t) = true
is_before (c ∷ s) (d ∷ t) = ltb (code c) (code d) || code c == code d && is_before s t

starts_with_cons : (c : Char) (s t : String) → starts_with (c ∷ s) (c ∷ t) ≡ starts_with s t
unfolding starts_with
starts_with_cons c s t = ground arith

pub starts_with-append : (g q p : String) → starts_with (g +++ q) (g +++ p) ≡ starts_with q p
unfolding starts_with
starts_with-append [] q p =
    ap (λ t. starts_with t ("" +++ p)) (nil-append q) ∙ ap (starts_with q) (nil-append p)
starts_with-append (c ∷ g) q p =
    ap (λ t. starts_with t ((c ∷ g) +++ p)) (cons-append c g q)
    ∙ ap (starts_with (c ∷ (g +++ q))) (cons-append c g p)
    ∙ starts_with_cons c (g +++ q) (g +++ p)
    ∙ starts_with-append g q p

-- What a text starts with, a longer one does.
pub starts_with-longer : (q g p : String) → starts_with q g ≡ true → starts_with q (g +++ p) ≡ true
unfolding starts_with
starts_with-longer [] g p h = refl
starts_with-longer (c ∷ q) [] p h = cc
starts_with-longer (c ∷ q) (d ∷ g) p h =
    ap (starts_with (c ∷ q)) (cons-append d g p) ∙ (elim (Bool-cases (code c == code d)) [
      | inl same ↦ rw same (starts_with-longer q g p (ground arith))
      | inr other ↦ ground arith
    ])

-- What is left of a text behind a prefix of it.
unfoldable pub drop_prefix : String → String → Option String
drop_prefix [] s = some s
drop_prefix (c ∷ prefix) [] = none
drop_prefix (c ∷ prefix) (d ∷ s) =
    let rest = drop_prefix prefix s in if code c == code d then rest else none

drop_cons : (c : Char) (p s : String) → drop_prefix (c ∷ p) (c ∷ s) ≡ drop_prefix p s
unfolding drop_prefix
drop_cons c p s = ground arith

pub drop_prefix-append : (p s : String) → drop_prefix p (p +++ s) ≡ some s
unfolding drop_prefix
drop_prefix-append [] s = ap some (nil-append s)
drop_prefix-append (c ∷ p) s =
    ap (drop_prefix (c ∷ p)) (cons-append c p s) ∙ drop_cons c p (p +++ s) ∙ drop_prefix-append p s

-- One character in front of a text.
pub single-append : (c : Char) (s : String) → (c ∷ []) +++ s ≡ c ∷ s
single-append c s = cons-append c [] s ∙ ap (λ x. c ∷ x) (nil-append s)
