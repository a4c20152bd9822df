-- ===== src/Auth/ServiceId/Form.antt =====
-- The form of a default service identifier.
use Prim.Native.String.{[], ◌∷◌}
use synapse_network_sdk.Base.{
  ℕ, zero, suc, Char, String, Bool, true, false, not, ◌&&◌, ◌||◌, ◌≡◌, sym, refl, inl, inr,
  Bool-cases, arith,
}
use mathlib.Core.Path.{subst}
use synapse_network_sdk.Strings.{
  truthy, is_underscore, strip_left, keep_before, strip_right, strip, strip_underscores,
}
use synapse_network_sdk.Strings.Laws.{
  HeadFails, LastFails, strip_left-HeadFails, strip_right-HeadFails, strip_right-LastFails,
}
use synapse_network_sdk.Host.{Host}
use synapse_network_sdk.Auth.ServiceId.{
  is_separator, replace_spaces, has_double, collapse, size, scan, slug,
}

-- A text with no two underscores side by side, and none in front where one was just written.
abbrev Clean : Bool → String → Type 0
Clean p t = (has_double t ≡ false) × (p ≡ true → HeadFails is_underscore t)

cons_clean :
    (c : Char) (t : String)
    → is_underscore c ≡ false
    → has_double t ≡ false
    → has_double (c ∷ t) ≡ false
unfolding has_double
cons_clean c [] plain h = refl
cons_clean c (d ∷ t) plain h = ground arith

underscore-Clean : (c : Char) (t : String) → Clean true t → has_double (c ∷ t) ≡ false
unfolding has_double
underscore-Clean c [] h = refl
underscore-Clean c (d ∷ t) (single, head) = ground (arith, head refl)

has_double-tail : (c : Char) (t : String) → has_double (c ∷ t) ≡ false → has_double t ≡ false
unfolding has_double
has_double-tail c [] h = refl
has_double-tail c (d ∷ t) h = ground arith

has_double-strip_left :
    (p : Char → Bool) (t : String) → has_double t ≡ false → has_double (strip_left p t) ≡ false
unfolding strip_left
has_double-strip_left p [] h = h
has_double-strip_left p (c ∷ t) h =
    ground (arith, has_double-strip_left p t (has_double-tail c t h))

has_double-keep_before :
    (b b' : Bool) (c d : Char) (u : String)
    → (is_underscore c && is_underscore d) ≡ false
    → has_double (keep_before b' d u) ≡ false
    → has_double (keep_before b c (keep_before b' d u)) ≡ false
unfolding has_double keep_before
has_double-keep_before true true c d [] apart h = refl
has_double-keep_before true true c d (e ∷ u) apart h = ground arith
has_double-keep_before true false c d u apart h = ground arith
has_double-keep_before false true c d [] apart h = refl
has_double-keep_before false true c d (e ∷ u) apart h = ground arith
has_double-keep_before false false c d u apart h = ground arith

alone : (c : Char) (b : Bool) → has_double (keep_before b c []) ≡ false
unfolding has_double keep_before
alone c true = refl
alone c false = refl

has_double-strip_right :
    (p : Char → Bool) (t : String) → has_double t ≡ false → has_double (strip_right p t) ≡ false
unfolding strip_right has_double
has_double-strip_right p [] h = refl
has_double-strip_right p (c ∷ []) h = alone c (p c)
has_double-strip_right p (c ∷ d ∷ t) h =
    has_double-keep_before (p c) (p d) c d (strip_right p t) (ground arith)
      (has_double-strip_right p (d ∷ t) (has_double-tail c (d ∷ t) h))

collapse_of_single : (n : ℕ) (t : String) → has_double t ≡ false → collapse n t ≡ t
unfolding collapse
collapse_of_single zero t h = refl
collapse_of_single (suc n) t h = rw h refl

module _ (H : Host) where
  -- Every character is a letter or digit, or an underscore.
  abbrev pub Legal : String → Type 0
  Legal [] = Unit
  Legal (c ∷ s) = ((H.is_alnum c || is_underscore c) ≡ true) × Legal s

  Legal-strip_left : (p : Char → Bool) (t : String) → Legal t → Legal (strip_left p t)
  unfolding strip_left
  Legal-strip_left p [] h = tt
  Legal-strip_left p (c ∷ t) (legal, h) = elim (Bool-cases (p c)) [
    | inl out ↦ rw out (Legal-strip_left p t h)
    | inr kept ↦ rw kept (legal, h)
  ]

  Legal-keep_before :
      (b : Bool) (c : Char) (t : String)
      → (H.is_alnum c || is_underscore c) ≡ true
      → Legal t
      → Legal (keep_before b c t)
  unfolding keep_before
  Legal-keep_before true c [] legal h = tt
  Legal-keep_before true c (d ∷ t) legal h = (legal, h)
  Legal-keep_before false c t legal h = (legal, h)

  Legal-strip_right : (p : Char → Bool) (t : String) → Legal t → Legal (strip_right p t)
  unfolding strip_right
  Legal-strip_right p [] h = tt
  Legal-strip_right p (c ∷ t) (legal, h) =
      Legal-keep_before (p c) c (strip_right p t) legal (Legal-strip_right p t h)

  -- The text behind a character that is no letter.
  abbrev behind : Bool → String → Bool → String
  behind b s test = elim test [ true ↦ "_" ∷ scan H true s | false ↦ scan H b s ]

  Legal-behind :
      (b : Bool) (s : String) (test : Bool)
      → Legal (scan H true s)
      → Legal (scan H b s)
      → Legal (behind b s test)
  unfolding is_underscore
  Legal-behind b s true first h = (ground arith, first)
  Legal-behind b s false first h = h

  Legal-scan : (b : Bool) (s : String) → Legal (scan H b s)
  unfolding scan
  Legal-scan b [] = tt
  Legal-scan b (c ∷ s) = elim (Bool-cases (H.is_alnum c)) [
    | inl letter ↦ rw (scan, letter) (ground arith, Legal-scan false s)
    | inr other ↦
        rw (scan, other)
          (Legal-behind b s (is_separator c && not b) (Legal-scan true s) (Legal-scan b s))
  ]

  -- An identifier that is made from a name: not empty, of letters, digits and underscores, with no
  -- underscore at either end and no two side by side.
  pub record IsSlug (t : String) : Type 0 where
    pub given : truthy t ≡ true
    pub legal : Legal t
    pub front : HeadFails is_underscore t
    pub back : LastFails is_underscore t
    pub single : has_double t ≡ false

  -- Underscores are not alphanumeric, as `str.isalnum` documents.
  module _ (apart : (c : Char) → is_underscore c ≡ true → H.is_alnum c ≡ false) where
    plain : (c : Char) → H.is_alnum c ≡ true → is_underscore c ≡ false
    plain c letter = ground (arith, apart c)

    Clean-behind :
        (c : Char) (b : Bool) (s : String) (test : Bool)
        → (is_separator c && not b) ≡ test
        → Clean true (scan H true s)
        → Clean b (scan H b s)
        → Clean b (behind b s test)
    Clean-behind c b s true e first h =
        (underscore-Clean "_" (scan H true s) first, λ before. ground arith)
    Clean-behind c b s false e first h = h

    scan-Clean : (b : Bool) (s : String) → Clean b (scan H b s)
    unfolding scan has_double
    scan-Clean b [] = (refl, λ _. tt)
    scan-Clean b (c ∷ s) = elim (Bool-cases (H.is_alnum c)) [
      | inl letter ↦
          rw (scan, letter)
            (
              cons_clean c (scan H false s) (plain c letter) (scan-Clean false s).0,
              λ _. plain c letter,
            )
      | inr other ↦
          rw (scan, other)
            (Clean-behind c b s (is_separator c && not b) refl (scan-Clean true s) (scan-Clean b s))
    ]

    -- What a name leaves never has two underscores side by side, so that the loop that would merge
    -- them does not run.
    abbrev stripped : String → String
    stripped name =
        strip_right is_underscore
          (strip_left is_underscore (scan H false (replace_spaces (H.lower (strip name)))))

    stripped-single : (name : String) → has_double (stripped name) ≡ false
    stripped-single name =
        let x = scan H false (replace_spaces (H.lower (strip name))) in
        has_double-strip_right is_underscore (strip_left is_underscore x) (
          has_double-strip_left is_underscore x
            (scan-Clean false (replace_spaces (H.lower (strip name)))).0)

    pub slug-eq-stripped :
        (name : String)
        → slug H name
          ≡ strip_right is_underscore
              (strip_left is_underscore (scan H false (replace_spaces (H.lower (strip name)))))
    unfolding slug strip_underscores
    slug-eq-stripped name =
        collapse_of_single (size (stripped name)) (stripped name) (stripped-single name)

    -- A name either leaves nothing, or a slug.
    pub slug-IsSlug : (name : String) → truthy (slug H name) ≡ true → IsSlug (slug H name)
    slug-IsSlug name h =
        let x = scan H false (replace_spaces (H.lower (strip name))) in
        let y = strip_left is_underscore x in
        subst IsSlug (sym (slug-eq-stripped name)) (record {
          given = subst (λ z. truthy z ≡ true) (slug-eq-stripped name) h;
          legal = Legal-strip_right is_underscore y (
              Legal-strip_left is_underscore x
                (Legal-scan false (replace_spaces (H.lower (strip name)))));
          front = strip_right-HeadFails is_underscore y (strip_left-HeadFails is_underscore x);
          back = strip_right-LastFails is_underscore y;
          single = stripped-single name;
        })
