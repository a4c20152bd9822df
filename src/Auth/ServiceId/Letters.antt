-- ===== src/Auth/ServiceId/Letters.antt =====
-- What a default service identifier keeps of the name that it is made from.
use Prim.Native.String.{[], ◌∷◌}
use synapse_network_sdk.Base.{
  code, Char, String, Bool, true, false, not, ◌&&◌, ◌==◌, ◌≡◌, sym, refl, ap, ◌∙◌, ◌⊎◌, inl, inr,
  Bool-cases, if◌then◌else◌,
}
use synapse_network_sdk.Strings.{
  ◌+++◌, truthy, is_underscore, strip_left, keep_before, strip_right, strip,
}
use synapse_network_sdk.Runtime.Steps.{Returns}
use synapse_network_sdk.Host.{Host, Trace}
use synapse_network_sdk.Auth.ServiceId.{
  is_separator, replace_spaces, keep_first, scan, slug, default_service_id,
}
use synapse_network_sdk.Auth.ServiceId.Form.{IsSlug, slug-IsSlug, slug-eq-stripped}

empty_lem : (t : String) → truthy t ≡ false → t ≡ ""
unfolding truthy
empty_lem [] h = refl
empty_lem (c ∷ t) h = cc

module _ (H : Host) where
  -- The letters and digits of a text, in their order.
  abbrev pub letters : String → String
  letters [] = []
  letters (c ∷ s) = if H.is_alnum c then c ∷ letters s else letters s

  -- Neither underscores nor blanks are alphanumeric, as `str.isalnum` documents.
  module _ (apart : (c : Char) → is_underscore c ≡ true → H.is_alnum c ≡ false)
      (blank : (c : Char) → (code c == b' ') ≡ true → H.is_alnum c ≡ false) where
    underscore : H.is_alnum "_" ≡ false
    unfolding is_underscore
    underscore = apart "_" refl

    letters-replace_spaces : (s : String) → letters (replace_spaces s) ≡ letters s
    unfolding replace_spaces
    letters-replace_spaces [] = refl
    letters-replace_spaces (c ∷ s) = elim (Bool-cases (code c == b' ')) [
      | inl space ↦
          rw (replace_spaces, space) (rw underscore (rw (blank c space) (letters-replace_spaces s)))
      | inr other ↦ rw (replace_spaces, other) (rw (letters-replace_spaces s) refl)
    ]

    letters-behind :
        (b test : Bool) (s : String)
        → letters (scan H true s) ≡ letters s
        → letters (scan H b s) ≡ letters s
        → letters (elim test [ true ↦ "_" ∷ scan H true s | false ↦ scan H b s ]) ≡ letters s
    letters-behind b true s first later = rw underscore first
    letters-behind b false s first later = later

    letters-scan : (b : Bool) (s : String) → letters (scan H b s) ≡ letters s
    unfolding scan
    letters-scan b [] = refl
    letters-scan b (c ∷ s) = elim (Bool-cases (H.is_alnum c)) [
      | inl letter ↦ rw (scan, letter) (rw letter (ap (λ t. c ∷ t) (letters-scan false s)))
      | inr other ↦
          rw (scan, other)
            (letters-behind b (is_separator c && not b) s (letters-scan true s) (letters-scan b s))
    ]

    letters-strip_left : (s : String) → letters (strip_left is_underscore s) ≡ letters s
    unfolding strip_left
    letters-strip_left [] = refl
    letters-strip_left (c ∷ s) = elim (Bool-cases (is_underscore c)) [
      | inl out ↦ rw out (rw (apart c out) (letters-strip_left s))
      | inr kept ↦ rw kept refl
    ]

    letters-keep_before :
        (c : Char) (s : String)
        → letters (keep_before (is_underscore c) c s)
          ≡ (if H.is_alnum c then c ∷ letters s else letters s)
    unfolding keep_before
    letters-keep_before c s = by_test (is_underscore c) refl s
      where
        by_test :
            (b : Bool)
            → is_underscore c ≡ b
            → (s : String)
            → letters (keep_before b c s) ≡ (if H.is_alnum c then c ∷ letters s else letters s)
        by_test true e [] = rw (apart c e) refl
        by_test true e (d ∷ s) = refl
        by_test false e s = refl

    letters-strip_right : (s : String) → letters (strip_right is_underscore s) ≡ letters s
    unfolding strip_right
    letters-strip_right [] = refl
    letters-strip_right (c ∷ s) =
        letters-keep_before c (strip_right is_underscore s)
        ∙ ap (λ t. if H.is_alnum c then c ∷ t else t) (letters-strip_right s)

    letters-slug : (name : String) → letters (slug H name) ≡ letters (H.lower (strip name))
    letters-slug name =
        let x = replace_spaces (H.lower (strip name)) in
        let y = scan H false x in
        ap letters (slug-eq-stripped H apart name)
        ∙ (letters-strip_right (strip_left is_underscore y)
            ∙ (letters-strip_left y
                ∙ (letters-scan false x ∙ letters-replace_spaces (H.lower (strip name)))))

    -- The identifier of a service without one is a slug with the very letters and digits, in their
    -- order, of the name in lower case; or, exactly where the name has no letter and no digit, the
    -- prefix "service_" with the first eight digits of a fresh uuid.
    pub default_service_id-IsSlug :
        (name : String) (u : Trace)
        → Returns
            (λ t.
              (IsSlug H t × (letters t ≡ letters (H.lower (strip name))))
              ⊎ ((letters (H.lower (strip name)) ≡ "")
                  × (t ≡ "service_" +++ keep_first 8 (H.uuid_hex u))))
            (default_service_id H name u).0
    unfolding default_service_id
    default_service_id-IsSlug name u = elim (Bool-cases (truthy (slug H name))) [
      | inl some_left ↦ rw some_left (inl (slug-IsSlug H apart name some_left, letters-slug name))
      | inr nothing ↦
          rw nothing
            (inr (sym (letters-slug name) ∙ ap letters (empty_lem (slug H name) nothing), refl))
    ]
