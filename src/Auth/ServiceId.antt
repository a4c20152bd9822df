-- ===== src/Auth/ServiceId.antt =====
-- auth.py, `_default_service_id`: a service's identifier, made from its name.
pub mod Form
pub mod Letters
use Prim.Native.String.{[], ◌∷◌}
use synapse_network_sdk.Base.{
  ℕ, zero, suc, Char, code, String, Bool, true, false, not, ◌&&◌, ◌||◌, ◌==◌, if◌then◌else◌,
}
use synapse_network_sdk.Strings.{◌+++◌, truthy, is_underscore, strip, strip_underscores}
use synapse_network_sdk.Runtime.{◌>>=◌, pure, Action}
use synapse_network_sdk.Host.{Host, Trace, uuid}

-- `char in {"-", "_"}`
unfoldable pub is_separator : Char → Bool
unfolding is_underscore
is_separator c = code c == b'-' || is_underscore c

-- `s.replace(" ", "_")`
unfoldable pub replace_spaces : String → String
replace_spaces [] = []
replace_spaces (c ∷ s) = (if code c == b' ' then "_" else c) ∷ replace_spaces s

-- `"__" in s`
unfoldable pub has_double : String → Bool
unfolding is_underscore
has_double [] = false
has_double (c ∷ []) = false
has_double (c ∷ d ∷ s) = is_underscore c && is_underscore d || has_double (d ∷ s)

-- `s.replace("__", "_")`
unfoldable pub replace_doubles : String → String
unfolding is_underscore
replace_doubles [] = []
replace_doubles (c ∷ []) = c ∷ []
replace_doubles (c ∷ d ∷ s) = elim (is_underscore c && is_underscore d) [
  | true ↦ c ∷ replace_doubles s
  | false ↦ c ∷ replace_doubles (d ∷ s)
]

-- `while "__" in result: …`, for a number of rounds
unfoldable pub collapse : ℕ → String → String
unfolding has_double replace_doubles
collapse zero s = s
collapse (suc n) s = if has_double s then collapse n (replace_doubles s) else s

unfoldable pub size : String → ℕ
size [] = 0
size (_ ∷ s) = suc (size s)

-- `s[:n]`
unfoldable pub keep_first : ℕ → String → String
keep_first zero s = []
keep_first (suc n) [] = []
keep_first (suc n) (c ∷ s) = c ∷ keep_first n s

module _ (H : Host) where
  -- the loop over the characters; the test is `previous_is_sep`
  unfoldable pub scan : Bool → String → String
  unfolding is_separator
  scan previous_is_sep [] = []
  scan previous_is_sep (c ∷ s) = elim (H.is_alnum c) [
    | true ↦ c ∷ scan false s
    | false ↦ elim (is_separator c && not previous_is_sep) [
      | true ↦ "_" ∷ scan true s
      | false ↦ scan previous_is_sep s
    ]
  ]

  -- what is left of the name; a round of the last loop shortens the text, so its length is enough
  unfoldable pub slug : String → String
  unfolding strip replace_spaces strip_underscores scan collapse size
  slug service_name =
      let result = strip_underscores (scan false (replace_spaces (H.lower (strip service_name)))) in
      collapse (size result) result

  unfoldable pub default_service_id : String → Action Trace String
  unfolding slug truthy uuid keep_first
  default_service_id service_name =
      let made = (do hex ← uuid H; pure ("service_" +++ keep_first 8 hex)) in
      if truthy (slug service_name) then pure (slug service_name) else made
