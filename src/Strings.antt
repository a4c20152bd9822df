-- ===== src/Strings.antt =====
-- Python's `str` methods that the SDK uses, over code points.
pub mod Laws
pub mod Prefix
pub mod Lists
use Prim.Native.String
use Prim.Native.String.{[], ◌∷◌}
use synapse_network_sdk.Base.{
  ℕ, Char, code, String, Bool, true, false, ◌&&◌, ◌||◌, leb, ◌==◌, if◌then◌else◌,
}

infixr 65 ◌+++◌
-- `a + b`, and the joining of an f-string's parts.
abbrev pub ◌+++◌ : String → String → String
a +++ b = String.◌++◌ a b

-- `bool(s)`
unfoldable pub truthy : String → Bool
truthy [] = false
truthy (_ ∷ _) = true

-- `a or b`
unfoldable pub str_or : String → String → String
str_or [] b = b
str_or (c ∷ a) _ = c ∷ a

-- `c.isspace()`, by code point: what `strip()` removes.
unfoldable pub is_space : Char → Bool
is_space c =
    leb 0x09 (code c) && leb (code c) 0x0d
    || leb 0x1c (code c) && leb (code c) 0x20
    || code c == 0x85
    || code c == 0xa0
    || code c == 0x1680
    || leb 0x2000 (code c) && leb (code c) 0x200a
    || code c == 0x2028
    || code c == 0x2029
    || code c == 0x202f
    || code c == 0x205f
    || code c == 0x3000

unfoldable pub is_slash : Char → Bool
is_slash c = code c == b'/'

unfoldable pub is_underscore : Char → Bool
is_underscore c = code c == b'_'

-- `lstrip` and `rstrip` of the characters that a test names.
unfoldable pub strip_left : (Char → Bool) → String → String
strip_left p [] = []
strip_left p (c ∷ s) = if p c then strip_left p s else c ∷ s

-- A character goes if it passes the test and nothing is kept behind it.
unfoldable pub keep_before : Bool → Char → String → String
keep_before true c [] = []
keep_before true c (d ∷ s) = c ∷ d ∷ s
keep_before false c s = c ∷ s

unfoldable pub strip_right : (Char → Bool) → String → String
strip_right p [] = []
strip_right p (c ∷ s) = keep_before (p c) c (strip_right p s)

-- `s.strip()`
unfoldable pub strip : String → String
unfolding strip_left strip_right is_space keep_before
strip s = strip_right is_space (strip_left is_space s)

-- `s.rstrip("/")`
unfoldable pub rstrip_slash : String → String
unfolding strip_right is_slash keep_before
rstrip_slash s = strip_right is_slash s

-- `s.strip("_")`
unfoldable pub strip_underscores : String → String
unfolding strip_left strip_right is_underscore keep_before
strip_underscores s = strip_right is_underscore (strip_left is_underscore s)
