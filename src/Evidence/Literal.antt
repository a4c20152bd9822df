-- ===== src/Evidence/Literal.antt =====
-- `sql_literal`: a text as a string constant of SQL, and how such a constant is read.
use Prim.Native.String.{[], ◌∷◌}
use synapse_network_sdk.Base.{
  Char, code, String, Bool, true, false, ◌==◌, ◌≡◌, refl, ap, ◌∙◌, Option, none, some,
  if◌then◌else◌, Bool-cases, inl, inr,
}
use text.Mathlib.TextLemmas.{nil-append, cons-append, append_assoc}
use synapse_network_sdk.Strings.{◌+++◌}

unfoldable pub is_quote : Char → Bool
is_quote c = code c == 39

-- `value.replace("'", "''")`
unfoldable pub double_quotes : String → String
unfolding is_quote
double_quotes [] = []
double_quotes (c ∷ s) = if is_quote c then c ∷ c ∷ double_quotes s else c ∷ double_quotes s

unfoldable pub sql_literal : String → String
unfolding double_quotes
sql_literal value = "'" +++ double_quotes value +++ "'"

-- A string constant of SQL behind its first quote: the value, up to the first quote that is not
-- doubled, and the text behind that one.
abbrev pub Reading : Type 0
Reading = Option (String × String)

abbrev keep : Char → Reading → Reading
keep c none = none
keep c (some (v, rest)) = some (c ∷ v, rest)

-- `next` is the reading of the rest, for a quote that is doubled.
abbrev at_quote : Char → String → Reading → Reading
at_quote c [] next = some ([], [])
at_quote c (d ∷ s) next = if is_quote d then keep c next else some ([], d ∷ s)

unfoldable pub read_body : String → Reading
unfolding is_quote
read_body [] = none
read_body (c ∷ []) = if is_quote c then some ([], []) else none
read_body (c ∷ d ∷ s) =
    let inner = read_body (d ∷ s) in
    let next = read_body s in
    elim (is_quote c) [ true ↦ at_quote c (d ∷ s) next | false ↦ keep c inner ]

unfoldable pub read_literal : String → Reading
unfolding read_body
read_literal [] = none
read_literal (c ∷ s) = if is_quote c then read_body s else none

-- What follows a constant does not go on with a quote.
unfoldable pub starts_quoted : String → Bool
unfolding is_quote
starts_quoted [] = false
starts_quoted (c ∷ s) = is_quote c

read_plain : (c : Char) (s : String) → is_quote c ≡ false → read_body (c ∷ s) ≡ keep c (read_body s)
unfolding read_body
read_plain c [] h = rw (read_body, h) refl
read_plain c (d ∷ s) h = rw (read_body, h) refl

read_doubled :
    (c d : Char) (s : String)
    → is_quote c ≡ true
    → is_quote d ≡ true
    → read_body (c ∷ d ∷ s) ≡ keep c (read_body s)
unfolding read_body
read_doubled c d s h k = rw (read_body, h, k) refl

read_end :
    (c : Char) (s : String)
    → is_quote c ≡ true
    → starts_quoted s ≡ false
    → read_body (c ∷ s) ≡ some ([], s)
unfolding read_body starts_quoted
read_end c [] h k = rw (read_body, h) refl
read_end c (d ∷ s) h k = rw (read_body, h, k) refl

double_plain :
    (c : Char) (v t : String)
    → is_quote c ≡ false
    → double_quotes (c ∷ v) +++ t ≡ c ∷ (double_quotes v +++ t)
unfolding double_quotes
double_plain c v t h = rw (double_quotes, h) (cons-append c (double_quotes v) t)

double_quote :
    (c : Char) (v t : String)
    → is_quote c ≡ true
    → double_quotes (c ∷ v) +++ t ≡ c ∷ c ∷ (double_quotes v +++ t)
unfolding double_quotes
double_quote c v t h =
    rw (double_quotes, h)
      (cons-append c (c ∷ double_quotes v) t ∙ ap (λ x. c ∷ x) (cons-append c (double_quotes v) t))

read_body-double_quotes :
    (v rest : String)
    → starts_quoted rest ≡ false
    → read_body (double_quotes v +++ "'" +++ rest) ≡ some (v, rest)
unfolding double_quotes
read_body-double_quotes [] rest h =
    ap read_body
      (nil-append ("'" +++ rest) ∙ cons-append "'" [] rest ∙ ap (λ x. "'" ∷ x) (nil-append rest))
    ∙ read_end "'" rest refl h
read_body-double_quotes (c ∷ v) rest h =
    let tail = "'" +++ rest in
    let next = read_body-double_quotes v rest h in
    elim (Bool-cases (is_quote c)) [
      | inl quote ↦
          ap read_body (double_quote c v tail quote)
          ∙ read_doubled c c (double_quotes v +++ tail) quote quote
          ∙ ap (keep c) next
      | inr plain ↦
          ap read_body (double_plain c v tail plain)
          ∙ read_plain c (double_quotes v +++ tail) plain
          ∙ ap (keep c) next
    ]

-- A text that is written as a constant of SQL is read as itself, whatever quotes it has, where what
-- follows does not go on with a quote; the reader then stands at what follows.
pub read_literal-sql_literal :
    (value rest : String)
    → starts_quoted rest ≡ false
    → read_literal (sql_literal value +++ rest) ≡ some (value, rest)
unfolding sql_literal read_literal
read_literal-sql_literal value rest h =
    let body = double_quotes value +++ "'" +++ rest in
    ap read_literal (
      append_assoc "'" (double_quotes value +++ "'") rest
      ∙ ap (λ x. "'" +++ x) (append_assoc (double_quotes value) "'" rest)
      ∙ cons-append "'" [] body
      ∙ ap (λ x. "'" ∷ x) (nil-append body))
    ∙ read_body-double_quotes value rest h
