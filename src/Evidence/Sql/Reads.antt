-- ===== src/Evidence/Sql/Reads.antt =====
-- What a reader of SQL finds in a list of values.
use text.Mathlib.TextLemmas.{append_assoc}
use synapse_network_sdk.Base.{
  ℕ, zero, suc, String, ◌≡◌, refl, sym, ap, ◌∙◌, false, Option, none, some, List, [], ◌∷◌, length,
}
use synapse_network_sdk.Strings.{◌+++◌}
use synapse_network_sdk.Strings.Prefix.{drop_prefix, drop_prefix-append, single-append}
use synapse_network_sdk.Evidence.Literal.{
  sql_literal, read_literal, starts_quoted, read_literal-sql_literal,
}
use synapse_network_sdk.Evidence.Sql.{value_rows}

abbrev Rows : Type 0
Rows = Option (List String × String)

abbrev put_first : String → Rows → Rows
put_first v none = none
put_first v (some (vs, rest)) = some (v ∷ vs, rest)

-- Up to n rows of one string constant each, and the text behind them.
unfoldable pub read_rows : ℕ → String → Rows
unfolding drop_prefix read_literal
read_rows zero s = none
read_rows (suc n) s = elim (drop_prefix "(" s) [
  | none ↦ none
  | some t ↦ elim (read_literal t) [
    | none ↦ none
    | some (v, u) ↦ elim (drop_prefix "), " u) [
      | some w ↦ put_first v (read_rows n w)
      | none ↦ elim (drop_prefix ")" u) [ none ↦ none | some w ↦ some (v ∷ [], w) ]
    ]
  ]
]

one_row :
    (n : ℕ) (v : String) (u : String)
    → starts_quoted u ≡ false
    → read_rows (suc n) ("(" +++ sql_literal v +++ u) ≡ elim (drop_prefix "), " u) as (λ _. Rows) [
      | some w ↦ put_first v (read_rows n w)
      | none ↦ elim (drop_prefix ")" u) as (λ _. Rows) [ none ↦ none | some w ↦ some (v ∷ [], w) ]
    ]
unfolding read_rows
one_row n v u h =
    rw (read_rows, drop_prefix-append "(" (sql_literal v +++ u), read_literal-sql_literal v u h)
      refl

closed : (x : String) → starts_quoted (")" +++ x) ≡ false
unfolding starts_quoted
closed x = ap starts_quoted (single-append ")" x)

ends : (x : String) → drop_prefix "), " (")" +++ ")" +++ x) ≡ none
unfolding drop_prefix
ends x =
    ap (drop_prefix "), ")
      (single-append ")" (")" +++ x) ∙ ap (λ y. String.◌∷◌ ")" y) (single-append ")" x))

last_row :
    (n : ℕ) (v x : String)
    → read_rows (suc n) (("(" +++ sql_literal v +++ ")") +++ ")" +++ x) ≡ some (v ∷ [], ")" +++ x)
last_row n v x =
    ap (read_rows (suc n)) (
      append_assoc "(" (sql_literal v +++ ")") (")" +++ x)
      ∙ ap (λ y. "(" +++ y) (append_assoc (sql_literal v) ")" (")" +++ x)))
    ∙ one_row n v (")" +++ ")" +++ x) (closed (")" +++ x))
    ∙ rw (ends x, drop_prefix-append ")" (")" +++ x)) refl

next_row :
    (n : ℕ) (v x y : String)
    → read_rows (suc n) (("(" +++ sql_literal v +++ ")" +++ ", " +++ x) +++ y)
      ≡ put_first v (read_rows n (x +++ y))
next_row n v x y =
    let u = ")" +++ ", " +++ x +++ y in
    ap (read_rows (suc n)) (
      append_assoc "(" (sql_literal v +++ ")" +++ ", " +++ x) y
      ∙ ap (λ z. "(" +++ z)
          (append_assoc (sql_literal v) (")" +++ ", " +++ x) y
            ∙ ap (λ z. sql_literal v +++ z)
                (append_assoc ")" (", " +++ x) y ∙ ap (λ z. ")" +++ z) (append_assoc ", " x y))))
    ∙ one_row n v u (closed (", " +++ x +++ y))
    ∙ rw
        (ap (drop_prefix "), ") (sym (append_assoc ")" ", " (x +++ y)))
          ∙ drop_prefix-append "), " (x +++ y))
        refl

-- The rows of a list of values are read as these values, in their order, whatever quotes they have.
pub read_rows-value_rows :
    (v : String) (vs : List String) (rest : String)
    → read_rows (length (v ∷ vs)) (value_rows (v ∷ vs) +++ ")" +++ rest)
      ≡ some (v ∷ vs, ")" +++ rest)
unfolding value_rows
read_rows-value_rows v [] rest = last_row 0 v rest
read_rows-value_rows v (w ∷ vs) rest =
    next_row (length (w ∷ vs)) v (value_rows (w ∷ vs)) (")" +++ rest)
    ∙ ap (put_first v) (read_rows-value_rows w vs rest)
