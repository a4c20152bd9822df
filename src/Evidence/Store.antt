-- ===== src/Evidence/Store.antt =====
-- `query_db` and `validate_db`: the rows that the database has of the invocations of a log, and what
-- they have to show.
pub mod Rows
pub mod Charged
use synapse_network_sdk.Base.{
  String, Bool, true, false, not, ◌||◌, ◌&&◌, Option, none, some, List, [], ◌∷◌, ◌++◌, str_eq,
  if◌then◌else◌,
}
use synapse_network_sdk.Strings.{◌+++◌, truthy, strip}
use synapse_network_sdk.Strings.Prefix.{contains}
use synapse_network_sdk.Strings.Lists.{sorted_set}
use synapse_network_sdk.Json.{Json, null, bool, num, str, arr, obj, Fields, get}
use synapse_network_sdk.Runtime.{type_error, Result, ok, err, and_then}
use synapse_network_sdk.Host.{Host}
use synapse_network_sdk.Client.Response.{json_truthy, str_of, str_or_else}
use synapse_network_sdk.Evidence.{Tools, paid_scenario, compared, text_field, decimal_or_none}
use synapse_network_sdk.Evidence.Sql.{
  invocations_query, quotes_query, budget_query, ledger_query, audit_query,
}

-- The rows that `query_db` returns; the entries of `rowCounts` are their numbers.
pub record Db : Type 0 where
  pub invocations : List Fields
  pub service_quotes : List Fields
  pub budget_events : List Fields
  pub ledger_entries : List Fields
  pub audit_events : List Fields

-- `psql_json`: the rows of a query, by the text of it; each query asks for JSON objects
abbrev pub Query : Type 0
Query = String → Result (List Fields)

-- `invocation_rows.get(invocation_id)`: of the rows with that key, the last
unfoldable pub row_of : String → List (Json × Fields) → Option Fields
row_of id [] = none
row_of id ((key, row) ∷ rows) =
    let later = row_of id rows in
    elim later [
      | some r ↦ some r
      | none ↦ elim key [ str s ↦ if str_eq s id then some row else none | other ↦ none ]
    ]

-- the first of the identifiers that a text has in it
unfoldable pub named_in : String → List String → String
unfolding contains truthy
named_in detail [] = ""
named_in detail (id ∷ ids) = if truthy id && contains id detail then id else named_in detail ids

-- `if not rows: errors.append(error)`
unfoldable pub absent : List Fields → String → List String
absent [] error = error ∷ []
absent (row ∷ rows) error = []

module _ (H : Host) (T : Tools) where
  -- `row[key]` of the rows where it is true: a column of texts, and any other value raises
  unfoldable pub id_texts : String → List Fields → Result (List String)
  unfolding json_truthy get truthy
  id_texts key [] = ok []
  id_texts key (row ∷ rows) =
      let rest = id_texts key rows in
      let other = (if json_truthy H (get key row) then err (type_error "not a text") else rest) in
      elim (get key row) [
        | str s ↦ if truthy s then and_then rest (λ ids. ok (s ∷ ids)) else rest
        | v ↦ other
      ]

  unfoldable pub query_db : Query → String → List String → Result Db
  unfolding id_texts sorted_set invocations_query quotes_query budget_query ledger_query audit_query
  query_db query run_id invocation_ids =
      and_then (query (invocations_query run_id invocation_ids)) (λ invocations.
        and_then (id_texts "invocation_id" invocations) (λ found.
          and_then (id_texts "quote_id" invocations) (λ quoted.
            and_then (query (quotes_query (sorted_set quoted))) (λ quotes.
              and_then (query (budget_query (sorted_set found))) (λ budget.
                and_then (query (ledger_query (sorted_set found))) (λ ledger.
                  and_then (query (audit_query (sorted_set found))) (λ audit. ok (record {
                    invocations = invocations;
                    service_quotes = quotes;
                    budget_events = budget;
                    ledger_entries = ledger;
                    audit_events = audit;
                  }))))))))

  -- a row is put in front of the rest under its identifier, if that is true; it has to have a hash
  unfoldable pub keyed_row :
      Json → Fields → Result (List (Json × Fields)) → Result (List (Json × Fields))
  unfolding json_truthy
  keyed_row null row rest =
      if json_truthy H null then and_then rest (λ keyed. ok ((null, row) ∷ keyed)) else rest
  keyed_row (bool b) row rest =
      if json_truthy H (bool b) then and_then rest (λ keyed. ok (((bool b), row) ∷ keyed)) else rest
  keyed_row (num n) row rest =
      if json_truthy H (num n) then and_then rest (λ keyed. ok (((num n), row) ∷ keyed)) else rest
  keyed_row (str s) row rest =
      if json_truthy H (str s) then and_then rest (λ keyed. ok (((str s), row) ∷ keyed)) else rest
  keyed_row (arr vs) row rest =
      if json_truthy H (arr vs) then err (type_error "unhashable type") else rest
  keyed_row (obj d) row rest =
      if json_truthy H (obj d) then err (type_error "unhashable type") else rest

  -- `invocation_rows`
  unfoldable pub keyed_rows : List Fields → Result (List (Json × Fields))
  unfolding keyed_row get
  keyed_rows [] = ok []
  keyed_rows (row ∷ rows) = keyed_row (get "invocation_id" row) row (keyed_rows rows)

  -- the ledger rows of an invocation
  unfoldable pub ledger_of : String → List Fields → List Fields
  unfolding text_field
  ledger_of id [] = []
  ledger_of id (row ∷ rows) =
      let rest = ledger_of id rows in
      if str_eq (text_field H T "reference_id" row) id then row ∷ rest else rest

  -- `audit_invocation_id`, with the identifiers in the order of the set
  unfoldable pub audit_invocation_id : Fields → List String → String
  unfolding str_or_else get strip truthy named_in
  audit_invocation_id row expected_ids =
      let direct = strip (str_or_else H (get "invocation_id" row) "") in
      if truthy direct
      then direct
      else named_in (str_or_else H (get "detail_json" row) "") expected_ids

  -- the audit rows of an invocation
  unfoldable pub audit_of : List String → String → List Fields → List Fields
  unfolding audit_invocation_id truthy
  audit_of expected id [] = []
  audit_of expected id (row ∷ rows) =
      let rest = audit_of expected id rows in
      let owner = audit_invocation_id row expected in
      if truthy owner && str_eq owner id then row ∷ rest else rest

  -- the identifiers of the paid events: those of `main` are sorted, those of `validate_db` a set
  unfoldable pub expected_ids : List Fields → Result (List String)
  unfolding paid_scenario json_truthy str_of get
  expected_ids [] = ok []
  expected_ids (e ∷ es) = and_then (paid_scenario (get "scenario" e)) (λ paid.
      and_then (expected_ids es) (λ ids.
        if paid && json_truthy H (get "invocationId" e)
        then ok (str_of H (get "invocationId" e) ∷ ids)
        else ok ids))

  -- `if charge is None or charge <= 0` (the error is `low`), and then `elif charge > max_cost`
  unfoldable pub charge_bounds : String → String → String → Option String → Result (List String)
  charge_bounds language low max_cost none = ok (low ∷ [])
  charge_bounds language low max_cost (some charge) =
      and_then (compared (T.at_most_zero charge)) (λ at_most.
        if at_most
        then ok (low ∷ [])
        else and_then (compared (T.exceeds charge max_cost)) (λ high.
          if high
          then ok (
              (language +++ " llm DB charge " +++ charge +++ " exceeds maxCostUsdc " +++ max_cost)
              ∷ [])
          else ok []))

  unfoldable pub db_charge_errors : String → Json → String → Result (List String)
  unfolding charge_bounds decimal_or_none str_of
  db_charge_errors language charged max_cost =
      charge_bounds language (language +++ " llm DB charge must be > 0, got " +++ str_of H charged)
        max_cost (decimal_or_none H T charged)

  -- the errors of a language model's call whose row is there
  unfoldable pub llm_errors :
      String → String → Fields → List Fields → List Fields → String → Result (List String)
  unfolding db_charge_errors absent get
  llm_errors language id row ledger audit max_cost =
      and_then (db_charge_errors language (get "charged_usdc" row) max_cost) (λ charge. ok (
        charge
        ++ (absent ledger (language +++ " llm invocation " +++ id +++ " missing ledger entries")
            ++ absent audit (language +++ " llm invocation " +++ id +++ " missing audit events"))))

  -- the errors of a paid event, by the row of its invocation
  unfoldable pub row_errors :
      String → String → String → Db → List String → String → Option Fields → Result (List String)
  unfolding ledger_of audit_of llm_errors
  row_errors language scenario id db expected max_cost none = ok (
      (language +++ " " +++ scenario +++ " invocation " +++ id
        +++ " missing from synapse_invocations")
      ∷ [])
  row_errors language scenario id db expected max_cost (some row) =
      if str_eq scenario "llm"
      then llm_errors language id row (ledger_of id db.ledger_entries)
          (audit_of expected id db.audit_events) max_cost
      else ok []

  unfoldable pub paid_errors :
      Fields → List (Json × Fields) → Db → List String → String → Result (List String)
  unfolding str_of str_or_else get row_of row_errors
  paid_errors event keyed db expected max_cost =
      let id = str_or_else H (get "invocationId" event) "" in
      row_errors (str_of H (get "language" event)) (str_of H (get "scenario" event)) id db expected
        max_cost (row_of id keyed)

  -- the loop of `validate_db`
  unfoldable pub db_errors :
      List Fields → List (Json × Fields) → Db → List String → String → Result (List String)
  unfolding paid_scenario paid_errors get
  db_errors [] keyed db expected max_cost = ok []
  db_errors (e ∷ es) keyed db expected max_cost =
      and_then (paid_scenario (get "scenario" e)) (λ paid.
        and_then (if paid then paid_errors e keyed db expected max_cost else ok [])
          (λ xs. and_then (db_errors es keyed db expected max_cost) (λ ys. ok (xs ++ ys))))

  unfoldable pub validate_db : List Fields → Db → String → Result (List String)
  unfolding keyed_rows expected_ids db_errors
  validate_db events db max_cost = and_then (keyed_rows db.invocations) (λ keyed.
      and_then (expected_ids events) (λ ids. db_errors events keyed db (T.set_order ids) max_cost))
