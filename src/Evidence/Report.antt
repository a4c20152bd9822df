-- ===== src/Evidence/Report.antt =====
-- `build_summary`, `load_screenshots`, `render_markdown` and `main`: the report of a log.
pub mod Summary
pub mod Passes
use synapse_network_sdk.Base.{
  ℕ, String, Bool, true, false, ◌&&◌, Option, none, some, or_else, is_some, List, [], ◌∷◌, ◌++◌,
  str_eq, if◌then◌else◌, length, ◌==◌, map,
}
use synapse_network_sdk.Base.Int.{pos}
use synapse_network_sdk.Strings.{◌+++◌}
use synapse_network_sdk.Strings.Lists.{join, sorted_set}
use synapse_network_sdk.Json.{Json, str, arr, Fields, end, get?, get, dicts}
use synapse_network_sdk.Runtime.{value_error, invalid_operation, Result, ok, err, and_then}
use synapse_network_sdk.Host.{Host}
use synapse_network_sdk.Client.Response.{str_of}
use synapse_network_sdk.Evidence.{Tools, languages, required_scenarios, parse_events}
use synapse_network_sdk.Evidence.Events.{validate_events}
use synapse_network_sdk.Evidence.Store.{Db, Query, query_db, expected_ids, validate_db}

-- A row of `summary["languages"]`.
pub record LanguageRow : Type 0 where
  pub language : String
  pub passed : Bool
  pub fixed_invocation_id : Json
  pub fixed_charged_usdc : Json
  pub llm_invocation_id : Json
  pub llm_charged_usdc : Json

-- The values of `evidence`; `checks.passed` is that both lists of errors are empty.
pub record Evidence : Type 0 where
  pub run_id : String
  pub command : String
  pub events : List Fields
  pub db : Db
  pub screenshots : List Fields
  pub event_errors : List String
  pub db_errors : List String
  pub summary : List LanguageRow

unfoldable pub is_clean : Evidence → Bool
is_clean e = length e.event_errors == 0 && length e.db_errors == 0

unfoldable pub yes_no : Bool → String
yes_no value = if value then "yes" else "no"

-- `event.get(key, "")`
unfoldable pub value_or_empty : String → Fields → Json
unfolding get?
value_or_empty key event = elim (get? key event) [ none ↦ str "" | some v ↦ v ]

abbrev pub lower_bool : Bool → String
lower_bool true = "true"
lower_bool false = "false"

-- `dbRowCounts`
unfoldable pub row_counts : Db → List (String × ℕ)
row_counts db =
    ("invocations", length db.invocations)
    ∷ ("serviceQuotes", length db.service_quotes)
    ∷ ("budgetEvents", length db.budget_events)
    ∷ ("ledgerEntries", length db.ledger_entries)
    ∷ ("auditEvents", length db.audit_events)
    ∷ []

-- a headline and a list, unless the list is empty
unfoldable pub section : String → List String → List String
section title [] = []
section title (l ∷ ls) = "" ∷ title ∷ "" ∷ l ∷ ls

module _ (H : Host) (T : Tools) where
  -- `by_language.get(language, {}).get(scenario)`: of the events with both, the last
  unfoldable pub last_event : String → String → List Fields → Option Fields
  unfolding str_of get
  last_event language scenario [] = none
  last_event language scenario (e ∷ es) =
      let later = last_event language scenario es in
      let same =
        str_eq (str_of H (get "language" e)) language
        && str_eq (str_of H (get "scenario" e)) scenario in
      elim later [ some l ↦ some l | none ↦ if same then some e else none ]

  -- `all(s in by_language.get(language, {}) for s in scenarios)`
  unfoldable pub all_shown : String → List Fields → List String → Bool
  unfolding last_event
  all_shown language es [] = true
  all_shown language es (s ∷ scenarios) =
      is_some (last_event language s es) && all_shown language es scenarios

  unfoldable pub language_row : List Fields → String → LanguageRow
  unfolding all_shown last_event value_or_empty
  language_row es language =
      let fixed = or_else (last_event language "fixed-price" es) end in
      let llm = or_else (last_event language "llm" es) end in
      record {
        language = language;
        passed = all_shown language es required_scenarios;
        fixed_invocation_id = value_or_empty "invocationId" fixed;
        fixed_charged_usdc = value_or_empty "chargedUsdc" fixed;
        llm_invocation_id = value_or_empty "invocationId" llm;
        llm_charged_usdc = value_or_empty "chargedUsdc" llm;
      }

  unfoldable pub language_rows : List Fields → List String → List LanguageRow
  unfolding language_row
  language_rows es [] = []
  language_rows es (l ∷ ls) = language_row es l ∷ language_rows es ls

  -- the languages of `build_summary`
  unfoldable pub build_summary : List Fields → List LanguageRow
  unfolding language_rows
  build_summary events = language_rows events languages

  -- `load_screenshots`, of the text of the file; `none` where there is no path or no file
  unfoldable pub load_screenshots : Option String → Result (List Fields)
  unfolding dicts
  load_screenshots none = ok []
  load_screenshots (some text) = elim (T.load text) [
    | none ↦ err (value_error "JSONDecodeError")
    | some v ↦ elim v [ arr vs ↦ ok (dicts vs) | other ↦ ok [] ]
  ]

  unfoldable pub summary_line : LanguageRow → String
  unfolding yes_no str_of
  summary_line row =
      "| "
      +++ row.language
      +++ " | "
      +++ yes_no row.passed
      +++ " | `"
      +++ str_of H row.fixed_invocation_id
      +++ "` | `"
      +++ str_of H row.fixed_charged_usdc
      +++ "` | `"
      +++ str_of H row.llm_invocation_id
      +++ "` | `"
      +++ str_of H row.llm_charged_usdc
      +++ "` |"

  unfoldable pub count_line : String × ℕ → String
  count_line (name, count) = "- `" +++ name +++ "`: " +++ H.show_int (pos count)

  unfoldable pub screenshot_line : Fields → String
  unfolding str_of get
  screenshot_line item =
      "- `" +++ str_of H (get "name" item) +++ "`: `" +++ str_of H (get "path" item) +++ "`"

  abbrev budget_note : List String
  budget_note =
      "- `synapse_budget_events` returned 0 rows in this local backend; ledger and audit rows are used as hard billing evidence."
      ∷ []

  unfoldable pub markdown_lines : Evidence → List String
  unfolding is_clean summary_line row_counts count_line screenshot_line section
  markdown_lines e =
      "# SDK Local E2E Evidence"
        ∷ ""
        ∷ ("- Run ID: `" +++ e.run_id +++ "`")
        ∷ ("- Command: `" +++ e.command +++ "`")
        ∷ ("- Passed: `" +++ lower_bool (is_clean e) +++ "`")
        ∷ ""
        ∷ "## SDK Results"
        ∷ ""
        ∷ "| SDK | Pass | Fixed invocation | Fixed charged USDC | LLM invocation | LLM charged USDC |"
        ∷ "| --- | --- | --- | --- | --- | --- |"
        ∷ map summary_line e.summary
      ++ ("" ∷ "## DB Row Counts" ∷ "" ∷ map count_line (row_counts e.db))
      ++ (if length e.db.budget_events == 0 then budget_note else [])
      ++ section "## Screenshots" (map screenshot_line e.screenshots)
      ++ section "## Errors" (map (λ error. "- " +++ error) (e.event_errors ++ e.db_errors))

  unfoldable pub render_markdown : Evidence → String
  unfolding markdown_lines join
  render_markdown e = join "\n" (markdown_lines e) +++ "\n"

  -- `Decimal(args.max_cost_usdc)`
  unfoldable pub max_cost_of : String → Result String
  max_cost_of text = elim (H.parse_decimal text) [
    | none ↦ err (invalid_operation "ConversionSyntax")
    | some d ↦ ok d
  ]

  unfoldable pub evidence_of :
      String → String → List Fields → Db → List Fields → List String → List String → Evidence
  unfolding build_summary
  evidence_of run_id command events db screenshots event_errors db_errors = record {
    run_id = run_id;
    command = command;
    events = events;
    db = db;
    screenshots = screenshots;
    event_errors = event_errors;
    db_errors = db_errors;
    summary = build_summary events;
  }

  -- `main`, up to the files that it writes: the evidence and the code that it exits with, from the
  -- text of the log and that of the file of screenshots
  unfoldable pub main :
      Query → String → String → String → String → Option String → Result (Evidence × ℕ)
  unfolding parse_events max_cost_of validate_events expected_ids query_db validate_db
      load_screenshots evidence_of is_clean sorted_set
  main query run_id command max_cost_usdc log screenshots_text =
      let events = parse_events H T log in
      and_then (max_cost_of max_cost_usdc) (λ max_cost.
        and_then (validate_events H T events max_cost) (λ event_errors.
          and_then (expected_ids H T events) (λ ids.
            and_then (query_db H T query run_id (sorted_set ids)) (λ db.
              and_then (validate_db H T events db max_cost) (λ db_errors.
                and_then (load_screenshots screenshots_text) (λ screenshots.
                  let e = evidence_of run_id command events db screenshots event_errors db_errors in
                  ok (e, if is_clean e then 0 else 1)))))))
