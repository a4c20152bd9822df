-- ===== src/Tests/Evidence.antt =====
-- A log of the end-to-end runs that passes, and the database behind it.
use synapse_network_sdk.Base.{
  String, true, false, ◌≡◌, refl, ◌↔◌, Option, none, some, List, [], ◌∷◌, map, str_eq,
  if◌then◌else◌, All,
}
use synapse_network_sdk.Strings.{◌+++◌}
use synapse_network_sdk.Json.{Json, str, obj, Fields, end, field, get}
use synapse_network_sdk.Runtime.{ok}
use synapse_network_sdk.Evidence.{Tools, is_paid, parse_events}
use synapse_network_sdk.Evidence.Events.{validate_events}
use synapse_network_sdk.Evidence.Events.Accepts.{EventAccepted, Complete, validate_events_iff}
use synapse_network_sdk.Evidence.Sql.{value_rows}
use synapse_network_sdk.Evidence.Sql.Reads.{read_rows, read_rows-value_rows}
use synapse_network_sdk.Evidence.Store.{Db, Query, validate_db}
use synapse_network_sdk.Evidence.Store.Charged.{Backed, id_of, validate_db-Backed}
use synapse_network_sdk.Evidence.Report.{Evidence, build_summary, evidence_of, main}
use synapse_network_sdk.Evidence.Report.Summary.{build_summary-Complete}
use synapse_network_sdk.Evidence.Report.Passes.{AllBacked, main_passes}
use synapse_network_sdk.Tests.World.{world}

abbrev shown : String → String → Fields
shown language scenario = field "language" (str language) (
    field "scenario" (str scenario)
      (field "invocationId" (str "inv_1") (field "chargedUsdc" (str "0.002") end)))

-- The lines of the log, and what each of them loads as.
abbrev lines : List (String × Fields)
lines =
    ("{0", shown "python" "owner-provider-parity")
    ∷ ("{1", shown "python" "health")
    ∷ ("{2", shown "python" "fixed-price")
    ∷ ("{3", shown "python" "llm")
    ∷ ("{4", shown "python" "local-negative")
    ∷ ("{5", shown "python" "auth-negative")
    ∷ ("{6", shown "typescript" "owner-provider-parity")
    ∷ ("{7", shown "typescript" "health")
    ∷ ("{8", shown "typescript" "fixed-price")
    ∷ ("{9", shown "typescript" "llm")
    ∷ ("{10", shown "typescript" "local-negative")
    ∷ ("{11", shown "typescript" "auth-negative")
    ∷ ("{12", shown "go" "owner-provider-parity")
    ∷ ("{13", shown "go" "health")
    ∷ ("{14", shown "go" "fixed-price")
    ∷ ("{15", shown "go" "llm")
    ∷ ("{16", shown "go" "local-negative")
    ∷ ("{17", shown "go" "auth-negative")
    ∷ ("{18", shown "java" "owner-provider-parity")
    ∷ ("{19", shown "java" "health")
    ∷ ("{20", shown "java" "fixed-price")
    ∷ ("{21", shown "java" "llm")
    ∷ ("{22", shown "java" "local-negative")
    ∷ ("{23", shown "java" "auth-negative")
    ∷ ("{24", shown "dotnet" "owner-provider-parity")
    ∷ ("{25", shown "dotnet" "health")
    ∷ ("{26", shown "dotnet" "fixed-price")
    ∷ ("{27", shown "dotnet" "llm")
    ∷ ("{28", shown "dotnet" "local-negative")
    ∷ ("{29", shown "dotnet" "auth-negative")
    ∷ []

abbrev load_from : List (String × Fields) → String → Option Json
load_from [] s = none
load_from ((line, e) ∷ rest) s = if str_eq line s then some (obj e) else load_from rest s

abbrev tools : Tools
tools = record {
  load = load_from lines;
  splitlines = λ _. "a line of pytest" ∷ map (λ l. l.0) lines;
  at_most_zero = λ _. some false;
  exceeds = λ _ _. some false;
  set_order = λ ids. ids;
}

abbrev events : List Fields
events = map (λ l. l.1) lines

abbrev row : Fields
row = field "invocation_id" (str "inv_1") (
    field "quote_id" (str "q_1")
      (field "reference_id" (str "inv_1") (field "charged_usdc" (str "0.002") end)))

abbrev db : Db
db = record {
  invocations = row ∷ [];
  service_quotes = row ∷ [];
  budget_events = row ∷ [];
  ledger_entries = row ∷ [];
  audit_events = row ∷ [];
}

abbrev query : Query
query _ = ok (row ∷ [])

parses : parse_events world tools "log" ≡ events
unfolding parse_events
parses = refl

validate_events_iff_example :
    (validate_events world tools events "0.01" ≡ ok [])
    ↔ (All (EventAccepted world tools "0.01") events × Complete world tools events)
validate_events_iff_example = validate_events_iff world tools events "0.01"

build_summary-Complete_example :
    All (λ r. r.passed ≡ true) (build_summary world tools events) ↔ Complete world tools events
build_summary-Complete_example = build_summary-Complete world tools events

db_passes : validate_db world tools events db "0.01" ≡ ok []
unfolding validate_db
db_passes = refl

validate_db-Backed_example :
    All
      (λ e.
        (scenario : String)
        → get "scenario" e ≡ str scenario
        → is_paid scenario ≡ true
        → Backed world tools db "0.01" scenario (id_of world tools e))
      events
validate_db-Backed_example = validate_db-Backed world tools events db "0.01" db_passes

read_rows-value_rows_example :
    read_rows 2 (value_rows ("it's" ∷ "'); DROP TABLE t; --" ∷ []) +++ ")" +++ " SELECT 1")
    ≡ some ("it's" ∷ "'); DROP TABLE t; --" ∷ [], ")" +++ " SELECT 1")
read_rows-value_rows_example = read_rows-value_rows "it's" ("'); DROP TABLE t; --" ∷ []) " SELECT 1"

abbrev evidence : Evidence
unfolding evidence_of
evidence = evidence_of world tools "run_1" "pytest" events db [] [] []

passes : main world tools query "run_1" "pytest" "0.01" "log" none ≡ ok (evidence, 0)
unfolding main
passes = refl

main_passes_example :
    (max_cost : String) × (world.parse_decimal "0.01" ≡ some max_cost)
    × All (EventAccepted world tools max_cost) (parse_events world tools "log")
    × Complete world tools (parse_events world tools "log")
    × All (λ r. r.passed ≡ true) evidence.summary
    × AllBacked world tools max_cost (parse_events world tools "log") evidence.db
main_passes_example =
    main_passes world tools query "run_1" "pytest" "0.01" "log" none evidence passes
