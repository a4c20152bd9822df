-- ===== src/Evidence.antt =====
-- scripts/e2e/sdk_local_evidence_report.py: the events that the end-to-end runs of the SDKs leave in
-- a log, checked and set against the rows that the gateway's database has of them.
pub mod Results
pub mod Events
pub mod Literal
pub mod Sql
pub mod Store
pub mod Report
use synapse_network_sdk.Base.{
  String, Bool, true, false, ◌||◌, ◌&&◌, Option, none, some, List, [], ◌∷◌, str_eq, if◌then◌else◌,
}
use synapse_network_sdk.Strings.{strip, truthy}
use synapse_network_sdk.Strings.Prefix.{starts_with}
use synapse_network_sdk.Json.{Json, null, bool, num, str, arr, obj, Fields, get?, get, as_dict}
use synapse_network_sdk.Runtime.{type_error, invalid_operation, Result, ok, err}
use synapse_network_sdk.Host.{Host}
use synapse_network_sdk.Client.Response.{str_of, json_truthy}

-- What the script takes from outside, besides the functions of the host.
pub record Tools : Type 0 where
  -- `json.loads`, `none` where it raises `JSONDecodeError`, and `text.splitlines()`
  pub load : String → Option Json
  pub splitlines : String → List String
  -- `d <= 0` and `d > e` of `Decimal`s, by their texts; `none` where they raise `InvalidOperation`
  pub at_most_zero : String → Option Bool
  pub exceeds : String → String → Option Bool
  -- the order in which Python goes through a set of texts
  pub set_order : List String → List String

abbrev pub languages : List String
languages = "python" ∷ "typescript" ∷ "go" ∷ "java" ∷ "dotnet" ∷ []

abbrev pub required_scenarios : List String
required_scenarios =
    "owner-provider-parity" ∷ "health" ∷ "fixed-price" ∷ "llm" ∷ "local-negative" ∷ "auth-negative"
    ∷ []

-- `scenario in {"fixed-price", "llm"}`
unfoldable pub is_paid : String → Bool
is_paid scenario = str_eq scenario "fixed-price" || str_eq scenario "llm"

-- the same test of any value: a list or a dictionary has no hash
unfoldable pub paid_scenario : Json → Result Bool
unfolding is_paid
paid_scenario (str s) = ok (is_paid s)
paid_scenario null = ok false
paid_scenario (bool _) = ok false
paid_scenario (num _) = ok false
paid_scenario (arr _) = err (type_error "unhashable type: 'list'")
paid_scenario (obj _) = err (type_error "unhashable type: 'dict'")

-- a comparison of decimals
abbrev pub compared : Option Bool → Result Bool
compared none = err (invalid_operation "comparison involving NaN")
compared (some b) = ok b

module _ (H : Host) (T : Tools) where
  -- `str(event.get(key, ""))`
  unfoldable pub text_field : String → Fields → String
  unfolding get? str_of
  text_field key event = elim (get? key event) [ none ↦ "" | some v ↦ str_of H v ]

  -- `decimal_or_none`
  unfoldable pub decimal_or_none : Json → Option String
  unfolding str_of
  decimal_or_none value = H.parse_decimal (str_of H value)

  -- a dictionary with a language and a scenario
  unfoldable pub event_of : Option Json → Option Fields
  unfolding json_truthy get
  event_of (some (obj event)) =
      if json_truthy H (get "language" event) && json_truthy H (get "scenario" event)
      then some event
      else none
  event_of _ = none

  unfoldable pub parse_line : String → Option Fields
  unfolding event_of starts_with strip
  parse_line line = if starts_with "{" (strip line) then event_of (T.load (strip line)) else none

  unfoldable pub parse_lines : List String → List Fields
  unfolding parse_line
  parse_lines [] = []
  parse_lines (line ∷ lines) =
      let events = parse_lines lines in
      elim (parse_line line) [ none ↦ events | some event ↦ event ∷ events ]

  -- `parse_events`, of the text of the log
  unfoldable pub parse_events : String → List Fields
  unfolding parse_lines
  parse_events text = parse_lines (T.splitlines text)
