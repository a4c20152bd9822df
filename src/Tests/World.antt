-- ===== src/Tests/World.antt =====
-- A small world: a gateway with one service at 0.012 USDC whose invocations settle at the second
-- lookup, floats that count millionths, and a clock that moves one tick with each event.
use synapse_network_sdk.Base.{
  ℕ, suc, ◌+◌, ◌-◌, ◌*◌, ◌≤◌, arith, String, Bool, true, false, ltb, ◌==◌, Option, none, some, List,
  [], ◌∷◌, str_eq, if◌then◌else◌, or_else,
}
use synapse_network_sdk.Base.Int.{pos}
use synapse_network_sdk.Json.{
  Json, null, bool, num, str, arr, obj, nil, cons, Fields, end, field, get?, get, dicts,
}
use synapse_network_sdk.Runtime.{Float}
use synapse_network_sdk.Runtime.Steps.{occurrences}
use synapse_network_sdk.Host.{
  Host, Request, Reply, response, Event, sent, slept, ticked, drew, Trace, Kind, Value, second,
  ClockLaws,
}
use synapse_network_sdk.Client.{SynapseClient}

abbrev millionths : String → Option Float
millionths s =
    if str_eq s "0"
    then some 0
    else if str_eq s "0.01"
    then some 10000
    else if str_eq s "0.012"
    then some 12000
    else if str_eq s "0.02"
    then some 20000
    else none

-- A field under its alias, or under its name.
unfoldable given : String → String → Fields → Option Json
given name alias p = elim (get? alias p) [ none ↦ get? name p | some v ↦ some v ]

abbrev as_text : Json → String → Option String
as_text (str s) d = some s
as_text _ d = none

abbrev as_float : Json → Option Float
as_float (num s) = millionths s
as_float (str s) = millionths s
as_float _ = none

abbrev as_flag : Json → Option Bool
as_flag (bool b) = some b
as_flag _ = none

abbrev as_object : Json → Option Fields
as_object (obj d) = some d
as_object _ = none

abbrev as_objects : Json → Option (List Fields)
as_objects (arr vs) = some (dicts vs)
as_objects _ = none

-- The value of a field that is there.
unfoldable pub convert : (k : Kind) → Value k → Json → Option (Value k)
unfolding dicts
convert Kind.text d v = as_text v d
convert Kind.integer d v = some d
convert Kind.number d v = as_float v
convert Kind.flag d v = as_flag v
convert Kind.object d v = as_object v
convert Kind.objects d v = as_objects v
convert Kind.names d v = some d
convert Kind.items d v = some d
convert Kind.anything d v = some v
convert Kind.mode d v = as_text v d
convert (Kind.optional k) d v = some d

unfoldable pub read_field : (k : Kind) → String → String → Value k → Fields → Option (Value k)
unfolding convert given get?
read_field k name alias d p = elim (given name alias p) [ none ↦ some d | some v ↦ convert k d v ]

abbrev pub ticks : Trace → ℕ
ticks [] = 1000
ticks (slept s ∷ u) = s * second + ticks u
ticks (sent _ ∷ u) = suc (ticks u)
ticks (ticked ∷ u) = suc (ticks u)
ticks (drew ∷ u) = suc (ticks u)

abbrev is_lookup : Event → Bool
is_lookup (sent r) = str_eq r.method "GET"
is_lookup (slept _) = false
is_lookup ticked = false
is_lookup drew = false

abbrev pub reply : ℕ → Bool → Fields → Reply
reply status good d =
    response (record { status_code = status; is_ok = good; json = some (obj d); text = "" })

abbrev pub invocation : String → Fields
invocation status =
    field "invocationId" (str "inv_1")
      (field "status" (str status) (field "chargedUsdc" (str "0.01") end))

abbrev pub mismatch : Fields
mismatch = field "code" (str "PRICE_MISMATCH") (
    field "message" (str "Live price changed.")
      (field "expectedPriceUsdc" (str "0.01") (field "currentPriceUsdc" (str "0.012") end)))

abbrev pub catalogue : Fields
catalogue =
    field "results"
      (arr (
        cons
          (obj (
            field "serviceId" (str "svc_weather")
              (field "pricing" (obj (field "amount" (str "0.012") end)) end)))
          nil))
      end

-- `body.get("costUsdc")`
asserted : Option Json → Json
asserted (some (obj d)) = get "costUsdc" d
asserted _ = null

abbrev is_text : String → Json → Bool
is_text s (str t) = str_eq t s
is_text s _ = false

pub answer : Trace → Request → Reply
unfolding asserted get
answer u r =
    if str_eq r.method "GET"
    then reply 200 true
        (invocation (if ltb 0 (occurrences is_lookup u) then "SETTLED" else "PENDING"))
    else if str_eq r.url "https://gw/api/v1/agent/discovery/search"
    then reply 200 true catalogue
    else if is_text "0.01" (asserted r.json)
    then reply 422 false (field "detail" (obj mismatch) end)
    else reply 200 true (invocation "PENDING")

abbrev pub world : Host
world = record {
  respond = answer;
  clock = ticks;
  uuid_hex = λ _. "0f";
  getenv = λ _. none;
  lower = λ s. s;
  is_alnum = λ _. true;
  literal = λ s. or_else (millionths s) 0;
  parse_float = millionths;
  show_float = λ _. "0.012";
  fixed_four = λ _. "0.0120";
  add = λ x y. x + y;
  sub = λ x y. x - y;
  gt = λ x y. ltb y x;
  round_six = λ x. x;
  zero_float = 0;
  is_zero = λ x. x == 0;
  at_most_zero = λ x. x == 0;
  parse_decimal = λ s. some s;
  decimal_float = millionths;
  show_int = λ _. "1";
  show_json = λ _. "{}";
  urlencode = λ _. "active_only=true";
  read = read_field;
  rounds = 100;
}

abbrev pub client : SynapseClient
client = record { api_key = "agt_1"; gateway_url = "https://gw"; timeout_sec = pos 30 }

pub ticks_forward : (e : Event) (u : Trace) → ticks u ≤ ticks (e ∷ u)
ticks_forward (sent _) u = omega arith
ticks_forward (slept _) u = omega arith
ticks_forward ticked u = omega arith
ticks_forward drew u = omega arith

pub world_clock : ClockLaws world 0
world_clock = record {
  elapsed = ticks;
  forward = ticks_forward;
  sleeps = λ s u. omega arith;
  set_back = λ u v later. omega arith;
}
