-- ===== src/Host.antt =====
-- What the SDK runs on and does not implement: the gateway behind the package requests, the clock,
-- `uuid4`, the environment variables, Unicode tables, floating point, decimals, the texts that
-- `str` makes, and pydantic's reading of one field. All of it is one record of functions, the
-- parameter of the model. The world is a history of events, newest first; what the outside
-- answers may depend on all of it.
use synapse_network_sdk.Base.{ℕ, ◌+◌, ◌*◌, ◌≤◌, Char, String, Bool, Option, List, ◌∷◌}
use synapse_network_sdk.Base.Int.{ℤ}
use synapse_network_sdk.Json.{Json, Items, Fields}
use synapse_network_sdk.Runtime.{Float, transport, Result, ok, err, Action}

-- The arguments of `requests.request`.
pub record Request : Type 0 where
  pub method : String
  pub url : String
  pub headers : List (String × String)
  pub json : Option Json
  pub timeout : ℤ

-- What the SDK reads of a `requests.Response`; `json` is `none` where `response.json()` raises
-- `ValueError`.
pub record Response : Type 0 where
  pub status_code : ℕ
  pub is_ok : Bool
  pub json : Option Json
  pub text : String

-- A request ends with a response, or with an exception of requests.
pub data Reply : Type 0 where
  response : Response → Reply
  failed : String → Reply

-- What has happened: requests sent, `time.sleep` in seconds, a clock read (`time.time()` or
-- `time.monotonic()`), and `uuid4()` called.
pub data Event : Type 0 where
  sent : Request → Event
  slept : ℕ → Event
  ticked drew : Event

abbrev pub Trace : Type 0
Trace = List Event

-- The types of pydantic fields that the SDK declares, and their values; `mode` is the literal type
-- of `responseMode`, and `anything` stands for `Any` and for unions of numbers and texts.
pub data Kind : Type 0 where
  text integer number flag object objects names items anything mode : Kind
  optional : Kind → Kind

abbrev pub Value : Kind → Type 0
Value Kind.text = String
Value Kind.integer = ℤ
Value Kind.number = Float
Value Kind.flag = Bool
Value Kind.object = Fields
Value Kind.objects = List Fields
Value Kind.names = List String
Value Kind.items = Items
Value Kind.anything = Json
Value Kind.mode = String
Value (Kind.optional k) = Option (Value k)

-- Clock readings are in ticks of 2^-22 second, which a float holds exactly in our decades.
abbrev pub second : ℕ
second = 4194304

pub record Host : Type 0 where
  -- the gateway, the clock and `uuid4().hex`, by the history
  pub respond : Trace → Request → Reply
  pub clock : Trace → ℕ
  pub uuid_hex : Trace → String
  -- `os.getenv(k)`
  pub getenv : String → Option String
  -- `s.lower()` and `c.isalnum()`
  pub lower : String → String
  pub is_alnum : Char → Bool
  -- floats: a literal's value, `float(str)`, `str(x)`, `f"{x:.4f}"`, arithmetic,
  -- `>`, `round(x, 6)`, `0.0`, `x == 0`, `x <= 0`
  pub literal : String → Float
  pub parse_float : String → Option Float
  pub show_float : Float → String
  pub fixed_four : Float → String
  pub add : Float → Float → Float
  pub sub : Float → Float → Float
  pub gt : Float → Float → Bool
  pub round_six : Float → Float
  pub zero_float : Float
  pub is_zero : Float → Bool
  pub at_most_zero : Float → Bool
  -- `Decimal(str)`, as its own text, and `float(Decimal)`
  pub parse_decimal : String → Option String
  pub decimal_float : String → Option Float
  -- `str` of an `int` and of a JSON number, list or dictionary
  pub show_int : ℤ → String
  pub show_json : Json → String
  -- `urlencode(d)`
  pub urlencode : Fields → String
  -- pydantic: a field's type, name, alias and default, read from the input; `none` if refused
  pub read : (k : Kind) → String → String → Value k → Fields → Option (Value k)
  -- the rounds of a polling loop that the model follows
  pub rounds : ℕ

module _ (H : Host) where
  unfoldable pub reply_of : Reply → Result Response
  reply_of (response r) = ok r
  reply_of (failed m) = err (transport m)

  -- `requests.request(…)`
  unfoldable pub send : Request → Action Trace Response
  unfolding reply_of
  send r tr = (reply_of (H.respond tr r), sent r ∷ tr)

  -- `time.time()`
  unfoldable pub now : Action Trace ℕ
  now tr = (ok (H.clock tr), ticked ∷ tr)

  -- `time.sleep(s)`
  unfoldable pub sleep : ℕ → Action Trace (Unit {0})
  sleep s tr = (ok tt, slept s ∷ tr)

  -- `uuid4().hex`
  unfoldable pub uuid : Action Trace String
  uuid tr = (ok (H.uuid_hex tr), drew ∷ tr)

  -- The documented behaviour of the clock. `elapsed` is the time that has gone by, in ticks:
  -- `time.sleep` suspends the caller for at least the seconds asked for. `time.time` keeps up with
  -- it, but for the seconds by which the system clock was set back between two readings, which are
  -- no more than `back`.
  pub record ClockLaws (back : ℕ) : Type 0 where
    pub elapsed : Trace → ℕ
    pub forward : (e : Event) (tr : Trace) → elapsed tr ≤ elapsed (e ∷ tr)
    pub sleeps : (s : ℕ) (tr : Trace) → elapsed tr + s * second ≤ elapsed (slept s ∷ tr)
    pub set_back :
        (u v : Trace)
        → elapsed u ≤ elapsed v
        → elapsed v + H.clock u ≤ elapsed u + H.clock v + back * second
