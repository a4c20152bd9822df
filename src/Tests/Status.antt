-- ===== src/Tests/Status.antt =====
-- A pydantic that takes values of a field's type as they are, with integers written in unary.
use Prim.Native.String.{[], ◌∷◌}
use mathlib.Core.List.{[]}
use synapse_network_sdk.Base.{
  ℕ, zero, suc, String, true, code, ◌==◌, if◌then◌else◌, ◌≡◌, refl, ap, Option, none, some,
}
use synapse_network_sdk.Base.Int.{ℤ, pos, negsuc}
use synapse_network_sdk.Json.{Json, end, null, bool, num, str, obj, get?}
use synapse_network_sdk.Runtime.{ok}
use synapse_network_sdk.Host.{Host, Kind, Value}
use synapse_network_sdk.Models.Provider.{ProviderService}
use synapse_network_sdk.Auth.Provider.Lookup.{status_of}
use synapse_network_sdk.Auth.Provider.Lookup.Status.{ReadLaws, status_of_roundtrip}
use synapse_network_sdk.Tests.Rediscovery.{listed}
use synapse_network_sdk.Tests.World.{world}

abbrev unary : ℕ → String
unary zero = []
unary (suc n) = "1" ∷ unary n

abbrev size : String → ℕ
size [] = zero
size (_ ∷ s) = suc (size s)

abbrev show : ℤ → String
show (pos n) = unary n
show (negsuc n) = "-" ∷ unary n

abbrev parse : String → ℤ
parse [] = pos 0
parse (c ∷ s) = if code c == b'-' then negsuc (size s) else pos (suc (size s))

size-unary : (n : ℕ) → size (unary n) ≡ n
size-unary zero = refl
size-unary (suc n) = ap suc (size-unary n)

parse-show : (n : ℤ) → parse (show n) ≡ n
parse-show (pos zero) = refl
parse-show (pos (suc n)) = ap (λ m. pos (suc m)) (size-unary n)
parse-show (negsuc n) = ap negsuc (size-unary n)

-- A value of the type of a field, or the default.
abbrev value : (k : Kind) → Value k → Option Json → Option (Value k)
value Kind.text d (some (str s)) = some s
value Kind.flag d (some (bool b)) = some b
value Kind.integer d (some (num s)) = some (parse s)
value Kind.object d (some (obj o)) = some o
value (Kind.optional Kind.integer) d (some (num s)) = some (some (parse s))
value (Kind.optional k) d (some null) = some none
value k d _ = some d

abbrev plain_world : Host
plain_world = record world { read = λ k name alias d p. value k d (get? alias p); show_int = show }

value_null : (k : Kind) (d : Option (Value k)) → value (Kind.optional k) d (some null) ≡ some none
value_null Kind.text d = refl
value_null Kind.integer d = refl
value_null Kind.number d = refl
value_null Kind.flag d = refl
value_null Kind.object d = refl
value_null Kind.objects d = refl
value_null Kind.names d = refl
value_null Kind.items d = refl
value_null Kind.anything d = refl
value_null Kind.mode d = refl
value_null (Kind.optional k) d = refl

plain_reads : ReadLaws plain_world
plain_reads = record {
  text = λ name alias d s p h. rw h refl;
  flag = λ name alias d b p h. rw h refl;
  integer = λ name alias d n p h. rw (h, parse-show n) refl;
  object = λ name alias d o p h. rw h refl;
  optional_integer = λ name alias d n p h. rw (h, parse-show n) refl;
  optional_null = λ k name alias d p h. rw h (value_null k d);
}

abbrev weather : ProviderService
weather = record {
  id = none;
  service_id = "svc_weather";
  owner_address = "0xabc";
  service_name = "Weather";
  service_kind = "api";
  price_model = "fixed";
  summary = "";
  status = "online";
  is_active = true;
  pricing = listed.pricing;
  input_price_per_1m_tokens_usdc = none;
  output_price_per_1m_tokens_usdc = none;
  default_max_output_tokens = none;
  max_auto_hold_usdc = none;
  tags = [];
  role = none;
  address = none;
  auth = end;
  provider_profile = none;
  payout_account = none;
  governance = none;
  health = record listed.health { last_checked_at = some (pos 7) };
  runtime_available = true;
  invoke = listed.invoke;
  created_at = none;
  updated_at = none;
}

status_of_roundtrip_example :
    status_of plain_world weather
    ≡ ok (record {
      service_id = "svc_weather";
      lifecycle_status = "online";
      runtime_available = true;
      health = weather.health;
    })
status_of_roundtrip_example = status_of_roundtrip plain_world plain_reads weather
