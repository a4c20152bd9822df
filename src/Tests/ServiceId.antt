-- ===== src/Tests/ServiceId.antt =====
-- The identifier of a service in the small world, with the letters of ASCII.
use synapse_network_sdk.Base.{
  code, Bool, ◌&&◌, ◌||◌, ◌==◌, leb, arith, true, false, ◌≡◌, ◌⊎◌, Char, [],
}
use synapse_network_sdk.Strings.{strip, ◌+++◌, is_underscore}
use synapse_network_sdk.Runtime.Steps.{Returns}
use synapse_network_sdk.Host.{Host}
use synapse_network_sdk.Auth.ServiceId.{keep_first, default_service_id}
use synapse_network_sdk.Auth.ServiceId.Form.{IsSlug}
use synapse_network_sdk.Auth.ServiceId.Letters.{letters, default_service_id-IsSlug}
use synapse_network_sdk.Tests.World.{world}

-- Small letters and digits are alphanumeric.
abbrev is_letter : Char → Bool
is_letter c = leb b'a' (code c) && leb (code c) b'z' || leb b'0' (code c) && leb (code c) b'9'

abbrev named_world : Host
named_world = record world { is_alnum = is_letter }

apart : (c : Char) → is_underscore c ≡ true → named_world.is_alnum c ≡ false
unfolding is_underscore
apart c h = ground arith

blank : (c : Char) → (code c == b' ') ≡ true → named_world.is_alnum c ≡ false
blank c h = ground arith

default_service_id-IsSlug_example :
    Returns
      (λ t.
        (IsSlug named_world t
          × (letters named_world t ≡ letters named_world (strip " weather  api")))
        ⊎ ((letters named_world (strip " weather  api") ≡ "")
            × (t ≡ "service_" +++ keep_first 8 "0f")))
      (default_service_id named_world " weather  api" []).0
default_service_id-IsSlug_example =
    default_service_id-IsSlug named_world apart blank " weather  api" []
