-- ===== src/Auth/Provider/Lookup/Status.antt =====
-- What the status of a service says.
use synapse_network_sdk.Base.{String, Bool, false, ◌≡◌, refl, Option, none, some}
use synapse_network_sdk.Base.Int.{ℤ, pos}
use synapse_network_sdk.Json.{end, null, bool, num, str, obj, Fields, get?}
use synapse_network_sdk.Runtime.{ok}
use synapse_network_sdk.Host.{Host, Kind, Value}
use synapse_network_sdk.Models.Service.{ServiceHealthSummary, read_service_health_summary}
use synapse_network_sdk.Models.Provider.{ProviderService, read_provider_service_status}
use synapse_network_sdk.Auth.Provider.Lookup.{
  integer_or_null, dump_health, status_arguments, status_of,
}

-- What pydantic documents of a field that the input holds under its alias: a value of the field's
-- type is taken as it is.
pub record ReadLaws (H : Host) : Type 0 where
  pub text :
      (name alias d s : String) (p : Fields)
      → get? alias p ≡ some (str s)
      → H.read Kind.text name alias d p ≡ some s
  pub flag :
      (name alias : String) (d b : Bool) (p : Fields)
      → get? alias p ≡ some (bool b)
      → H.read Kind.flag name alias d p ≡ some b
  pub integer :
      (name alias : String) (d n : ℤ) (p : Fields)
      → get? alias p ≡ some (num (H.show_int n))
      → H.read Kind.integer name alias d p ≡ some n
  pub object :
      (name alias : String) (d o p : Fields)
      → get? alias p ≡ some (obj o)
      → H.read Kind.object name alias d p ≡ some o
  pub optional_integer :
      (name alias : String) (d : Option ℤ) (n : ℤ) (p : Fields)
      → get? alias p ≡ some (num (H.show_int n))
      → H.read (Kind.optional Kind.integer) name alias d p ≡ some (some n)
  pub optional_null :
      (k : Kind) (name alias : String) (d : Option (Value k)) (p : Fields)
      → get? alias p ≡ some null
      → H.read (Kind.optional k) name alias d p ≡ some none

module _ (H : Host) (laws : ReadLaws H) where
  optional_lem :
      (name alias : String) (o : Option ℤ) (p : Fields)
      → get? alias p ≡ some (integer_or_null H o)
      → H.read (Kind.optional Kind.integer) name alias none p ≡ some o
  optional_lem name alias none p h = laws.optional_null Kind.integer name alias none p h
  optional_lem name alias (some n) p h = laws.optional_integer name alias none n p h

  -- A health summary is read back from its dump as it was.
  pub read-dump_health :
      (h : ServiceHealthSummary) → read_service_health_summary H (dump_health H h) ≡ some h
  unfolding read_service_health_summary dump_health get?
  read-dump_health h =
      let p = dump_health H h in
      rw
        (
          laws.text "overall_status" "overallStatus" "unknown" h.overall_status p refl,
          laws.integer "healthy_targets" "healthyTargets" (pos 0) h.healthy_targets p refl,
          laws.integer "total_targets" "totalTargets" (pos 0) h.total_targets p refl,
          optional_lem "last_checked_at" "lastCheckedAt" h.last_checked_at p refl,
          laws.flag "runtime_available" "runtimeAvailable" false h.runtime_available p refl,
        )
        refl

  -- The status of a service that was looked up says what the service said: its identifier, its
  -- lifecycle, whether its runtime is available, and its whole health summary, which goes through a
  -- dump and is read back from it; it never fails.
  pub status_of_roundtrip :
      (s : ProviderService)
      → status_of H s
        ≡ ok (record {
          service_id = s.service_id;
          lifecycle_status = s.status;
          runtime_available = s.runtime_available;
          health = s.health;
        })
  unfolding status_of status_arguments read_provider_service_status get?
  status_of_roundtrip s =
      let p = status_arguments H s in
      rw
        (
          laws.text "service_id" "serviceId" "" s.service_id p refl,
          laws.text "lifecycle_status" "lifecycleStatus" "unknown" s.status p refl,
          laws.flag "runtime_available" "runtimeAvailable" false s.runtime_available p refl,
          laws.object "health" "health" end (dump_health H s.health) p refl,
          read-dump_health s.health,
        )
        refl
