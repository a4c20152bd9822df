-- ===== src/Auth/Provider/Lookup.antt =====
-- _auth_provider_control.py: one service of the owner's, and its status.
pub mod Status
use synapse_network_sdk.Base.{
  String, Bool, Option, none, some, List, [], ◌∷◌, str_eq, if◌then◌else◌,
}
use synapse_network_sdk.Base.Int.{ℤ}
use synapse_network_sdk.Strings.{◌+++◌}
use synapse_network_sdk.Json.{Json, null, bool, num, str, obj, Fields, end, field}
use synapse_network_sdk.Runtime.{
  authentication, Result, ok, err, ◌>>=◌, lift_result, Action, or_invalid,
}
use synapse_network_sdk.Host.{Host}
use synapse_network_sdk.Models.Service.{ServiceHealthSummary}
use synapse_network_sdk.Models.Provider.{
  ProviderService, ProviderServiceStatus, read_provider_service_status,
}
use synapse_network_sdk.Auth.{SynapseAuth, require_value}
use synapse_network_sdk.Auth.Provider.{list_provider_services}

-- the loop of `get_provider_service`
unfoldable pub find_service : String → List ProviderService → Result ProviderService
find_service id [] = err (authentication ("Provider service not found: " +++ id))
find_service id (s ∷ services) = if str_eq s.service_id id then ok s else find_service id services

module _ (H : Host) where
  unfoldable pub get_provider_service : String → Action SynapseAuth ProviderService
  unfolding require_value list_provider_services find_service
  get_provider_service service_id = do
    id ← lift_result (require_value service_id "service_id")
    services ← list_provider_services H
    lift_result (find_service id services)

  abbrev pub integer_or_null : Option ℤ → Json
  integer_or_null none = null
  integer_or_null (some n) = num (H.show_int n)

  -- `service.health.model_dump(by_alias=True)`
  unfoldable pub dump_health : ServiceHealthSummary → Fields
  dump_health h = field "overallStatus" (str h.overall_status) (
      field "healthyTargets" (num (H.show_int h.healthy_targets)) (
        field "totalTargets" (num (H.show_int h.total_targets)) (
          field "lastCheckedAt" (integer_or_null h.last_checked_at)
            (field "runtimeAvailable" (bool h.runtime_available) end))))

  -- the keyword arguments of `ProviderServiceStatus`
  unfoldable pub status_arguments : ProviderService → Fields
  unfolding dump_health
  status_arguments s = field "serviceId" (str s.service_id) (
      field "lifecycleStatus" (str s.status) (
        field "runtimeAvailable" (bool s.runtime_available)
          (field "health" (obj (dump_health s.health)) end)))

  unfoldable pub status_of : ProviderService → Result ProviderServiceStatus
  unfolding status_arguments
  status_of s = or_invalid (read_provider_service_status H (status_arguments s))

  unfoldable pub get_provider_service_status : String → Action SynapseAuth ProviderServiceStatus
  unfolding get_provider_service status_of
  get_provider_service_status service_id = do
    service ← get_provider_service service_id
    lift_result (status_of service)
