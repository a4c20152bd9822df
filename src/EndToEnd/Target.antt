-- ===== src/EndToEnd/Target.antt =====
-- The service that the fixed-price part of python/examples/e2e.py calls.
use synapse_network_sdk.Base.{
  String, Bool, ◌&&◌, Option, none, some, List, [], ◌∷◌, str_eq, if◌then◌else◌,
}
use synapse_network_sdk.Base.Int.{pos}
use synapse_network_sdk.Strings.{truthy}
use synapse_network_sdk.Json.{str, obj, Fields, end, field}
use synapse_network_sdk.Runtime.{
  invalid_operation, system_exit, Result, ok, err, stalled, ◌>>=◌, pure, lift_result, Action,
}
use synapse_network_sdk.Host.{Host, Trace}
use synapse_network_sdk.Models.Service.{DiscoveredService}
use synapse_network_sdk.Client.{SynapseClient}
use synapse_network_sdk.Client.Discovery.{search}
use synapse_network_sdk.EndToEnd.{Tools, fail, echo_service_id, env_text, json_payload}

-- `Decimal(amount) == Decimal("0")`, which raises where amount is not a number
unfoldable pub free_amount : Option Bool → Result Bool
free_amount none = err (invalid_operation "ConversionSyntax")
free_amount (some b) = ok b

abbrev pub target_of : Fields → DiscoveredService → String × String × Fields
target_of payload s = (s.service_id, s.pricing.amount, payload)

abbrev pub default_fixed_payload : Fields
default_fixed_payload =
    field "message" (str "hello from Synapse SDK smoke")
      (field "metadata" (obj (field "scenario" (str "fixed-price") end)) end)

module _ (H : Host) (T : Tools) where
  -- the first service that passes a test, is an API of a fixed price, and is free
  unfoldable pub find_free :
      (DiscoveredService → Bool) → List DiscoveredService → Result (Option DiscoveredService)
  unfolding free_amount
  find_free test [] = ok none
  find_free test (s ∷ services) =
      let rest = find_free test services in
      let free = free_amount (T.is_zero s.pricing.amount) in
      if test s && str_eq (H.lower s.service_kind) "api" && str_eq (H.lower s.price_model) "fixed"
      then elim free [ ok b ↦ if b then ok (some s) else rest | err e ↦ err e | stalled ↦ stalled ]
      else rest

  -- the target that is configured, if a service is
  unfoldable pub configured_target : Fields → Result (Option (String × String × Fields))
  unfolding env_text truthy
  configured_target payload =
      let service_id = env_text H T "SYNAPSE_E2E_FIXED_SERVICE_ID" in
      let cost = env_text H T "SYNAPSE_E2E_FIXED_COST_USDC" in
      if truthy service_id
      then (if truthy cost
          then ok (some (service_id, cost, payload))
          else err (
              system_exit
                "SYNAPSE_E2E_FIXED_COST_USDC is required when SYNAPSE_E2E_FIXED_SERVICE_ID is set"))
      else ok none

  -- the second search, for any free service
  unfoldable pub any_free : SynapseClient → Fields → Action Trace (String × String × Fields)
  unfolding find_free truthy
  any_free c payload = do
    services ← search H c "free" (pos 25) (pos 0) none none
    found ← lift_result (find_free (λ s. truthy s.service_id) services)
    elim found [
      | some s ↦ pure (target_of payload s)
      | none ↦
          fail
            "no free fixed-price API service found; set SYNAPSE_E2E_FIXED_SERVICE_ID, SYNAPSE_E2E_FIXED_COST_USDC, and SYNAPSE_E2E_FIXED_PAYLOAD_JSON"
    ]

  unfoldable pub discovered_target :
      SynapseClient → Fields → Action Trace (String × String × Fields)
  unfolding find_free any_free
  discovered_target c payload = do
    services ← search H c echo_service_id (pos 10) (pos 0) none none
    found ← lift_result (find_free (λ s. str_eq s.service_id echo_service_id) services)
    elim found [ some s ↦ pure (target_of payload s) | none ↦ any_free c payload ]

  unfoldable pub fixed_target : SynapseClient → Action Trace (String × String × Fields)
  unfolding json_payload configured_target discovered_target
  fixed_target c = do
    payload ← lift_result (json_payload H T "SYNAPSE_E2E_FIXED_PAYLOAD_JSON" default_fixed_payload)
    configured ← lift_result (configured_target payload)
    elim configured [ some t ↦ pure t | none ↦ discovered_target c payload ]
