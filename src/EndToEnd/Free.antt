-- ===== src/EndToEnd/Free.antt =====
-- What `fixed_target` of python/examples/e2e.py may choose.
use synapse_network_sdk.Base.{
  String, Bool, true, false, ◌&&◌, Option, none, some, List, [], ◌∷◌, str_eq, eq_iff, if◌then◌else◌,
  ◌≡◌, refl,
}
use synapse_network_sdk.Base.Int.{pos}
use synapse_network_sdk.Strings.{truthy}
use synapse_network_sdk.Json.{Fields}
use synapse_network_sdk.Runtime.{Result, ok, err, stalled, Action, ◌>>=◌, lift_result, pure}
use synapse_network_sdk.Runtime.Steps.{Returns, bind-Returns}
use synapse_network_sdk.Host.{Host, Trace}
use synapse_network_sdk.Models.Service.{DiscoveredService}
use synapse_network_sdk.Client.{SynapseClient}
use synapse_network_sdk.Client.Discovery.{search}
use synapse_network_sdk.EndToEnd.{Tools, env_text, json_payload, echo_service_id, fail}
use synapse_network_sdk.EndToEnd.Target.{
  free_amount, target_of, default_fixed_payload, find_free, configured_target, any_free,
  discovered_target, fixed_target,
}

module _ (H : Host) (T : Tools) where
  -- A service that passes a test and is free, where one was found.
  abbrev FoundFree : (DiscoveredService → Bool) → Option DiscoveredService → Type 0
  FoundFree test none = Unit
  FoundFree test (some s) = (test s ≡ true) × (T.is_zero s.pricing.amount ≡ some true)

  find_free-FoundFree :
      (test : DiscoveredService → Bool) (services : List DiscoveredService)
      → Returns (FoundFree test) (find_free H T test services)
  unfolding find_free free_amount
  find_free-FoundFree test [] = tt
  find_free-FoundFree test (s ∷ services) =
      by_tests (test s) (str_eq (H.lower s.service_kind) "api")
        (str_eq (H.lower s.price_model) "fixed") (T.is_zero s.pricing.amount) refl refl
        (find_free H T test services) (find_free-FoundFree test services)
    where
      by_tests :
          (b api fixed : Bool) (zero : Option Bool)
          → test s ≡ b
          → T.is_zero s.pricing.amount ≡ zero
          → (rest : Result (Option DiscoveredService)) → Returns (FoundFree test) rest
          → Returns (FoundFree test) (
              if b && api && fixed
              then elim (free_amount zero) [
                | ok b ↦ if b then ok (some s) else rest
                | err e ↦ err e
                | stalled ↦ stalled
              ]
              else rest)
      by_tests false api fixed zero e z rest h = h
      by_tests true false fixed zero e z rest h = h
      by_tests true true false zero e z rest h = h
      by_tests true true true none e z rest h = tt
      by_tests true true true (some true) e z rest h = (e, z)
      by_tests true true true (some false) e z rest h = h

  -- A target with an identifier whose price is zero.
  abbrev pub IsFree : String × String × Fields → Type 0
  IsFree t = (truthy t.0 ≡ true) × (T.is_zero t.1 ≡ some true)

  -- A run goes on with what was found.
  found-IsFree :
      (test : DiscoveredService → Bool) (r : Result (Option DiscoveredService))
      (next : Option DiscoveredService → Action Trace (String × String × Fields)) (u : Trace)
      → Returns (FoundFree test) r
      → ((o : Option DiscoveredService) → FoundFree test o → Returns IsFree (next o u).0)
      → Returns IsFree ((lift_result r >>= next) u).0
  found-IsFree test (ok o) next u h goes_on = goes_on o h
  found-IsFree test (err e) next u h goes_on = tt
  found-IsFree test stalled next u h goes_on = tt

  any_free-IsFree :
      (c : SynapseClient) (payload : Fields) (u : Trace)
      → Returns IsFree (any_free H T c payload u).0
  unfolding any_free
  any_free-IsFree c payload u =
      let named = (λ (s : DiscoveredService). truthy s.service_id) in
      bind-Returns IsFree (search H c "free" (pos 25) (pos 0) none none)
        (λ services. lift_result (find_free H T named services) >>= chosen) u
        (λ services _.
          found-IsFree named (find_free H T named services) chosen
            (search H c "free" (pos 25) (pos 0) none none u).1 (find_free-FoundFree named services)
            (λ o found. goes_on o (search H c "free" (pos 25) (pos 0) none none u).1 found))
    where
      chosen : Option DiscoveredService → Action Trace (String × String × Fields)
      chosen o = elim o [
        | some s ↦ pure (target_of payload s)
        | none ↦
            fail
              "no free fixed-price API service found; set SYNAPSE_E2E_FIXED_SERVICE_ID, SYNAPSE_E2E_FIXED_COST_USDC, and SYNAPSE_E2E_FIXED_PAYLOAD_JSON"
      ]

      goes_on :
          (o : Option DiscoveredService) (v : Trace)
          → FoundFree (λ s. truthy s.service_id) o
          → Returns IsFree (chosen o v).0
      goes_on none v found = tt
      goes_on (some s) v found = found

  -- The identifier of the echo service is not empty.
  echo-IsFree :
      (payload : Fields) (s : DiscoveredService)
      → str_eq s.service_id echo_service_id ≡ true
      → T.is_zero s.pricing.amount ≡ some true
      → IsFree (target_of payload s)
  unfolding truthy
  echo-IsFree payload s e free = (rw ((eq_iff s.service_id echo_service_id).0 e) refl, free)

  discovered_target-IsFree :
      (c : SynapseClient) (payload : Fields) (u : Trace)
      → Returns IsFree (discovered_target H T c payload u).0
  unfolding discovered_target
  discovered_target-IsFree c payload u =
      let echo = (λ (s : DiscoveredService). str_eq s.service_id echo_service_id) in
      let first = search H c echo_service_id (pos 10) (pos 0) none none in
      bind-Returns IsFree first (λ services. lift_result (find_free H T echo services) >>= chosen) u
        (λ services _.
          found-IsFree echo (find_free H T echo services) chosen (first u).1
            (find_free-FoundFree echo services) (λ o found. goes_on o (first u).1 found))
    where
      chosen : Option DiscoveredService → Action Trace (String × String × Fields)
      chosen o = elim o [ some s ↦ pure (target_of payload s) | none ↦ any_free H T c payload ]

      goes_on :
          (o : Option DiscoveredService) (v : Trace)
          → FoundFree (λ s. str_eq s.service_id echo_service_id) o
          → Returns IsFree (chosen o v).0
      goes_on none v found = any_free-IsFree c payload v
      goes_on (some s) v found = echo-IsFree payload s found.0 found.1

  configured_target_unnamed :
      (payload : Fields)
      → truthy (env_text H T "SYNAPSE_E2E_FIXED_SERVICE_ID") ≡ false
      → configured_target H T payload ≡ ok none
  unfolding configured_target
  configured_target_unnamed payload unnamed = rw unnamed

  -- Where the environment names no service, the target that fixed_target returns has an identifier
  -- that is not empty, and its price is zero.
  pub fixed_target-IsFree :
      (c : SynapseClient) (u : Trace)
      → truthy (env_text H T "SYNAPSE_E2E_FIXED_SERVICE_ID") ≡ false
      → Returns IsFree (fixed_target H T c u).0
  unfolding fixed_target
  fixed_target-IsFree c u unnamed =
      let read =
        lift_result (json_payload H T "SYNAPSE_E2E_FIXED_PAYLOAD_JSON" default_fixed_payload) in
      bind-Returns IsFree read
        (λ payload. lift_result (configured_target H T payload) >>= chosen payload) u
        (λ payload _.
          rw (configured_target_unnamed payload unnamed)
            (discovered_target-IsFree c payload (read u).1))
    where
      chosen : Fields → Option (String × String × Fields) → Action Trace (String × String × Fields)
      chosen payload o = elim o [ some t ↦ pure t | none ↦ discovered_target H T c payload ]
