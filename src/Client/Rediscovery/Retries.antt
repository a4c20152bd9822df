-- ===== src/Client/Rediscovery/Retries.antt =====
-- How an invocation with rediscovery ends, and how often it posts.
use synapse_network_sdk.Base.{
  or_else, ℕ, suc, ◌+◌, ◌≤◌, String, false, ◌≡◌, refl, ◌≢◌, arith, List, str_eq, eq_iff, Bool-cases,
  if◌then◌else◌, inl, inr,
}
use synapse_network_sdk.Base.Int.{pos}
use synapse_network_sdk.Strings.{◌+++◌, str_or}
use text.Mathlib.TextLemmas.{append_cancel_left}
use synapse_network_sdk.Runtime.{
  Float, Error, price_mismatch, Result, ok, err, stalled, Action, lift_result, ◌>>=◌,
}
use synapse_network_sdk.Runtime.Steps.{occurrences, bind_state}
use synapse_network_sdk.Host.{Host, Trace}
use synapse_network_sdk.Models.Invocation.{InvocationResponse}
use synapse_network_sdk.Models.Service.{DiscoveredService}
use synapse_network_sdk.Client.{SynapseClient, post_request}
use synapse_network_sdk.Client.Discovery.{search_request}
use synapse_network_sdk.Client.Invoke.{amount, InvokeCall, check_call, invoke_call}
use synapse_network_sdk.Client.Invoke.Posts.{is_invocation, posts_allowed, invoke_call_posts}
use synapse_network_sdk.Client.Rediscovery.{
  find_price, Rediscovery, priced_call, rediscovered_price, retry_at, on_mismatch, recover,
  invoke_with_rediscovery, client_search, client_invoke_with_rediscovery,
}

-- The paths of a search and of an invocation differ under every gateway.
paths_differ :
    (g : String)
    → str_eq (g +++ "/api/v1/agent/discovery/search") (g +++ "/api/v1/agent/invoke") ≡ false
paths_differ g =
    elim (Bool-cases
      (str_eq (g +++ "/api/v1/agent/discovery/search") (g +++ "/api/v1/agent/invoke"))) [
        | inl same ↦ absurd (
            literals (
              append_cancel_left g "/api/v1/agent/discovery/search" "/api/v1/agent/invoke"
                ((eq_iff _ _).0 same)))
        | inr differ ↦ differ
      ]
  where
    literals : ◌≢◌ {A = String} "/api/v1/agent/discovery/search" "/api/v1/agent/invoke"
    literals = ground (arith, eq_iff "/api/v1/agent/discovery/search" "/api/v1/agent/invoke")

module _ (H : Host) (c : SynapseClient) (a : Rediscovery) where
  search_posts :
      (query : String) (u : Trace)
      → occurrences (is_invocation c) (client_search H c a query u).1
        ≡ occurrences (is_invocation c) u
  unfolding client_search search_request post_request
  search_posts query u = ground (arith, paths_differ c.gateway_url)

  allowed-le : (r : Result (Unit {0})) → posts_allowed H c (priced_call a a.cost_usdc) r ≤ 1
  allowed-le (ok _) = omega arith
  allowed-le (err _) = omega arith
  allowed-le stalled = omega arith

  attempt_posts :
      (b : InvokeCall) (u : Trace)
      → occurrences (is_invocation c) (invoke_call H c b u).1
        ≤ suc (occurrences (is_invocation c) u)
  attempt_posts b u = omega (arith, invoke_call_posts H c b u, allowed-le (check_call b))

  rediscovered_price_posts :
      (fallback_price : Float) (u : Trace)
      → occurrences
          (is_invocation c)
          (rediscovered_price H (client_search H c a) a fallback_price u).1
        ≡ occurrences (is_invocation c) u
  unfolding rediscovered_price
  rediscovered_price_posts fallback_price u =
      let query = str_or (or_else a.query "") a.service_id in
      bind_state (λ w. occurrences (is_invocation c) w ≡ occurrences (is_invocation c) u)
        (client_search H c a query)
        (λ services. lift_result (find_price H a.service_id fallback_price services)) u
        (search_posts query u) (λ _ same. same)

  retry_at_posts :
      (exc : Error) (live_price : Float) (u : Trace)
      → occurrences (is_invocation c) (retry_at H (invoke_call H c) a exc live_price u).1
        ≤ suc (occurrences (is_invocation c) u)
  unfolding retry_at
  retry_at_posts exc live_price u =
      ground (arith, attempt_posts (priced_call a (amount live_price)) u)

  again_posts :
      (exc : Error) (fallback_price : Float) (u : Trace)
      → occurrences
          (is_invocation c)
          ((rediscovered_price H (client_search H c a) a fallback_price
              >>= retry_at H (invoke_call H c) a exc)
            u).1
        ≤ suc (occurrences (is_invocation c) u)
  again_posts exc fallback_price u =
      let same = rediscovered_price_posts fallback_price u in
      let v = (rediscovered_price H (client_search H c a) a fallback_price u).1 in
      bind_state (λ w. occurrences (is_invocation c) w ≤ suc (occurrences (is_invocation c) u))
        (rediscovered_price H (client_search H c a) a fallback_price)
        (retry_at H (invoke_call H c) a exc) u (omega (arith, same))
        (λ live_price _. omega (arith, same, retry_at_posts exc live_price v))

  recover_posts :
      (r : Result InvocationResponse) (u : Trace)
      → occurrences (is_invocation c) (recover H (invoke_call H c) (client_search H c a) a r u).1
        ≤ suc (occurrences (is_invocation c) u)
  unfolding recover on_mismatch
  recover_posts (ok _) u = omega arith
  recover_posts (err (price_mismatch m expected current)) u = ground (
    arith,
    again_posts (price_mismatch m expected current)
        (if H.is_zero current then H.zero_float else current) u,
  )
  recover_posts (err e) u = omega arith
  recover_posts stalled u = omega arith

  -- An invocation with rediscovery posts at most two invocations, whatever max_rediscovery_retries
  -- is and however its attempts and its search end.
  pub client_invoke_with_rediscovery_posts :
      (u : Trace)
      → occurrences (is_invocation c) (client_invoke_with_rediscovery H c a u).1
        ≤ 2 + occurrences (is_invocation c) u
  unfolding client_invoke_with_rediscovery
  client_invoke_with_rediscovery_posts u =
      let first = priced_call a a.cost_usdc in
      let (r, v) = invoke_call H c first u in
      omega (arith, attempt_posts first u, recover_posts r v)

-- The second attempt is behind a PriceMismatchError alone: where the first attempt returns, or
-- raises anything else, that is the outcome, and nothing more happens.
pub rediscovery-first :
    {S : Type 0} (H : Host) (self_invoke : InvokeCall → Action S InvocationResponse)
    (self_search : String → Action S (List DiscoveredService)) (a : Rediscovery) (s : S)
    → ((m : String) (expected current : Float)
        → (self_invoke (priced_call a a.cost_usdc) s).0 ≢ err (price_mismatch m expected current))
    → invoke_with_rediscovery H self_invoke self_search a s
      ≡ self_invoke (priced_call a a.cost_usdc) s
unfolding invoke_with_rediscovery recover
rediscovery-first {S} H self_invoke self_search a s other =
    let (r, s') = self_invoke (priced_call a a.cost_usdc) s in passed r s' other
  where
    passed :
        (r : Result InvocationResponse) (s' : S)
        → ((m : String) (expected current : Float) → r ≢ err (price_mismatch m expected current))
        → recover H self_invoke self_search a r s' ≡ (r, s')
    passed (ok _) s' other' = refl
    passed (err (price_mismatch m expected current)) s' other' =
        absurd (other' m expected current refl)
    passed (err e) s' other' = refl
    passed stalled s' other' = refl

recover_retries :
    {S : Type 0} (H : Host) (self_invoke : InvokeCall → Action S InvocationResponse)
    (self_search : String → Action S (List DiscoveredService)) (a : Rediscovery) (n : ℕ)
    (r : Result InvocationResponse) (s : S)
    → a.max_rediscovery_retries ≡ pos (suc n)
    → recover H self_invoke self_search a r s
      ≡ recover H self_invoke self_search (record a { max_rediscovery_retries = pos 1 }) r s
unfolding recover on_mismatch retry_at rediscovered_price priced_call
recover_retries H self_invoke self_search a n (err (price_mismatch m expected current)) s positive =
    simp positive
recover_retries H self_invoke self_search a n (ok _) s positive = refl
recover_retries H self_invoke self_search a n (err e) s positive = refl
recover_retries H self_invoke self_search a n stalled s positive = refl

-- Any positive max_rediscovery_retries has the effect of 1: the number of retries is not counted.
pub rediscovery_retries :
    {S : Type 0} (H : Host) (self_invoke : InvokeCall → Action S InvocationResponse)
    (self_search : String → Action S (List DiscoveredService)) (a : Rediscovery) (n : ℕ) (s : S)
    → a.max_rediscovery_retries ≡ pos (suc n)
    → invoke_with_rediscovery H self_invoke self_search a s
      ≡ invoke_with_rediscovery H self_invoke self_search
          (record a { max_rediscovery_retries = pos 1 })
          s
unfolding invoke_with_rediscovery priced_call
rediscovery_retries H self_invoke self_search a n s positive =
    let (r, s') = self_invoke (priced_call a a.cost_usdc) s in
    recover_retries H self_invoke self_search a n r s' positive
