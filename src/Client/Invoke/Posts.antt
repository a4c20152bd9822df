-- ===== src/Client/Invoke/Posts.antt =====
-- How often a call of `invoke` posts.
use synapse_network_sdk.Base.{
  ℕ, zero, suc, ◌+◌, String, Bool, false, ◌&&◌, ◌≡◌, refl, ◌∙◌, Option, arith, ◌∷◌, str_eq, eq_refl,
}
use synapse_network_sdk.Base.Int.{ℤ, pos, at_least_one}
use synapse_network_sdk.Strings.{◌+++◌}
use synapse_network_sdk.Runtime.{Result, ok, err, stalled, Action, lift_result, ◌>>=◌}
use synapse_network_sdk.Runtime.Steps.{occurrences, bind_state}
use synapse_network_sdk.Host.{Host, Event, sent, slept, ticked, drew, Trace, send}
use synapse_network_sdk.Models.Invocation.{InvocationResponse}
use synapse_network_sdk.Client.{SynapseClient, post_request}
use synapse_network_sdk.Client.Polling.{
  receipt_request, get_invocation_receipt, after_receipt, poll_loop, wait_for_invocation,
}
use synapse_network_sdk.Client.Invoke.{
  InvokeCall, check_call, invocation_key, read_invocation, settle, invoke_request, post_invocation,
  invoke_call,
}

-- The event is the posting of an invocation to the client's gateway.
abbrev pub is_invocation : SynapseClient → Event → Bool
is_invocation c (sent r) =
    str_eq r.method "POST" && str_eq r.url (c.gateway_url +++ "/api/v1/agent/invoke")
is_invocation c (slept _) = false
is_invocation c ticked = false
is_invocation c drew = false

module _ (H : Host) (c : SynapseClient) (id : String) (max_wait_sec interval : ℤ) where
  abbrev posts : Trace → ℕ
  posts u = occurrences (is_invocation c) u

  receipt_posts : (u : Trace) → posts (get_invocation_receipt H c id u).1 ≡ posts u
  unfolding get_invocation_receipt receipt_request
  receipt_posts u = ground arith

  module _ (started : ℕ) where
    posts-after_receipt :
        (again : Action Trace InvocationResponse) (r : InvocationResponse) (u : Trace)
        → ((v : Trace) → posts (again v).1 ≡ posts v)
        → posts (after_receipt H max_wait_sec interval started again r u).1 ≡ posts u
    unfolding after_receipt
    posts-after_receipt again r u h = ground (arith, h (slept (at_least_one interval) ∷ ticked ∷ u))

    posts-poll_loop :
        (n : ℕ) (u : Trace) → posts (poll_loop H n c id max_wait_sec interval started u).1 ≡ posts u
    unfolding poll_loop
    posts-poll_loop zero u = refl
    posts-poll_loop (suc n) u =
        let again = poll_loop H n c id max_wait_sec interval started in
        let same = posts-poll_loop n in
        let v = (get_invocation_receipt H c id u).1 in
        bind_state (λ w. posts w ≡ posts u) (get_invocation_receipt H c id)
          (after_receipt H max_wait_sec interval started again) u (receipt_posts u)
          (λ r e. posts-after_receipt again r v same ∙ e)

  pub wait_posts :
      (u : Trace) → posts (wait_for_invocation H c id max_wait_sec interval u).1 ≡ posts u
  unfolding wait_for_invocation
  wait_posts u = rw (posts-poll_loop (H.clock u) H.rounds (ticked ∷ u)) (omega arith)

one_more : (n : ℕ) → suc n ≡ 1 + n
one_more n = omega arith

module _ (H : Host) (c : SynapseClient) (a : InvokeCall) where
  settle_posts :
      (r : InvocationResponse) (u : Trace)
      → occurrences (is_invocation c) (settle H c a r u).1 ≡ occurrences (is_invocation c) u
  unfolding settle
  settle_posts r u = ground (arith, wait_posts H c r.invocation_id a.poll_timeout_sec (pos 1) u)

  invocation_key_posts :
      (k : Option String) (u : Trace)
      → occurrences (is_invocation c) (invocation_key H k u).1 ≡ occurrences (is_invocation c) u
  unfolding invocation_key
  invocation_key_posts k u = ground arith

  send_posts :
      (key : String) (u : Trace)
      → occurrences (is_invocation c) (send H (invoke_request H c a key) u).1
        ≡ suc (occurrences (is_invocation c) u)
  unfolding send invoke_request post_request
  send_posts key u = rw (eq_refl (c.gateway_url +++ "/api/v1/agent/invoke")) (omega arith)

  post_posts :
      (key : String) (u : Trace)
      → occurrences (is_invocation c) (post_invocation H c a key u).1
        ≡ suc (occurrences (is_invocation c) u)
  unfolding post_invocation
  post_posts key u =
      let posted = (send H (invoke_request H c a key) u).1 in
      bind_state (λ w. occurrences (is_invocation c) w ≡ suc (occurrences (is_invocation c) u))
        (send H (invoke_request H c a key))
        (λ r. lift_result (read_invocation H r) >>= settle H c a) u (send_posts key u)
        (λ r h.
          bind_state (λ w. occurrences (is_invocation c) w ≡ suc (occurrences (is_invocation c) u))
            (lift_result (read_invocation H r)) (settle H c a) posted h
            (λ s _. settle_posts s posted ∙ h))

  -- What is behind the checks posts once, or not at all where the key cannot be made.
  abbrev pub posts_allowed : Result (Unit {0}) → ℕ
  posts_allowed (ok _) = 1
  posts_allowed (err _) = 0
  posts_allowed stalled = 0

  keyed_posts :
      (u : Trace)
      → occurrences
          (is_invocation c)
          ((invocation_key H a.idempotency_key >>= post_invocation H c a) u).1
        ≡ suc (occurrences (is_invocation c) u)
  unfolding invocation_key
  keyed_posts u = grind (arith, post_posts)

  -- A call of invoke posts its invocation exactly once if it passes the checks of its arguments,
  -- however it ends and however long it waits; and not at all if it does not pass them.
  pub invoke_call_posts :
      (u : Trace)
      → occurrences (is_invocation c) (invoke_call H c a u).1
        ≡ posts_allowed (check_call a) + occurrences (is_invocation c) u
  unfolding invoke_call
  invoke_call_posts u = checked (check_call a)
    where
      checked :
          (r : Result (Unit {0}))
          → occurrences
              (is_invocation c)
              (◌>>=◌
                (λ v. (r, v))
                (λ _. invocation_key H a.idempotency_key >>= post_invocation H c a)
                u).1
            ≡ posts_allowed r + occurrences (is_invocation c) u
      checked (ok _) = keyed_posts u ∙ one_more (occurrences (is_invocation c) u)
      checked (err _) = omega arith
      checked stalled = omega arith
