-- ===== src/Client/Invoke/Outcome.antt =====
-- How a call of `invoke` ends.
use synapse_network_sdk.Base.{
  ℕ, ◌+◌, ◌<◌, String, false, ◌≡◌, ◌≢◌, ◌⊎◌, inl, inr, Option, none, arith, Bool-cases,
}
use mathlib.Core.Path.{subst}
use synapse_network_sdk.Base.Int.{pos, pos_part}
use synapse_network_sdk.Strings.{truthy, strip}
use synapse_network_sdk.Runtime.{value_error, err, stalled, lift_result, ◌>>=◌, invoke}
use synapse_network_sdk.Runtime.Steps.{bind_assoc, bind-ne-stalled}
use synapse_network_sdk.Host.{Host, ClockLaws, Request, Trace, Response, send}
use synapse_network_sdk.Models.Invocation.{InvocationResponse, is_terminal}
use synapse_network_sdk.Client.{SynapseClient}
use synapse_network_sdk.Client.Response.Mapping.{raise_for_error-ne-stalled}
use synapse_network_sdk.Client.Polling.Ends.{wait_for_invocation-ends}
use synapse_network_sdk.Client.Polling.Settles.{
  IsAnswer, Settles, answered, bind-Settles, send-Answers, wait_for_invocation-Settles,
}
use synapse_network_sdk.Client.Invoke.{
  InvokeCall, check_call, invocation_key, read_invocation, settle, invoke_request, post_invocation,
  invoke_call,
}

module _ (H : Host) (c : SynapseClient) (a : InvokeCall) where
  settle-Settles :
      (r : InvocationResponse) (u : Trace) → IsAnswer H r u → Settles H (settle H c a r u)
  unfolding settle
  settle-Settles r u answer = elim (Bool-cases (is_terminal r)) [
    | inl terminal ↦ rw terminal (terminal, answer)
    | inr pending ↦
        rw pending (wait_for_invocation-Settles H c r.invocation_id a.poll_timeout_sec (pos 1) u)
  ]

  -- The answer to the post, and what is done with it.
  post_invocation-Settles : (key : String) (u : Trace) → Settles H (post_invocation H c a key u)
  unfolding post_invocation read_invocation
  post_invocation-Settles key u =
      let q = invoke_request H c a key in
      let posted = send H q >>= λ r. lift_result (read_invocation H r) in
      subst (λ p. Settles H p)
        (bind_assoc (send H q) (λ r. lift_result (read_invocation H r)) (settle H c a) u)
        (bind-Settles H posted (settle H c a) u (λ r e.
          settle-Settles r (posted u).1
            (answered H (posted u) r e (send-Answers H q (invoke "service invocation failed") u))))

  -- Whatever a call of invoke returns has a terminal status, also where the gateway accepted the
  -- call without finishing it, and was read from the JSON object of the good response to the last
  -- request that the call sent.
  pub invoke_call-Settles : (u : Trace) → Settles H (invoke_call H c a u)
  unfolding invoke_call
  invoke_call-Settles u =
      bind-Settles H (lift_result (check_call a))
        (λ _. invocation_key H a.idempotency_key >>= post_invocation H c a) u
        (λ _ _.
          bind-Settles H (invocation_key H a.idempotency_key) (post_invocation H c a) u
            (λ key _. post_invocation-Settles key (invocation_key H a.idempotency_key u).1))

  check_call-ne-stalled : check_call a ≢ stalled
  unfolding check_call
  check_call-ne-stalled = ground arith

  invocation_key-ne-stalled : (k : Option String) (u : Trace) → (invocation_key H k u).0 ≢ stalled
  unfolding invocation_key
  invocation_key-ne-stalled k u = ground arith

  send-ne-stalled : (q : Request) (u : Trace) → (send H q u).0 ≢ stalled
  unfolding send
  send-ne-stalled q u = ground arith

  read_invocation-ne-stalled : (r : Response) → read_invocation H r ≢ stalled
  unfolding read_invocation
  read_invocation-ne-stalled r =
      ground (arith, raise_for_error-ne-stalled H r (invoke "service invocation failed"))

  module _ (back : ℕ) (laws : ClockLaws H back)
      (enough : pos_part a.poll_timeout_sec + back < H.rounds) where
    settle-ends : (r : InvocationResponse) (u : Trace) → (settle H c a r u).0 ≢ stalled
    unfolding settle
    settle-ends r u = ground (
      arith,
      wait_for_invocation-ends H c r.invocation_id a.poll_timeout_sec (pos 1) u back laws enough,
    )

    post_invocation-ends : (key : String) (u : Trace) → (post_invocation H c a key u).0 ≢ stalled
    unfolding post_invocation
    post_invocation-ends key u =
        bind-ne-stalled (send H (invoke_request H c a key))
          (λ r. lift_result (read_invocation H r) >>= settle H c a) u
          (send-ne-stalled (invoke_request H c a key) u)
          (λ r.
            bind-ne-stalled (lift_result (read_invocation H r)) (settle H c a)
              (send H (invoke_request H c a key) u).1 (read_invocation-ne-stalled r)
              (λ s. settle-ends s (send H (invoke_request H c a key) u).1))

    -- A call of invoke ends, if time.sleep sleeps as long as it is told, the system clock is set
    -- back by no more than `back` seconds, and the model follows more rounds of polling than
    -- poll_timeout_sec and `back` have seconds.
    pub invoke_call-ends : (u : Trace) → (invoke_call H c a u).0 ≢ stalled
    unfolding invoke_call
    invoke_call-ends u =
        bind-ne-stalled (lift_result (check_call a))
          (λ _. invocation_key H a.idempotency_key >>= post_invocation H c a) u
          check_call-ne-stalled
          (λ _.
            bind-ne-stalled (invocation_key H a.idempotency_key) (post_invocation H c a) u
              (invocation_key-ne-stalled a.idempotency_key u)
              (λ key. post_invocation-ends key (invocation_key H a.idempotency_key u).1))

refusal :
    (a : InvokeCall)
    → ((truthy (strip a.service_id) ≡ false)
        ⊎ ((a.cost_usdc ≡ none) × (a.allow_missing_cost_usdc ≡ false)))
    → (m : String) × (check_call a ≡ err (value_error m))
unfolding check_call
refusal a (inl blank) = ("service_id is required", rw blank)
refusal a (inr (free, needed)) = elim (Bool-cases (truthy (strip a.service_id))) [
  | inl named ↦ (
    "cost_usdc is required for fixed-price API services. Use invoke_llm() for LLM services.",
    ground arith,
  )
  | inr blank ↦ ("service_id is required", ground arith)
]

-- A call of invoke with a blank service id, or with no price where one is needed, is refused with a
-- ValueError, and no request is sent.
pub invoke_call-refuses :
    (H : Host) (c : SynapseClient) (a : InvokeCall) (u : Trace)
    → ((truthy (strip a.service_id) ≡ false)
        ⊎ ((a.cost_usdc ≡ none) × (a.allow_missing_cost_usdc ≡ false)))
    → (m : String) × (invoke_call H c a u ≡ (err (value_error m), u))
unfolding invoke_call
invoke_call-refuses H c a u h = let (m, refused) = refusal a h in (m, rw refused)
