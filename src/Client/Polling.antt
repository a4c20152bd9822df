-- ===== src/Client/Polling.antt =====
-- client.py, `get_invocation_receipt`, `check_gateway_health` and `wait_for_invocation`.
pub mod Ends
pub mod Lookups
pub mod Settles
use synapse_network_sdk.Base.{
  ℕ, zero, suc, ◌+◌, ◌*◌, String, Bool, true, not, Option, none, ltb, if◌then◌else◌, List, [],
}
use synapse_network_sdk.Base.Int.{ℤ, pos, pos_part, neg_part, at_least_one}
use synapse_network_sdk.Strings.{◌+++◌, truthy, strip}
use synapse_network_sdk.Json.{Fields}
use synapse_network_sdk.Runtime.{
  Result, and_then, invoke, value_error, timeout, stalled, ◌>>=◌, ◌>>◌, pure, raise, raise_if,
  lift_result, Action, or_invalid,
}
use synapse_network_sdk.Host.{Host, Request, Response, Trace, second, send, now, sleep}
use synapse_network_sdk.Models.Invocation.{
  InvocationResponse, read_invocation_response, is_terminal,
}
use synapse_network_sdk.Client.{SynapseClient, get_request, headers}
use synapse_network_sdk.Client.Response.{response_payload, raise_for_error}

-- the request of a receipt lookup
unfoldable pub receipt_request : SynapseClient → String → Request
unfolding get_request headers strip
receipt_request c invocation_id =
    get_request c ("/api/v1/agent/invocations/" +++ strip invocation_id) (headers c none)

module _ (H : Host) where
  -- the response to a lookup, as the SDK's exception or as the model
  unfoldable pub read_receipt : Response → Result InvocationResponse
  read_receipt r =
      and_then (raise_for_error H r (invoke "invocation receipt lookup failed"))
        (λ _. or_invalid (read_invocation_response H (response_payload H r)))

  unfoldable pub get_invocation_receipt : SynapseClient → String → Action Trace InvocationResponse
  unfolding send
  get_invocation_receipt c invocation_id = do
    raise_if (not (truthy (strip invocation_id))) (value_error "invocation_id is required")
    r ← send H (receipt_request c invocation_id)
    lift_result (read_receipt r)

  unfoldable pub get_invocation : SynapseClient → String → Action Trace InvocationResponse
  unfolding get_invocation_receipt
  get_invocation c invocation_id = get_invocation_receipt c invocation_id

  unfoldable pub check_gateway_health : SynapseClient → Action Trace Fields
  unfolding send get_request response_payload
  check_gateway_health c = do
    r ← send H (get_request c "/health" [])
    lift_result (raise_for_error H r (invoke "gateway health check failed"))
    pure (response_payload H r)

  -- `t - started + step > max_wait_sec`, in ticks of the clock
  unfoldable pub out_of_time : ℕ → ℕ → ℕ → ℤ → Bool
  out_of_time t started step max_wait_sec =
      ltb (pos_part max_wait_sec * second + started)
        (t + step * second + neg_part max_wait_sec * second)

  -- one round of the loop behind the receipt lookup; `again` is the rest of the loop
  unfoldable pub after_receipt :
      ℤ
      → ℤ
      → ℕ
      → Action Trace InvocationResponse
      → InvocationResponse
      → Action Trace InvocationResponse
  unfolding now sleep out_of_time
  after_receipt max_wait_sec poll_interval_sec started again receipt =
      let step = at_least_one poll_interval_sec in
      let pending = do
        t ← now H
        raise_if (out_of_time t started step max_wait_sec)
            (timeout "Synapse invocation pending timeout.")
        sleep H step
        again
      in if is_terminal receipt then pure receipt else pending

  unfoldable pub poll_loop :
      ℕ → SynapseClient → String → ℤ → ℤ → ℕ → Action Trace InvocationResponse
  poll_loop zero c id max_wait_sec poll_interval_sec started = λ tr. (stalled, tr)
  poll_loop (suc n) c id max_wait_sec poll_interval_sec started =
      let again = poll_loop n c id max_wait_sec poll_interval_sec started in
      do
        receipt ← get_invocation_receipt c id
        after_receipt max_wait_sec poll_interval_sec started again receipt

  unfoldable pub wait_for_invocation :
      SynapseClient → String → ℤ → ℤ → Action Trace InvocationResponse
  unfolding now
  wait_for_invocation c id max_wait_sec poll_interval_sec = do
    started ← now H
    poll_loop H.rounds c id max_wait_sec poll_interval_sec started
