-- ===== src/Client/Polling/Ends.antt =====
-- Waiting for a terminal status ends, on a clock that is set back by a bounded time.
use synapse_network_sdk.Base.{
  Bool-cases, ℕ, zero, suc, ◌+◌, ◌*◌, ◌≤◌, ◌<◌, String, ◌≢◌, ◌⊎◌, inl, inr, ◌∷◌, arith,
}
use synapse_network_sdk.Base.Int.{ℤ, pos_part, at_least_one, at_least_one-pos}
use synapse_network_sdk.Strings.{truthy, strip}
use synapse_network_sdk.Client.Response.Mapping.{raise_for_error-ne-stalled}
use synapse_network_sdk.Runtime.{invoke, lift_result, ◌>>=◌, stalled, Action}
use synapse_network_sdk.Runtime.Steps.{bind-ne-stalled}
use synapse_network_sdk.Host.{
  Reply, Response, response, failed, reply_of, Host, ClockLaws, Event, sent, slept, ticked, Trace,
  second,
}
use synapse_network_sdk.Models.Invocation.{InvocationResponse}
use synapse_network_sdk.Client.{SynapseClient}
use synapse_network_sdk.Client.Polling.{
  receipt_request, read_receipt, get_invocation_receipt, after_receipt, poll_loop,
  wait_for_invocation,
}

read_receipt-ne-stalled : (H : Host) (r : Response) → read_receipt H r ≢ stalled
unfolding read_receipt
read_receipt-ne-stalled H r =
    ground (arith, raise_for_error-ne-stalled H r (invoke "invocation receipt lookup failed"))

module _ (H : Host) (c : SynapseClient) (id : String) where
  pub receipt-ne-stalled : (u : Trace) → (get_invocation_receipt H c id u).0 ≢ stalled
  unfolding get_invocation_receipt
  receipt-ne-stalled u = elim (Bool-cases (truthy (strip id))) [
    | inl given ↦
        rw given (answered (H.respond u (receipt_request c id)) (sent (receipt_request c id) ∷ u))
    | inr blank ↦ rw blank (λ h. cc)
  ]
    where
      answered :
          (a : Reply) (v : Trace)
          → (◌>>=◌ (λ w. (reply_of H a, w)) (λ r. lift_result (read_receipt H r)) v).0 ≢ stalled
      answered (response r) v = read_receipt-ne-stalled H r
      answered (failed m) v = λ h. cc

  -- A lookup does not turn back a clock that no event turns back.
  pub receipt-forward :
      (reading : Trace → ℕ)
      → ((e : Event) (v : Trace) → reading v ≤ reading (e ∷ v))
      → (u : Trace) → reading u ≤ reading (get_invocation_receipt H c id u).1
  unfolding get_invocation_receipt
  receipt-forward reading forward u = ground (arith, forward (sent (receipt_request c id)) u)

  module _ (back : ℕ) (laws : ClockLaws H back) (max_wait_sec poll_interval_sec : ℤ)
      (started : Trace) where
    -- After `k` sleeps `k` seconds have gone by at least since the clock was first read.
    after_receipt-ne-stalled :
        (again : Action Trace InvocationResponse) (k : ℕ) (r : InvocationResponse) (u : Trace)
        → ((pos_part max_wait_sec + back ≤ k)
            ⊎ ((v : Trace)
                → laws.elapsed started + suc k * second ≤ laws.elapsed v
                → (again v).0 ≢ stalled))
        → laws.elapsed started + k * second ≤ laws.elapsed u
        → (after_receipt H max_wait_sec poll_interval_sec (H.clock started) again r u).0 ≢ stalled
    unfolding after_receipt
    after_receipt-ne-stalled again k r u (inl over) late =
        ground (arith, at_least_one-pos poll_interval_sec, laws.set_back started u (omega arith))
    after_receipt-ne-stalled again k r u (inr more) late =
        let step = at_least_one poll_interval_sec in
        ground (
          arith,
          at_least_one-pos poll_interval_sec,
          laws.forward ticked u,
          laws.sleeps step (ticked ∷ u),
          more (slept step ∷ ticked ∷ u),
        )

    -- The rest of a round, behind its lookup.
    abbrev round : ℕ → InvocationResponse → Action Trace InvocationResponse
    round n =
        after_receipt H max_wait_sec poll_interval_sec (H.clock started)
          (poll_loop H n c id max_wait_sec poll_interval_sec (H.clock started))

    poll_loop-ne-stalled :
        (n k : ℕ) (u : Trace)
        → pos_part max_wait_sec + back ≤ n + k
        → laws.elapsed started + k * second ≤ laws.elapsed u
        → (poll_loop H (suc n) c id max_wait_sec poll_interval_sec (H.clock started) u).0 ≢ stalled
    unfolding poll_loop
    poll_loop-ne-stalled zero k u enough late =
        bind-ne-stalled (get_invocation_receipt H c id) (round zero) u (receipt-ne-stalled u) (λ r.
          after_receipt-ne-stalled
            (poll_loop H zero c id max_wait_sec poll_interval_sec (H.clock started)) k r
            (get_invocation_receipt H c id u).1 (inl (omega arith))
            (omega (arith, receipt-forward laws.elapsed laws.forward u)))
    poll_loop-ne-stalled (suc n) k u enough late =
        let again = poll_loop-ne-stalled n (suc k) in
        bind-ne-stalled (get_invocation_receipt H c id) (round (suc n)) u (receipt-ne-stalled u)
          (λ r.
            after_receipt-ne-stalled
              (poll_loop H (suc n) c id max_wait_sec poll_interval_sec (H.clock started)) k r
              (get_invocation_receipt H c id u).1 (inr (λ v later. again v (omega arith) later))
              (omega (arith, receipt-forward laws.elapsed laws.forward u)))

    poll_loop-ends :
        (n : ℕ) (u : Trace)
        → pos_part max_wait_sec + back < n
        → laws.elapsed started ≤ laws.elapsed u
        → (poll_loop H n c id max_wait_sec poll_interval_sec (H.clock started) u).0 ≢ stalled
    poll_loop-ends zero u enough late = elim enough [ ]
    poll_loop-ends (suc n) u enough late = poll_loop-ne-stalled n 0 u (omega arith) (omega arith)

-- Waiting for an invocation returns or raises, whatever the gateway answers, if time.sleep sleeps
-- as long as it is told, the system clock is set back by no more than `back` seconds, and the model
-- follows more rounds of polling than max_wait_sec and `back` have seconds (a negative
-- max_wait_sec counts as 0).
pub wait_for_invocation-ends :
    (H : Host) (c : SynapseClient) (id : String) (max_wait_sec poll_interval_sec : ℤ) (u : Trace)
    (back : ℕ)
    → ClockLaws H back
    → pos_part max_wait_sec + back < H.rounds
    → (wait_for_invocation H c id max_wait_sec poll_interval_sec u).0 ≢ stalled
unfolding wait_for_invocation
wait_for_invocation-ends H c id max_wait_sec poll_interval_sec u back laws enough =
    poll_loop-ends H c id back laws max_wait_sec poll_interval_sec u H.rounds (ticked ∷ u) enough
      (laws.forward ticked u)
