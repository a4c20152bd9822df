-- ===== src/Client/Polling/Lookups.antt =====
-- How many receipts a wait looks up.
use synapse_network_sdk.Base.{
  ℕ, zero, suc, ◌+◌, ◌*◌, ◌≤◌, String, Bool, true, false, ◌≡◌, ◌∷◌, arith,
}
use synapse_network_sdk.Base.Int.{ℤ, pos_part, at_least_one, at_least_one-pos}
use synapse_network_sdk.Runtime.{Action}
use synapse_network_sdk.Runtime.Steps.{bind_state, occurrences}
use synapse_network_sdk.Host.{Host, ClockLaws, Event, sent, slept, ticked, drew, Trace, second}
use synapse_network_sdk.Models.Invocation.{InvocationResponse}
use synapse_network_sdk.Client.{SynapseClient}
use synapse_network_sdk.Client.Polling.Ends.{receipt-forward}
use synapse_network_sdk.Client.Polling.{
  get_invocation_receipt, after_receipt, poll_loop, wait_for_invocation,
}

abbrev pub is_sent : Event → Bool
is_sent (sent _) = true
is_sent (slept _) = false
is_sent ticked = false
is_sent drew = false

module _ (H : Host) (c : SynapseClient) (id : String) where
  module _ (back : ℕ) (laws : ClockLaws H back) (max_wait_sec poll_interval_sec : ℤ)
      (started : Trace) where
    -- A lookup adds one request at most.
    receipt_lookups :
        (u : Trace)
        → occurrences is_sent (get_invocation_receipt H c id u).1 ≤ suc (occurrences is_sent u)
    unfolding get_invocation_receipt
    receipt_lookups u = ground arith

    after_receipt_lookups :
        (again : Action Trace InvocationResponse) (k b : ℕ) (r : InvocationResponse) (u : Trace)
        → ((v : Trace)
            → suc k ≤ pos_part max_wait_sec + back
            → laws.elapsed started + suc k * second ≤ laws.elapsed v
            → occurrences is_sent (again v).1 ≤ b + occurrences is_sent v)
        → laws.elapsed started + k * second ≤ laws.elapsed u
        → occurrences is_sent
            (after_receipt H max_wait_sec poll_interval_sec (H.clock started) again r u).1
          ≤ b + occurrences is_sent u
    unfolding after_receipt
    after_receipt_lookups again k b r u more late =
        let step = at_least_one poll_interval_sec in
        ground (
          arith,
          at_least_one-pos poll_interval_sec,
          laws.set_back started u (omega arith),
          laws.forward ticked u,
          laws.sleeps step (ticked ∷ u),
          more (slept step ∷ ticked ∷ u),
        )

    -- The rest of a round, behind its lookup.
    abbrev round : ℕ → InvocationResponse → Action Trace InvocationResponse
    round n =
        after_receipt H max_wait_sec poll_interval_sec (H.clock started)
          (poll_loop H n c id max_wait_sec poll_interval_sec (H.clock started))

    -- A round with the rest of the loop behind it.
    round_lookups :
        (n k b : ℕ) (u : Trace)
        → ((v : Trace)
            → suc k ≤ pos_part max_wait_sec + back
            → laws.elapsed started + suc k * second ≤ laws.elapsed v
            → occurrences is_sent
                (poll_loop H n c id max_wait_sec poll_interval_sec (H.clock started) v).1
              ≤ b + occurrences is_sent v)
        → laws.elapsed started + k * second ≤ laws.elapsed u
        → occurrences is_sent
            (poll_loop H (suc n) c id max_wait_sec poll_interval_sec (H.clock started) u).1
          ≤ suc b + occurrences is_sent u
    unfolding poll_loop
    round_lookups n k b u more late =
        let v = (get_invocation_receipt H c id u).1 in
        bind_state (λ w. occurrences is_sent w ≤ suc b + occurrences is_sent u)
          (get_invocation_receipt H c id) (round n) u (omega (arith, receipt_lookups u))
          (λ r _. omega (
            arith,
            receipt_lookups u,
            after_receipt_lookups
                (poll_loop H n c id max_wait_sec poll_interval_sec (H.clock started)) k b r v more
                (omega (arith, receipt-forward H c id laws.elapsed laws.forward u)),
          ))

    poll_loop_lookups :
        (n k b : ℕ) (u : Trace)
        → b + k ≡ pos_part max_wait_sec + back
        → laws.elapsed started + k * second ≤ laws.elapsed u
        → occurrences is_sent
            (poll_loop H n c id max_wait_sec poll_interval_sec (H.clock started) u).1
          ≤ suc b + occurrences is_sent u
    unfolding poll_loop
    poll_loop_lookups zero k b u left late = omega arith
    poll_loop_lookups (suc n) k zero u left late =
        round_lookups n k zero u (λ w fits _. absurd (omega arith)) late
    poll_loop_lookups (suc n) k (suc b) u left late =
        let again = poll_loop_lookups n (suc k) b in
        round_lookups n k (suc b) u (λ w _ late'. again w (omega arith) late') late

-- Waiting for an invocation sends at most max_wait_sec + back + 1 requests, whatever the interval
-- and the answers, if time.sleep sleeps as long as it is told and the system clock is set back by no
-- more than `back` seconds (a negative max_wait_sec counts as 0).
pub wait_for_invocation_lookups :
    (H : Host) (c : SynapseClient) (id : String) (max_wait_sec poll_interval_sec : ℤ) (u : Trace)
    (back : ℕ)
    → ClockLaws H back
    → occurrences is_sent (wait_for_invocation H c id max_wait_sec poll_interval_sec u).1
      ≤ suc (pos_part max_wait_sec + back) + occurrences is_sent u
unfolding wait_for_invocation
wait_for_invocation_lookups H c id max_wait_sec poll_interval_sec u back laws = omega (
  arith,
  poll_loop_lookups H c id back laws max_wait_sec poll_interval_sec u H.rounds 0
      (pos_part max_wait_sec + back) (ticked ∷ u) (omega arith)
      (omega (arith, laws.forward ticked u)),
)
