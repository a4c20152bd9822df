-- ===== src/EndToEnd/Ends.antt =====
-- The wait for a receipt ends, on a clock that obeys its documentation.
use synapse_network_sdk.Base.{
  Bool, true, false, Bool-cases, ℕ, zero, suc, ◌+◌, ◌*◌, ◌≤◌, ◌<◌, String, ◌≢◌, ◌⊎◌, inl, inr, ◌∷◌,
  arith,
}
use synapse_network_sdk.Strings.{◌+++◌, truthy}
use synapse_network_sdk.Runtime.{◌>>◌, stalled, Action, Error, system_exit, raise_if}
use synapse_network_sdk.Runtime.Steps.{bind-ne-stalled}
use synapse_network_sdk.Host.{Host, slept, ticked, Trace, second}
use synapse_network_sdk.Models.Invocation.{InvocationResponse}
use synapse_network_sdk.Client.{SynapseClient}
use synapse_network_sdk.Client.Polling.{get_invocation}
use synapse_network_sdk.Client.Polling.Ends.{receipt-ne-stalled, receipt-forward}
use synapse_network_sdk.EndToEnd.{MonotonicLaws, Tools, env_int}
use synapse_network_sdk.EndToEnd.Run.{is_mismatch, await_rest, await_loop, await_receipt}

module _ (H : Host) (T : Tools) (laws : MonotonicLaws T) (c : SynapseClient) (id : String)
    (deadline : ℕ) where
  await_rest-ne-stalled :
      (again : Action Trace InvocationResponse) (r : InvocationResponse) (u : Trace)
      → ((deadline < T.monotonic u)
          ⊎ ((v : Trace) → T.monotonic u + 2 * second ≤ T.monotonic v → (again v).0 ≢ stalled))
      → (await_rest H T id deadline again r u).0 ≢ stalled
  unfolding await_rest
  await_rest-ne-stalled again r u (inl late) = ground (arith, laws.forward ticked u)
  await_rest-ne-stalled again r u (inr more) =
      ground (arith, laws.forward ticked u, laws.sleeps 2 (ticked ∷ u), more (slept 2 ∷ ticked ∷ u))

  -- the exception for the receipt of another invocation
  abbrev other : InvocationResponse → Error
  other r =
      system_exit ("receipt invocationId mismatch: got " +++ r.invocation_id +++ " want " +++ id)

  matched-ne-stalled :
      (m : Action Trace InvocationResponse) (b : Bool) (e : Error) (u : Trace)
      → (m u).0 ≢ stalled
      → ((raise_if b e >> m) u).0 ≢ stalled
  matched-ne-stalled m true e u ends = λ h. cc
  matched-ne-stalled m false e u ends = ends

  -- The rest of a round, behind its lookup.
  abbrev round : ℕ → InvocationResponse → Action Trace InvocationResponse
  round n r =
      raise_if (is_mismatch H T id r) (other r)
      >> await_rest H T id deadline (await_loop H T n c id deadline) r

  -- Each round that is left has 2 seconds.
  await_loop-ne-stalled :
      (n : ℕ) (u : Trace)
      → deadline < T.monotonic u + n * (2 * second)
      → (await_loop H T (suc n) c id deadline u).0 ≢ stalled
  unfolding await_loop get_invocation
  await_loop-ne-stalled zero u enough =
      bind-ne-stalled (get_invocation H c id) (round zero) u (receipt-ne-stalled H c id u) (λ r.
        let v = (get_invocation H c id u).1 in
        matched-ne-stalled (await_rest H T id deadline (await_loop H T zero c id deadline) r)
          (is_mismatch H T id r) (other r) v
          (await_rest-ne-stalled (await_loop H T zero c id deadline) r v
            (inl (omega (arith, receipt-forward H c id T.monotonic laws.forward u)))))
  await_loop-ne-stalled (suc n) u enough =
      bind-ne-stalled (get_invocation H c id) (round (suc n)) u (receipt-ne-stalled H c id u) (λ r.
        let v = (get_invocation H c id u).1 in
        matched-ne-stalled (await_rest H T id deadline (await_loop H T (suc n) c id deadline) r)
          (is_mismatch H T id r) (other r) v
          (await_rest-ne-stalled (await_loop H T (suc n) c id deadline) r v (
            inr (λ w later.
              await_loop-ne-stalled n w
                (omega (arith, receipt-forward H c id T.monotonic laws.forward u))))))

-- The wait for a receipt returns or raises, whatever the gateway answers, with time.monotonic and
-- time.sleep as they are documented, if twice the rounds that the model follows are more than the
-- seconds of the deadline and two.
pub await_receipt-ends :
    (H : Host) (T : Tools) (c : SynapseClient) (id : String) (u : Trace)
    → MonotonicLaws T
    → env_int H T "SYNAPSE_E2E_RECEIPT_TIMEOUT_S" 60 + 2 < 2 * H.rounds
    → (await_receipt H T c id u).0 ≢ stalled
unfolding await_receipt
await_receipt-ends H T c id u laws enough = elim (Bool-cases (truthy id)) [
  | inl given ↦ rw given (from H.rounds enough)
  | inr blank ↦ rw blank (λ h. cc)
]
  where
    timeout : ℕ
    timeout = env_int H T "SYNAPSE_E2E_RECEIPT_TIMEOUT_S" 60

    from :
        (n : ℕ)
        → timeout + 2 < 2 * n
        → (await_loop H T n c id (T.monotonic u + timeout * second) (ticked ∷ u)).0 ≢ stalled
    from zero h = elim h [ ]
    from (suc n) h =
        await_loop-ne-stalled H T laws c id (T.monotonic u + timeout * second) n (ticked ∷ u)
          (omega (arith, laws.forward ticked u))
