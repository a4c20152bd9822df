-- ===== src/EndToEnd/Settles.antt =====
-- The receipts that `await_receipt` of python/examples/e2e.py returns.
use synapse_network_sdk.Base.{
  ℕ, zero, suc, ◌+◌, ◌*◌, String, Bool, true, false, not, ltb, ◌≡◌, refl, if◌then◌else◌,
}
use synapse_network_sdk.Strings.{◌+++◌, truthy}
use synapse_network_sdk.Runtime.{Action, ◌>>=◌, ◌>>◌, Error, system_exit, raise_if, pure}
use synapse_network_sdk.Runtime.Steps.{Returns, bind-Returns}
use synapse_network_sdk.Host.{Host, Trace, sleep, second}
use synapse_network_sdk.Models.Invocation.{InvocationResponse}
use synapse_network_sdk.Client.{SynapseClient}
use synapse_network_sdk.Client.Polling.{get_invocation}
use synapse_network_sdk.EndToEnd.{Tools, env_int}
use synapse_network_sdk.EndToEnd.Run.{
  read_monotonic, is_settled, is_mismatch, await_rest, await_loop, await_receipt,
}

module _ (H : Host) (T : Tools) where
  -- A receipt that is settled, and of the invocation or of none.
  abbrev pub SettledOf : String → InvocationResponse → Type 0
  SettledOf id r = (is_settled H T r ≡ true) × (is_mismatch H T id r ≡ false)

  await_rest-SettledOf :
      (id : String) (deadline : ℕ) (again : Action Trace InvocationResponse)
      (r : InvocationResponse) (u : Trace)
      → is_mismatch H T id r ≡ false
      → ((u : Trace) → Returns (SettledOf id) (again u).0)
      → Returns (SettledOf id) (await_rest H T id deadline again r u).0
  unfolding await_rest
  await_rest-SettledOf id deadline again r u h later = by_status (is_settled H T r) refl
    where
      pending : Action Trace InvocationResponse
      pending = do
        t ← read_monotonic H T
        raise_if (ltb deadline t) (
            system_exit
              ("receipt " +++ id +++ " did not reach a terminal status, last status=" +++ r.status))
        sleep H 2
        again

      late : InvocationResponse → Error
      late r =
          system_exit
            ("receipt " +++ id +++ " did not reach a terminal status, last status=" +++ r.status)

      by_status :
          (b : Bool)
          → is_settled H T r ≡ b
          → Returns (SettledOf id) ((if b then pure r else pending) u).0
      by_status true e = (e, h)
      by_status false e =
          bind-Returns (SettledOf id) (read_monotonic H T)
            (λ t. raise_if (ltb deadline t) (late r) >> (sleep H 2 >> again)) u
            (λ t _.
              bind-Returns (SettledOf id) (raise_if (ltb deadline t) (late r))
                (λ _. sleep H 2 >> again) (read_monotonic H T u).1
                (λ _ _.
                  bind-Returns (SettledOf id) (sleep H 2) (λ _. again)
                    (raise_if (ltb deadline t) (late r) (read_monotonic H T u).1).1
                    (λ _ _. later _)))

  await_loop-SettledOf :
      (n : ℕ) (c : SynapseClient) (id : String) (deadline : ℕ) (u : Trace)
      → Returns (SettledOf id) (await_loop H T n c id deadline u).0
  unfolding await_loop
  await_loop-SettledOf zero c id deadline u = tt
  await_loop-SettledOf (suc n) c id deadline u =
      let again = await_loop H T n c id deadline in
      bind-Returns (SettledOf id) (get_invocation H c id)
        (λ r. raise_if (is_mismatch H T id r) (other r) >> await_rest H T id deadline again r) u
        (λ r _.
          by_match (is_mismatch H T id r) r refl (other r) (get_invocation H c id u).1
            (await_loop-SettledOf n c id deadline))
    where
      other : InvocationResponse → Error
      other r =
          system_exit
            ("receipt invocationId mismatch: got " +++ r.invocation_id +++ " want " +++ id)

      by_match :
          (b : Bool) (r : InvocationResponse)
          → is_mismatch H T id r ≡ b
          → (e : Error) (v : Trace)
          → ((v : Trace) → Returns (SettledOf id) (await_loop H T n c id deadline v).0)
          → Returns
              (SettledOf id)
              ((raise_if b e >> await_rest H T id deadline (await_loop H T n c id deadline) r) v).0
      by_match true r h e v later = tt
      by_match false r h e v later =
          await_rest-SettledOf id deadline (await_loop H T n c id deadline) r v h later

  -- A receipt that await_receipt returns has the status SUCCEEDED or SETTLED, and its identifier is
  -- empty or the one that was asked for.
  pub await_receipt-SettledOf :
      (c : SynapseClient) (id : String) (u : Trace)
      → Returns (SettledOf id) (await_receipt H T c id u).0
  unfolding await_receipt
  await_receipt-SettledOf c id u =
      let refused = raise_if (not (truthy id)) (system_exit "invoke returned empty invocationId") in
      let wait = (λ (t : ℕ).
        await_loop H T H.rounds c id
          (t + env_int H T "SYNAPSE_E2E_RECEIPT_TIMEOUT_S" 60 * second)) in
      bind-Returns (SettledOf id) refused (λ _. read_monotonic H T >>= wait) u
        (λ _ _. bind-Returns (SettledOf id) (read_monotonic H T) wait (refused u).1 (λ t _.
          await_loop-SettledOf H.rounds c id
            (t + env_int H T "SYNAPSE_E2E_RECEIPT_TIMEOUT_S" 60 * second)
            (read_monotonic H T (refused u).1).1))
