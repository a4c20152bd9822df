-- ===== src/Client/Polling/Settles.antt =====
-- What a wait returns is settled.
use synapse_network_sdk.Base.{
  Bool-cases, inl, inr, ◌∷◌, ℕ, zero, suc, String, true, ◌≡◌, refl, arith, Option, none, some,
}
use mathlib.Core.Path.{subst}
use synapse_network_sdk.Base.Int.{ℤ, at_least_one}
use synapse_network_sdk.Strings.{truthy, strip}
use synapse_network_sdk.Runtime.{
  lift_result, ◌>>=◌, Error, Result, ok, err, stalled, invoke, Action, and_then, or_invalid,
}
use synapse_network_sdk.Runtime.Steps.{bind_cases}
use synapse_network_sdk.Host.{
  send, reply_of, Request, Reply, Response, response, failed, sent, Host, Trace, slept, ticked,
}
use synapse_network_sdk.Models.Invocation.{
  InvocationResponse, read_invocation_response, is_terminal,
}
use synapse_network_sdk.Client.{SynapseClient}
use synapse_network_sdk.Client.Response.{
  price_mismatch_error, mismatch_prices, raise_for_error, response_payload,
}
use synapse_network_sdk.Client.Polling.{
  receipt_request, read_receipt, get_invocation_receipt, after_receipt, poll_loop,
  wait_for_invocation,
}

module _ (H : Host) where
  -- The history ends with a request, and the value was read from the JSON object of the gateway's
  -- response to it, which was a good one.
  pub record IsAnswer (r : InvocationResponse) (u : Trace) : Type 0 where
    pub request : Request
    pub before : Trace
    pub answer : Response
    pub last : u ≡ sent request ∷ before
    pub responded : H.respond before request ≡ response answer
    pub good : answer.is_ok ≡ true
    pub read : read_invocation_response H (response_payload H answer) ≡ some r

  -- Where a run returns, the value is such an answer.
  abbrev pub Answers : Result InvocationResponse × Trace → Type 0
  Answers (ok r, u) = IsAnswer r u
  Answers (err _, u) = Unit
  Answers (stalled, u) = Unit

  -- It has a terminal status, too.
  abbrev pub Settles : Result InvocationResponse × Trace → Type 0
  Settles (ok r, u) = (is_terminal r ≡ true) × IsAnswer r u
  Settles (err _, u) = Unit
  Settles (stalled, u) = Unit

  pub bind-Settles :
      {A : Type 0} (m : Action Trace A) (f : A → Action Trace InvocationResponse) (u : Trace)
      → ((a : A) → (m u).0 ≡ ok a → Settles (f a (m u).1))
      → Settles ((m >>= f) u)
  bind-Settles m f u later = bind_cases Settles m f u later (λ _ _. tt) (λ _. tt)

  good_lem :
      (x : Response) (e : Error) (o : Unit {0}) → raise_for_error H x e ≡ ok o → x.is_ok ≡ true
  unfolding raise_for_error price_mismatch_error mismatch_prices
  good_lem x e o h = ground arith

  -- The reading of a response to a request.
  pub send-Answers :
      (q : Request) (default_error : Error) (u : Trace)
      → Answers (
          (send H q >>= λ x. lift_result (
              and_then
                (raise_for_error H x default_error)
                (λ _. or_invalid (read_invocation_response H (response_payload H x)))))
            u)
  unfolding send reply_of
  send-Answers q default_error u = by_reply (H.respond u q) refl
    where
      by_read :
          (x : Response)
          → H.respond u q ≡ response x
          → x.is_ok ≡ true
          → (o : Option InvocationResponse) → read_invocation_response H (response_payload H x) ≡ o
          → Answers (or_invalid o, sent q ∷ u)
      by_read x e good none h = tt
      by_read x e good (some r) h = record {
        request = q;
        before = u;
        answer = x;
        last = refl;
        responded = e;
        good = good;
        read = h;
      }

      by_gate :
          (x : Response)
          → H.respond u q ≡ response x
          → (gate : Result (Unit {0})) → raise_for_error H x default_error ≡ gate
          → Answers (
            and_then gate (λ _. or_invalid (read_invocation_response H (response_payload H x))),
            sent q ∷ u,
          )
      by_gate x e (ok o) h =
          by_read x e (good_lem x default_error o h)
            (read_invocation_response H (response_payload H x)) refl
      by_gate x e (err _) h = tt
      by_gate x e stalled h = tt

      by_reply :
          (a : Reply)
          → H.respond u q ≡ a
          → Answers (
              ◌>>=◌
                (λ v. (reply_of H a, v))
                (λ x. lift_result (
                  and_then
                    (raise_for_error H x default_error)
                    (λ _. or_invalid (read_invocation_response H (response_payload H x)))))
                (sent q ∷ u))
      by_reply (response x) e = by_gate x e (raise_for_error H x default_error) refl
      by_reply (failed m) e = tt

  pub answered :
      (p : Result InvocationResponse × Trace) (r : InvocationResponse)
      → p.0 ≡ ok r
      → Answers p
      → IsAnswer r p.1
  answered (ok s, u) r e h = let same : s ≡ r = cc in subst (λ t. IsAnswer t u) same h
  answered (err _, u) r e h = cc
  answered (stalled, u) r e h = cc

  pub settled :
      (p : Result InvocationResponse × Trace) (r : InvocationResponse)
      → p.0 ≡ ok r
      → Settles p
      → (is_terminal r ≡ true) × IsAnswer r p.1
  settled (ok s, u) r e h =
      let same : s ≡ r = cc in subst (λ t. (is_terminal t ≡ true) × IsAnswer t u) same h
  settled (err _, u) r e h = cc
  settled (stalled, u) r e h = cc

  module _ (c : SynapseClient) (id : String) (max_wait_sec poll_interval_sec : ℤ) where
    receipt-Answers : (u : Trace) → Answers (get_invocation_receipt H c id u)
    unfolding get_invocation_receipt read_receipt
    receipt-Answers u = elim (Bool-cases (truthy (strip id))) [
      | inl given ↦
          rw given
            (send-Answers (receipt_request c id) (invoke "invocation receipt lookup failed") u)
      | inr blank ↦ rw blank tt
    ]

    module _ (started : ℕ) where
      after_receipt-Settles :
          (again : Action Trace InvocationResponse) (r : InvocationResponse) (u : Trace)
          → IsAnswer r u
          → ((v : Trace) → Settles (again v))
          → Settles (after_receipt H max_wait_sec poll_interval_sec started again r u)
      unfolding after_receipt
      after_receipt-Settles again r u answer h =
          ground (arith, answer, h (slept (at_least_one poll_interval_sec) ∷ ticked ∷ u))

      poll_loop-Settles :
          (n : ℕ) (u : Trace)
          → Settles (poll_loop H n c id max_wait_sec poll_interval_sec started u)
      unfolding poll_loop
      poll_loop-Settles zero u = tt
      poll_loop-Settles (suc n) u =
          let again = poll_loop H n c id max_wait_sec poll_interval_sec started in
          bind-Settles (get_invocation_receipt H c id)
            (after_receipt H max_wait_sec poll_interval_sec started again) u
            (λ r e.
              after_receipt-Settles again r (get_invocation_receipt H c id u).1
                (answered (get_invocation_receipt H c id u) r e (receipt-Answers u))
                (poll_loop-Settles n))

    -- Whatever a wait for an invocation returns has a terminal status, and was read from the JSON
    -- object of the good response to the last request sent.
    pub wait_for_invocation-Settles :
        (u : Trace) → Settles (wait_for_invocation H c id max_wait_sec poll_interval_sec u)
    unfolding wait_for_invocation
    wait_for_invocation-Settles u = poll_loop-Settles (H.clock u) H.rounds (ticked ∷ u)
