-- ===== src/Auth/Tokens.antt =====
-- The token of a session: what `authenticate` returns and keeps, and what `logout` forgets.
use synapse_network_sdk.Base.{
  ◌∙◌, ℕ, suc, ◌+◌, ◌-◌, ◌*◌, ◌≤◌, ◌<◌, String, Bool, true, false, ◌&&◌, ltb, ◌≡◌, refl, ◌⊎◌, inl,
  inr, Option, none, some, or_else, List, [], ◌∷◌, arith, Bool-cases,
}
use mathlib.Core.Path.{subst}
use synapse_network_sdk.Strings.{truthy, ◌+++◌}
use synapse_network_sdk.Json.{Json}
use synapse_network_sdk.Runtime.{Result, ok, err, stalled, ◌>>=◌, Action}
use synapse_network_sdk.Runtime.Steps.{Returns, bind_cases, bind_state, occurrences}
use synapse_network_sdk.Host.{Host, ticked, second}
use synapse_network_sdk.Models.Owner.{AuthLogoutResult}
use synapse_network_sdk.Client.Polling.Lookups.{is_sent}
use synapse_network_sdk.Auth.{
  SynapseAuth, is_fresh, store_token, request, usable_token, ask_challenge, sign, ask_token,
  exchange, answer_challenge, sign_in, verify_body, clear_token, token_at, authenticate, logout,
}

-- The token, its expiry and the identity of the session are as they were.
abbrev SameToken : SynapseAuth → SynapseAuth → Type 0
SameToken s s' = (s'.token ≡ s.token) × (s'.token_expires_at ≡ s.token_expires_at)

-- The requests that a session has sent.
abbrev pub requests : SynapseAuth → ℕ
requests s = occurrences is_sent s.trace

-- What a sign-in at the time t leaves: a token that was there is kept with its expiry unless the
-- sign-in returns, and then two requests were sent, and the token is the new one and lives from t on.
abbrev SignedIn : ℕ → SynapseAuth → Result String × SynapseAuth → Type 0
SignedIn t s (ok token, s') =
    (truthy token ≡ true)
    × (s'.token ≡ some token)
    × (requests s' ≡ 2 + requests s)
    × (t ≤ s'.token_expires_at)
SignedIn t s (err _, s') = SameToken s s'
SignedIn t s (stalled, s') = SameToken s s'

-- An action that keeps the token does so before a sign-in.
bind-SignedIn :
    {A : Type 0} (t : ℕ) (z s : SynapseAuth) (m : Action SynapseAuth A)
    (f : A → Action SynapseAuth String)
    → SameToken z (m s).1
    → ((a : A) → (m s).0 ≡ ok a → SignedIn t z (f a (m s).1))
    → SignedIn t z ((m >>= f) s)
bind-SignedIn t z s m f same later = bind_cases (SignedIn t z) m f s later (λ _ _. same) (λ _. same)

module _ (H : Host) where
  -- A request keeps the token, and is one request.
  request-SameToken :
      (method path : String) (hs : List (String × String)) (body : Option Json) (s : SynapseAuth)
      → SameToken s (request H method path hs body s).1
  unfolding request
  request-SameToken method path hs body s = ground arith

  request_requests :
      (method path : String) (hs : List (String × String)) (body : Option Json) (s : SynapseAuth)
      → requests (request H method path hs body s).1 ≡ suc (requests s)
  unfolding request
  request_requests method path hs body s = ground arith

  ask_challenge-SameToken : (s : SynapseAuth) → SameToken s (ask_challenge H s).1
  unfolding ask_challenge
  ask_challenge-SameToken s =
      let path = "/api/v1/auth/challenge?address=" +++ s.wallet_address in
      ground (arith, request-SameToken "GET" path [] none s)

  ask_token-SameToken : (c g : String) (s : SynapseAuth) → SameToken s (ask_token H c g s).1
  unfolding ask_token
  ask_token-SameToken c g s =
      ground
        (arith, request-SameToken "POST" "/api/v1/auth/verify" [] (some (verify_body H s c g)) s)

  requests-ask_challenge : (s : SynapseAuth) → requests (ask_challenge H s).1 ≡ suc (requests s)
  unfolding ask_challenge
  requests-ask_challenge s = ground (
    arith,
    request_requests "GET" ("/api/v1/auth/challenge?address=" +++ s.wallet_address) [] none s,
  )

  requests-ask_token :
      (c g : String) (s : SynapseAuth) → requests (ask_token H c g s).1 ≡ suc (requests s)
  unfolding ask_token
  requests-ask_token c g s =
      ground
        (arith, request_requests "POST" "/api/v1/auth/verify" [] (some (verify_body H s c g)) s)

  pub ask_token-truthy :
      (c g : String) (s : SynapseAuth)
      → Returns (λ r. truthy r.access_token ≡ true) (ask_token H c g s).0
  unfolding ask_token usable_token
  ask_token-truthy c g s = ground arith

  sign_in-SignedIn : (t : ℕ) (s : SynapseAuth) → SignedIn t s (sign_in H t s)
  unfolding sign_in answer_challenge exchange sign store_token
  sign_in-SignedIn t s =
      let u = (ask_challenge H s).1 in
      let same = ask_challenge-SameToken s in
      bind-SignedIn t s s (ask_challenge H) (answer_challenge H t) same (λ c _.
        bind-SignedIn t s u (sign H c.challenge) (exchange H t c.challenge) same (λ g _.
          bind-SignedIn t s u (ask_token H c.challenge g) (store_token t)
            (let k = ask_token-SameToken c.challenge g u in (k.0 ∙ same.0, k.1 ∙ same.1))
            (λ r e. (
              subst (Returns (λ r. truthy r.access_token ≡ true)) e
                  (ask_token-truthy c.challenge g u),
              refl,
              omega (arith, requests-ask_challenge s, requests-ask_token c.challenge g u),
              omega arith,
            ))))

  -- There is no token, or it has 30 seconds to live at most.
  abbrev pub Stale : SynapseAuth → Type 0
  Stale s =
      (truthy (or_else s.token "") ≡ false) ⊎ (s.token_expires_at ≤ H.clock s.trace + 30 * second)

  -- What a call of `authenticate` leaves.
  abbrev pub Authenticated : SynapseAuth → Bool → Result String × SynapseAuth → Type 0
  Authenticated s force_refresh (ok token, s') =
      (truthy token ≡ true)
      × (s'.token ≡ some token)
      × (((force_refresh ≡ false)
            × (s' ≡ record s { trace = ticked ∷ s.trace })
            × (H.clock s.trace + 30 * second < s.token_expires_at))
          ⊎ (((force_refresh ≡ true) ⊎ Stale s)
              × (requests s' ≡ 2 + requests s)
              × (H.clock s.trace ≤ s'.token_expires_at)))
  Authenticated s force_refresh (err _, s') = SameToken s s'
  Authenticated s force_refresh (stalled, s') = SameToken s s'

  fresh_lem :
      (s : SynapseAuth) (t : ℕ)
      → is_fresh s t ≡ true
      → (truthy (or_else s.token "") ≡ true)
        × (s.token ≡ some (or_else s.token ""))
        × (t + 30 * second < s.token_expires_at)
  unfolding is_fresh truthy
  fresh_lem s t h = by_token s.token h
    where
      by_token :
          (o : Option String)
          → (truthy (or_else o "") && ltb t (s.token_expires_at - 30 * second)) ≡ true
          → (truthy (or_else o "") ≡ true)
            × (o ≡ some (or_else o ""))
            × (t + 30 * second < s.token_expires_at)
      by_token none h = ground arith
      by_token (some x) h = ground arith

  stale_lem : (s : SynapseAuth) → is_fresh s (H.clock s.trace) ≡ false → Stale s
  unfolding is_fresh
  stale_lem s h = elim (Bool-cases (truthy (or_else s.token ""))) [
    | inl held ↦ inr (ground arith)
    | inr none_held ↦ inl none_held
  ]

  signed_in_lem :
      (s : SynapseAuth) (force_refresh : Bool) (p : Result String × SynapseAuth)
      → (force_refresh ≡ true) ⊎ Stale s
      → SignedIn (H.clock s.trace) (record s { trace = ticked ∷ s.trace }) p
      → Authenticated s force_refresh p
  signed_in_lem s force_refresh (ok token, s') why h =
      let sent_two = h.2 in (h.0, h.1, inr (why, omega arith, h.3))
  signed_in_lem s force_refresh (err _, s') why h = h
  signed_in_lem s force_refresh (stalled, s') why h = h

  -- A call of authenticate that returns gives a token that is not empty and that the session now
  -- holds: either, where no refresh is forced, the one that was held with more than 30 seconds to
  -- live, and nothing is sent and nothing else changes; or, where a refresh is forced or no token
  -- with more than 30 seconds to live was held, a new one, for which two requests are sent and whose
  -- expiry is not before the time of the call. A call that raises keeps the token and the expiry
  -- that were there.
  pub authenticate-Authenticated :
      (force_refresh : Bool) (s : SynapseAuth)
      → Authenticated s force_refresh (authenticate H force_refresh s)
  unfolding authenticate token_at
  authenticate-Authenticated true s =
      let z = record s { trace = ticked ∷ s.trace } in
      signed_in_lem s true (sign_in H (H.clock s.trace) z) (inl refl)
        (sign_in-SignedIn (H.clock s.trace) z)
  authenticate-Authenticated false s =
      let z = record s { trace = ticked ∷ s.trace } in
      elim (Bool-cases (is_fresh z (H.clock s.trace))) [
        | inl fresh ↦
            rw fresh
              (let k = fresh_lem z (H.clock s.trace) fresh in (k.0, k.1, inl (refl, refl, k.2)))
        | inr old ↦ rw old (
            signed_in_lem s false (sign_in H (H.clock s.trace) z) (inr (stale_lem s old))
              (sign_in-SignedIn (H.clock s.trace) z))
      ]

  reuse_lem :
      (s : SynapseAuth) (token : String)
      → truthy token ≡ true
      → s.token ≡ some token
      → H.clock s.trace + 30 * second < s.token_expires_at
      → authenticate H false s ≡ (ok token, record s { trace = ticked ∷ s.trace })
  unfolding authenticate token_at is_fresh
  reuse_lem s token given held early = ground arith

  held_lem :
      (s : SynapseAuth) (force_refresh : Bool) (token : String) (p : Result String × SynapseAuth)
      → Authenticated s force_refresh p
      → p.0 ≡ ok token
      → (truthy token ≡ true) × (p.1.token ≡ some token)
  held_lem s force_refresh token (ok t, s') a h = ground arith
  held_lem s force_refresh token (err _, s') a h = cc
  held_lem s force_refresh token (stalled, s') a h = cc

  -- The session that a call of `authenticate` leaves.
  abbrev pub session_after : Bool → SynapseAuth → SynapseAuth
  session_after force_refresh s = (authenticate H force_refresh s).1

  -- Once a call of authenticate has returned a token, the next call returns the same token and sends
  -- nothing, if by then more than 30 seconds of the token's life are left.
  pub authenticate_again :
      (force_refresh : Bool) (s : SynapseAuth) (token : String)
      → (authenticate H force_refresh s).0 ≡ ok token
      → H.clock (session_after force_refresh s).trace + 30 * second
        < (session_after force_refresh s).token_expires_at
      → authenticate H false (session_after force_refresh s) ≡ (
        ok token,
        record (session_after force_refresh s) {
          trace = ticked ∷ (session_after force_refresh s).trace;
        },
      )
  authenticate_again force_refresh s token h early =
      let held =
        held_lem s force_refresh token (authenticate H force_refresh s)
          (authenticate-Authenticated force_refresh s) h in
      reuse_lem (session_after force_refresh s) token held.0 held.1 early

  requests-sign_in : (t : ℕ) (s : SynapseAuth) → requests (sign_in H t s).1 ≤ 2 + requests s
  unfolding sign_in answer_challenge exchange sign store_token
  requests-sign_in t s =
      let u = (ask_challenge H s).1 in
      let first = requests-ask_challenge s in
      let few = λ (z : SynapseAuth). requests z ≤ 2 + requests s in
      bind_state few (ask_challenge H) (answer_challenge H t) s (omega arith) (λ c _.
        bind_state few (sign H c.challenge) (exchange H t c.challenge) u (omega arith) (λ g _.
          bind_state few (ask_token H c.challenge g) (store_token t) u
            (let second_request = requests-ask_token c.challenge g u in omega arith) (λ _ h. h)))

  -- A call of authenticate sends at most two requests.
  pub requests-authenticate :
      (force_refresh : Bool) (s : SynapseAuth)
      → requests (authenticate H force_refresh s).1 ≤ 2 + requests s
  unfolding authenticate token_at
  requests-authenticate force_refresh s =
      ground (arith, requests-sign_in (H.clock s.trace) (record s { trace = ticked ∷ s.trace }))

  -- A logout that returns leaves a session that holds no token, and none that counts as fresh at any
  -- time, so that the next call of authenticate asks the gateway again.
  pub logout_forgets :
      (s : SynapseAuth) (r : AuthLogoutResult) (t : ℕ)
      → (logout H s).0 ≡ ok r
      → ((logout H s).1.token ≡ none) × (is_fresh (logout H s).1 t ≡ false)
  unfolding logout clear_token is_fresh
  logout_forgets s r t h = ground arith
