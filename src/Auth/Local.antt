-- ===== src/Auth/Local.antt =====
-- What every call of a session keeps: its identity, that a token which it holds is not empty, and that
-- requests go to its gateway alone.
use synapse_network_sdk.Base.{
  ℕ, String, Bool, true, false, not, ◌&&◌, ◌≡◌, refl, ◌∙◌, [], or_else, Option, none, some, List,
  arith, if◌then◌else◌,
}
use mathlib.Core.Path.{subst}
use synapse_network_sdk.Strings.Prefix.{starts_with, starts_with-append, starts_with-longer}
use synapse_network_sdk.Strings.{◌+++◌, truthy}
use synapse_network_sdk.Json.{Json, Fields, is_empty, without_nulls}
use synapse_network_sdk.Runtime.{Result, ok, Action, ◌>>=◌, pure, lift_result, or_invalid}
use synapse_network_sdk.Runtime.Steps.{occurrences, Returns, bind_cases, bind_state}
use synapse_network_sdk.Host.{Host, Event, sent, slept, ticked, drew, uuid, now, send}
use synapse_network_sdk.Models.Owner.{TokenResponse, read_auth_logout_result}
use synapse_network_sdk.Auth.Tokens.{ask_token-truthy}
use synapse_network_sdk.Auth.{
  is_fresh, get_token, authorized_headers, authorized_request, query_path, clear_token, logout,
  get_owner_profile, ask_challenge, ask_token, usable_challenge, usable_token, verify_body, sign,
  store_token, exchange, authenticate, token_at, sign_in, answer_challenge, SynapseAuth,
  through_history, request, session_request, session_answer,
}

-- A request to somewhere else than a path of the gateway.
unfoldable pub is_foreign : String → Event → Bool
unfolding starts_with
is_foreign gateway (sent r) = not (starts_with (gateway +++ "/") r.url)
is_foreign gateway (slept _) = false
is_foreign gateway ticked = false
is_foreign gateway drew = false

-- The token of a session, if it holds one, is not empty.
abbrev pub Held : Option String → Type 0
Held none = Unit
Held (some t) = truthy t ≡ true

pub record Kept (s s' : SynapseAuth) : Type 0 where
  pub wallet_address : s'.wallet_address ≡ s.wallet_address
  pub gateway_url : s'.gateway_url ≡ s.gateway_url
  pub timeout_sec : s'.timeout_sec ≡ s.timeout_sec
  pub signer : s'.signer ≡ s.signer
  pub token : Held s.token → Held s'.token
  pub requests :
      occurrences (is_foreign s.gateway_url) s'.trace
      ≡ occurrences (is_foreign s.gateway_url) s.trace

pub Kept-refl : (s : SynapseAuth) → Kept s s
Kept-refl s = record {
  wallet_address = refl;
  gateway_url = refl;
  timeout_sec = refl;
  signer = refl;
  token = λ h. h;
  requests = refl;
}

pub Kept-trans : (s t u : SynapseAuth) → Kept s t → Kept t u → Kept s u
Kept-trans s t u h k = record {
  wallet_address = k.wallet_address ∙ h.wallet_address;
  gateway_url = k.gateway_url ∙ h.gateway_url;
  timeout_sec = k.timeout_sec ∙ h.timeout_sec;
  signer = k.signer ∙ h.signer;
  token = λ x. k.token (h.token x);
  requests =
      subst (λ g. occurrences (is_foreign g) u.trace ≡ occurrences (is_foreign g) t.trace)
        h.gateway_url k.requests
      ∙ h.requests;
}

-- A call that keeps all of it, whatever it returns or raises.
pub record IsLocal {A : Type 0} (m : Action SynapseAuth A) : Type 0 where
  pub keeps : (s : SynapseAuth) → Kept s (m s).1

pub IsLocal-bind :
    {A B : Type 0} {m : Action SynapseAuth A} {f : A → Action SynapseAuth B}
    → IsLocal m
    → ((a : A) → IsLocal (f a))
    → IsLocal (m >>= f)
IsLocal-bind {m = m} {f = f} h k = record {
  keeps = λ s.
      bind_cases (λ p. Kept s p.1) m f s
        (λ a _. Kept-trans s (m s).1 (f a (m s).1).1 (h.keeps s) ((k a).keeps (m s).1))
        (λ _ _. h.keeps s) (λ _. h.keeps s);
}

pub IsLocal-lift : {A : Type 0} (r : Result A) → IsLocal (lift_result r)
IsLocal-lift r = record { keeps = Kept-refl }

pub IsLocal-pure : {A : Type 0} (a : A) → IsLocal (pure a)
IsLocal-pure a = record { keeps = Kept-refl }

pub IsLocal-if :
    {A : Type 0} (b : Bool) {m n : Action SynapseAuth A}
    → IsLocal m
    → IsLocal n
    → IsLocal (if b then m else n)
IsLocal-if true h k = h
IsLocal-if false h k = k

Kept-if :
    {A : Type 0} (s : SynapseAuth) (b : Bool) (p q : Result A × SynapseAuth)
    → Kept s p.1
    → Kept s q.1
    → Kept s (if b then p else q).1
Kept-if s true p q h k = h
Kept-if s false p q h k = k

module _ (H : Host) where
  pub IsLocal-uuid : IsLocal (through_history (uuid H))
  unfolding through_history uuid is_foreign
  IsLocal-uuid = record {
    keeps = λ s. record {
      wallet_address = refl;
      gateway_url = refl;
      timeout_sec = refl;
      signer = refl;
      token = λ h. h;
      requests = omega arith;
    };
  }

  sent-Kept :
      (s : SynapseAuth) (method path : String) (hs : List (String × String)) (body : Option Json)
      → starts_with "/" path ≡ true
      → Kept s (through_history (send H (session_request s method path hs body)) s).1
  unfolding through_history send session_request is_foreign
  sent-Kept s method path hs body rooted = record {
    wallet_address = refl;
    gateway_url = refl;
    timeout_sec = refl;
    signer = refl;
    token = λ h. h;
    requests = rw (starts_with-append s.gateway_url "/" path, rooted) (omega arith);
  }

  pub IsLocal-request :
      (method path : String) (hs : List (String × String)) (body : Option Json)
      → starts_with "/" path ≡ true
      → IsLocal (request H method path hs body)
  unfolding request
  IsLocal-request method path hs body rooted = record {
    keeps = λ s.
        bind_state (Kept s) (through_history (send H (session_request s method path hs body)))
          (λ r. lift_result (session_answer H r)) s (sent-Kept s method path hs body rooted)
          (λ _ k. k);
  }

  IsLocal-now : IsLocal (through_history (now H))
  unfolding through_history now is_foreign
  IsLocal-now = record {
    keeps = λ s. record {
      wallet_address = refl;
      gateway_url = refl;
      timeout_sec = refl;
      signer = refl;
      token = λ h. h;
      requests = omega arith;
    };
  }

  IsLocal-ask_challenge : IsLocal (ask_challenge H)
  unfolding ask_challenge starts_with
  IsLocal-ask_challenge = record {
    keeps = λ s.
        (IsLocal-bind
            (IsLocal-request "GET" ("/api/v1/auth/challenge?address=" +++ s.wallet_address) [] none
              (starts_with-longer "/" "/api/v1/auth/challenge?address=" s.wallet_address refl))
            (λ p. IsLocal-lift (usable_challenge H p))).keeps
          s;
  }

  IsLocal-ask_token : (c g : String) → IsLocal (ask_token H c g)
  unfolding ask_token starts_with
  IsLocal-ask_token c g = record {
    keeps = λ s.
        (IsLocal-bind
            (IsLocal-request "POST" "/api/v1/auth/verify" [] (some (verify_body H s c g)) refl)
            (λ p. IsLocal-lift (usable_token H p))).keeps
          s;
  }

  IsLocal-sign : (message : String) → IsLocal (sign H message)
  unfolding sign
  IsLocal-sign message = record { keeps = Kept-refl }

  store_token-Kept :
      (t : ℕ) (r : TokenResponse) (s : SynapseAuth)
      → truthy r.access_token ≡ true
      → Kept s (store_token t r s).1
  unfolding store_token
  store_token-Kept t r s h = record {
    wallet_address = refl;
    gateway_url = refl;
    timeout_sec = refl;
    signer = refl;
    token = λ _. h;
    requests = refl;
  }

  IsLocal-exchange : (t : ℕ) (c g : String) → IsLocal (exchange H t c g)
  unfolding exchange
  IsLocal-exchange t c g = record {
    keeps = λ s.
        let u = (ask_token H c g s).1 in
        let k = (IsLocal-ask_token c g).keeps s in
        bind_cases (λ p. Kept s p.1) (ask_token H c g) (store_token t) s
          (λ r e. Kept-trans s u (store_token t r u).1 k (
            store_token-Kept t r u
              (subst (Returns (λ r. truthy r.access_token ≡ true)) e (ask_token-truthy H c g s))))
          (λ _ _. k) (λ _. k);
  }

  IsLocal-sign_in : (t : ℕ) → IsLocal (sign_in H t)
  unfolding sign_in answer_challenge
  IsLocal-sign_in t =
      IsLocal-bind IsLocal-ask_challenge
        (λ c. IsLocal-bind (IsLocal-sign c.challenge) (IsLocal-exchange t c.challenge))

  IsLocal-token_at : (force_refresh : Bool) (t : ℕ) → IsLocal (token_at H force_refresh t)
  unfolding token_at
  IsLocal-token_at force_refresh t = record {
    keeps = λ s.
        Kept-if s (not force_refresh && is_fresh s t) (ok (or_else s.token ""), s) (sign_in H t s)
          (Kept-refl s) ((IsLocal-sign_in t).keeps s);
  }

  pub IsLocal-authenticate : (force_refresh : Bool) → IsLocal (authenticate H force_refresh)
  unfolding authenticate
  IsLocal-authenticate force_refresh = IsLocal-bind IsLocal-now (IsLocal-token_at force_refresh)

  pub IsLocal-authorized_headers : IsLocal (authorized_headers H)
  unfolding authorized_headers get_token
  IsLocal-authorized_headers = IsLocal-bind (IsLocal-authenticate false) (λ t. IsLocal-pure _)

  pub IsLocal-authorized_request :
      (method path : String) (body : Option Json)
      → starts_with "/" path ≡ true
      → IsLocal (authorized_request H method path body)
  unfolding authorized_request
  IsLocal-authorized_request method path body rooted =
      IsLocal-bind IsLocal-authorized_headers (λ hs. IsLocal-request method path hs body rooted)

  -- An authorized request, and then a reading of its answer.
  pub IsLocal-asked :
      {A : Type 0} (method path : String) (body : Option Json) (f : Fields → Result A)
      → starts_with "/" path ≡ true
      → IsLocal (authorized_request H method path body >>= λ p. lift_result (f p))
  IsLocal-asked method path body f rooted =
      IsLocal-bind (IsLocal-authorized_request method path body rooted) (λ p. IsLocal-lift (f p))

  pub query_path-rooted :
      (path : String) (params : Fields)
      → starts_with "/" path ≡ true
      → starts_with "/" (query_path H path params) ≡ true
  unfolding query_path
  query_path-rooted path params h = by_empty (is_empty (without_nulls params))
    where
      by_empty :
          (b : Bool)
          → starts_with "/"
              (if b then path else path +++ "?" +++ H.urlencode (without_nulls params))
            ≡ true
      by_empty true = h
      by_empty false = starts_with-longer "/" path ("?" +++ H.urlencode (without_nulls params)) h

  IsLocal-clear_token : IsLocal clear_token
  unfolding clear_token
  IsLocal-clear_token = record {
    keeps = λ s. record {
      wallet_address = refl;
      gateway_url = refl;
      timeout_sec = refl;
      signer = refl;
      token = λ _. tt;
      requests = refl;
    };
  }

  pub IsLocal-logout : IsLocal (logout H)
  unfolding logout starts_with
  IsLocal-logout =
      IsLocal-bind (IsLocal-authorized_request "POST" "/api/v1/auth/logout" none refl) (λ payload.
        IsLocal-bind IsLocal-clear_token
          (λ _. IsLocal-lift (or_invalid (read_auth_logout_result H payload))))

  pub IsLocal-get_owner_profile : IsLocal (get_owner_profile H)
  unfolding get_owner_profile starts_with
  IsLocal-get_owner_profile = IsLocal-asked "GET" "/api/v1/auth/me" none _ refl
