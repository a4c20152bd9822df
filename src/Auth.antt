-- ===== src/Auth.antt =====
-- python/synapse_client/auth.py, `class SynapseAuth`: the owner's session, its token and requests.
pub mod Tokens
pub mod Local
pub mod Credentials
pub mod Finance
pub mod Provider
pub mod ServiceId
use synapse_network_sdk.Base.{
  ℕ, ◌+◌, ◌-◌, ◌*◌, String, Bool, true, false, not, ◌&&◌, ◌||◌, ltb, Option, none, some, or_else,
  List, [], ◌∷◌, str_eq, if◌then◌else◌,
}
use synapse_network_sdk.Base.Int.{ℤ, pos, pos_part}
use synapse_network_sdk.Strings.{◌+++◌, truthy, str_or, strip}
use synapse_network_sdk.Json.{Json, str, obj, Fields, end, field, get, is_empty, without_nulls}
use synapse_network_sdk.Runtime.{
  value_error, import_error, authentication, Result, ok, err, ◌>>=◌, ◌>>◌, pure, raise_if,
  lift_result, Action, and_then, or_invalid,
}
use synapse_network_sdk.Host.{Host, Request, Response, Trace, send, now, second}
use synapse_network_sdk.Config.{resolve_gateway_url}
use synapse_network_sdk.Models.Owner.{
  ChallengeResponse, read_challenge_response, TokenResponse, read_token_response, AuthLogoutResult,
  read_auth_logout_result, OwnerProfile, read_owner_profile,
}
use synapse_network_sdk.Client.Response.{response_payload, detail_message, str_or_else}

-- `SignerFn`, which may raise
abbrev pub Signer : Type 0
Signer = String → Result String

-- The attributes of the object, and the history.
pub record SynapseAuth : Type 0 where
  pub wallet_address : String
  pub gateway_url : String
  pub timeout_sec : ℤ
  pub signer : Signer
  pub token : Option String
  pub token_expires_at : ℕ
  pub trace : Trace

-- A call that moves the history alone.
unfoldable pub through_history : {A : Type 0} → Action Trace A → Action SynapseAuth A
through_history m s = let (r, tr) = m s.trace in (r, record s { trace = tr })

-- `headers[k] = v`
unfoldable pub set_header : String → String → List (String × String) → List (String × String)
set_header k v [] = (k, v) ∷ []
set_header k v ((j, w) ∷ hs) = if str_eq j k then (j, v) ∷ hs else (j, w) ∷ set_header k v hs

-- `{**headers, **more}`
unfoldable pub merge_headers :
    List (String × String) → List (String × String) → List (String × String)
unfolding set_header
merge_headers hs [] = hs
merge_headers hs ((k, v) ∷ more) = merge_headers (set_header k v hs) more

-- `_require_value`
unfoldable pub require_value : String → String → Result String
unfolding strip truthy
require_value value name =
    if truthy (strip value) then ok (strip value) else err (value_error (name +++ " is required"))

-- the arguments of `requests.request` in `_request`
unfoldable pub session_request :
    SynapseAuth → String → String → List (String × String) → Option Json → Request
unfolding merge_headers
session_request s method path hs body = record {
  method = method;
  url = s.gateway_url +++ path;
  headers = merge_headers (("Content-Type", "application/json") ∷ []) hs;
  json = body;
  timeout = s.timeout_sec;
}

-- `_token` is there and its expiry is more than 30 seconds off
unfoldable pub is_fresh : SynapseAuth → ℕ → Bool
unfolding truthy
is_fresh s t = truthy (or_else s.token "") && ltb t (s.token_expires_at - 30 * second)

unfoldable pub store_token : ℕ → TokenResponse → Action SynapseAuth String
store_token t r s = (
  ok r.access_token,
  record s { token = some r.access_token; token_expires_at = t + pos_part r.expires_in * second },
)

unfoldable pub clear_token : Action SynapseAuth (Unit {0})
clear_token s = (ok tt, record s { token = none; token_expires_at = 0 })

module _ (H : Host) where
  -- `SynapseAuth.__init__`
  unfoldable pub new_auth :
      String → Signer → Option String → Option String → ℤ → Trace → Result SynapseAuth
  unfolding strip truthy
  new_auth wallet_address signer gateway_url environment timeout_sec tr =
      let normalized = H.lower (strip wallet_address) in
      if truthy normalized
      then and_then (resolve_gateway_url H environment gateway_url) (λ gateway. ok (record {
        wallet_address = normalized;
        gateway_url = gateway;
        timeout_sec = timeout_sec;
        signer = signer;
        token = none;
        token_expires_at = 0;
        trace = tr;
      }))
      else err (value_error "wallet_address is required")

  -- `from_private_key`; the package eth_account is the argument, `none` where it is not installed,
  -- and gives the address and the signer of a key
  unfoldable pub from_private_key :
      Option (String → Result (String × Signer))
      → String
      → Option String
      → Option String
      → ℤ
      → Trace
      → Result SynapseAuth
  unfolding new_auth
  from_private_key none private_key gateway_url environment timeout_sec tr = err (
      import_error
        "SynapseAuth.from_private_key requires eth-account. Install with `pip install -e \".[dev]\"`.")
  from_private_key (some account) private_key gateway_url environment timeout_sec tr =
      and_then (account private_key) (λ a. new_auth a.0 a.1 gateway_url environment timeout_sec tr)

  -- `_auth_error_message`; `_json_payload` reads a response as `_response_payload` does
  unfoldable pub auth_error_message : Response → Fields → String
  unfolding str_or_else get strip truthy str_or detail_message
  auth_error_message r payload = elim (get "detail" payload) [
    | obj d ↦ str_or_else H (get "message" d) (str_or_else H (get "code" d) r.text)
    | other ↦ detail_message H other r.text ("HTTP " +++ H.show_int (pos r.status_code))
  ]

  -- the end of `_request`
  unfoldable pub session_answer : Response → Result Fields
  session_answer r =
      let payload = response_payload H r in
      if r.is_ok then ok payload else err (authentication (auth_error_message r payload))

  -- `_request`
  unfoldable pub request :
      String → String → List (String × String) → Option Json → Action SynapseAuth Fields
  unfolding through_history send session_request
  request method path hs body s =
      (do
        r ← through_history (send H (session_request s method path hs body))
        lift_result (session_answer r))
        s

  -- `_query_path`
  unfoldable pub query_path : String → Fields → String
  unfolding without_nulls
  query_path path params =
      let filtered = without_nulls params in
      if is_empty filtered then path else path +++ "?" +++ H.urlencode filtered

  unfoldable pub usable_challenge : Fields → Result ChallengeResponse
  unfolding truthy
  usable_challenge p = and_then (or_invalid (read_challenge_response H p)) (λ c.
      if not c.success || not (truthy c.challenge)
      then err (authentication "Challenge request did not return a usable challenge")
      else ok c)

  unfoldable pub usable_token : Fields → Result TokenResponse
  unfolding truthy
  usable_token p = and_then (or_invalid (read_token_response H p)) (λ r.
      if not r.success || not (truthy r.access_token)
      then err (authentication "Auth verify did not return an access token")
      else ok r)

  -- the body of the second request of `authenticate`
  unfoldable pub verify_body : SynapseAuth → String → String → Json
  verify_body s challenge signature = obj (
      field "wallet_address" (str s.wallet_address)
        (field "message" (str challenge) (field "signature" (str signature) end)))

  -- the first request of `authenticate`
  unfoldable pub ask_challenge : Action SynapseAuth ChallengeResponse
  unfolding request usable_challenge
  ask_challenge s =
      (do
        p ← request "GET" ("/api/v1/auth/challenge?address=" +++ s.wallet_address) [] none
        lift_result (usable_challenge p))
        s

  unfoldable pub sign : String → Action SynapseAuth String
  sign message s = (s.signer message, s)

  -- the second request of `authenticate`
  unfoldable pub ask_token : String → String → Action SynapseAuth TokenResponse
  unfolding request usable_token verify_body
  ask_token challenge signature s =
      (do
        p ← request "POST" "/api/v1/auth/verify" [] (some (verify_body s challenge signature))
        lift_result (usable_token p))
        s

  -- the signed challenge is exchanged for a token, which lives from the time t on
  unfoldable pub exchange : ℕ → String → String → Action SynapseAuth String
  unfolding ask_token store_token
  exchange t challenge signature = ask_token challenge signature >>= store_token t

  unfoldable pub answer_challenge : ℕ → ChallengeResponse → Action SynapseAuth String
  unfolding sign exchange
  answer_challenge t c = sign c.challenge >>= exchange t c.challenge

  -- `authenticate` behind the cached token, at the time that it read
  unfoldable pub sign_in : ℕ → Action SynapseAuth String
  unfolding ask_challenge answer_challenge
  sign_in t = ask_challenge >>= answer_challenge t

  unfoldable pub token_at : Bool → ℕ → Action SynapseAuth String
  unfolding is_fresh sign_in
  token_at force_refresh t s =
      if not force_refresh && is_fresh s t then (ok (or_else s.token ""), s) else sign_in t s

  unfoldable pub authenticate : Bool → Action SynapseAuth String
  unfolding through_history now token_at
  authenticate force_refresh = through_history (now H) >>= token_at force_refresh

  unfoldable pub get_token : Action SynapseAuth String
  unfolding authenticate
  get_token = authenticate false

  -- `_authorized_headers`
  unfoldable pub authorized_headers : Action SynapseAuth (List (String × String))
  unfolding get_token
  authorized_headers = do
    token ← get_token
    pure (("Content-Type", "application/json") ∷ ("Authorization", "Bearer " +++ token) ∷ [])

  -- `self._request(method, path, headers=self._authorized_headers(), json_body=body)`
  unfoldable pub authorized_request : String → String → Option Json → Action SynapseAuth Fields
  unfolding authorized_headers request
  authorized_request method path body = do hs ← authorized_headers; request method path hs body

  unfoldable pub logout : Action SynapseAuth AuthLogoutResult
  unfolding authorized_request clear_token
  logout = do
    payload ← authorized_request "POST" "/api/v1/auth/logout" none
    clear_token
    lift_result (or_invalid (read_auth_logout_result H payload))

  unfoldable pub get_owner_profile : Action SynapseAuth OwnerProfile
  unfolding authorized_request
  get_owner_profile = do
    payload ← authorized_request "GET" "/api/v1/auth/me" none
    lift_result (or_invalid (read_owner_profile H payload))
