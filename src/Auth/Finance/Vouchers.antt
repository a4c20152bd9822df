-- ===== src/Auth/Finance/Vouchers.antt =====
-- What the redemption of a voucher sends.
use synapse_network_sdk.Base.{String, true, ◌≡◌, refl, some, [], ◌∷◌, arith}
use synapse_network_sdk.Strings.{◌+++◌, truthy, strip}
use synapse_network_sdk.Json.{str, obj, Fields, end, field}
use synapse_network_sdk.Runtime.{ok, ◌>>=◌, lift_result, or_invalid}
use synapse_network_sdk.Runtime.Steps.{bind_state}
use synapse_network_sdk.Host.{Host, Request, sent}
use synapse_network_sdk.Models.Finance.{read_voucher_redeem_result}
use synapse_network_sdk.Auth.{
  SynapseAuth, session_request, set_header, merge_headers, get_token, authorized_headers, request,
  require_value,
}
use synapse_network_sdk.Auth.Finance.{idempotency_key_or, idempotent_request, redeem_voucher}

-- A request of an owner with a token, under an idempotency key.
abbrev pub keyed_request : SynapseAuth → String → String → String → Fields → Request
keyed_request u token key path body = record {
  method = "POST";
  url = u.gateway_url +++ path;
  headers =
      ("Content-Type", "application/json")
      ∷ ("Authorization", "Bearer " +++ token)
      ∷ ("X-Idempotency-Key", key)
      ∷ [];
  json = some (obj body);
  timeout = u.timeout_sec;
}

module _ (H : Host) (s : SynapseAuth) (token key : String) where
  posted :
      (path : String) (body : Fields) (u : SynapseAuth)
      → (request H "POST" path
          (set_header "X-Idempotency-Key" key
            (("Content-Type", "application/json") ∷ ("Authorization", "Bearer " +++ token) ∷ []))
          (some (obj body))
          u).1.trace
        ≡ sent (keyed_request u token key path body) ∷ u.trace
  unfolding request session_request merge_headers set_header
  posted path body u = ground arith

  module _ (has_token : (get_token H s).0 ≡ ok token) (has_key : truthy key ≡ true) where
    -- The session with the token for the request.
    abbrev pub token_session : SynapseAuth
    token_session = (get_token H s).1

    headers_lem :
        (authorized_headers H s).0
        ≡ ok (("Content-Type", "application/json") ∷ ("Authorization", "Bearer " +++ token) ∷ [])
    unfolding authorized_headers
    headers_lem = rw has_token refl

    headers_session : (authorized_headers H s).1 ≡ token_session
    unfolding authorized_headers
    headers_session = rw has_token refl

    keyed_rest :
        (prefix path : String) (body : Fields) (u : SynapseAuth)
        → ((idempotency_key_or H prefix (some key) >>= λ k.
              request H "POST" path
                (set_header "X-Idempotency-Key" k (
                  ("Content-Type", "application/json")
                  ∷ ("Authorization", "Bearer " +++ token)
                  ∷ []))
                (some (obj body)))
            u).1.trace
          ≡ sent (keyed_request u token key path body) ∷ u.trace
    unfolding idempotency_key_or
    keyed_rest prefix path body u = rw has_key (posted path body u)

    keyed_trace :
        (prefix path : String) (body : Fields)
        → (idempotent_request H prefix (some key) path body s).1.trace
          ≡ sent (keyed_request token_session token key path body) ∷ token_session.trace
    unfolding idempotent_request
    keyed_trace prefix path body =
        rw (headers_lem, headers_session) (keyed_rest prefix path body token_session)

    -- With a token, an idempotency key that is not empty and a code that is not blank, the redemption
    -- of a voucher sends one more request, the stripped code under exactly that key and token.
    pub redeem_voucher_request :
        (code : String)
        → truthy (strip code) ≡ true
        → (redeem_voucher H code (some key) s).1.trace
          ≡ sent (
              keyed_request token_session token key "/api/v1/balance/vouchers/redeem"
                (field "voucherCode" (str (strip code)) end))
            ∷ token_session.trace
    unfolding redeem_voucher require_value
    redeem_voucher_request code given =
        let body = field "voucherCode" (str (strip code)) end in
        let path : String = "/api/v1/balance/vouchers/redeem" in
        rw given (
          bind_state
            (λ v.
              v.trace
              ≡ sent (keyed_request token_session token key path body) ∷ token_session.trace)
            (idempotent_request H "voucher-" (some key) path body)
            (λ payload. lift_result (or_invalid (read_voucher_redeem_result H payload))) s
            (keyed_trace "voucher-" path body) (λ _ h. h))
