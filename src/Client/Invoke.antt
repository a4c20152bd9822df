-- ===== src/Client/Invoke.antt =====
-- client.py, `invoke` and `invoke_llm`, and the withdrawn quote flow.
pub mod Body
pub mod Outcome
pub mod Posts
use synapse_network_sdk.Base.{
  ℕ, String, Bool, true, false, not, ◌&&◌, Option, none, some, or_else, is_some, if◌then◌else◌,
}
use synapse_network_sdk.Base.Int.{ℤ, pos}
use synapse_network_sdk.Strings.{◌+++◌, truthy, str_or, strip}
use synapse_network_sdk.Json.{
  Json, null, bool, num, str, arr, obj, Fields, end, field, get, put, put_some,
}
use synapse_network_sdk.Runtime.{
  Float, client_error, invoke, quote, value_error, ◌>>=◌, ◌>>◌, pure, raise, raise_if, lift_result,
  Action, or_invalid, Result, ok, err, and_then,
}
use synapse_network_sdk.Host.{Host, Request, Response, Trace, send, uuid}
use synapse_network_sdk.Models.Invocation.{
  InvocationResponse, read_invocation_response, is_terminal,
}
use synapse_network_sdk.Client.{SynapseClient, post_request}
use synapse_network_sdk.Client.Response.{response_payload, raise_for_error}
use synapse_network_sdk.Client.Polling.{wait_for_invocation}

-- `Union[float, str]`
pub data Cost : Type 0 where
  amount : Float → Cost
  written : String → Cost

-- The arguments of a call of `invoke`; `positional` says that the payload was passed by position.
pub record InvokeCall : Type 0 where
  pub service_id : String
  pub payload : Option Fields
  pub positional : Bool
  pub cost_usdc : Option Cost
  pub max_cost_usdc : Option Cost
  pub idempotency_key : Option String
  pub response_mode : String
  pub poll_timeout_sec : ℤ
  pub request_id : Option String
  pub allow_missing_cost_usdc : Bool

abbrev pub deprecated_quote_flow_message : String
deprecated_quote_flow_message =
    "The current Synapse gateway uses price-asserted single-call invoke. Use discover()/search() to read the live service price, then call invoke(service_id, payload, cost_usdc=...)."

-- `create_quote` and `quote`, `create_invocation`, `invoke_service`: they only raise.
unfoldable pub create_quote {ℓ} : {A : Type ℓ} → A → Action Trace (Unit {0})
create_quote arguments = raise (quote deprecated_quote_flow_message)

unfoldable pub create_invocation {ℓ} : {A : Type ℓ} → A → Action Trace InvocationResponse
create_invocation arguments = raise (invoke deprecated_quote_flow_message)

unfoldable pub invoke_service {ℓ} : {A : Type ℓ} → A → Action Trace InvocationResponse
invoke_service arguments = raise (client_error deprecated_quote_flow_message)

-- what `invoke` tests before anything else
unfoldable pub check_call : InvokeCall → Result (Unit {0})
check_call a =
    if not (truthy (strip a.service_id))
    then err (value_error "service_id is required")
    else if not (is_some a.cost_usdc) && not a.allow_missing_cost_usdc
    then err (
        value_error
          "cost_usdc is required for fixed-price API services. Use invoke_llm() for LLM services.")
    else ok tt

module _ (H : Host) where
  -- `_cost_usdc_payload_value`
  unfoldable pub cost_usdc_payload_value : Cost → Json
  cost_usdc_payload_value (amount x) = num (H.show_float (H.round_six x))
  cost_usdc_payload_value (written s) = str s

  -- `str(max_cost_usdc)`
  unfoldable pub cost_text : Cost → String
  cost_text (amount x) = H.show_float x
  cost_text (written s) = s

  abbrev pub cost_value : Option Cost → Option Json
  cost_value none = none
  cost_value (some c) = some (cost_usdc_payload_value c)

  abbrev pub cost_text_value : Option Cost → Option Json
  cost_text_value none = none
  cost_text_value (some c) = some (str (cost_text c))

  -- the body that `invoke` posts
  unfoldable pub invoke_body : InvokeCall → String → Fields
  unfolding put put_some strip cost_usdc_payload_value cost_text
  invoke_body a key = put_some "maxCostUsdc" (cost_text_value a.max_cost_usdc) (
      put_some "costUsdc" (cost_value a.cost_usdc) (
        put "responseMode" (str a.response_mode) (
          put "payload" (obj (field "body" (obj (or_else a.payload end)) end))
            (put "idempotencyKey" (str key) (put "serviceId" (str (strip a.service_id)) end)))))

  -- `(idempotency_key or f"invoke-{uuid4().hex}").strip()`
  unfoldable pub fresh_key : Action Trace String
  unfolding strip uuid
  fresh_key = do hex ← uuid H; pure (strip ("invoke-" +++ hex))

  unfoldable pub invocation_key : Option String → Action Trace String
  unfolding truthy strip fresh_key
  invocation_key given =
      let key = or_else given "" in if truthy key then pure (strip key) else fresh_key

  -- the response to an invocation, as the SDK's exception or as the model
  unfoldable pub read_invocation : Response → Result InvocationResponse
  read_invocation r =
      and_then (raise_for_error H r (invoke "service invocation failed"))
        (λ _. or_invalid (read_invocation_response H (response_payload H r)))

  -- an invocation that is not terminal is waited for
  unfoldable pub settle :
      SynapseClient → InvokeCall → InvocationResponse → Action Trace InvocationResponse
  settle c a invocation =
      let wait = wait_for_invocation H c invocation.invocation_id a.poll_timeout_sec (pos 1) in
      if is_terminal invocation then pure invocation else wait

  -- the request of an invocation
  unfoldable pub invoke_request : SynapseClient → InvokeCall → String → Request
  unfolding post_request
  invoke_request c a key =
      post_request c "/api/v1/agent/invoke" a.request_id (obj (invoke_body a key))

  -- `SynapseClient.invoke` behind its checks
  unfoldable pub post_invocation :
      SynapseClient → InvokeCall → String → Action Trace InvocationResponse
  post_invocation c a key = do
    r ← send H (invoke_request c a key)
    invocation ← lift_result (read_invocation r)
    settle c a invocation

  unfoldable pub invoke_call : SynapseClient → InvokeCall → Action Trace InvocationResponse
  invoke_call c a = do
    lift_result (check_call a)
    key ← invocation_key a.idempotency_key
    post_invocation c a key

-- `payload.get("stream") is True`
unfoldable pub asks_to_stream : Fields → Bool
unfolding get
asks_to_stream p = elim (get "stream" p) [ bool b ↦ b | _ ↦ false ]

-- The call of `self.invoke` that `invoke_llm` makes: the payload goes by position.
unfoldable pub llm_call :
    String → Option Fields → Option Cost → Option String → ℤ → Option String → InvokeCall
llm_call service_id payload max_cost_usdc idempotency_key poll_timeout_sec request_id = record {
  service_id = service_id;
  payload = some (or_else payload end);
  positional = true;
  cost_usdc = none;
  max_cost_usdc = max_cost_usdc;
  idempotency_key = idempotency_key;
  response_mode = "sync";
  poll_timeout_sec = poll_timeout_sec;
  request_id = request_id;
  allow_missing_cost_usdc = true;
}

abbrev pub streaming_message : String
streaming_message =
    "LLM_STREAMING_NOT_SUPPORTED: stream=True is not supported for token-metered billing."

-- `invoke_llm`, whose `self.invoke` is the class's own.
unfoldable pub invoke_llm :
    {S : Type 0}
    → (InvokeCall → Action S InvocationResponse)
    → String
    → Option Fields
    → Option Cost
    → Option String
    → ℤ
    → Option String
    → Action S InvocationResponse
unfolding llm_call
invoke_llm self_invoke service_id payload max_cost_usdc idempotency_key poll_timeout_sec
      request_id =
    do
      raise_if (asks_to_stream (or_else payload end)) (
          invoke
            "LLM_STREAMING_NOT_SUPPORTED: stream=True is not supported for token-metered billing.")
      self_invoke
          (llm_call service_id payload max_cost_usdc idempotency_key poll_timeout_sec request_id)

unfoldable pub client_invoke_llm :
    Host
    → SynapseClient
    → String
    → Option Fields
    → Option Cost
    → Option String
    → ℤ
    → Option String
    → Action Trace InvocationResponse
unfolding invoke_llm invoke_call
client_invoke_llm H c = invoke_llm (invoke_call H c)
