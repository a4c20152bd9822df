-- ===== src/EndToEnd/Run.antt =====
-- The wait for a receipt, and the run of python/examples/e2e.py.
use synapse_network_sdk.Base.{
  ◌∷◌, ℕ, zero, suc, ◌+◌, ◌*◌, String, Bool, true, false, not, ◌&&◌, ◌||◌, ltb, Option, none, some,
  str_eq, if◌then◌else◌,
}
use synapse_network_sdk.Base.Int.{pos}
use synapse_network_sdk.Strings.{◌+++◌, truthy}
use synapse_network_sdk.Json.{str, arr, obj, nil, cons, Fields, end, field}
use synapse_network_sdk.Runtime.{
  invalid_operation, system_exit, Result, ok, err, stalled, ◌>>=◌, ◌>>◌, pure, raise_if,
  lift_result, Action,
}
use synapse_network_sdk.Host.{Host, Trace, ticked, sleep, second}
use synapse_network_sdk.Models.Invocation.{InvocationResponse}
use synapse_network_sdk.Client.{SynapseClient}
use synapse_network_sdk.Client.Invoke.{written, invoke_call, client_invoke_llm}
use synapse_network_sdk.Client.Polling.{get_invocation, check_gateway_health}
use synapse_network_sdk.EndToEnd.{
  Tools, Script, through_trace, event, emit, plain_call, require_env, env_default, env_bool,
  env_int, json_payload, idempotency_key, script_client, local_negative, auth_negative,
}
use synapse_network_sdk.EndToEnd.Target.{fixed_target}

abbrev pub default_llm_payload : Fields
default_llm_payload =
    field "messages"
      (arr (cons (obj (field "role" (str "user") (field "content" (str "hello") end))) nil)) end

module _ (H : Host) (T : Tools) where
  -- `time.monotonic()`
  unfoldable pub read_monotonic : Action Trace ℕ
  read_monotonic u = (ok (T.monotonic u), ticked ∷ u)

  -- `receipt.status in {"SUCCEEDED", "SETTLED"}`
  unfoldable pub is_settled : InvocationResponse → Bool
  is_settled r = str_eq r.status "SUCCEEDED" || str_eq r.status "SETTLED"

  -- the receipt is of another invocation
  unfoldable pub is_mismatch : String → InvocationResponse → Bool
  unfolding truthy
  is_mismatch id r = truthy r.invocation_id && not (str_eq r.invocation_id id)

  -- the end of a round: a receipt that is settled, the deadline, or another round in 2 seconds
  unfoldable pub await_rest :
      String
      → ℕ
      → Action Trace InvocationResponse
      → InvocationResponse
      → Action Trace InvocationResponse
  unfolding is_settled read_monotonic sleep
  await_rest id deadline again r =
      let pending = do
        t ← read_monotonic
        raise_if (ltb deadline t) (
            system_exit
              ("receipt " +++ id +++ " did not reach a terminal status, last status=" +++ r.status))
        sleep H 2
        again
      in if is_settled r then pure r else pending

  -- the loop of `await_receipt`, up to a number of rounds
  unfoldable pub await_loop : ℕ → SynapseClient → String → ℕ → Action Trace InvocationResponse
  unfolding get_invocation is_mismatch await_rest
  await_loop zero c id deadline = λ u. (stalled, u)
  await_loop (suc n) c id deadline =
      let again = await_loop n c id deadline in
      do
        r ← get_invocation H c id
        raise_if (is_mismatch id r) (
            system_exit
              ("receipt invocationId mismatch: got " +++ r.invocation_id +++ " want " +++ id))
        await_rest id deadline again r

  unfoldable pub await_receipt : SynapseClient → String → Action Trace InvocationResponse
  unfolding truthy read_monotonic env_int await_loop
  await_receipt c id = do
    raise_if (not (truthy id)) (system_exit "invoke returned empty invocationId")
    t ← read_monotonic
    await_loop H.rounds c id (t + env_int H T "SYNAPSE_E2E_RECEIPT_TIMEOUT_S" 60 * second)

  -- the fixed-price part of `main`
  unfoldable pub fixed_run : SynapseClient → Action Script (Unit {0})
  unfolding through_trace fixed_target idempotency_key plain_call await_receipt emit event
  fixed_run c = do
    target ← through_trace (fixed_target H T c)
    key ← through_trace (idempotency_key H T "python" "fixed")
    result ←
        through_trace
          (invoke_call H c (plain_call target.0 target.2 (some (written target.1)) (some key)))
    receipt ← through_trace (await_receipt c result.invocation_id)
    emit (
        event "fixed-price" result.status result.invocation_id (H.show_float receipt.charged_usdc)
          receipt.status target.0)

  -- `str(llm_receipt.charged_usdc or llm_result.charged_usdc)`
  unfoldable pub charged_text : InvocationResponse → InvocationResponse → String
  charged_text receipt result =
      H.show_float
        (if H.is_zero receipt.charged_usdc then result.charged_usdc else receipt.charged_usdc)

  unfoldable pub over_limit : Option Bool → String → String → Result (Unit {0})
  over_limit none charged max_cost = err (invalid_operation "ConversionSyntax")
  over_limit (some true) charged max_cost =
      err (system_exit ("llm chargedUsdc " +++ charged +++ " exceeds maxCostUsdc " +++ max_cost))
  over_limit (some false) charged max_cost = ok tt

  -- the language model's part of `main`
  unfoldable pub llm_run : SynapseClient → Action Script (Unit {0})
  unfolding through_trace env_default json_payload idempotency_key await_receipt charged_text
      over_limit emit event
  llm_run c =
      let service_id = env_default H T "SYNAPSE_E2E_LLM_SERVICE_ID" "svc_deepseek_chat" in
      let max_cost = env_default H T "SYNAPSE_E2E_LLM_MAX_COST_USDC" "0.010000" in
      do
        payload ← lift_result (json_payload H T "SYNAPSE_E2E_LLM_PAYLOAD_JSON" default_llm_payload)
        key ← through_trace (idempotency_key H T "python" "llm")
        result ← through_trace (
            client_invoke_llm H c service_id (some payload) (some (written max_cost)) (some key)
              (pos 90) none)
        receipt ← through_trace (await_receipt c result.invocation_id)
        lift_result (
            over_limit (T.exceeds (charged_text receipt result) max_cost)
              (charged_text receipt result) max_cost)
        emit (
            event "llm" result.status result.invocation_id (charged_text receipt result)
              receipt.status service_id)

  -- `if not test: action()`
  unfoldable pub unless : Bool → Action Script (Unit {0}) → Action Script (Unit {0})
  unless test action = if test then pure tt else action

  unfoldable pub e2e_main : Action Script (Unit {0})
  unfolding require_env script_client local_negative through_trace emit event env_bool auth_negative
      fixed_run llm_run unless
  e2e_main = do
    key ← lift_result (require_env H T "SYNAPSE_AGENT_KEY")
    c ← lift_result (script_client H T key)
    local_negative H T c
    health ← through_trace (check_gateway_health H c)
    emit (event "health" "ok" "" "" "" "")
    unless (env_bool H T "SYNAPSE_E2E_SKIP_AUTH_NEGATIVE") (auth_negative H T)
    fixed_run c
    unless (env_bool H T "SYNAPSE_E2E_FREE_ONLY") (llm_run c)
