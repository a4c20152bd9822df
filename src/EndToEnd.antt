-- ===== src/EndToEnd.antt =====
-- python/examples/e2e.py: the end-to-end run of the Python SDK, whose events the report reads.
pub mod Target
pub mod Free
pub mod Run
pub mod Settles
pub mod Ends
pub mod Events
use synapse_network_sdk.Base.{
  ◌≤◌, ℕ, zero, suc, ◌+◌, ◌*◌, String, Bool, true, false, not, ◌&&◌, ◌||◌, ltb, Option, none, some,
  or_else, List, [], ◌∷◌, str_eq, if◌then◌else◌,
}
use synapse_network_sdk.Base.Int.{ℤ, pos, pos_part}
use synapse_network_sdk.Strings.{◌+++◌, truthy, str_or, strip}
use synapse_network_sdk.Json.{
  Json, null, bool, num, str, arr, obj, nil, cons, Fields, end, field, as_dict,
}
use synapse_network_sdk.Runtime.{
  ErrorClass, Error, value_error, validation, invalid_operation, system_exit, is_instance,
  message_of, Result, ok, err, stalled, ◌>>=◌, ◌>>◌, pure, raise, raise_if, lift_result, Action,
}
use synapse_network_sdk.Host.{Event, slept, ticked, Host, Trace, now, sleep, uuid, second}
use synapse_network_sdk.Config.{getenv_or_empty}
use synapse_network_sdk.Models.Service.{DiscoveredService}
use synapse_network_sdk.Models.Invocation.{InvocationResponse}
use synapse_network_sdk.Client.{SynapseClient, new_client}
use synapse_network_sdk.Client.Discovery.{search}
use synapse_network_sdk.Client.Invoke.{Cost, written, InvokeCall, invoke_call, client_invoke_llm}
use synapse_network_sdk.Client.Polling.{get_invocation, check_gateway_health}

-- What the script takes from outside, besides the functions of the host.
pub record Tools : Type 0 where
  -- `json.loads` and `int`, `none` where they raise ValueError
  pub load : String → Option Json
  pub parse_int : String → Option ℤ
  -- `Decimal(s) == Decimal("0")` and `Decimal(s) > Decimal(t)`, `none` where they raise
  pub is_zero : String → Option Bool
  pub exceeds : String → String → Option Bool
  -- `type(exc).__name__`
  pub type_name : Error → String
  -- `time.monotonic()`, in ticks
  pub monotonic : Trace → ℕ

-- The documented behaviour of `time.monotonic`, which cannot go backwards, and of `time.sleep`,
-- which suspends the caller for at least the seconds asked for.
pub record MonotonicLaws (T : Tools) : Type 0 where
  pub forward : (e : Event) (u : Trace) → T.monotonic u ≤ T.monotonic (e ∷ u)
  pub sleeps : (s : ℕ) (u : Trace) → T.monotonic u + s * second ≤ T.monotonic (slept s ∷ u)

-- The history, and the events that were printed, the last first.
pub record Script : Type 0 where
  pub trace : Trace
  pub printed : List Fields

unfoldable pub through_trace : {A : Type 0} → Action Trace A → Action Script A
through_trace m s = let (r, tr) = m s.trace in (r, record s { trace = tr })

-- `fail`
abbrev pub fail : {S A : Type 0} → String → Action S A
fail message = raise (system_exit message)

abbrev pub echo_service_id : String
echo_service_id = "svc_synapse_echo"

-- a field, if its text is not empty
unfoldable pub given_field : String → String → Fields → Fields
unfolding truthy
given_field key value rest = if truthy value then field key (str value) rest else rest

-- the event that `emit` prints
unfoldable pub event : String → String → String → String → String → String → Fields
unfolding given_field
event scenario status invocation_id charged_usdc receipt_status service_id =
    field "language" (str "python") (
      given_field "scenario" scenario (
        given_field "status" status (
          given_field "invocationId" invocation_id (
            given_field "chargedUsdc" charged_usdc (
              given_field "receiptStatus" receipt_status
                (given_field "serviceId" service_id end))))))

unfoldable pub emit : Fields → Action Script (Unit {0})
emit e s = (ok tt, record s { printed = e ∷ s.printed })

-- `expect_error`, by a test of the exception: SystemExit is not caught
unfoldable pub expected :
    Tools → {A : Type 0} → (Error → Bool) → String → Result A → Result (Unit {0})
expected T is_expected message (ok _) = err (system_exit message)
expected T is_expected message (err (system_exit m)) = err (system_exit m)
expected T is_expected message (err e) =
    if is_expected e
    then ok tt
    else err (system_exit (message +++ "; got " +++ T.type_name e +++ ": " +++ message_of e))
expected T is_expected message stalled = stalled

unfoldable pub expect_error :
    Tools → {S A : Type 0} → Action S A → (Error → Bool) → String → Action S (Unit {0})
unfolding expected
expect_error T action is_expected message s =
    let (r, s') = action s in (expected T is_expected message r, s')

-- `isinstance(exc, ValueError)`
unfoldable pub is_value_error : Error → Bool
is_value_error (value_error _) = true
is_value_error (validation _) = true
is_value_error _ = false

-- a call of `client.invoke` with a price
unfoldable pub plain_call : String → Fields → Option Cost → Option String → InvokeCall
plain_call service_id payload cost key = record {
  service_id = service_id;
  payload = some payload;
  positional = true;
  cost_usdc = cost;
  max_cost_usdc = none;
  idempotency_key = key;
  response_mode = "sync";
  poll_timeout_sec = pos 90;
  request_id = none;
  allow_missing_cost_usdc = false;
}

-- the prefix of `idempotency_key`
unfoldable pub key_prefix : String → String → String
unfolding truthy
key_prefix run_id language =
    if truthy run_id then run_id +++ "-" +++ language +++ "-e2e" else language +++ "-e2e"

module _ (H : Host) (T : Tools) where
  -- `os.getenv(name, "").strip()`
  unfoldable pub env_text : String → String
  unfolding strip getenv_or_empty
  env_text name = strip (getenv_or_empty H name)

  unfoldable pub require_env : String → Result String
  unfolding env_text truthy
  require_env name =
      if truthy (env_text name)
      then ok (env_text name)
      else err (system_exit (name +++ " is required"))

  unfoldable pub env_default : String → String → String
  unfolding env_text str_or
  env_default name fallback = str_or (env_text name) fallback

  unfoldable pub env_bool : String → Bool
  unfolding env_text
  env_bool name =
      let value = H.lower (env_text name) in
      str_eq value "1" || str_eq value "true" || str_eq value "yes" || str_eq value "y"

  unfoldable pub positive_or : Option ℤ → ℕ → ℕ
  positive_or none fallback = fallback
  positive_or (some n) fallback = if ltb 0 (pos_part n) then pos_part n else fallback

  unfoldable pub env_int : String → ℕ → ℕ
  unfolding env_text truthy positive_or
  env_int name fallback =
      if truthy (env_text name)
      then positive_or (T.parse_int (env_text name)) fallback
      else fallback

  unfoldable pub object_or_fail : String → Option Json → Result Fields
  object_or_fail name none = err (value_error "JSONDecodeError")
  object_or_fail name (some v) = elim (as_dict v) [
    | none ↦ err (system_exit (name +++ " must be a JSON object"))
    | some d ↦ ok d
  ]

  unfoldable pub json_payload : String → Fields → Result Fields
  unfolding getenv_or_empty truthy object_or_fail
  json_payload name fallback =
      let raw = getenv_or_empty H name in
      if truthy raw then object_or_fail name (T.load raw) else ok fallback

  unfoldable pub idempotency_key : String → String → Action Trace String
  unfolding env_text key_prefix uuid
  idempotency_key language scenario = do
    hex ← uuid H
    pure (key_prefix (env_text "E2E_RUN_ID") language +++ "-" +++ scenario +++ "-" +++ hex)

  -- `new_client` of the script
  unfoldable pub script_client : String → Result SynapseClient
  unfolding new_client getenv_or_empty
  script_client credential =
      let url = getenv_or_empty H "SYNAPSE_GATEWAY_URL" in
      new_client H (some credential) (if truthy url then some url else none)
        (some (or_else (H.getenv "SYNAPSE_ENV") "prod")) (pos 30)

  unfoldable pub local_negative : SynapseClient → Action Script (Unit {0})
  unfolding through_trace expect_error plain_call emit event
  local_negative c = do
    expect_error T (through_trace (invoke_call H c (plain_call "svc_local" end none none)))
        is_value_error "fixed-price invoke without cost_usdc should fail locally"
    expect_error T
        (through_trace (
          client_invoke_llm H c "svc_llm" (some (field "stream" (bool true) end)) none none (pos 90)
            none))
        (λ e. is_instance e ErrorClass.invoke) "LLM stream=True should fail locally"
    emit (event "local-negative" "ok" "" "" "" "")

  unfoldable pub auth_negative : Action Script (Unit {0})
  unfolding script_client through_trace expect_error plain_call emit event
  auth_negative = do
    c ← lift_result (script_client "agt_invalid")
    expect_error T
        (through_trace
          (invoke_call H c (plain_call "svc_invalid_auth_probe" end (some (written "0")) none)))
        (λ e. is_instance e ErrorClass.authentication)
        "invalid credential should fail with AuthenticationError"
    emit (event "auth-negative" "ok" "" "" "" "")
