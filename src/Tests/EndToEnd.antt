-- ===== src/Tests/EndToEnd.antt =====
-- A run of the end-to-end script: a gateway that settles each call and refuses one credential.
use synapse_network_sdk.Base.{
  ◌≢◌, arith, String, Bool, true, false, Option, none, some, List, [], ◌∷◌, str_eq, if◌then◌else◌,
  ◌≡◌, refl,
}
use synapse_network_sdk.Json.{Fields, field, arr, obj, cons, nil, end, str}
use synapse_network_sdk.Runtime.{stalled, ok, is_instance}
use synapse_network_sdk.Runtime.Steps.{Returns}
use synapse_network_sdk.Host.{Host, Trace, Request, Reply}
use synapse_network_sdk.Client.Invoke.{
  invoke_call, check_call, client_invoke_llm, asks_to_stream, invocation_key, post_invocation,
  invoke_request, read_invocation, settle,
}
use synapse_network_sdk.Client.Polling.{check_gateway_health, receipt_request, read_receipt}
use synapse_network_sdk.Client.Response.{raise_for_error}
use synapse_network_sdk.Models.Invocation.{read_invocation_response, is_terminal}
use synapse_network_sdk.Strings.{truthy}
use synapse_network_sdk.EndToEnd.{
  MonotonicLaws, env_int, env_text, is_value_error, Tools, Script, env_bool,
}
use synapse_network_sdk.EndToEnd.Run.{e2e_main, await_receipt}
use synapse_network_sdk.EndToEnd.Target.{fixed_target}
use synapse_network_sdk.EndToEnd.Free.{IsFree, fixed_target-IsFree}
use synapse_network_sdk.EndToEnd.Settles.{SettledOf, await_receipt-SettledOf}
use synapse_network_sdk.EndToEnd.Ends.{await_receipt-ends}
use synapse_network_sdk.EndToEnd.Events.{scenarios, scenarios-e2e_main}
use synapse_network_sdk.Tests.World.{
  ticks, ticks_forward, world, client, reply, invocation, read_field,
}

abbrev has_header : String → List (String × String) → Bool
has_header v [] = false
has_header v ((k, w) ∷ hs) = if str_eq v w then true else has_header v hs

abbrev settling : Trace → Request → Reply
settling u r =
    if has_header "agt_invalid" r.headers
    then reply 401 false end
    else reply 200 true (invocation "SETTLED")

abbrev configured : String → Option String
configured name =
    if str_eq name "SYNAPSE_AGENT_KEY"
    then some "agt_1"
    else if str_eq name "SYNAPSE_E2E_FIXED_SERVICE_ID"
    then some "svc_weather"
    else if str_eq name "SYNAPSE_E2E_FIXED_COST_USDC"
    then some "0.01"
    else if str_eq name "SYNAPSE_E2E_LLM_MAX_COST_USDC"
    then some "0.01"
    else none

abbrev e2e_world : Host
e2e_world = record world { respond = settling; getenv = configured }

abbrev tools : Tools
tools = record {
  load = λ _. none;
  parse_int = λ _. none;
  is_zero = λ s. some (str_eq s "0");
  exceeds = λ s t. some false;
  type_name = λ _. "Exception";
  monotonic = ticks;
}

abbrev start : Script
start = record { trace = []; printed = [] }

await_receipt-SettledOf_example :
    Returns (SettledOf e2e_world tools "inv_1") (await_receipt e2e_world tools client "inv_1" []).0
await_receipt-SettledOf_example = await_receipt-SettledOf e2e_world tools client "inv_1" []

monotonic_clock : MonotonicLaws tools
monotonic_clock = record { forward = ticks_forward; sleeps = λ s u. omega arith }

await_receipt-ends_example : (await_receipt world tools client "inv_1" []).0 ≢ stalled
unfolding env_int env_text truthy
await_receipt-ends_example =
    await_receipt-ends world tools client "inv_1" [] monotonic_clock (omega arith)

run_returns : (e2e_main e2e_world tools start).0 ≡ ok tt
unfolding e2e_main invoke_call check_call is_value_error client_invoke_llm asks_to_stream
    is_instance check_gateway_health raise_for_error invocation_key post_invocation invoke_request
    read_invocation read_invocation_response read_field settle is_terminal receipt_request
    await_receipt read_receipt
run_returns = refl

not_skipped : env_bool e2e_world tools "SYNAPSE_E2E_SKIP_AUTH_NEGATIVE" ≡ false
unfolding env_bool
not_skipped = refl

not_free_only : env_bool e2e_world tools "SYNAPSE_E2E_FREE_ONLY" ≡ false
unfolding env_bool
not_free_only = refl

scenarios-e2e_main_example :
    scenarios (e2e_main e2e_world tools start).1.printed
    ≡ str "llm" ∷ str "fixed-price" ∷ str "auth-negative" ∷ str "health" ∷ str "local-negative" ∷ []
scenarios-e2e_main_example =
    scenarios-e2e_main e2e_world tools start not_skipped not_free_only run_returns

-- A gateway that lists the echo service for nothing.
abbrev echo_listing : Fields
echo_listing =
    field "results"
      (arr (
        cons
          (obj (
            field "serviceId" (str "svc_synapse_echo") (
              field "serviceKind" (str "api") (
                field "priceModel" (str "fixed")
                  (field "pricing" (obj (field "amount" (str "0") end)) end)))))
          nil))
      end

abbrev listing_world : Host
listing_world = record world { respond = λ u r. reply 200 true echo_listing }

unnamed : truthy (env_text listing_world tools "SYNAPSE_E2E_FIXED_SERVICE_ID") ≡ false
unfolding env_text truthy
unnamed = refl

fixed_target-IsFree_example :
    Returns (IsFree listing_world tools) (fixed_target listing_world tools client []).0
fixed_target-IsFree_example = fixed_target-IsFree listing_world tools client [] unnamed
