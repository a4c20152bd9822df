-- ===== src/EndToEnd/Events.antt =====
-- The events that a run of the script prints.
use synapse_network_sdk.Base.{
  ◌≡◌, refl, ap, ◌∙◌, Bool, true, false, String, List, ◌∷◌, map, none, some,
}
use synapse_network_sdk.Base.Int.{pos}
use synapse_network_sdk.Client.Invoke.{written, invoke_call, client_invoke_llm}
use synapse_network_sdk.Client.Polling.{check_gateway_health}
use synapse_network_sdk.Json.{Json, bool, field, end, str, Fields, get}
use synapse_network_sdk.Runtime.{
  Result, ok, Error, ErrorClass, is_instance, Action, ◌>>=◌, lift_result,
}
use synapse_network_sdk.Runtime.Steps.{bind_cases}
use synapse_network_sdk.Host.{Host, Trace}
use synapse_network_sdk.Client.{SynapseClient}
use synapse_network_sdk.EndToEnd.{
  Tools, Script, through_trace, event, given_field, emit, expect_error, is_value_error, plain_call,
  local_negative, auth_negative, env_bool, env_default, json_payload, idempotency_key,
  script_client, require_env,
}
use synapse_network_sdk.EndToEnd.Target.{fixed_target}
use synapse_network_sdk.EndToEnd.Run.{
  default_llm_payload, await_receipt, charged_text, over_limit, fixed_run, llm_run, unless,
  e2e_main,
}

-- The scenarios of the events, the last first.
abbrev pub scenarios : List Fields → List Json
scenarios es = map (get "scenario") es

-- An action that prints, where it returns, what a function puts in front of the scenarios.
record Prints {A : Type 0} (g : List Json → List Json) (m : Action Script A) : Type 0 where
  prints :
      (s : Script) (a : A) → (m s).0 ≡ ok a → scenarios (m s).1.printed ≡ g (scenarios s.printed)

Prints-bind :
    {A B : Type 0} {g h : List Json → List Json} {m : Action Script A} {f : A → Action Script B}
    → Prints g m
    → ((a : A) → Prints h (f a))
    → Prints (λ es. h (g es)) (m >>= f)
Prints-bind {B = B} {g = g} {h = h} {m = m} {f = f} first second = record {
  prints = λ s.
      bind_cases (λ p. (b : B) → p.0 ≡ ok b → scenarios p.1.printed ≡ h (g (scenarios s.printed))) m
        f s (λ a e b k. (second a).prints (m s).1 b k ∙ ap h (first.prints s a e)) (λ _ _ b k. cc)
        (λ _ b k. cc);
}

-- The actions that print nothing.
Prints-trace : {A : Type 0} (m : Action Trace A) → Prints (λ es. es) (through_trace m)
unfolding through_trace
Prints-trace m = record { prints = λ s a e. refl }

Prints-lift : {A : Type 0} (r : Result A) → Prints (λ es. es) (lift_result r)
Prints-lift r = record { prints = λ s a e. refl }

Prints-expect :
    (T : Tools) {A : Type 0} (m : Action Trace A) (test : Error → Bool) (message : String)
    → Prints (λ es. es) (expect_error T (through_trace m) test message)
unfolding through_trace expect_error
Prints-expect T m test message = record { prints = λ s a e. refl }

Prints-emit : (e : Fields) → Prints (λ es. get "scenario" e ∷ es) (emit e)
unfolding emit
Prints-emit e = record { prints = λ s a k. refl }

module _ (H : Host) (T : Tools) where
  local_negative-Prints :
      (c : SynapseClient) → Prints (λ es. str "local-negative" ∷ es) (local_negative H T c)
  unfolding local_negative event given_field get
  local_negative-Prints c =
      Prints-bind
        (Prints-expect T (invoke_call H c (plain_call "svc_local" end none none)) is_value_error
          "fixed-price invoke without cost_usdc should fail locally")
        (λ _.
          Prints-bind
            (Prints-expect T
              (client_invoke_llm H c "svc_llm" (some (field "stream" (bool true) end)) none none
                (pos 90) none)
              (λ e. is_instance e ErrorClass.invoke) "LLM stream=True should fail locally")
            (λ _. Prints-emit (event "local-negative" "ok" "" "" "" "")))

  auth_negative-Prints : Prints (λ es. str "auth-negative" ∷ es) (auth_negative H T)
  unfolding auth_negative event given_field get
  auth_negative-Prints = Prints-bind (Prints-lift (script_client H T "agt_invalid")) (λ c.
      Prints-bind
        (Prints-expect T
          (invoke_call H c (plain_call "svc_invalid_auth_probe" end (some (written "0")) none))
          (λ e. is_instance e ErrorClass.authentication)
          "invalid credential should fail with AuthenticationError")
        (λ _. Prints-emit (event "auth-negative" "ok" "" "" "" "")))

  fixed_run-Prints : (c : SynapseClient) → Prints (λ es. str "fixed-price" ∷ es) (fixed_run H T c)
  unfolding fixed_run event given_field get
  fixed_run-Prints c = Prints-bind (Prints-trace (fixed_target H T c)) (λ target.
      Prints-bind (Prints-trace (idempotency_key H T "python" "fixed")) (λ key.
        Prints-bind
          (Prints-trace
            (invoke_call H c (plain_call target.0 target.2 (some (written target.1)) (some key))))
          (λ result.
            Prints-bind (Prints-trace (await_receipt H T c result.invocation_id)) (λ receipt.
              Prints-emit (
                event "fixed-price" result.status result.invocation_id
                  (H.show_float receipt.charged_usdc) receipt.status target.0)))))

  llm_run-Prints : (c : SynapseClient) → Prints (λ es. str "llm" ∷ es) (llm_run H T c)
  unfolding llm_run event given_field get
  llm_run-Prints c =
      let service_id = env_default H T "SYNAPSE_E2E_LLM_SERVICE_ID" "svc_deepseek_chat" in
      let max_cost = env_default H T "SYNAPSE_E2E_LLM_MAX_COST_USDC" "0.010000" in
      Prints-bind
        (Prints-lift (json_payload H T "SYNAPSE_E2E_LLM_PAYLOAD_JSON" default_llm_payload))
        (λ payload. Prints-bind (Prints-trace (idempotency_key H T "python" "llm")) (λ key.
          Prints-bind
            (Prints-trace (
              client_invoke_llm H c service_id (some payload) (some (written max_cost)) (some key)
                (pos 90) none))
            (λ result.
              Prints-bind (Prints-trace (await_receipt H T c result.invocation_id)) (λ receipt.
                Prints-bind
                  (Prints-lift (
                    over_limit H T (T.exceeds (charged_text H T receipt result) max_cost)
                      (charged_text H T receipt result) max_cost))
                  (λ _. Prints-emit (
                    event "llm" result.status result.invocation_id (charged_text H T receipt result)
                      receipt.status service_id))))))

  unless-Prints :
      {g : List Json → List Json} {m : Action Script (Unit {0})} (test : Bool)
      → test ≡ false
      → Prints g m
      → Prints g (unless H T test m)
  unfolding unless
  unless-Prints true e p = cc
  unless-Prints false e p = p

  main-Prints :
      env_bool H T "SYNAPSE_E2E_SKIP_AUTH_NEGATIVE" ≡ false
      → env_bool H T "SYNAPSE_E2E_FREE_ONLY" ≡ false
      → Prints
          (λ es.
            str "llm"
            ∷ str "fixed-price"
            ∷ str "auth-negative"
            ∷ str "health"
            ∷ str "local-negative"
            ∷ es)
          (e2e_main H T)
  unfolding e2e_main event given_field get
  main-Prints all_auth all_runs =
      Prints-bind (Prints-lift (require_env H T "SYNAPSE_AGENT_KEY")) (λ key.
        Prints-bind (Prints-lift (script_client H T key)) (λ c.
          Prints-bind (local_negative-Prints c) (λ _.
            Prints-bind (Prints-trace (check_gateway_health H c)) (λ health.
              Prints-bind (Prints-emit (event "health" "ok" "" "" "" "")) (λ _.
                Prints-bind
                  (unless-Prints (env_bool H T "SYNAPSE_E2E_SKIP_AUTH_NEGATIVE") all_auth
                    auth_negative-Prints)
                  (λ _. Prints-bind (fixed_run-Prints c) (λ _.
                    unless-Prints (env_bool H T "SYNAPSE_E2E_FREE_ONLY") all_runs
                      (llm_run-Prints c))))))))

  -- Where no part of the run is turned off, a run that returns has printed one event for each of
  -- the scenarios local-negative, health, auth-negative, fixed-price and llm, in this order, and no
  -- other event (the list holds the last first).
  pub scenarios-e2e_main :
      (s : Script)
      → env_bool H T "SYNAPSE_E2E_SKIP_AUTH_NEGATIVE" ≡ false
      → env_bool H T "SYNAPSE_E2E_FREE_ONLY" ≡ false
      → (e2e_main H T s).0 ≡ ok tt
      → scenarios (e2e_main H T s).1.printed
        ≡ str "llm"
          ∷ str "fixed-price"
          ∷ str "auth-negative"
          ∷ str "health"
          ∷ str "local-negative"
          ∷ scenarios s.printed
  scenarios-e2e_main s all_auth all_runs returns =
      (main-Prints all_auth all_runs).prints s tt returns
