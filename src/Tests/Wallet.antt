-- ===== src/Tests/Wallet.antt =====
-- Wallets in the small world, and in one where the gateway charges nothing.
use synapse_network_sdk.Wallet.Account.{
  WalletCall, direct, rediscovery, Run, account, charges, wallet_after, charges-Run,
}
use synapse_network_sdk.Base.{
  ◌≡◌, refl, false, Option, none, some, List, [], ◌∷◌, String, str_eq, ltb, arith, if◌then◌else◌,
}
use mathlib.Core.Path.{ap, sym}
use synapse_network_sdk.Client.Polling.Settles.{settled}
use synapse_network_sdk.Base.Int.{pos}
use synapse_network_sdk.Json.{Fields, end}
use synapse_network_sdk.Runtime.{Error, Float, ok, err, type_error}
use synapse_network_sdk.Host.{Host, Kind, Value, Trace}
use synapse_network_sdk.Models.Invocation.{InvocationResponse, read_invocation_response}
use synapse_network_sdk.Client.{SynapseClient}
use synapse_network_sdk.Client.Invoke.{amount, InvokeCall, invoke_call, asks_to_stream}
use synapse_network_sdk.Client.Response.{response_payload}
use synapse_network_sdk.Client.Invoke.Outcome.{invoke_call-Settles}
use synapse_network_sdk.Client.Rediscovery.{Rediscovery}
use synapse_network_sdk.Wallet.{AgentWallet, invoke, positional_message, wallet_invoke_llm}
use synapse_network_sdk.Wallet.Booking.{Booked, invoke-Booked}
use synapse_network_sdk.Wallet.Budget.{
  FloatLaws, FairGateway, WithinBudget, invoke_all, invoke_all-WithinBudget,
}
use synapse_network_sdk.Wallet.Inherited.{wallet_invoke_llm-fails}
use synapse_network_sdk.Tests.World.{world, client}

abbrev purchase : InvokeCall
purchase = record {
  service_id = "svc_weather";
  payload = none;
  positional = false;
  cost_usdc = some (amount 12000);
  max_cost_usdc = none;
  idempotency_key = some "job-1";
  response_mode = "sync";
  poll_timeout_sec = pos 90;
  request_id = none;
  allow_missing_cost_usdc = false;
}

abbrev wallet : AgentWallet
wallet = record { client = client; budget_usdc = 20000; spent_usdc = 0; trace = [] }

invoke-Booked_example : Booked world purchase wallet (invoke world purchase wallet)
invoke-Booked_example = invoke-Booked world purchase wallet

wallet_invoke_llm-fails_example :
    (e : Error) × (wallet_invoke_llm world "svc_llm" none none none (pos 90) none wallet
      ≡ (err e, wallet))
    × (asks_to_stream end ≡ false → e ≡ type_error (positional_message none))
wallet_invoke_llm-fails_example =
    wallet_invoke_llm-fails world "svc_llm" none none none (pos 90) none wallet

abbrev attempt : Rediscovery
attempt = record {
  service_id = "svc_weather";
  payload = none;
  query = none;
  tags = none;
  cost_usdc = amount 10000;
  max_rediscovery_retries = pos 1;
  idempotency_key = some "job-1";
  response_mode = "sync";
  poll_timeout_sec = pos 90;
  request_id = none;
}

-- Every invocation succeeds and charges nothing.
abbrev quiet_read : (k : Kind) → String → String → Value k → Fields → Option (Value k)
quiet_read Kind.text name alias d p = some (if str_eq name "status" then "SUCCEEDED" else d)
quiet_read Kind.integer name alias d p = some d
quiet_read Kind.number name alias d p = some d
quiet_read Kind.flag name alias d p = some d
quiet_read Kind.object name alias d p = some d
quiet_read Kind.objects name alias d p = some d
quiet_read Kind.names name alias d p = some d
quiet_read Kind.items name alias d p = some d
quiet_read Kind.anything name alias d p = some d
quiet_read Kind.mode name alias d p = some d
quiet_read (Kind.optional k) name alias d p = some d

abbrev quiet : Host
quiet = record world { read = quiet_read }

abbrev AnyAmount : Float → Type 0
AnyAmount x = Unit {0}

quiet_floats : FloatLaws quiet AnyAmount
quiet_floats = record {
  zero-IsAmount = tt;
  add-IsAmount = λ x y p q. tt;
  round_six-IsAmount = λ x p. tt;
  NotAbove-trans = λ x y z p q r h k. ground arith;
  add_mono = λ s x y p q r h. ground arith;
  round_six_mono = λ x y p q h. h;
}

abbrev charge_of : Option InvocationResponse → Float
charge_of none = 0
charge_of (some r) = r.charged_usdc

quiet_charge :
    (p : Fields) (r : InvocationResponse)
    → read_invocation_response quiet p ≡ some r
    → r.charged_usdc ≡ 0
unfolding read_invocation_response
quiet_charge p r e = ap charge_of (sym e)

free :
    (c : SynapseClient) (a : InvokeCall) (u : Trace) (r : InvocationResponse) (cost : Float)
    → (invoke_call quiet c a u).0 ≡ ok r
    → ltb cost r.charged_usdc ≡ false
free c a u r cost e =
    let answer =
      (settled quiet (invoke_call quiet c a u) r e (invoke_call-Settles quiet c a u)).1 in
    let nothing = quiet_charge (response_payload quiet answer.answer) r answer.read in ground arith

quiet_gateway : FairGateway quiet AnyAmount
quiet_gateway = record {
  charge-IsAmount = λ c a u r e. tt;
  charge_at_most = λ c a u r cost e k. free c a u r cost e;
}

invoke_all-WithinBudget_example :
    WithinBudget quiet AnyAmount (invoke_all quiet (purchase ∷ purchase ∷ []) wallet)
invoke_all-WithinBudget_example =
    invoke_all-WithinBudget quiet AnyAmount quiet_floats quiet_gateway (purchase ∷ purchase ∷ [])
      wallet ((λ cost e. tt), ((λ cost e. tt), tt))
      (record { budget-IsAmount = tt; spent-IsAmount = tt; within = refl })

abbrev calls : List WalletCall
calls = direct purchase ∷ rediscovery attempt ∷ direct purchase ∷ []

charges-Run_example :
    Run world calls
      (charges world calls wallet)
      (account wallet)
      (account (wallet_after world calls wallet))
charges-Run_example = charges-Run world calls wallet
