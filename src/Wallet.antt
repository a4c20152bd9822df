-- ===== src/Wallet.antt =====
-- python/synapse_client/wallet.py, `class AgentWallet`: a client with a local budget.
pub mod Booking
pub mod Budget
pub mod Inherited
pub mod Account
use synapse_network_sdk.Base.{
  String, Bool, true, false, Option, none, some, List, [], ◌∷◌, if◌then◌else◌,
}
use synapse_network_sdk.Base.Int.{ℤ, pos}
use synapse_network_sdk.Strings.{◌+++◌}
use synapse_network_sdk.Json.{Fields}
use synapse_network_sdk.Runtime.{
  Float, insufficient_funds, value_error, type_error, Result, ok, err, ◌>>=◌, ◌>>◌, pure, raise,
  raise_if, lift_result, Action, and_then,
}
use synapse_network_sdk.Host.{Host, Trace}
use synapse_network_sdk.Models.Service.{DiscoveredService}
use synapse_network_sdk.Models.Invocation.{InvocationResponse}
use synapse_network_sdk.Client.{SynapseClient, new_client, resolve_agent_key}
use synapse_network_sdk.Client.Discovery.{search}
use synapse_network_sdk.Client.Invoke.{Cost, amount, written, InvokeCall, invoke_call, invoke_llm}
use synapse_network_sdk.Client.Rediscovery.{Rediscovery, invoke_with_rediscovery}

-- The wallet's own fields, those of its client, and the history.
pub record AgentWallet : Type 0 where
  pub client : SynapseClient
  pub budget_usdc : Float
  pub spent_usdc : Float
  pub trace : Trace

-- A method of the client, called through the wallet.
unfoldable pub through_client : {A : Type 0} → Action Trace A → Action AgentWallet A
through_client m w = let (r, tr) = m w.trace in (r, record w { trace = tr })

-- Python's message for a payload that is passed by position, without or with the keyword cost_usdc:
-- invoke_llm leaves that keyword out, and its others are none of the signature's.
abbrev pub positional_message : Option Cost → String
positional_message none = "AgentWallet.invoke() takes 2 positional arguments but 3 were given"
positional_message (some _) =
    "AgentWallet.invoke() takes 2 positional arguments but 3 positional arguments (and 1 keyword-only argument) were given"

module _ (H : Host) where
  -- `AgentWallet.__init__`; keywords reach `SynapseClient.__init__`
  unfoldable pub new_wallet :
      Float → Option String → Option String → Option String → ℤ → Trace → Result AgentWallet
  new_wallet budget api_key gateway_url environment timeout_sec tr =
      and_then (new_client H api_key gateway_url environment timeout_sec) (λ c.
        ok (record { client = c; budget_usdc = budget; spent_usdc = H.zero_float; trace = tr }))

  -- `AgentWallet.connect`
  unfoldable pub connect :
      Float → Option String → Option String → Option String → Trace → Result AgentWallet
  unfolding new_wallet
  connect budget api_key gateway_url environment tr =
      new_wallet budget (some (resolve_agent_key H api_key)) gateway_url environment (pos 30) tr

  -- `remaining_usdc`
  unfoldable pub remaining_usdc : AgentWallet → Float
  remaining_usdc w = H.round_six (H.sub w.budget_usdc w.spent_usdc)

  -- `float(cost_usdc)`
  unfoldable pub cost_float : Option Cost → Result Float
  cost_float none = err (type_error "float() argument must be a string or a real number")
  cost_float (some (amount x)) = ok x
  cost_float (some (written s)) = elim (H.parse_float s) [
    | none ↦ err (value_error "could not convert string to float")
    | some x ↦ ok x
  ]

  unfoldable pub budget_message : AgentWallet → Float → String
  budget_message w cost =
      "Budget exceeded: $"
      +++ H.fixed_four w.spent_usdc
      +++ " spent + $"
      +++ H.fixed_four cost
      +++ " cost > $"
      +++ H.fixed_four w.budget_usdc
      +++ " budget"

  -- `self._spent_usdc = round(self._spent_usdc + float(result.charged_usdc), 6)`
  unfoldable pub book_charge : InvocationResponse → Action AgentWallet InvocationResponse
  book_charge result w =
      (ok result, record w { spent_usdc = H.round_six (H.add w.spent_usdc result.charged_usdc) })

  -- `AgentWallet.invoke` behind its signature: the payload is a keyword
  unfoldable pub invoke_keywords : InvokeCall → Action AgentWallet InvocationResponse
  unfolding cost_float budget_message through_client book_charge
  invoke_keywords a w =
      (do
        cost ← lift_result (cost_float a.cost_usdc)
        raise_if (H.gt (H.add w.spent_usdc cost) w.budget_usdc)
            (insufficient_funds (budget_message w cost))
        result ← through_client (invoke_call H w.client a)
        book_charge result)
        w

  -- `AgentWallet.invoke(self, service_id, *, payload=None, …)`: Python refuses a payload that is
  -- passed by position before the body runs
  unfoldable pub invoke : InvokeCall → Action AgentWallet InvocationResponse
  unfolding invoke_keywords
  invoke a =
      if a.positional
      then raise (type_error (positional_message a.cost_usdc))
      else invoke_keywords a

  -- the methods that the wallet inherits and that call `self.invoke`
  unfoldable pub wallet_invoke_llm :
      String
      → Option Fields
      → Option Cost
      → Option String
      → ℤ
      → Option String
      → Action AgentWallet InvocationResponse
  unfolding invoke_llm invoke
  wallet_invoke_llm = invoke_llm invoke

  unfoldable pub wallet_search : Rediscovery → String → Action AgentWallet (List DiscoveredService)
  unfolding through_client search
  wallet_search a query w =
      through_client (search H w.client query (pos 10) (pos 0) a.tags a.request_id) w

  unfoldable pub wallet_invoke_with_rediscovery :
      Rediscovery → Action AgentWallet InvocationResponse
  unfolding invoke_with_rediscovery invoke wallet_search
  wallet_invoke_with_rediscovery a = invoke_with_rediscovery H invoke (wallet_search a) a
