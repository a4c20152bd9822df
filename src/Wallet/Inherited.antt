-- ===== src/Wallet/Inherited.antt =====
-- The methods that `AgentWallet` inherits from `SynapseClient` and that call `self.invoke` with the
-- payload as a second positional argument, which `AgentWallet.invoke` does not take.
use synapse_network_sdk.Base.{
  String, none, some, false, ◌≡◌, refl, inl, inr, Option, or_else, Bool-cases,
}
use synapse_network_sdk.Base.Int.{ℤ}
use synapse_network_sdk.Json.{Fields, end}
use synapse_network_sdk.Runtime.{Error, type_error, invoke, err}
use synapse_network_sdk.Host.{Host}
use synapse_network_sdk.Client.Invoke.{Cost, asks_to_stream, streaming_message}
use synapse_network_sdk.Client.Rediscovery.{Rediscovery, recover, priced_call}
use synapse_network_sdk.Wallet.{
  AgentWallet, positional_message, wallet_invoke_llm, wallet_invoke_with_rediscovery,
}

-- No call of invoke_llm on a wallet succeeds: it raises, and the wallet and the history stay as
-- they were; unless it refuses a streaming payload, what it raises is Python's TypeError.
pub wallet_invoke_llm-fails :
    (H : Host) (service_id : String) (payload : Option Fields) (max_cost_usdc : Option Cost)
    (idempotency_key : Option String) (poll_timeout_sec : ℤ) (request_id : Option String)
    (w : AgentWallet)
    → (e : Error) × (wallet_invoke_llm H service_id payload max_cost_usdc idempotency_key
          poll_timeout_sec request_id w
        ≡ (err e, w))
      × (asks_to_stream (or_else payload end) ≡ false → e ≡ type_error (positional_message none))
unfolding wallet_invoke_llm
wallet_invoke_llm-fails H service_id payload max_cost_usdc idempotency_key poll_timeout_sec
      request_id w =
    elim (Bool-cases (asks_to_stream (or_else payload end))) [
      | inl stream ↦ (invoke streaming_message, rw stream, λ h. cc)
      | inr plain ↦ (type_error (positional_message none), rw plain, λ _. refl)
    ]

-- No call of invoke_with_rediscovery on a wallet succeeds: it raises Python's TypeError before any
-- request is sent, and changes nothing.
pub wallet_invoke_with_rediscovery-fails :
    (H : Host) (a : Rediscovery) (w : AgentWallet)
    → wallet_invoke_with_rediscovery H a w
      ≡ (err (type_error (positional_message (some a.cost_usdc))), w)
unfolding wallet_invoke_with_rediscovery recover priced_call
wallet_invoke_with_rediscovery-fails H a w = refl
