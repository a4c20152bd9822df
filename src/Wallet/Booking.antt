-- ===== src/Wallet/Booking.antt =====
-- What one call of `AgentWallet.invoke` does to the wallet.
use synapse_network_sdk.Base.{false, ◌≡◌, arith}
use synapse_network_sdk.Runtime.{Float, Result, ok, err, stalled}
use synapse_network_sdk.Host.{Host}
use synapse_network_sdk.Models.Invocation.{InvocationResponse}
use synapse_network_sdk.Client.Invoke.{InvokeCall, invoke_call}
use synapse_network_sdk.Wallet.{AgentWallet, cost_float, invoke}

-- The wallet's budget and client never change.
abbrev pub Keeps : AgentWallet → AgentWallet → Type 0
Keeps w w' = (w'.budget_usdc ≡ w.budget_usdc) × (w'.client ≡ w.client)

module _ (H : Host) (a : InvokeCall) (w : AgentWallet) where
  abbrev pub Affordable : Float → Type 0
  Affordable cost =
      (cost_float H a.cost_usdc ≡ ok cost) × (H.gt (H.add w.spent_usdc cost) w.budget_usdc ≡ false)

  -- A result is booked, at a price that the budget covered; nothing else moves the sum spent.
  abbrev pub Booked : Result InvocationResponse × AgentWallet → Type 0
  Booked (ok r, w') =
      ((cost : Float) × Affordable cost)
      × (w'.spent_usdc ≡ H.round_six (H.add w.spent_usdc r.charged_usdc))
      × Keeps w w'
      × ((invoke_call H w.client a w.trace).0 ≡ ok r)
  Booked (err e, w') = (w'.spent_usdc ≡ w.spent_usdc) × Keeps w w'
  Booked (stalled, w') = (w'.spent_usdc ≡ w.spent_usdc) × Keeps w w'

  -- A call of AgentWallet.invoke that returns had a price that did not exceed the budget left, and
  -- adds the charge to the sum spent, rounded to six places; one that raises leaves that sum
  -- alone; and no call touches the budget or the client.
  pub invoke-Booked : Booked (invoke H a w)
  unfolding invoke
  invoke-Booked = ground arith
