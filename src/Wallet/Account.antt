-- ===== src/Wallet/Account.antt =====
-- What a wallet promises its owner, as an account that is charged or refuses, and that the calls of
-- `AgentWallet` are runs of this account.
use mathlib.Core.Path.{subst, subst₂}
use synapse_network_sdk.Base.{String, false, arith, ◌≡◌, sym, Option, none, some, List, [], ◌∷◌}
use synapse_network_sdk.Base.Int.{ℤ}
use synapse_network_sdk.Json.{Fields}
use synapse_network_sdk.Runtime.{Float, Result, ok, err, stalled, Action}
use synapse_network_sdk.Host.{Host}
use synapse_network_sdk.Models.Invocation.{InvocationResponse}
use synapse_network_sdk.Client.Invoke.{Cost, amount, written, InvokeCall}
use synapse_network_sdk.Client.Rediscovery.{Rediscovery}
use synapse_network_sdk.Wallet.{
  AgentWallet, cost_float, invoke, wallet_invoke_llm, wallet_invoke_with_rediscovery,
}
use synapse_network_sdk.Wallet.Booking.{Booked, invoke-Booked}
use synapse_network_sdk.Wallet.Inherited.{
  wallet_invoke_llm-fails, wallet_invoke_with_rediscovery-fails,
}

-- A call of a wallet that can be charged, with its arguments.
pub data WalletCall : Type 0 where
  direct : InvokeCall → WalletCall
  llm : String → Option Fields → Option Cost → Option String → ℤ → Option String → WalletCall
  rediscovery : Rediscovery → WalletCall

pub record Account : Type 0 where
  pub budget : Float
  pub spent : Float

abbrev pub account : AgentWallet → Account
account w = record { budget = w.budget_usdc; spent = w.spent_usdc }

-- What a call is charged, if it returns.
abbrev pub charge_of : Result InvocationResponse → Option Float
charge_of (ok r) = some r.charged_usdc
charge_of (err _) = none
charge_of stalled = none

module _ (H : Host) where
  -- The price that a caller asserts, as a number: a float, or a text that float() reads.
  abbrev pub price : Option Cost → Option Float
  price none = none
  price (some (amount x)) = some x
  price (some (written s)) = H.parse_float s

  -- The price of a call that a wallet can be charged for; the inherited calls never are.
  abbrev pub price_of : WalletCall → Option Float
  price_of (direct a) = price a.cost_usdc
  price_of (llm _ _ _ _ _ _) = none
  price_of (rediscovery _) = none

  -- A step of the account for a call: the call is refused or fails, and nothing moves; or it is
  -- charged, and then its own price is within the budget on top of the sum spent.
  pub data Step (c : WalletCall) : Option Float → Account → Account → Type 0 where
    unmoved : (x : Account) → Step c none x x
    charged :
        (x : Account) (asked charge : Float)
        → price_of c ≡ some asked
        → H.gt (H.add x.spent asked) x.budget ≡ false
        → Step c
            (some charge)
            x
            (record { budget = x.budget; spent = H.round_six (H.add x.spent charge) })

  -- Steps one after the other, by the calls and by what each was charged.
  pub data Run : List WalletCall → List (Option Float) → Account → Account → Type 0 where
    done : (x : Account) → Run [] [] x x
    next :
        {c : WalletCall} {cs : List WalletCall} {o : Option Float} {os : List (Option Float)}
        (x y z : Account)
        → Step c o x y
        → Run cs os y z
        → Run (c ∷ cs) (o ∷ os) x z

  unfoldable pub wallet_call : WalletCall → Action AgentWallet InvocationResponse
  unfolding invoke wallet_invoke_llm wallet_invoke_with_rediscovery
  wallet_call (direct a) = invoke H a
  wallet_call (llm service_id payload max_cost_usdc idempotency_key poll_timeout_sec request_id) =
      wallet_invoke_llm H service_id payload max_cost_usdc idempotency_key poll_timeout_sec
        request_id
  wallet_call (rediscovery a) = wallet_invoke_with_rediscovery H a

  -- a caller that makes the calls one by one and goes on after an exception
  unfoldable pub wallet_after : List WalletCall → AgentWallet → AgentWallet
  unfolding wallet_call
  wallet_after [] w = w
  wallet_after (c ∷ cs) w = wallet_after cs (wallet_call c w).1

  -- what each of the calls was charged
  unfoldable pub charges : List WalletCall → AgentWallet → List (Option Float)
  unfolding wallet_call
  charges [] w = []
  charges (c ∷ cs) w = charge_of (wallet_call c w).0 ∷ charges cs (wallet_call c w).1

  abbrev Stepped : WalletCall → AgentWallet → Result InvocationResponse × AgentWallet → Type 0
  Stepped c w p = Step c (charge_of p.0) (account w) (account p.1)

  still :
      (c : WalletCall) (w w' : AgentWallet)
      → w'.budget_usdc ≡ w.budget_usdc
      → w'.spent_usdc ≡ w.spent_usdc
      → Step c none (account w) (account w')
  still c w w' b s =
      subst₂ (λ x y. Step c none (account w) (record { budget = x; spent = y })) (sym b) (sym s)
        (unmoved (account w))

  -- What `float` makes of a price is the price's number.
  price-cost_float : (o : Option Cost) (x : Float) → cost_float H o ≡ ok x → price o ≡ some x
  unfolding cost_float
  price-cost_float none x h = cc
  price-cost_float (some (amount y)) x h = cc
  price-cost_float (some (written s)) x h = ground arith

  Booked-Stepped :
      (a : InvokeCall) (w : AgentWallet) (p : Result InvocationResponse × AgentWallet)
      → Booked H a w p
      → Stepped (direct a) w p
  Booked-Stepped a w (ok r, w') h =
      let (asked, afford) = h.0 in
      subst₂
        (λ x y.
          Step (direct a) (some r.charged_usdc) (account w) (record { budget = x; spent = y }))
        (sym h.2.0) (sym h.1)
        (charged (account w) asked r.charged_usdc (price-cost_float a.cost_usdc asked afford.0)
          afford.1)
  Booked-Stepped a w (err e, w') h = still (direct a) w w' h.1.0 h.0
  Booked-Stepped a w (stalled, w') h = still (direct a) w w' h.1.0 h.0

  wallet_call-Stepped : (c : WalletCall) (w : AgentWallet) → Stepped c w (wallet_call c w)
  unfolding wallet_call
  wallet_call-Stepped (direct a) w = Booked-Stepped a w (invoke H a w) (invoke-Booked H a w)
  wallet_call-Stepped (llm s p m i t r) w =
      let k = wallet_invoke_llm-fails H s p m i t r w in
      subst (Stepped (llm s p m i t r) w) (sym k.1) (unmoved (account w))
  wallet_call-Stepped (rediscovery a) w =
      subst (Stepped (rediscovery a) w) (sym (wallet_invoke_with_rediscovery-fails H a w))
        (unmoved (account w))

  -- However many calls of a wallet are made, of each of its three kinds and whether they return or
  -- raise, the budget and the sum spent move as the account's do: a call that raises moves nothing;
  -- one that returns is a call of invoke whose own price, on top of the sum spent, did not exceed
  -- the budget, and it adds its charge, rounded to six places.
  pub charges-Run :
      (calls : List WalletCall) (w : AgentWallet)
      → Run calls (charges calls w) (account w) (account (wallet_after calls w))
  unfolding charges wallet_after
  charges-Run [] w = done (account w)
  charges-Run (c ∷ cs) w =
      let w' = (wallet_call c w).1 in
      next (account w) (account w') (account (wallet_after cs w')) (wallet_call-Stepped c w)
        (charges-Run cs w')
