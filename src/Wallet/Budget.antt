-- ===== src/Wallet/Budget.antt =====
-- The sum spent stays within the budget over any sequence of calls.
use synapse_network_sdk.Base.{false, ◌≡◌, sym, List, [], ◌∷◌, All}
use mathlib.Core.Path.{subst, subst₂}
use synapse_network_sdk.Runtime.{Float, Result, ok, err, stalled}
use synapse_network_sdk.Host.{Host, Trace}
use synapse_network_sdk.Models.Invocation.{InvocationResponse}
use synapse_network_sdk.Client.{SynapseClient}
use synapse_network_sdk.Client.Invoke.{InvokeCall, invoke_call}
use synapse_network_sdk.Wallet.{AgentWallet, cost_float, invoke}
use synapse_network_sdk.Wallet.Booking.{Booked, invoke-Booked}

module _ (H : Host) where
  -- `x <= y`, on values that can be compared
  abbrev pub NotAbove : Float → Float → Type 0
  NotAbove x y = H.gt x y ≡ false

  -- A caller that makes the calls one by one and goes on after an exception.
  pub invoke_all : List InvokeCall → AgentWallet → AgentWallet
  invoke_all [] w = w
  invoke_all (a ∷ calls) w = invoke_all calls (invoke H a w).1

  module _ (IsAmount : Float → Type 0) where
    -- What IEEE arithmetic gives on amounts: floats from 0.0 up, infinity with them, and no NaN.
    pub record FloatLaws : Type 0 where
      pub zero-IsAmount : IsAmount H.zero_float
      pub add-IsAmount : (x y : Float) → IsAmount x → IsAmount y → IsAmount (H.add x y)
      pub round_six-IsAmount : (x : Float) → IsAmount x → IsAmount (H.round_six x)
      pub NotAbove-trans :
          (x y z : Float)
          → IsAmount x
          → IsAmount y
          → IsAmount z
          → NotAbove x y
          → NotAbove y z
          → NotAbove x z
      pub add_mono :
          (s x y : Float)
          → IsAmount s
          → IsAmount x
          → IsAmount y
          → NotAbove x y
          → NotAbove (H.add s x) (H.add s y)
      pub round_six_mono :
          (x y : Float)
          → IsAmount x
          → IsAmount y
          → NotAbove x y
          → NotAbove (H.round_six x) (H.round_six y)

    -- What the price assertion promises: a charge is an amount, and no more than the price.
    pub record FairGateway : Type 0 where
      pub charge-IsAmount :
          (c : SynapseClient) (a : InvokeCall) (u : Trace) (r : InvocationResponse)
          → (invoke_call H c a u).0 ≡ ok r
          → IsAmount r.charged_usdc
      pub charge_at_most :
          (c : SynapseClient) (a : InvokeCall) (u : Trace) (r : InvocationResponse) (cost : Float)
          → (invoke_call H c a u).0 ≡ ok r
          → cost_float H a.cost_usdc ≡ ok cost
          → NotAbove r.charged_usdc cost

    -- A call whose price is an amount, if it is a number at all.
    abbrev pub HasAmount : InvokeCall → Type 0
    HasAmount a = (cost : Float) → cost_float H a.cost_usdc ≡ ok cost → IsAmount cost

    -- The sum spent is an amount and within the budget, as it is booked.
    pub record WithinBudget (w : AgentWallet) : Type 0 where
      pub budget-IsAmount : IsAmount w.budget_usdc
      pub spent-IsAmount : IsAmount w.spent_usdc
      pub within : NotAbove w.spent_usdc (H.round_six w.budget_usdc)

    unmoved-WithinBudget :
        (w w' : AgentWallet)
        → w'.spent_usdc ≡ w.spent_usdc
        → w'.budget_usdc ≡ w.budget_usdc
        → WithinBudget w
        → WithinBudget w'
    unmoved-WithinBudget w w' same kept v = record {
      budget-IsAmount = subst IsAmount (sym kept) v.budget-IsAmount;
      spent-IsAmount = subst IsAmount (sym same) v.spent-IsAmount;
      within = subst₂ (λ x y. NotAbove x (H.round_six y)) (sym same) (sym kept) v.within;
    }

    module _ (laws : FloatLaws) (fair : FairGateway) where
      Booked-WithinBudget :
          (a : InvokeCall) (w : AgentWallet) (m : Result InvocationResponse × AgentWallet)
          → HasAmount a
          → Booked H a w m
          → WithinBudget w
          → WithinBudget m.1
      Booked-WithinBudget a w (ok r, w') priced ((cost, (known, covered)), booked, kept, call) v =
          let spent = w.spent_usdc in
          let charge = r.charged_usdc in
          let charge-IsAmount = fair.charge-IsAmount w.client a w.trace r call in
          let cost-IsAmount = priced cost known in
          let charged = laws.add-IsAmount spent charge v.spent-IsAmount charge-IsAmount in
          let within_cost =
            laws.add_mono spent charge cost v.spent-IsAmount charge-IsAmount cost-IsAmount
              (fair.charge_at_most w.client a w.trace r cost call known) in
          let within_budget =
            laws.NotAbove-trans (H.add spent charge) (H.add spent cost) w.budget_usdc charged
              (laws.add-IsAmount spent cost v.spent-IsAmount cost-IsAmount) v.budget-IsAmount
              within_cost covered in
          record {
            budget-IsAmount = subst IsAmount (sym kept.0) v.budget-IsAmount;
            spent-IsAmount =
                subst IsAmount (sym booked) (laws.round_six-IsAmount (H.add spent charge) charged);
            within =
                subst₂ (λ x y. NotAbove x (H.round_six y)) (sym booked) (sym kept.0)
                  (laws.round_six_mono (H.add spent charge) w.budget_usdc charged v.budget-IsAmount
                    within_budget);
          }
      Booked-WithinBudget a w (err e, w') priced (same, kept) v =
          unmoved-WithinBudget w w' same kept.0 v
      Booked-WithinBudget a w (stalled, w') priced (same, kept) v =
          unmoved-WithinBudget w w' same kept.0 v

      invoke-WithinBudget :
          (a : InvokeCall) (w : AgentWallet)
          → HasAmount a
          → WithinBudget w
          → WithinBudget (invoke H a w).1
      invoke-WithinBudget a w priced v =
          Booked-WithinBudget a w (invoke H a w) priced (invoke-Booked H a w) v

      -- However many calls are made of a wallet whose sum spent is within its budget, whether they
      -- return or raise, the sum spent stays within the budget rounded to six places; given that
      -- the gateway charges no more than the asserted price, that budget and prices are amounts,
      -- and the laws of floats.
      pub invoke_all-WithinBudget :
          (calls : List InvokeCall) (w : AgentWallet)
          → All HasAmount calls
          → WithinBudget w
          → WithinBudget (invoke_all calls w)
      unfolding invoke_all
      invoke_all-WithinBudget [] w priced v = v
      invoke_all-WithinBudget (a ∷ calls) w (p, priced) v =
          invoke_all-WithinBudget calls (invoke H a w).1 priced (invoke-WithinBudget a w p v)
