-- ===== src/Client/Rediscovery.antt =====
-- client.py, `invoke_with_rediscovery`: an invocation that is repeated once, at the live price,
-- where the gateway refuses the asserted one.
pub mod Search
pub mod Retries
use synapse_network_sdk.Base.{
  zero, suc, ℕ, String, Bool, true, false, not, Option, none, some, List, [], ◌∷◌, or_else, str_eq,
  if◌then◌else◌,
}
use synapse_network_sdk.Base.Int.{ℤ, pos, negsuc}
use synapse_network_sdk.Strings.{str_or}
use synapse_network_sdk.Json.{Fields}
use synapse_network_sdk.Runtime.{
  Float, Error, price_mismatch, value_error, Result, ok, err, stalled, ◌>>=◌, ◌>>◌, pure, raise,
  raise_if, lift_result, Action, and_then,
}
use synapse_network_sdk.Host.{Host, Trace}
use synapse_network_sdk.Models.Service.{DiscoveredService, price_usdc}
use synapse_network_sdk.Models.Invocation.{InvocationResponse}
use synapse_network_sdk.Client.{SynapseClient}
use synapse_network_sdk.Client.Discovery.{search}
use synapse_network_sdk.Client.Invoke.{invoke_call, Cost, amount, InvokeCall}

-- The arguments of `invoke_with_rediscovery`.
pub record Rediscovery : Type 0 where
  pub service_id : String
  pub payload : Option Fields
  pub query : Option String
  pub tags : Option (List String)
  pub cost_usdc : Cost
  pub max_rediscovery_retries : ℤ
  pub idempotency_key : Option String
  pub response_mode : String
  pub poll_timeout_sec : ℤ
  pub request_id : Option String

-- Both calls of `self.invoke` pass the payload by position, and differ in the price alone.
unfoldable pub priced_call : Rediscovery → Cost → InvokeCall
priced_call a cost = record {
  service_id = a.service_id;
  payload = a.payload;
  positional = true;
  cost_usdc = some cost;
  max_cost_usdc = none;
  idempotency_key = a.idempotency_key;
  response_mode = a.response_mode;
  poll_timeout_sec = a.poll_timeout_sec;
  request_id = a.request_id;
  allow_missing_cost_usdc = false;
}

-- `n <= 0`
abbrev pub not_positive : ℤ → Bool
not_positive (pos zero) = true
not_positive (pos (suc n)) = false
not_positive (negsuc _) = true

module _ (H : Host) where
  -- `float(service.price_usdc)`, or the fallback where there is no price
  unfoldable pub price_or : Option String → Float → Result Float
  price_or none fallback_price = ok fallback_price
  price_or (some d) fallback_price = elim (H.decimal_float d) [
    | none ↦ err (value_error "cannot convert to float")
    | some x ↦ ok x
  ]

  -- the loop of `_rediscovered_price`; `serviceId` is `service_id` by another name
  unfoldable pub find_price : String → Float → List DiscoveredService → Result Float
  unfolding price_or price_usdc
  find_price service_id fallback_price [] = ok fallback_price
  find_price service_id fallback_price (s ∷ services) =
      if str_eq s.service_id service_id
      then price_or (price_usdc H s) fallback_price
      else find_price service_id fallback_price services

  module _ {S : Type 0} where
    -- `_rediscovered_price`, whose search is `self.search` with a limit of 10
    unfoldable pub rediscovered_price :
        (String → Action S (List DiscoveredService)) → Rediscovery → Float → Action S Float
    unfolding str_or
    rediscovered_price self_search a fallback_price = do
      services ← self_search (str_or (or_else a.query "") a.service_id)
      lift_result (find_price a.service_id fallback_price services)

    -- the second attempt, unless the live price is 0 or less
    unfoldable pub retry_at :
        (InvokeCall → Action S InvocationResponse)
        → Rediscovery
        → Error
        → Float
        → Action S InvocationResponse
    unfolding priced_call
    retry_at self_invoke a exc live_price =
        if H.at_most_zero live_price
        then raise exc
        else self_invoke (priced_call a (amount live_price))

    -- the `except PriceMismatchError` clause
    unfoldable pub on_mismatch :
        (InvokeCall → Action S InvocationResponse)
        → (String → Action S (List DiscoveredService))
        → Rediscovery
        → Error
        → Float
        → Action S InvocationResponse
    on_mismatch self_invoke self_search a exc current =
        let fallback_price = if H.is_zero current then H.zero_float else current in
        let again =
          rediscovered_price self_search a fallback_price >>= retry_at self_invoke a exc in
        if not_positive a.max_rediscovery_retries then raise exc else again

    -- what the first attempt ended with
    unfoldable pub recover :
        (InvokeCall → Action S InvocationResponse)
        → (String → Action S (List DiscoveredService))
        → Rediscovery
        → Result InvocationResponse
        → Action S InvocationResponse
    recover self_invoke self_search a (ok r) = pure r
    recover self_invoke self_search a (err e) = elim e [
      | price_mismatch m expected current ↦
          on_mismatch self_invoke self_search a (price_mismatch m expected current) current
      | other ↦ raise other
    ]
    recover self_invoke self_search a stalled = λ s. (stalled, s)

    unfoldable pub invoke_with_rediscovery :
        (InvokeCall → Action S InvocationResponse)
        → (String → Action S (List DiscoveredService))
        → Rediscovery
        → Action S InvocationResponse
    invoke_with_rediscovery self_invoke self_search a s =
        let (r, s') = self_invoke (priced_call a a.cost_usdc) s in
        recover self_invoke self_search a r s'

-- The methods of a `SynapseClient`, where `self` is the client.
unfoldable pub client_search :
    Host → SynapseClient → Rediscovery → String → Action Trace (List DiscoveredService)
unfolding search
client_search H c a query = search H c query (pos 10) (pos 0) a.tags a.request_id

unfoldable pub client_invoke_with_rediscovery :
    Host → SynapseClient → Rediscovery → Action Trace InvocationResponse
unfolding invoke_with_rediscovery
client_invoke_with_rediscovery H c a =
    invoke_with_rediscovery H (invoke_call H c) (client_search H c a) a
