-- ===== src/Client/Invoke/Body.antt =====
-- The request of an invocation.
use synapse_network_sdk.Base.{String, ◌≡◌, some, arith, or_else}
use synapse_network_sdk.Strings.{strip}
use synapse_network_sdk.Json.{str, obj, end, field, get?}
use synapse_network_sdk.Host.{Host}
use synapse_network_sdk.Client.Invoke.{InvokeCall, cost_value, cost_text_value, invoke_body}

-- What the gateway finds in the body of an invocation: the stripped service id, the idempotency key,
-- the payload under "body", the response mode, the asserted price if one is given, and the spend cap
-- as a text if one is given.
pub invoke_body_fields :
    (H : Host) (a : InvokeCall) (key : String)
    → (get? "serviceId" (invoke_body H a key) ≡ some (str (strip a.service_id)))
      × (get? "idempotencyKey" (invoke_body H a key) ≡ some (str key))
      × (get? "payload" (invoke_body H a key)
          ≡ some (obj (field "body" (obj (or_else a.payload end)) end)))
      × (get? "responseMode" (invoke_body H a key) ≡ some (str a.response_mode))
      × (get? "costUsdc" (invoke_body H a key) ≡ cost_value H a.cost_usdc)
      × (get? "maxCostUsdc" (invoke_body H a key) ≡ cost_text_value H a.max_cost_usdc)
unfolding invoke_body get?
invoke_body_fields H a key =
    (ground arith, ground arith, ground arith, ground arith, ground arith, ground arith)
