-- ===== src/Tests/Provider.antt =====
-- A registration that states no price for what a model reads.
use synapse_network_sdk.Base.{true, refl, inl, inr, none, some, []}
use synapse_network_sdk.Base.Int.{pos}
use synapse_network_sdk.Runtime.{ok}
use synapse_network_sdk.Auth.{SynapseAuth}
use synapse_network_sdk.Auth.Provider.{
  Registration, resolved_price_model, register_provider_service,
}
use synapse_network_sdk.Auth.Provider.Checks.{
  Incomplete, Refused, register_provider_service-Refused,
}
use synapse_network_sdk.Tests.World.{world}

abbrev owner : SynapseAuth
owner = record {
  wallet_address = "0xabc";
  gateway_url = "https://gw";
  timeout_sec = pos 30;
  signer = λ m. ok m;
  token = none;
  token_expires_at = 0;
  trace = [];
}

abbrev unpriced : Registration
unpriced = record {
  service_name = "Chat";
  endpoint_url = "https://chat";
  base_price_usdc = none;
  description_for_model = "Chat with a model.";
  service_kind = "llm";
  price_model = none;
  input_price_per_1m_tokens_usdc = none;
  output_price_per_1m_tokens_usdc = none;
  default_max_output_tokens = none;
  hold_buffer_multiplier = none;
  max_auto_hold_usdc = none;
  service_id = some "svc_chat";
  provider_display_name = none;
  payout_address = none;
  chain_id = pos 31337;
  settlement_currency = "USDC";
  tags = none;
  status = "active";
  is_active = true;
  input_schema = none;
  output_schema = none;
  endpoint_method = "POST";
  health_path = "/health";
  health_method = "GET";
  health_timeout_ms = pos 3000;
  request_timeout_ms = pos 15000;
  governance_note = none;
}

unpriced-Incomplete : Incomplete unpriced
unfolding resolved_price_model
unpriced-Incomplete = inr (inl (refl, inl refl))

register_provider_service-Refused_example :
    Refused world owner (register_provider_service world unpriced owner)
register_provider_service-Refused_example =
    register_provider_service-Refused world unpriced owner unpriced-Incomplete
