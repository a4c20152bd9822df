-- ===== src/Tests/Rediscovery.antt =====
-- A price that has changed, in the small world.
use synapse_network_sdk.Base.{◌+◌, ◌≤◌, ◌≡◌, refl, none, some, [], true}
use synapse_network_sdk.Base.Int.{pos}
use synapse_network_sdk.Runtime.{stalled, Action}
use synapse_network_sdk.Runtime.Steps.{occurrences}
use synapse_network_sdk.Host.{Trace}
use synapse_network_sdk.Models.Invocation.{InvocationResponse}
use synapse_network_sdk.Models.Service.{DiscoveredService}
use synapse_network_sdk.Json.{end}
use synapse_network_sdk.Client.Invoke.{amount, InvokeCall, invoke_call}
use synapse_network_sdk.Client.Invoke.Posts.{is_invocation}
use synapse_network_sdk.Client.Rediscovery.{
  Rediscovery, invoke_with_rediscovery, client_search, client_invoke_with_rediscovery,
}
use synapse_network_sdk.Client.Rediscovery.Retries.{
  client_invoke_with_rediscovery_posts, rediscovery_retries,
}
use synapse_network_sdk.Tests.World.{world, client}

abbrev attempt : Rediscovery
attempt = record {
  service_id = "svc_weather";
  payload = none;
  query = none;
  tags = none;
  cost_usdc = amount 10000;
  max_rediscovery_retries = pos 3;
  idempotency_key = some "job-1";
  response_mode = "sync";
  poll_timeout_sec = pos 90;
  request_id = none;
}

client_invoke_with_rediscovery_posts_example :
    occurrences (is_invocation client) (client_invoke_with_rediscovery world client attempt []).1
    ≤ 2 + occurrences (is_invocation client) []
client_invoke_with_rediscovery_posts_example =
    client_invoke_with_rediscovery_posts world client attempt []

-- A gateway that is still busy with the first attempt.
abbrev refused : InvokeCall → Action Trace InvocationResponse
refused a u = (stalled, u)

rediscovery_retries_example :
    invoke_with_rediscovery world
      (invoke_call world client)
      (client_search world client attempt)
      attempt
      []
    ≡ invoke_with_rediscovery world
        (invoke_call world client)
        (client_search world client attempt)
        (record attempt { max_rediscovery_retries = pos 1 })
        []
rediscovery_retries_example =
    rediscovery_retries world (invoke_call world client) (client_search world client attempt)
      attempt 2 [] refl

abbrev pub listed : DiscoveredService
listed = record {
  service_id = "svc_weather";
  service_name = "Weather";
  service_kind = "api";
  price_model = "fixed";
  pricing = record {
    amount = "0.012";
    currency = "USDC";
    price_model = none;
    input_price_per_1m_tokens_usdc = none;
    output_price_per_1m_tokens_usdc = none;
    default_max_output_tokens = none;
    hold_buffer_multiplier = none;
    max_auto_hold_usdc = none;
  };
  input_price_per_1m_tokens_usdc = none;
  output_price_per_1m_tokens_usdc = none;
  default_max_output_tokens = none;
  max_auto_hold_usdc = none;
  summary = "";
  tags = [];
  status = "online";
  health = record {
    overall_status = "healthy";
    healthy_targets = pos 1;
    total_targets = pos 1;
    last_checked_at = none;
    runtime_available = true;
  };
  invoke = record {
    method = "POST";
    targets = [];
    timeout_ms = none;
    request = end;
    response = end;
    headers_template = end;
    examples = [];
  };
  quote_template = record {
    service_id = "svc_weather";
    input_preview = record {
      content_type = "application/json";
      payload_schema = record { body = end };
      sample = record { body = end };
    };
    response_mode = "sync";
  };
}
