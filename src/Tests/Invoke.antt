-- ===== src/Tests/Invoke.antt =====
-- Invocations and searches in the small world.
use synapse_network_sdk.Base.{false, ◌+◌, ◌%◌, ◌≡◌, ◌≢◌, ◌↔◌, none, some, [], arith}
use synapse_network_sdk.Base.Int.{pos}
use synapse_network_sdk.Runtime.{stalled}
use synapse_network_sdk.Runtime.Steps.{occurrences}
use synapse_network_sdk.Client.Discovery.{Search, paged, page_size_of}
use synapse_network_sdk.Client.Discovery.Paging.{page_start, page_start_iff}
use synapse_network_sdk.Client.Polling.Settles.{Settles}
use synapse_network_sdk.Client.Invoke.{amount, InvokeCall, check_call, invoke_call}
use synapse_network_sdk.Client.Invoke.Outcome.{invoke_call-Settles, invoke_call-ends}
use synapse_network_sdk.Client.Invoke.Posts.{is_invocation, posts_allowed, invoke_call_posts}
use synapse_network_sdk.Tests.World.{world, client, world_clock}

abbrev purchase : InvokeCall
purchase = record {
  service_id = " svc_weather ";
  payload = none;
  positional = false;
  cost_usdc = some (amount 12000);
  max_cost_usdc = none;
  idempotency_key = some "job-1";
  response_mode = "sync";
  poll_timeout_sec = pos 90;
  request_id = none;
  allow_missing_cost_usdc = false;
}

invoke_call-Settles_example : Settles world (invoke_call world client purchase [])
invoke_call-Settles_example = invoke_call-Settles world client purchase []

invoke_call-ends_example : (invoke_call world client purchase []).0 ≢ stalled
invoke_call-ends_example = invoke_call-ends world client purchase 0 world_clock (omega arith) []

invoke_call_posts_example :
    occurrences (is_invocation client) (invoke_call world client purchase []).1
    ≡ posts_allowed world client purchase (check_call purchase)
      + occurrences (is_invocation client) []
invoke_call_posts_example = invoke_call_posts world client purchase []

abbrev query : Search
query = paged (some "weather") (pos 10) (pos 25) none none

page_start_iff_example : (page_start (pos 10) 25 ≡ 25) ↔ (25 % page_size_of (pos 10) ≡ 0)
page_start_iff_example = page_start_iff (pos 10) 25
