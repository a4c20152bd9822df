-- ===== src/Client/Discovery.antt =====
-- client.py, `search_services` to `search`: discovery, and its pages.
pub mod Paging
pub mod Body
use synapse_network_sdk.Base.{
  ℕ, ◌+◌, String, Option, none, some, List, [], ◌∷◌, or_else, if◌then◌else◌,
}
use synapse_network_sdk.Base.Int.{ℤ, pos, at_least_one, floor_div, succ}
use synapse_network_sdk.Strings.{truthy}
use synapse_network_sdk.Json.{Json, num, str, arr, obj, Fields, end, put, put_some, texts}
use synapse_network_sdk.Runtime.{
  Result, and_then, discovery, ◌>>=◌, ◌>>◌, pure, lift_result, Action, or_invalid,
}
use synapse_network_sdk.Host.{Host, Request, Response, Trace, send}
use synapse_network_sdk.Models.Service.{
  DiscoveryResponse, DiscoveredService, read_discovery_response,
}
use synapse_network_sdk.Client.{SynapseClient, post_request}
use synapse_network_sdk.Client.Response.{response_payload, raise_for_error}

-- The keyword arguments of `search_services`.
pub record Search : Type 0 where
  pub query : Option String
  pub tags : Option (List String)
  pub page : ℤ
  pub page_size : ℤ
  pub sort : String
  pub request_id : Option String

-- `if query: …`
abbrev pub nonempty : Option String → Option Json
nonempty none = none
nonempty (some s) = if truthy s then some (str s) else none

-- `page_size = max(1, limit)` and `page = max(1, offset // page_size + 1)`
unfoldable pub page_size_of : ℤ → ℕ
page_size_of limit = at_least_one limit

unfoldable pub page_of : ℤ → ℤ → ℕ
unfolding page_size_of
page_of limit offset = at_least_one (succ (floor_div offset (page_size_of limit)))

-- the page that `discover` and `search` ask for
unfoldable pub paged : Option String → ℤ → ℤ → Option (List String) → Option String → Search
unfolding page_of page_size_of
paged query limit offset tags request_id = record {
  query = query;
  tags = tags;
  page = pos (page_of limit offset);
  page_size = pos (page_size_of limit);
  sort = "best_match";
  request_id = request_id;
}

-- `explain_discovery_empty_result`
unfoldable pub explain_discovery_empty_result : Option String → Option (List String) → Fields
unfolding put texts
explain_discovery_empty_result query tags =
    put "suggestions"
      (arr (
        texts (
          "Retry with a broader query and no tags."
          ∷ "Confirm SYNAPSE_ENV / gateway_url matches the provider registration environment."
          ∷ "Ask the provider owner to verify service status and health history." ∷ [])))
      (put "possibleReasons"
        (arr (
          texts (
            "No provider service matched the current discovery filters."
            ∷ "The matching provider may be inactive, unhealthy, or not yet registered in this environment."
            ∷ "The agent credential may target a different environment than the provider service."
            ∷ [])))
        (put "tags" (arr (texts (or_else tags []))) (put "query" (str (or_else query "")) end)))

module _ (H : Host) where
  -- the body that `search_services` posts
  unfoldable pub search_body : Search → Fields
  unfolding put put_some texts truthy
  search_body q = put_some "query" (nonempty q.query) (
      put "sort" (str q.sort) (
        put "pageSize" (num (H.show_int q.page_size)) (
          put "page" (num (H.show_int q.page)) (put "tags" (arr (texts (or_else q.tags []))) end))))

  -- the response to a search, as the SDK's exception or as the model
  unfoldable pub read_discovery : Response → Result DiscoveryResponse
  read_discovery r =
      and_then (raise_for_error H r (discovery "service discovery failed"))
        (λ _. or_invalid (read_discovery_response H (response_payload H r)))

  -- the request of a search
  unfoldable pub search_request : SynapseClient → Search → Request
  unfolding post_request
  search_request c q =
      post_request c "/api/v1/agent/discovery/search" q.request_id (obj (search_body q))

  unfoldable pub search_services : SynapseClient → Search → Action Trace DiscoveryResponse
  unfolding send
  search_services c q = do r ← send H (search_request c q); lift_result (read_discovery r)

  -- `discover_services`
  unfoldable pub discover_services : SynapseClient → Search → Action Trace DiscoveryResponse
  unfolding search_services
  discover_services c q = search_services c q

  unfoldable pub discover :
      SynapseClient
      → ℤ
      → ℤ
      → Option (List String)
      → Option String
      → Action Trace (List DiscoveredService)
  unfolding search_services paged
  discover c limit offset tags request_id = do
    response ← search_services c (paged none limit offset tags request_id)
    pure response.results

  unfoldable pub search :
      SynapseClient
      → String
      → ℤ
      → ℤ
      → Option (List String)
      → Option String
      → Action Trace (List DiscoveredService)
  unfolding search_services paged
  search c query limit offset tags request_id = do
    response ← search_services c (paged (some query) limit offset tags request_id)
    pure response.results
