-- ===== src/Client/Discovery/Body.antt =====
-- The body of a discovery request.
use synapse_network_sdk.Base.{◌≡◌, some, [], arith, or_else}
use synapse_network_sdk.Json.{num, str, arr, get?, texts}
use synapse_network_sdk.Host.{Host}
use synapse_network_sdk.Client.Discovery.{Search, nonempty, search_body}

-- What the gateway finds in the body of a search: the filters, the page and its size, the order, and
-- the query if one is given that is not empty.
pub search_body_fields :
    (H : Host) (q : Search)
    → (get? "tags" (search_body H q) ≡ some (arr (texts (or_else q.tags []))))
      × (get? "page" (search_body H q) ≡ some (num (H.show_int q.page)))
      × (get? "pageSize" (search_body H q) ≡ some (num (H.show_int q.page_size)))
      × (get? "sort" (search_body H q) ≡ some (str q.sort))
      × (get? "query" (search_body H q) ≡ nonempty q.query)
unfolding search_body get?
search_body_fields H q = (ground arith, ground arith, ground arith, ground arith, ground arith)
