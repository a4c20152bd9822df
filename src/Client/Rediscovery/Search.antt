-- ===== src/Client/Rediscovery/Search.antt =====
-- The live price that is read from the discovered services.
use synapse_network_sdk.Base.{String, false, ◌≡◌, refl, List, [], ◌∷◌, str_eq, All, eq_refl, ◌++◌}
use synapse_network_sdk.Runtime.{Float, ok}
use synapse_network_sdk.Host.{Host}
use synapse_network_sdk.Models.Service.{DiscoveredService, price_usdc}
use synapse_network_sdk.Client.Rediscovery.{price_or, find_price}

-- The services do not list the id.
abbrev pub Unlisted : String → List DiscoveredService → Type 0
Unlisted id = All (λ s. str_eq s.service_id id ≡ false)

-- The rediscovered price is that of the first listed service with the id, or the fallback where
-- that service has no price; with no such service in the list it is the fallback.
pub find_price_lem :
    (H : Host) (fallback_price : Float) (before : List DiscoveredService) (s : DiscoveredService)
    (after : List DiscoveredService)
    → Unlisted s.service_id before
    → (find_price H s.service_id fallback_price before ≡ ok fallback_price)
      × (find_price H s.service_id fallback_price (before ++ s ∷ after)
          ≡ price_or H (price_usdc H s) fallback_price)
unfolding find_price
find_price_lem H fallback_price [] s after h = (refl, rw eq_refl)
find_price_lem H fallback_price (t ∷ before) s after (other, h) =
    rw other (find_price_lem H fallback_price before s after h)
