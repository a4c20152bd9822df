-- ===== src/Tests/Session.antt =====
-- An owner's session that makes calls of several kinds, in the small world.
use synapse_network_sdk.Base.{true, List, [], ◌∷◌, ◌≡◌}
use synapse_network_sdk.Base.Int.{pos}
use synapse_network_sdk.Runtime.Steps.{occurrences}
use synapse_network_sdk.Auth.Local.{Held, is_foreign}
use synapse_network_sdk.Provider.{Method}
use synapse_network_sdk.Session.{Operation}
use synapse_network_sdk.Session.Run.{run}
use synapse_network_sdk.Session.Keeps.{run-Kept}
use synapse_network_sdk.Tests.Auth.{auth_world, session}

abbrev program : List Operation
program =
    Operation.get_balance
    ∷ Operation.revoke_credential " cred_1 "
    ∷ Operation.provider (Method.list_withdrawals (pos 20))
    ∷ Operation.logout
    ∷ Operation.authenticate true
    ∷ []

run-Kept_example :
    let s' = run auth_world program session in
    (s'.wallet_address ≡ session.wallet_address)
    × (s'.gateway_url ≡ session.gateway_url)
    × (s'.timeout_sec ≡ session.timeout_sec)
    × (s'.signer ≡ session.signer)
    × Held s'.token
    × (occurrences (is_foreign session.gateway_url) s'.trace
        ≡ occurrences (is_foreign session.gateway_url) session.trace)
run-Kept_example = run-Kept auth_world program session tt
