-- ===== src/Tests/Auth.antt =====
-- An owner's session in a small world: a gateway that gives one token for an hour and lists one
-- credential, whose token it does not tell.
use synapse_network_sdk.Base.{
  ◌+◌, ◌*◌, ◌≤◌, ◌<◌, ◌≡◌, refl, arith, String, true, false, Option, none, some, [], ◌∷◌, str_eq,
  if◌then◌else◌,
}
use synapse_network_sdk.Base.Int.{pos}
use synapse_network_sdk.Strings.{◌+++◌}
use synapse_network_sdk.Json.{Json, str, num, obj, arr, nil, cons, Fields, end, field, get?, get}
use synapse_network_sdk.Runtime.{ok}
use synapse_network_sdk.Host.{Host, Request, Reply, Trace, Kind, Value, ticked, second}
use synapse_network_sdk.Models.Credentials.{
  AgentCredential, no_credential, read_agent_credential, model_post_init,
}
use synapse_network_sdk.Models.Readers.{each}
use synapse_network_sdk.Auth.Credentials.Calls.{ensure_credential}
use synapse_network_sdk.Models.Owner.{
  AuthLogoutResult, read_challenge_response, read_token_response, read_auth_logout_result,
}
use synapse_network_sdk.Auth.{SynapseAuth, authenticate, logout, is_fresh, session_answer}
use synapse_network_sdk.Auth.Tokens.{
  Authenticated, authenticate-Authenticated, session_after, authenticate_again, requests,
  requests-authenticate, logout_forgets,
}
use synapse_network_sdk.Auth.Credentials.{
  list_active_credentials, update_body, apply_credential_defaults,
}
use synapse_network_sdk.Auth.Credentials.Bodies.{
  given, listed, updatable, update_body_fields, apply_credential_defaults_keeps,
}
use synapse_network_sdk.Client.Response.{response_payload}
use synapse_network_sdk.Auth.Credentials.Ensure.{Ensured, ensure_credential-Ensured}
use synapse_network_sdk.Tests.World.{world, reply, read_field}

abbrev answer : Trace → Request → Reply
answer u r =
    if str_eq r.method "GET"
    then reply 200 true (
        field "challenge" (str "sign me") (
          field "credentials"
            (arr (
              cons (obj (field "credential_id" (str "cred_1") (field "name" (str "agent") end)))
                nil))
            end))
    else reply 200 true (field "access_token" (str "tok") end)

abbrev text_or : Option Json → Option String → Option (Option String)
text_or (some (str s)) d = some (some s)
text_or _ d = some d

-- An hour for `expires_in`; optional texts are read.
abbrev read : (k : Kind) → String → String → Value k → Fields → Option (Value k)
read Kind.integer name alias d p = some (pos 3600)
read (Kind.optional Kind.text) name alias d p = text_or (get? alias p) d
read k name alias d p = read_field k name alias d p

abbrev pub auth_world : Host
auth_world = record world { respond = answer; read = read }

abbrev pub session : SynapseAuth
session = record {
  wallet_address = "0xabc";
  gateway_url = "https://gw";
  timeout_sec = pos 30;
  signer = λ m. ok ("signed " +++ m);
  token = none;
  token_expires_at = 0;
  trace = [];
}

authenticate-Authenticated_example :
    Authenticated auth_world session false (authenticate auth_world false session)
authenticate-Authenticated_example = authenticate-Authenticated auth_world false session

gives_token : (authenticate auth_world true session).0 ≡ ok "tok"
unfolding authenticate read_field get? session_answer read_challenge_response response_payload
    read_token_response
gives_token = refl

reads : auth_world.clock (session_after auth_world true session).trace ≡ 1003
unfolding authenticate read_field get? session_answer read_challenge_response response_payload
    read_token_response
reads = refl

expires : (session_after auth_world true session).token_expires_at ≡ 1000 + 3600 * second
unfolding authenticate read_field get? session_answer read_challenge_response response_payload
    read_token_response
expires = refl

lives :
    auth_world.clock (session_after auth_world true session).trace + 30 * second
    < (session_after auth_world true session).token_expires_at
lives = omega (arith, reads, expires)

authenticate_again_example :
    authenticate auth_world false (session_after auth_world true session) ≡ (
      ok "tok",
      record (session_after auth_world true session) {
        trace = ticked ∷ (session_after auth_world true session).trace;
      },
    )
authenticate_again_example = authenticate_again auth_world true session "tok" gives_token lives

requests-authenticate_example :
    requests (authenticate auth_world true session).1 ≤ 2 + requests session
requests-authenticate_example = requests-authenticate auth_world true session

abbrev logged_out : AuthLogoutResult
logged_out = record { status = "success"; success = none }

logs_out : (logout auth_world session).0 ≡ ok logged_out
unfolding logout read_field get? session_answer read_challenge_response response_payload
    read_token_response read_auth_logout_result
logs_out = refl

logout_forgets_example :
    ((logout auth_world session).1.token ≡ none)
    × (is_fresh (logout auth_world session).1 0 ≡ false)
logout_forgets_example = logout_forgets auth_world session logged_out 0 logs_out

abbrev options : Fields
options = field "name" (str "agent") (field "max_calls" (num "5") end)

name_given : get? "name" options ≡ some (str "agent")
unfolding get?
name_given = refl

update_body_fields_example :
    get? "maxCalls" (update_body options)
    ≡ (if listed "maxCalls" updatable then given (get "maxCalls" options) else none)
update_body_fields_example = update_body_fields options "maxCalls"

apply_credential_defaults_keeps_example :
    get? "name" (apply_credential_defaults options "cred_1" "tok") ≡ some (str "agent")
apply_credential_defaults_keeps_example =
    apply_credential_defaults_keeps options "cred_1" "tok" "name" (str "agent") (name_given)

abbrev agent : AgentCredential
agent = record no_credential { id = "cred_1"; credential_id = "cred_1"; name = some "agent" }

lists_agent : (list_active_credentials auth_world session).0 ≡ ok (agent ∷ [])
unfolding list_active_credentials read_field get? session_answer read_challenge_response
    response_payload read_token_response read_agent_credential each model_post_init
lists_agent = refl

ensure_credential-Ensured_example :
    Ensured auth_world " agent" end session
      (agent ∷ [])
      (ensure_credential auth_world " agent" end session)
ensure_credential-Ensured_example =
    ensure_credential-Ensured auth_world " agent" end session (agent ∷ []) lists_agent
