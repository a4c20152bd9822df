-- ===== src/Auth/Credentials.antt =====
-- python/synapse_client/_auth_credentials.py: the owner's agent credentials.
pub mod Calls
pub mod Bodies
pub mod Ensure
pub mod Local
use synapse_network_sdk.Base.{
  String, Bool, true, false, not, ◌&&◌, Option, none, some, or_else, List, [], ◌∷◌, str_eq,
  if◌then◌else◌,
}
use synapse_network_sdk.Strings.{◌+++◌, truthy, str_or, strip}
use synapse_network_sdk.Json.{
  Json, null, bool, num, str, arr, obj, Fields, end, field, get?, get, has_key, put, put_some,
  is_empty, as_dict, dict_or_empty, dicts,
}
use synapse_network_sdk.Runtime.{
  authentication, Result, ok, err, ◌>>=◌, pure, lift_result, Action, and_then, or_invalid,
}
use synapse_network_sdk.Host.{Host}
use synapse_network_sdk.Models.Readers.{each}
use synapse_network_sdk.Models.Credentials.{
  AgentCredential, read_agent_credential, no_credential, IssueCredentialResult,
  UpdateCredentialResult, CredentialStatusResult, read_credential_status_result,
  CredentialRevokeResult, read_credential_revoke_result, CredentialRotateResult,
  read_credential_rotate_result, CredentialDeleteResult, read_credential_delete_result,
  CredentialQuotaUpdateResult, read_credential_quota_update_result, CredentialAuditLogList,
  read_credential_audit_log_list,
}
use synapse_network_sdk.Client.Response.{str_of, str_or_else, json_truthy}
use synapse_network_sdk.Auth.{SynapseAuth, require_value, query_path, authorized_request}

-- `if source in options and target not in options: options[target] = options[source]`
unfoldable pub alias_option : String × String → Fields → Fields
unfolding has_key get put
alias_option (source, target) options =
    if has_key source options && not (has_key target options)
    then put target (get source options) options
    else options

unfoldable pub alias_options : List (String × String) → Fields → Fields
unfolding alias_option
alias_options [] options = options
alias_options (a ∷ aliases) options = alias_options aliases (alias_option a options)

-- `if value is not None: body[key] = value`, for the keys in their order
unfoldable pub put_given : String → Json → Fields → Fields
unfolding put
put_given key null body = body
put_given key (bool b) body = put key (bool b) body
put_given key (num n) body = put key (num n) body
put_given key (str s) body = put key (str s) body
put_given key (arr vs) body = put key (arr vs) body
put_given key (obj d) body = put key (obj d) body

unfoldable pub pick_options : List String → Fields → Fields → Fields
unfolding get put_given
pick_options [] options body = body
pick_options (key ∷ keys) options body =
    pick_options keys options (put_given key (get key options) body)

abbrev pub issue_aliases : List (String × String)
issue_aliases =
    ("max_calls", "maxCalls")
    ∷ ("credit_limit", "creditLimit")
    ∷ ("reset_interval", "resetInterval")
    ∷ ("expires_in_sec", "expiresInSec")
    ∷ []

abbrev pub issue_keys : List String
issue_keys =
    "name" ∷ "maxCalls" ∷ "creditLimit" ∷ "resetInterval" ∷ "rpm" ∷ "expiresInSec" ∷ "expiration"
    ∷ []

-- `_credential_options_body`
unfoldable pub credential_options_body : Fields → Fields
unfolding alias_options pick_options
credential_options_body options = pick_options issue_keys (alias_options issue_aliases options) end

abbrev pub quota_aliases : List (String × String)
quota_aliases =
    ("max_calls", "maxCalls")
    ∷ ("credit_limit", "creditLimit")
    ∷ ("reset_interval", "resetInterval")
    ∷ ("expires_at", "expiresAt")
    ∷ []

abbrev pub quota_keys : List String
quota_keys = "maxCalls" ∷ "rpm" ∷ "creditLimit" ∷ "resetInterval" ∷ "expiresAt" ∷ "expiration" ∷ []

-- the body of `update_credential_quota`
unfoldable pub quota_body : Fields → Fields
unfolding alias_options pick_options
quota_body options = pick_options quota_keys (alias_options quota_aliases options) end

-- the body of `update_credential`, which has no aliases
unfoldable pub update_body : Fields → Fields
unfolding pick_options
update_body options =
    pick_options
      ("name" ∷ "maxCalls" ∷ "rpm" ∷ "expiresAt" ∷ "creditLimit" ∷ "resetInterval" ∷ "expiration"
        ∷ [])
      options end

-- one step of `_apply_credential_defaults`
unfoldable pub put_default : String → String → Fields → Fields
unfolding truthy has_key put
put_default key value payload =
    if truthy value && not (has_key key payload) then put key (str value) payload else payload

-- `_apply_credential_defaults`
unfoldable pub apply_credential_defaults : Fields → String → String → Fields
unfolding put_default
apply_credential_defaults payload credential_id token =
    put_default "token" token
      (put_default "credential_id" credential_id (put_default "id" credential_id payload))

-- `cred.name` has the name
unfoldable pub is_named : String → AgentCredential → Bool
unfolding strip
is_named target c = str_eq (strip (or_else c.name "")) target

-- the loop of `_matching_active_credential`
unfoldable pub find_named : String → List AgentCredential → Option AgentCredential
unfolding is_named
find_named target [] = none
find_named target (c ∷ credentials) =
    if is_named target c then some c else find_named target credentials

module _ (H : Host) where
  -- `_first_text`
  unfoldable pub first_text : List Json → String
  unfolding strip str_or_else truthy
  first_text [] = ""
  first_text (v ∷ vs) =
      let text = strip (str_or_else H v "") in if truthy text then text else first_text vs

  unfoldable pub issued_token : Fields → Fields → String
  unfolding first_text get
  issued_token payload credential =
      first_text
        (get "token" payload ∷ get "credential_token" payload ∷ get "token" credential ∷ [])

  unfoldable pub issued_id : Fields → Fields → String
  unfolding first_text get
  issued_id payload credential = first_text (
      get "credential_id" payload
      ∷ get "id" payload
      ∷ get "credential_id" credential
      ∷ get "id" credential
      ∷ [])

  -- `_issued_credential_payload`
  unfoldable pub issued_credential_payload : Fields → Result (Fields × String)
  unfolding apply_credential_defaults issued_token issued_id get
  issued_credential_payload payload =
      let credential = dict_or_empty (get "credential" payload) in
      let token = issued_token payload credential in
      let complete = apply_credential_defaults credential (issued_id payload credential) token in
      if is_empty complete
      then err (authentication ("Credential payload missing: " +++ H.show_json (obj payload)))
      else ok (complete, token)

  -- `IssueCredentialResult(…)` from the gateway's answer
  unfoldable pub issued_credential : Fields → Result IssueCredentialResult
  unfolding issued_credential_payload str_or
  issued_credential payload = and_then (issued_credential_payload payload) (λ issued.
      and_then (or_invalid (read_agent_credential H issued.0)) (λ credential.
        ok (record { credential = credential; token = str_or credential.token issued.1 })))

  unfoldable pub issue_credential : Fields → Action SynapseAuth IssueCredentialResult
  unfolding credential_options_body authorized_request issued_credential
  issue_credential options = do
    payload ←
        authorized_request H "POST" "/api/v1/credentials/agent/issue"
          (some (obj (credential_options_body options)))
    lift_result (issued_credential payload)

  -- the credentials of an answer
  unfoldable pub listed_credentials : Fields → Result (List AgentCredential)
  unfolding get dicts
  listed_credentials payload = elim (get "credentials" payload) [
    | arr vs ↦ or_invalid (each (read_agent_credential H) (dicts vs))
    | other ↦ ok []
  ]

  unfoldable pub list_credentials : Action SynapseAuth (List AgentCredential)
  unfolding authorized_request listed_credentials
  list_credentials = do
    payload ← authorized_request H "GET" "/api/v1/credentials/agent/list" none
    lift_result (listed_credentials payload)

  unfoldable pub list_active_credentials : Action SynapseAuth (List AgentCredential)
  unfolding authorized_request listed_credentials query_path
  list_active_credentials = do
    payload ←
        authorized_request H "GET"
          (query_path H "/api/v1/credentials/agent/list" (field "active_only" (str "true") end))
          none
    lift_result (listed_credentials payload)
