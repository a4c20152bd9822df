-- ===== src/Auth/Credentials/Calls.antt =====
-- _auth_credentials.py: the calls that name a credential, the audit logs, and `ensure_credential`.
use synapse_network_sdk.Base.{String, Option, none, some, [], ◌∷◌, if◌then◌else◌}
use synapse_network_sdk.Base.Int.{ℤ}
use synapse_network_sdk.Strings.{◌+++◌, truthy, str_or, strip}
use synapse_network_sdk.Json.{
  Json, num, str, obj, Fields, end, field, get?, get, is_empty, dict_or_empty,
}
use synapse_network_sdk.Runtime.{Result, ok, ◌>>=◌, pure, lift_result, Action, and_then, or_invalid}
use synapse_network_sdk.Host.{Host}
use synapse_network_sdk.Models.Credentials.{
  AgentCredential, read_agent_credential, no_credential, UpdateCredentialResult,
  CredentialStatusResult, read_credential_status_result, CredentialRevokeResult,
  read_credential_revoke_result, CredentialRotateResult, read_credential_rotate_result,
  CredentialDeleteResult, read_credential_delete_result, CredentialQuotaUpdateResult,
  read_credential_quota_update_result, CredentialAuditLogList, read_credential_audit_log_list,
}
use synapse_network_sdk.Client.Response.{str_of}
use synapse_network_sdk.Auth.{SynapseAuth, require_value, query_path, authorized_request}
use synapse_network_sdk.Auth.Credentials.{
  quota_body, update_body, find_named, first_text, issue_credential, list_active_credentials,
}

abbrev pub agent_path : String
agent_path = "/api/v1/credentials/agent/"

module _ (H : Host) where
  -- A call that requires the credential's identifier, and asks under a path that it is put in.
  unfoldable pub credential_request :
      String → String → String → Option Json → Action SynapseAuth Fields
  unfolding require_value authorized_request
  credential_request method credential_id rest body = do
    id ← lift_result (require_value credential_id "credential_id")
    authorized_request H method (agent_path +++ id +++ rest) body

  unfoldable pub get_credential_status : String → Action SynapseAuth CredentialStatusResult
  unfolding credential_request
  get_credential_status credential_id = do
    payload ← credential_request "GET" credential_id "/status" none
    lift_result (or_invalid (read_credential_status_result H payload))

  unfoldable pub check_credential_status : String → Action SynapseAuth CredentialStatusResult
  unfolding get_credential_status
  check_credential_status credential_id = get_credential_status credential_id

  unfoldable pub revoke_credential : String → Action SynapseAuth CredentialRevokeResult
  unfolding credential_request
  revoke_credential credential_id = do
    payload ← credential_request "POST" credential_id "/revoke" none
    lift_result (or_invalid (read_credential_revoke_result H payload))

  unfoldable pub rotate_credential : String → Action SynapseAuth CredentialRotateResult
  unfolding credential_request
  rotate_credential credential_id = do
    payload ← credential_request "POST" credential_id "/rotate" none
    lift_result (or_invalid (read_credential_rotate_result H payload))

  unfoldable pub delete_credential : String → Action SynapseAuth CredentialDeleteResult
  unfolding credential_request
  delete_credential credential_id = do
    payload ← credential_request "DELETE" credential_id "" none
    lift_result (or_invalid (read_credential_delete_result H payload))

  unfoldable pub update_credential_quota :
      String → Fields → Action SynapseAuth CredentialQuotaUpdateResult
  unfolding credential_request quota_body
  update_credential_quota credential_id options = do
    payload ← credential_request "PATCH" credential_id "/quota" (some (obj (quota_body options)))
    lift_result (or_invalid (read_credential_quota_update_result H payload))

  unfoldable pub get_credential_audit_logs : ℤ → Action SynapseAuth CredentialAuditLogList
  unfolding authorized_request query_path
  get_credential_audit_logs limit = do
    payload ←
        authorized_request H "GET"
          (query_path H "/api/v1/credentials/agent/audit-logs"
            (field "limit" (num (H.show_int limit)) end))
          none
    lift_result (or_invalid (read_credential_audit_log_list H payload))

  -- `payload.get("status", "success")`, as a text
  unfoldable pub status_text : Fields → String
  unfolding get? str_of
  status_text payload = elim (get? "status" payload) [ none ↦ "success" | some v ↦ str_of H v ]

  -- the answer of `update_credential`
  unfoldable pub updated_credential : Fields → Result UpdateCredentialResult
  unfolding get status_text
  updated_credential payload =
      let credential = dict_or_empty (get "credential" payload) in
      and_then
        (if is_empty credential
          then ok no_credential
          else or_invalid (read_agent_credential H credential))
        (λ c. ok (record { status = status_text payload; credential = c }))

  unfoldable pub update_credential : String → Fields → Action SynapseAuth UpdateCredentialResult
  unfolding credential_request update_body updated_credential
  update_credential credential_id options = do
    payload ← credential_request "PATCH" credential_id "" (some (obj (update_body options)))
    lift_result (updated_credential payload)

  -- `_matching_active_credential`
  unfoldable pub matching_active_credential : String → Action SynapseAuth (Option AgentCredential)
  unfolding list_active_credentials find_named strip
  matching_active_credential name = do
    credentials ← list_active_credentials H
    pure (find_named (strip name) credentials)

  -- the token of an answer to a rotation
  unfoldable pub rotated_token : Fields → String
  unfolding first_text get
  rotated_token payload =
      first_text H
        (get "token" payload ∷ get "token" (dict_or_empty (get "credential" payload)) ∷ [])

  -- `_usable_token_for_credential`
  unfoldable pub usable_token_for_credential : AgentCredential → Action SynapseAuth String
  unfolding strip truthy authorized_request rotated_token
  usable_token_for_credential c =
      let rotate = (do
        payload ← authorized_request H "POST" (agent_path +++ c.credential_id +++ "/rotate") none
        pure (rotated_token payload)) in
      if truthy (strip c.token) then pure (strip c.token) else rotate

  -- `issue_credential(name=name, **options)`, and the token of its result
  unfoldable pub issue_named : String → Fields → Action SynapseAuth String
  unfolding issue_credential str_or
  issue_named name options = do
    result ← issue_credential H (field "name" (str name) options)
    pure (str_or result.token result.credential.token)

  unfoldable pub ensure_from : String → Fields → Option AgentCredential → Action SynapseAuth String
  unfolding usable_token_for_credential issue_named
  ensure_from name options none = issue_named name options
  ensure_from name options (some c) = usable_token_for_credential c

  unfoldable pub ensure_credential : String → Fields → Action SynapseAuth String
  unfolding matching_active_credential ensure_from
  ensure_credential name options = matching_active_credential name >>= ensure_from name options
