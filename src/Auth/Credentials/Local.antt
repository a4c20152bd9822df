-- ===== src/Auth/Credentials/Local.antt =====
-- The calls of _auth_credentials.py keep what a session's calls keep.
use synapse_network_sdk.Base.{String, refl, Option, none, some}
use synapse_network_sdk.Base.Int.{ℤ}
use synapse_network_sdk.Strings.{◌+++◌, truthy, strip}
use synapse_network_sdk.Strings.Prefix.{starts_with, starts_with-longer}
use synapse_network_sdk.Json.{Json, num, str, obj, Fields, end, field}
use synapse_network_sdk.Host.{Host}
use synapse_network_sdk.Auth.{require_value, query_path}
use synapse_network_sdk.Auth.Local.{
  IsLocal, IsLocal-bind, IsLocal-lift, IsLocal-pure, IsLocal-if, IsLocal-authorized_request,
  IsLocal-asked, query_path-rooted,
}
use synapse_network_sdk.Models.Credentials.{AgentCredential}
use synapse_network_sdk.Auth.Credentials.{
  credential_options_body, quota_body, update_body, issue_credential, list_credentials,
  list_active_credentials,
}
use synapse_network_sdk.Auth.Credentials.Calls.{
  agent_path, credential_request, get_credential_status, check_credential_status, revoke_credential,
  rotate_credential, delete_credential, update_credential_quota, get_credential_audit_logs,
  update_credential, matching_active_credential, usable_token_for_credential, issue_named,
  ensure_from, ensure_credential,
}

module _ (H : Host) where
  pub IsLocal-issue_credential : (options : Fields) → IsLocal (issue_credential H options)
  unfolding issue_credential starts_with
  IsLocal-issue_credential options =
      IsLocal-asked H "POST" "/api/v1/credentials/agent/issue"
        (some (obj (credential_options_body options))) _ refl

  pub IsLocal-list_credentials : IsLocal (list_credentials H)
  unfolding list_credentials starts_with
  IsLocal-list_credentials = IsLocal-asked H "GET" "/api/v1/credentials/agent/list" none _ refl

  pub IsLocal-list_active_credentials : IsLocal (list_active_credentials H)
  unfolding list_active_credentials starts_with
  IsLocal-list_active_credentials =
      IsLocal-asked H "GET"
        (query_path H "/api/v1/credentials/agent/list" (field "active_only" (str "true") end)) none
        _
        (query_path-rooted H "/api/v1/credentials/agent/list" (field "active_only" (str "true") end)
          refl)

  -- A path that an identifier is put in.
  IsLocal-credential_request :
      (method credential_id rest : String) (body : Option Json)
      → IsLocal (credential_request H method credential_id rest body)
  unfolding credential_request starts_with
  IsLocal-credential_request method credential_id rest body =
      IsLocal-bind (IsLocal-lift (require_value credential_id "credential_id")) (λ id.
        IsLocal-authorized_request H method (agent_path +++ id +++ rest) body
          (starts_with-longer "/" agent_path (id +++ rest) refl))

  pub IsLocal-get_credential_status :
      (credential_id : String) → IsLocal (get_credential_status H credential_id)
  unfolding get_credential_status
  IsLocal-get_credential_status credential_id =
      IsLocal-bind (IsLocal-credential_request "GET" credential_id "/status" none)
        (λ p. IsLocal-lift _)

  pub IsLocal-check_credential_status :
      (credential_id : String) → IsLocal (check_credential_status H credential_id)
  unfolding check_credential_status
  IsLocal-check_credential_status = IsLocal-get_credential_status

  pub IsLocal-revoke_credential :
      (credential_id : String) → IsLocal (revoke_credential H credential_id)
  unfolding revoke_credential
  IsLocal-revoke_credential credential_id =
      IsLocal-bind (IsLocal-credential_request "POST" credential_id "/revoke" none)
        (λ p. IsLocal-lift _)

  pub IsLocal-rotate_credential :
      (credential_id : String) → IsLocal (rotate_credential H credential_id)
  unfolding rotate_credential
  IsLocal-rotate_credential credential_id =
      IsLocal-bind (IsLocal-credential_request "POST" credential_id "/rotate" none)
        (λ p. IsLocal-lift _)

  pub IsLocal-delete_credential :
      (credential_id : String) → IsLocal (delete_credential H credential_id)
  unfolding delete_credential
  IsLocal-delete_credential credential_id =
      IsLocal-bind (IsLocal-credential_request "DELETE" credential_id "" none) (λ p. IsLocal-lift _)

  pub IsLocal-update_credential_quota :
      (credential_id : String) (options : Fields)
      → IsLocal (update_credential_quota H credential_id options)
  unfolding update_credential_quota
  IsLocal-update_credential_quota credential_id options =
      IsLocal-bind
        (IsLocal-credential_request "PATCH" credential_id "/quota"
          (some (obj (quota_body options))))
        (λ p. IsLocal-lift _)

  pub IsLocal-update_credential :
      (credential_id : String) (options : Fields)
      → IsLocal (update_credential H credential_id options)
  unfolding update_credential
  IsLocal-update_credential credential_id options =
      IsLocal-bind
        (IsLocal-credential_request "PATCH" credential_id "" (some (obj (update_body options))))
        (λ p. IsLocal-lift _)

  pub IsLocal-get_credential_audit_logs : (limit : ℤ) → IsLocal (get_credential_audit_logs H limit)
  unfolding get_credential_audit_logs starts_with
  IsLocal-get_credential_audit_logs limit =
      IsLocal-asked H "GET"
        (query_path H "/api/v1/credentials/agent/audit-logs"
          (field "limit" (num (H.show_int limit)) end))
        none _
        (query_path-rooted H "/api/v1/credentials/agent/audit-logs"
          (field "limit" (num (H.show_int limit)) end) refl)

  IsLocal-matching_active_credential : (name : String) → IsLocal (matching_active_credential H name)
  unfolding matching_active_credential
  IsLocal-matching_active_credential name =
      IsLocal-bind IsLocal-list_active_credentials (λ cs. IsLocal-pure _)

  IsLocal-usable_token_for_credential :
      (c : AgentCredential) → IsLocal (usable_token_for_credential H c)
  unfolding usable_token_for_credential starts_with
  IsLocal-usable_token_for_credential c = IsLocal-if (truthy (strip c.token)) (IsLocal-pure _) (
      IsLocal-bind
        (IsLocal-authorized_request H "POST" (agent_path +++ c.credential_id +++ "/rotate") none
          (starts_with-longer "/" agent_path (c.credential_id +++ "/rotate") refl))
        (λ payload. IsLocal-pure _))

  IsLocal-issue_named : (name : String) (options : Fields) → IsLocal (issue_named H name options)
  unfolding issue_named
  IsLocal-issue_named name options =
      IsLocal-bind (IsLocal-issue_credential (field "name" (str name) options))
        (λ r. IsLocal-pure _)

  IsLocal-ensure_from :
      (name : String) (options : Fields) (c : Option AgentCredential)
      → IsLocal (ensure_from H name options c)
  unfolding ensure_from
  IsLocal-ensure_from name options none = IsLocal-issue_named name options
  IsLocal-ensure_from name options (some c) = IsLocal-usable_token_for_credential c

  pub IsLocal-ensure_credential :
      (name : String) (options : Fields) → IsLocal (ensure_credential H name options)
  unfolding ensure_credential
  IsLocal-ensure_credential name options =
      IsLocal-bind (IsLocal-matching_active_credential name) (IsLocal-ensure_from name options)
