-- ===== src/Models/Credentials.antt =====
-- models.py and _control_result_models.py: agent credentials, and the answers of their endpoints.
use synapse_network_sdk.Base.{
  String, Bool, false, not, ◌&&◌, Option, none, some, List, if◌then◌else◌,
}
use synapse_network_sdk.Base.Int.{ℤ}
use synapse_network_sdk.Strings.{truthy}
use synapse_network_sdk.Json.{Json, Fields}
use synapse_network_sdk.Runtime.{Float}
use synapse_network_sdk.Host.{Host}
use synapse_network_sdk.Models.Readers.{
  ◌>>=◌, nested, text_field, flag_field, dicts_field, optional_text, optional_int, optional_float,
  optional_dict, optional_any,
}

pub record AgentCredential : Type 0 where
  pub id : String
  pub credential_id : String
  pub token : String
  pub name : Option String
  pub max_calls : Option ℤ
  pub rpm : Option ℤ
  pub credit_limit : Option Float
  pub reset_interval : Option String
  pub expires_at : Option ℤ
  pub status : String
  pub created_at : Option Json

-- `model_post_init`: either identifier stands in for the other
unfoldable pub model_post_init : AgentCredential → AgentCredential
unfolding truthy
model_post_init c =
    if not (truthy c.credential_id) && truthy c.id
    then record c { credential_id = c.id }
    else if not (truthy c.id) && truthy c.credential_id
    then record c { id = c.credential_id }
    else c

-- `AgentCredential()`
abbrev pub no_credential : AgentCredential
no_credential = record {
  id = "";
  credential_id = "";
  token = "";
  name = none;
  max_calls = none;
  rpm = none;
  credit_limit = none;
  reset_interval = none;
  expires_at = none;
  status = "active";
  created_at = none;
}

unfoldable pub read_agent_credential : Host → Fields → Option AgentCredential
read_agent_credential H p = do
  id ← text_field H "id" "id" "" p
  credential_id ← text_field H "credential_id" "credential_id" "" p
  token ← text_field H "token" "token" "" p
  name ← optional_text H "name" "name" p
  max_calls ← optional_int H "max_calls" "maxCalls" p
  rpm ← optional_int H "rpm" "rpm" p
  credit_limit ← optional_float H "credit_limit" "creditLimit" p
  reset_interval ← optional_text H "reset_interval" "resetInterval" p
  expires_at ← optional_int H "expires_at" "expiresAt" p
  status ← text_field H "status" "status" "active" p
  created_at ← optional_any H "created_at" "createdAt" p
  some (
      model_post_init (record {
        id = id;
        credential_id = credential_id;
        token = token;
        name = name;
        max_calls = max_calls;
        rpm = rpm;
        credit_limit = credit_limit;
        reset_interval = reset_interval;
        expires_at = expires_at;
        status = status;
        created_at = created_at;
      }))

pub record IssueCredentialResult : Type 0 where
  pub credential : AgentCredential
  pub token : String

pub record UpdateCredentialResult : Type 0 where
  pub status : String
  pub credential : AgentCredential

pub record CredentialStatusResult : Type 0 where
  pub status : String
  pub credential_id : String
  pub valid : Bool
  pub credential_status : String
  pub is_expired : Bool
  pub calls_exhausted : Bool
  pub expires_at : Option ℤ
  pub calls_used : Option ℤ
  pub max_calls : Option ℤ
  pub credit_limit : Option Float

unfoldable pub read_credential_status_result : Host → Fields → Option CredentialStatusResult
read_credential_status_result H p = do
  status ← text_field H "status" "status" "success" p
  credential_id ← text_field H "credential_id" "credentialId" "" p
  valid ← flag_field H "valid" "valid" false p
  credential_status ← text_field H "credential_status" "credentialStatus" "active" p
  is_expired ← flag_field H "is_expired" "isExpired" false p
  calls_exhausted ← flag_field H "calls_exhausted" "callsExhausted" false p
  expires_at ← optional_int H "expires_at" "expiresAt" p
  calls_used ← optional_int H "calls_used" "callsUsed" p
  max_calls ← optional_int H "max_calls" "maxCalls" p
  credit_limit ← optional_float H "credit_limit" "creditLimit" p
  some (record {
    status = status;
    credential_id = credential_id;
    valid = valid;
    credential_status = credential_status;
    is_expired = is_expired;
    calls_exhausted = calls_exhausted;
    expires_at = expires_at;
    calls_used = calls_used;
    max_calls = max_calls;
    credit_limit = credit_limit;
  })

pub record CredentialRevokeResult : Type 0 where
  pub status : String
  pub credential_id : String
  pub credential : Option AgentCredential

unfoldable pub read_credential_revoke_result : Host → Fields → Option CredentialRevokeResult
read_credential_revoke_result H p = do
  status ← text_field H "status" "status" "success" p
  credential_id ← text_field H "credential_id" "credentialId" "" p
  credential_fields ← optional_dict H "credential" "credential" p
  credential ← nested (read_agent_credential H) credential_fields
  some (record { status = status; credential_id = credential_id; credential = credential })

pub record CredentialRotateResult : Type 0 where
  pub status : String
  pub credential_id : String
  pub token : String
  pub credential : Option AgentCredential

unfoldable pub read_credential_rotate_result : Host → Fields → Option CredentialRotateResult
read_credential_rotate_result H p = do
  status ← text_field H "status" "status" "success" p
  credential_id ← text_field H "credential_id" "credentialId" "" p
  token ← text_field H "token" "token" "" p
  credential_fields ← optional_dict H "credential" "credential" p
  credential ← nested (read_agent_credential H) credential_fields
  some (record {
    status = status;
    credential_id = credential_id;
    token = token;
    credential = credential;
  })

pub record CredentialDeleteResult : Type 0 where
  pub status : String
  pub credential_id : String

unfoldable pub read_credential_delete_result : Host → Fields → Option CredentialDeleteResult
read_credential_delete_result H p = do
  status ← text_field H "status" "status" "success" p
  credential_id ← text_field H "credential_id" "credentialId" "" p
  some (record { status = status; credential_id = credential_id })

pub record CredentialQuotaUpdateResult : Type 0 where
  pub status : String
  pub credential_id : String
  pub credential : Option AgentCredential

unfoldable pub read_credential_quota_update_result :
    Host → Fields → Option CredentialQuotaUpdateResult
read_credential_quota_update_result H p = do
  status ← text_field H "status" "status" "success" p
  credential_id ← text_field H "credential_id" "credentialId" "" p
  credential_fields ← optional_dict H "credential" "credential" p
  credential ← nested (read_agent_credential H) credential_fields
  some (record { status = status; credential_id = credential_id; credential = credential })

pub record CredentialAuditLogList : Type 0 where
  pub logs : List Fields

unfoldable pub read_credential_audit_log_list : Host → Fields → Option CredentialAuditLogList
read_credential_audit_log_list H p = do
  logs ← dicts_field H "logs" "logs" p
  some (record { logs = logs })
