-- ===== src/Models/Owner.antt =====
-- models.py and _control_result_models.py: the answers of the authentication endpoints.
use synapse_network_sdk.Base.{String, Bool, true, Option, none, some}
use synapse_network_sdk.Base.Int.{ℤ, pos}
use synapse_network_sdk.Json.{Fields}
use synapse_network_sdk.Host.{Host, Kind}
use synapse_network_sdk.Models.Readers.{
  ◌>>=◌, text_field, int_field, flag_field, dict_field, optional_text,
}

pub record ChallengeResponse : Type 0 where
  pub success : Bool
  pub challenge : String
  pub domain : String

unfoldable pub read_challenge_response : Host → Fields → Option ChallengeResponse
read_challenge_response H p = do
  success ← flag_field H "success" "success" true p
  challenge ← text_field H "challenge" "challenge" "" p
  domain ← text_field H "domain" "domain" "" p
  some (record { success = success; challenge = challenge; domain = domain })

pub record TokenResponse : Type 0 where
  pub success : Bool
  pub access_token : String
  pub token_type : String
  pub expires_in : ℤ

unfoldable pub read_token_response : Host → Fields → Option TokenResponse
read_token_response H p = do
  success ← flag_field H "success" "success" true p
  access_token ← text_field H "access_token" "access_token" "" p
  token_type ← text_field H "token_type" "token_type" "bearer" p
  expires_in ← int_field H "expires_in" "expires_in" (pos 0) p
  some (record {
    success = success;
    access_token = access_token;
    token_type = token_type;
    expires_in = expires_in;
  })

pub record AuthLogoutResult : Type 0 where
  pub status : String
  pub success : Option Bool

unfoldable pub read_auth_logout_result : Host → Fields → Option AuthLogoutResult
read_auth_logout_result H p = do
  status ← text_field H "status" "status" "success" p
  success ← H.read (Kind.optional Kind.flag) "success" "success" none p
  some (record { status = status; success = success })

pub record OwnerProfile : Type 0 where
  pub profile : Fields
  pub owner_address : Option String
  pub wallet_address : Option String

unfoldable pub read_owner_profile : Host → Fields → Option OwnerProfile
read_owner_profile H p = do
  profile ← dict_field H "profile" "profile" p
  owner_address ← optional_text H "owner_address" "ownerAddress" p
  wallet_address ← optional_text H "wallet_address" "walletAddress" p
  some
      (record { profile = profile; owner_address = owner_address; wallet_address = wallet_address })
