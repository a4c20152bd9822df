-- ===== src/Auth/Credentials/Bodies.antt =====
-- What the gateway finds in the bodies of the credential calls, and what their defaults keep.
use synapse_network_sdk.Base.{
  String, Bool, true, false, not, ◌&&◌, ◌||◌, ◌≡◌, refl, Option, none, some, List, [], ◌∷◌, str_eq,
  arith, eq_iff, if◌then◌else◌,
}
use synapse_network_sdk.Json.{Json, null, bool, num, str, arr, obj, Fields, end, get?, get, has_key}
use synapse_network_sdk.Json.Laws.{get?-put}
use synapse_network_sdk.Auth.Credentials.{
  alias_option, alias_options, issue_aliases, quota_aliases, issue_keys, quota_keys, put_given,
  pick_options, credential_options_body, quota_body, update_body, put_default,
  apply_credential_defaults,
}

-- A value that is not `None`.
abbrev pub given : Json → Option Json
given null = none
given (bool b) = some (bool b)
given (num n) = some (num n)
given (str s) = some (str s)
given (arr vs) = some (arr vs)
given (obj d) = some (obj d)

-- The option under its key, or under its alias where the key is missing.
abbrev pub option_of : String → String → Fields → Json
option_of key alias options = if has_key key options then get key options else get alias options

abbrev either : Option Json → Option Json → Option Json
either none o = o
either (some v) o = some v

get?-put_given :
    (k j : String) (v : Json) (d : Fields)
    → get? j (put_given k v d) ≡ (if str_eq k j then either (given v) (get? j d) else get? j d)
unfolding put_given
get?-put_given k j null d = ground arith
get?-put_given k j (bool b) d = get?-put k j (bool b) d
get?-put_given k j (num n) d = get?-put k j (num n) d
get?-put_given k j (str s) d = get?-put k j (str s) d
get?-put_given k j (arr vs) d = get?-put k j (arr vs) d
get?-put_given k j (obj e) d = get?-put k j (obj e) d

get-alias_option :
    (source target j : String) (d : Fields)
    → get j (alias_option (source, target) d)
      ≡ (if str_eq target j then option_of target source d else get j d)
unfolding alias_option get has_key
get-alias_option source target j d =
    ground (arith, get?-put target j (get source d) d, eq_iff target j)

has_key-alias_option :
    (source target j : String) (d : Fields)
    → has_key j (alias_option (source, target) d) ≡ (
        if str_eq target j
        then (if has_key target d then true else has_key source d)
        else has_key j d)
unfolding alias_option has_key get
has_key-alias_option source target j d =
    ground (arith, get?-put target j (get source d) d, eq_iff target j)

-- The key is in a list.
abbrev pub listed : String → List String → Bool
listed j [] = false
listed j (k ∷ keys) = str_eq k j || listed j keys

get?-pick_options :
    (j : String) (keys : List String) (options body : Fields)
    → get? j (pick_options keys options body)
      ≡ (if listed j keys then either (given (get j options)) (get? j body) else get? j body)
unfolding pick_options
get?-pick_options j [] options body = refl
get?-pick_options j (k ∷ keys) options body =
    let v = get k options in
    let later = get?-pick_options j keys options (put_given k v body) in
    ground (arith, later, get?-put_given k j v body, eq_iff k j)

picked :
    (j : String) (keys : List String) (options : Fields)
    → get? j (pick_options keys options end)
      ≡ (if listed j keys then given (get j options) else none)
unfolding get?
picked j keys options = ground (arith, get?-pick_options j keys options end)

-- The key is no target of the aliases; is a source of one.
abbrev missed : String → List (String × String) → Bool
missed j [] = true
missed j ((s, t) ∷ aliases) = not (str_eq t j) && missed j aliases

abbrev is_source : String → List (String × String) → Bool
is_source j [] = false
is_source j ((s, t) ∷ aliases) = str_eq j s || is_source j aliases

-- No alias reads or writes what an earlier one wrote.
abbrev separate : List (String × String) → Bool
separate [] = true
separate ((s, t) ∷ aliases) = missed t aliases && not (is_source t aliases) && separate aliases

-- The option of a key, by the alias that the key has.
abbrev aliased : List (String × String) → String → Fields → Json
aliased [] j d = get j d
aliased ((s, t) ∷ aliases) j d = if str_eq t j then option_of j s d else aliased aliases j d

untouched :
    (j : String) (aliases : List (String × String)) (d : Fields)
    → missed j aliases ≡ true
    → get j (alias_options aliases d) ≡ get j d
unfolding alias_options
untouched j [] d h = refl
untouched j ((s, t) ∷ aliases) d h =
    ground (arith, untouched j aliases (alias_option (s, t) d), get-alias_option s t j d)

aliased-alias_option :
    (j s t : String) (aliases : List (String × String)) (d : Fields)
    → str_eq t j ≡ false
    → is_source t aliases ≡ false
    → aliased aliases j (alias_option (s, t) d) ≡ aliased aliases j d
aliased-alias_option j s t [] d apart unread = ground (arith, get-alias_option s t j d)
aliased-alias_option j s t ((s', t') ∷ aliases) d apart unread = ground (
  arith,
  get-alias_option s t j d,
  get-alias_option s t s' d,
  has_key-alias_option s t j d,
  aliased-alias_option j s t aliases d,
)

get-alias_options :
    (j : String) (aliases : List (String × String)) (d : Fields)
    → separate aliases ≡ true
    → get j (alias_options aliases d) ≡ aliased aliases j d
unfolding alias_options
get-alias_options j [] d h = refl
get-alias_options j ((s, t) ∷ aliases) d h = ground (
  arith,
  eq_iff t j,
  untouched j aliases (alias_option (s, t) d),
  get-alias_option s t j d,
  get-alias_options j aliases (alias_option (s, t) d),
  aliased-alias_option j s t aliases d,
)

-- The body of a new credential holds each option under the gateway's name, the Python name standing in
-- where the gateway's name is missing from the options; an option that is None is left out.
pub credential_options_body_fields :
    (options : Fields)
    → (get? "name" (credential_options_body options) ≡ given (get "name" options))
      × (get? "maxCalls" (credential_options_body options)
          ≡ given (option_of "maxCalls" "max_calls" options))
      × (get? "creditLimit" (credential_options_body options)
          ≡ given (option_of "creditLimit" "credit_limit" options))
      × (get? "resetInterval" (credential_options_body options)
          ≡ given (option_of "resetInterval" "reset_interval" options))
      × (get? "expiresInSec" (credential_options_body options)
          ≡ given (option_of "expiresInSec" "expires_in_sec" options))
      × (get? "rpm" (credential_options_body options) ≡ given (get "rpm" options))
      × (get? "expiration" (credential_options_body options) ≡ given (get "expiration" options))
unfolding credential_options_body
credential_options_body_fields options = (
  bodied "name",
  bodied "maxCalls",
  bodied "creditLimit",
  bodied "resetInterval",
  bodied "expiresInSec",
  bodied "rpm",
  bodied "expiration",
)
  where
    bodied :
        (j : String)
        → get? j (credential_options_body options)
          ≡ (if listed j issue_keys then given (aliased issue_aliases j options) else none)
    bodied j =
        rw
          (
            picked j issue_keys (alias_options issue_aliases options),
            get-alias_options j issue_aliases options refl,
          )
          refl

-- The body of a quota update holds each quota under the gateway's name, the Python name standing in
-- where the gateway's name is missing from the options; an option that is None is left out.
pub quota_body_fields :
    (options : Fields)
    → (get? "maxCalls" (quota_body options) ≡ given (option_of "maxCalls" "max_calls" options))
      × (get? "creditLimit" (quota_body options)
          ≡ given (option_of "creditLimit" "credit_limit" options))
      × (get? "resetInterval" (quota_body options)
          ≡ given (option_of "resetInterval" "reset_interval" options))
      × (get? "expiresAt" (quota_body options) ≡ given (option_of "expiresAt" "expires_at" options))
      × (get? "rpm" (quota_body options) ≡ given (get "rpm" options))
      × (get? "expiration" (quota_body options) ≡ given (get "expiration" options))
unfolding quota_body
quota_body_fields options = (
  bodied "maxCalls",
  bodied "creditLimit",
  bodied "resetInterval",
  bodied "expiresAt",
  bodied "rpm",
  bodied "expiration",
)
  where
    bodied :
        (j : String)
        → get? j (quota_body options)
          ≡ (if listed j quota_keys then given (aliased quota_aliases j options) else none)
    bodied j =
        rw
          (
            picked j quota_keys (alias_options quota_aliases options),
            get-alias_options j quota_aliases options refl,
          )
          refl

-- The names under which the gateway knows what can be updated.
abbrev pub updatable : List String
updatable =
    "name" ∷ "maxCalls" ∷ "rpm" ∷ "expiresAt" ∷ "creditLimit" ∷ "resetInterval" ∷ "expiration" ∷ []

-- Unlike a quota update, update_credential takes no Python name: under each of the gateway's seven
-- names the body has the option of that very name, if it is not None, and under any other key, as
-- the Python names max_calls, credit_limit, reset_interval and expires_at, it has nothing.
pub update_body_fields :
    (options : Fields) (j : String)
    → get? j (update_body options) ≡ (if listed j updatable then given (get j options) else none)
unfolding update_body
update_body_fields options j = picked j updatable options

put_default_keeps :
    (key value k : String) (v : Json) (d : Fields)
    → get? k d ≡ some v
    → get? k (put_default key value d) ≡ some v
unfolding put_default has_key
put_default_keeps key value k v d h = ground (arith, get?-put key k (str value) d, eq_iff key k)

-- Completing a credential's payload never changes a field that the gateway sent.
pub apply_credential_defaults_keeps :
    (payload : Fields) (id token k : String) (v : Json)
    → get? k payload ≡ some v
    → get? k (apply_credential_defaults payload id token) ≡ some v
unfolding apply_credential_defaults
apply_credential_defaults_keeps payload id token k v h =
    put_default_keeps "token" token k v
      (put_default "credential_id" id (put_default "id" id payload))
      (put_default_keeps "credential_id" id k v (put_default "id" id payload)
        (put_default_keeps "id" id k v payload h))
