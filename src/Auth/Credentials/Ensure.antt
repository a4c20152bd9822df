-- ===== src/Auth/Credentials/Ensure.antt =====
-- `ensure_credential`: which credential it takes, and what it does with it.
use synapse_network_sdk.Base.{
  String, true, false, ◌≡◌, sym, refl, ◌≢◌, ◌⊎◌, inl, inr, Option, none, some, or_else, List, [],
  ◌∷◌, ◌++◌, All, Bool-cases, eq_iff,
}
use mathlib.Core.Path.{subst}
use synapse_network_sdk.Strings.{◌+++◌, truthy, strip}
use synapse_network_sdk.Json.{Fields}
use synapse_network_sdk.Runtime.{Result, ok, pure, ◌>>=◌, Action}
use synapse_network_sdk.Runtime.Steps.{bind_assoc}
use synapse_network_sdk.Host.{Host}
use synapse_network_sdk.Models.Credentials.{AgentCredential}
use synapse_network_sdk.Auth.{SynapseAuth, authorized_request}
use synapse_network_sdk.Auth.Credentials.{is_named, find_named, list_active_credentials}
use synapse_network_sdk.Auth.Credentials.Calls.{
  agent_path, rotated_token, matching_active_credential, usable_token_for_credential, issue_named,
  ensure_from, ensure_credential,
}

-- The name of a credential, without blanks around it; a missing name is empty.
abbrev pub name_of : AgentCredential → String
name_of c = strip (or_else c.name "")

-- The first of the credentials that has a name.
pub record IsFirst (target : String) (c : AgentCredential) (cs : List AgentCredential)
    : Type 0 where
  pub before : List AgentCredential
  pub after : List AgentCredential
  pub listed : cs ≡ before ++ c ∷ after
  pub others : All (λ b. name_of b ≢ target) before
  pub named : name_of c ≡ target

-- What a search by name finds: the first that has it, or nothing where none has.
abbrev Found : String → List AgentCredential → Option AgentCredential → Type 0
Found target cs none = All (λ b. name_of b ≢ target) cs
Found target cs (some c) = IsFirst target c cs

cons-Found :
    (target : String) (b : AgentCredential) (cs : List AgentCredential) (o : Option AgentCredential)
    → name_of b ≢ target
    → Found target cs o
    → Found target (b ∷ cs) o
cons-Found target b cs none other h = (other, h)
cons-Found target b cs (some c) other h = record {
  before = b ∷ h.before;
  after = h.after;
  listed = rw h.listed refl;
  others = (other, h.others);
  named = h.named;
}

distinct : (target : String) (b : AgentCredential) → is_named target b ≡ false → name_of b ≢ target
unfolding is_named
distinct target b other same =
    let yes : is_named target b ≡ true = (eq_iff (name_of b) target).1 same in cc

find_named-Found :
    (target : String) (cs : List AgentCredential) → Found target cs (find_named target cs)
unfolding find_named is_named
find_named-Found target [] = tt
find_named-Found target (b ∷ cs) = elim (Bool-cases (is_named target b)) [
  | inl named ↦
      rw (find_named, named)
        (record {
          before = [];
          after = cs;
          listed = refl;
          others = tt;
          named = (eq_iff (name_of b) target).0 named;
        })
  | inr other ↦
      rw (find_named, other)
        (cons-Found target b cs (find_named target cs) (λ same. distinct target b other same)
          (find_named-Found target cs))
]

module _ (H : Host) (name : String) (options : Fields) (s : SynapseAuth) where
  -- The session with the listing of the active credentials behind it.
  abbrev pub listed_session : SynapseAuth
  listed_session = (list_active_credentials H s).1

  -- The request that rotates a credential, and the token of its answer.
  abbrev pub rotate : AgentCredential → Action SynapseAuth String
  rotate c =
      authorized_request H "POST" (agent_path +++ c.credential_id +++ "/rotate") none >>= λ payload.
      pure (rotated_token H payload)

  -- What ensure_credential does behind the listing.
  abbrev pub Ensured : List AgentCredential → Result String × SynapseAuth → Type 0
  Ensured cs p =
      ((c : AgentCredential) × IsFirst (strip name) c cs
        × (((truthy (strip c.token) ≡ true) × (p ≡ (ok (strip c.token), listed_session)))
            ⊎ ((truthy (strip c.token) ≡ false) × (p ≡ rotate c listed_session))))
      ⊎ (All (λ b. name_of b ≢ strip name) cs × (p ≡ issue_named H name options listed_session))

  ensure_from-Ensured :
      (cs : List AgentCredential) (o : Option AgentCredential)
      → Found (strip name) cs o
      → Ensured cs (ensure_from H name options o listed_session)
  unfolding ensure_from usable_token_for_credential
  ensure_from-Ensured cs none h = inr (h, refl)
  ensure_from-Ensured cs (some c) h = elim (Bool-cases (truthy (strip c.token))) [
    | inl given ↦ inl (c, h, inl (given, rw given refl))
    | inr blank ↦ inl (c, h, inr (blank, rw blank refl))
  ]

  -- Once the active credentials are listed, ensure_credential takes the first whose name is the one
  -- asked for, blanks around either aside: if the listing gives a token for it, that is returned and
  -- nothing is sent, and else the credential is rotated and the token of the answer is returned.
  -- Only where no listed credential has the name is a new one issued.
  pub ensure_credential-Ensured :
      (cs : List AgentCredential)
      → (list_active_credentials H s).0 ≡ ok cs
      → Ensured cs (ensure_credential H name options s)
  unfolding ensure_credential matching_active_credential
  ensure_credential-Ensured cs h =
      subst (Ensured cs)
        (sym (
          bind_assoc (list_active_credentials H) (λ l. pure (find_named (strip name) l))
            (ensure_from H name options) s))
        (rw h
          (ensure_from-Ensured cs (find_named (strip name) cs) (find_named-Found (strip name) cs)))
