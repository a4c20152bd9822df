-- ===== src/Config/Laws.antt =====
-- Gateway resolution: the order of the sources, and the form of the result.
use Prim.Native.String.{[], ◌∷◌}
use synapse_network_sdk.Base.{
  str_eq, ap, String, Bool, true, false, ◌≡◌, refl, Option, none, some, or_else, List, [], ◌∷◌,
  if◌then◌else◌,
}
use synapse_network_sdk.Strings.{◌+++◌, str_or, truthy, is_slash, strip, rstrip_slash}
use synapse_network_sdk.Strings.Laws.{LastFails, rstrip_slash-LastFails}
use synapse_network_sdk.Runtime.{Result, ok, err, stalled, value_error}
use synapse_network_sdk.Host.{Host}
use synapse_network_sdk.Config.{
  gateway_urls, unsupported, select_environment, ambient_environment, getenv_or_empty,
  resolve_gateway_url,
}

-- What a caller may rely on: a returned URL does not end in a slash, and the only exception is
-- `ValueError`.
abbrev pub Resolved : Result String → Type 0
Resolved (ok url) = LastFails is_slash url
Resolved (err e) = (s : String) × (e ≡ value_error (unsupported s))
Resolved stalled = ⊥

lookup-Resolved :
    (s : String) (o : Option String)
    → Resolved
        (elim o [ none ↦ err (value_error (unsupported s)) | some url ↦ ok (rstrip_slash url) ])
lookup-Resolved s none = (s, refl)
lookup-Resolved s (some url) = rstrip_slash-LastFails url

select_environment-Resolved : (s : String) → Resolved (select_environment s)
unfolding select_environment
select_environment-Resolved s = lookup-Resolved s (gateway_urls s)

Resolved-if :
    (b : Bool) (x y : Result String) → Resolved x → Resolved y → Resolved (if b then x else y)
Resolved-if true x y p q = p
Resolved-if false x y p q = q

-- Whatever the arguments and the environment variables, gateway resolution ends with a URL that
-- has no slash at its end, or raises the ValueError of an unsupported environment; it does
-- nothing else.
pub resolve_gateway_url-Resolved :
    (H : Host) (environment gateway_url : Option String)
    → Resolved (resolve_gateway_url H environment gateway_url)
unfolding resolve_gateway_url
resolve_gateway_url-Resolved H environment gateway_url =
    let explicit_url = strip (or_else gateway_url "") in
    let explicit_environment = strip (or_else environment "") in
    let env_url = strip (getenv_or_empty H "SYNAPSE_GATEWAY") in
    Resolved-if (truthy explicit_url) _ _ (rstrip_slash-LastFails explicit_url) (
      Resolved-if (truthy explicit_environment) _ _
        (select_environment-Resolved (H.lower explicit_environment))
        (Resolved-if (truthy env_url) _ _ (rstrip_slash-LastFails env_url)
          (select_environment-Resolved (ambient_environment H))))

-- The four sources of a gateway URL, by falling priority, each as a URL or as the name of an
-- environment. A blank one is passed over, but not the last.
pub data Source : Type 0 where
  url environment : String → Source

-- The environments that there are, and their gateways.
abbrev environments : List (String × String)
environments =
    ("staging", "https://api-staging.synapse-network.ai")
    ∷ ("prod", "https://api.synapse-network.ai")
    ∷ []

abbrev gateway_of : String → List (String × String) → Option String
gateway_of e [] = none
gateway_of e ((name, u) ∷ rest) = if str_eq e name then some u else gateway_of e rest

abbrev pub settled : Source → Result String
settled (url u) = ok (rstrip_slash u)
settled (environment e) = elim (gateway_of e environments) [
  | none ↦ err (
      value_error
        ("unsupported Synapse environment '" +++ e +++ "'. Expected one of: prod, staging"))
  | some u ↦ ok u
]

abbrev pub first_of_priority : List (String × Source) → Source → Source
first_of_priority [] last = last
first_of_priority ((given, s) ∷ rest) last = if truthy given then s else first_of_priority rest last

-- A variable's text, or another one where it is unset or empty.
abbrev text_or : String → Option String → String
text_or other none = other
text_or other (some s) = if truthy s then s else other

abbrev pub sources : Host → Option String → Option String → List (String × Source)
sources H environment_name gateway_url =
    let u = strip (or_else gateway_url "") in
    let e = strip (or_else environment_name "") in
    let v = strip (or_else (H.getenv "SYNAPSE_GATEWAY") "") in
    (u, url u) ∷ (e, environment (H.lower e)) ∷ (v, url v) ∷ []

abbrev pub ambient : Host → Source
ambient H = environment (H.lower (strip (text_or "prod" (H.getenv "SYNAPSE_ENV"))))

settled-if :
    (b : Bool) (s t : Source) → settled (if b then s else t) ≡ (if b then settled s else settled t)
settled-if true s t = refl
settled-if false s t = refl

select_environment-settled : (e : String) → select_environment e ≡ settled (environment e)
unfolding select_environment gateway_urls unsupported rstrip_slash
select_environment-settled e = by_name (str_eq e "staging") (str_eq e "prod")
  where
    unknown : Result String
    unknown = err (
        value_error
          ("unsupported Synapse environment '" +++ e +++ "'. Expected one of: prod, staging"))

    named : Bool → Bool → Option String
    named staging prod =
        if staging
        then some "https://api-staging.synapse-network.ai"
        else if prod
        then some "https://api.synapse-network.ai"
        else none

    by_name :
        (staging prod : Bool)
        → elim (named staging prod) as (λ _. Result String) [
          | none ↦ unknown
          | some u ↦ ok (rstrip_slash u)
        ]
          ≡ elim (named staging prod) as (λ _. Result String) [ none ↦ unknown | some u ↦ ok u ]
    by_name true prod = refl
    by_name false true = refl
    by_name false false = refl

ambient_environment_lem :
    (H : Host) → ambient_environment H ≡ H.lower (strip (text_or "prod" (H.getenv "SYNAPSE_ENV")))
unfolding ambient_environment getenv_or_empty str_or truthy
ambient_environment_lem H = by_variable (H.getenv "SYNAPSE_ENV")
  where
    by_variable :
        (o : Option String)
        → H.lower (strip (str_or (or_else o "") "prod")) ≡ H.lower (strip (text_or "prod" o))
    by_variable none = refl
    by_variable (some s) = ap (λ t. H.lower (strip t)) (by_text s)
      where
        by_text : (s : String) → str_or s "prod" ≡ (if truthy s then s else "prod")
        by_text [] = refl
        by_text (c ∷ s) = refl

-- Gateway resolution is the first source that is not blank, in the order: the argument
-- gateway_url, the argument environment, the variable SYNAPSE_GATEWAY; where all three are blank
-- it is the environment named by SYNAPSE_ENV, or prod where that is unset or empty. An environment
-- stands for its gateway, and one that is neither staging nor prod for a ValueError.
pub resolve_gateway_url-eq-first :
    (H : Host) (environment_name gateway_url : Option String)
    → resolve_gateway_url H environment_name gateway_url
      ≡ settled (first_of_priority (sources H environment_name gateway_url) (ambient H))
unfolding resolve_gateway_url getenv_or_empty
resolve_gateway_url-eq-first H environment_name gateway_url =
    simp (settled-if, select_environment-settled, ambient_environment_lem)
