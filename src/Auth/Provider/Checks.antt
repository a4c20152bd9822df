-- ===== src/Auth/Provider/Checks.antt =====
-- Which registrations are refused before anything is sent.
use synapse_network_sdk.Base.{
  String, true, false, ◌≡◌, refl, ap, ◌≢◌, ◌⊎◌, inl, inr, Option, none, some, or_else, str_eq,
  arith, Bool-cases,
}
use synapse_network_sdk.Strings.{◌+++◌, truthy, strip}
use synapse_network_sdk.Runtime.{
  Error, value_error, Result, ok, err, stalled, ◌>>=◌, lift_result, Action, pure,
}
use synapse_network_sdk.Runtime.Steps.{bind_cases, occurrences}
use synapse_network_sdk.Host.{Host, Trace}
use synapse_network_sdk.Models.Provider.{ProviderServiceRegistrationResult}
use synapse_network_sdk.Auth.{SynapseAuth, require_value}
use synapse_network_sdk.Auth.ServiceId.{slug, keep_first, default_service_id}
use synapse_network_sdk.Client.Polling.Lookups.{is_sent}
use synapse_network_sdk.Auth.Tokens.{requests}
use synapse_network_sdk.Auth.Provider.{
  Registration, ServiceValues, resolved_price_model, provider_pricing, metered, fixed_price,
  resolved_service_id, provider_service_values, post_service, register_provider_service,
}

-- A price is missing that the price model asks for.
abbrev pub Unpriced : Registration → Type 0
Unpriced a =
    ((str_eq (resolved_price_model a) "token_metered" ≡ true)
      × ((a.input_price_per_1m_tokens_usdc ≡ none) ⊎ (a.output_price_per_1m_tokens_usdc ≡ none)))
    ⊎ ((str_eq (resolved_price_model a) "token_metered" ≡ false) × (a.base_price_usdc ≡ none))

-- One of the three texts is blank, or a price is missing.
abbrev pub Incomplete : Registration → Type 0
Incomplete a =
    ((truthy (strip a.service_name) ≡ false)
      ⊎ ((truthy (strip a.endpoint_url) ≡ false)
          ⊎ (truthy (strip a.description_for_model) ≡ false)))
    ⊎ Unpriced a

-- The three texts are not blank.
abbrev Told : Registration → Type 0
Told a =
    (truthy (strip a.service_name) ≡ true)
    × (truthy (strip a.endpoint_url) ≡ true)
    × (truthy (strip a.description_for_model) ≡ true)

blank_lem :
    (a : Registration)
    → Told a
    → (truthy (strip a.service_name) ≡ false)
      ⊎ ((truthy (strip a.endpoint_url) ≡ false) ⊎ (truthy (strip a.description_for_model) ≡ false))
    → ⊥
blank_lem a (named, placed, told) (inl h) = cc
blank_lem a (named, placed, told) (inr (inl h)) = cc
blank_lem a (named, placed, told) (inr (inr h)) = cc

module _ (H : Host) where
  metered_lem :
      (a : Registration) (input output : Option _)
      → (input ≡ none) ⊎ (output ≡ none)
      → (m : String) × (metered H a input output ≡ err (value_error m))
  unfolding metered
  metered_lem a none output h = ("input_price_per_1m_tokens_usdc is required", refl)
  metered_lem a (some i) none h = ("output_price_per_1m_tokens_usdc is required", refl)
  metered_lem a (some i) (some o) h = ground arith

  fixed_lem :
      (base : Option _) → base ≡ none → (m : String) × (fixed_price H base ≡ err (value_error m))
  unfolding fixed_price
  fixed_lem none h = ("base_price_usdc is required", refl)
  fixed_lem (some b) h = cc

  unpriced_lem :
      (a : Registration)
      → Unpriced a
      → (m : String) × (provider_pricing H a (resolved_price_model a) ≡ err (value_error m))
  unfolding provider_pricing
  unpriced_lem a (inl (model, lacks)) =
      rw model
        (metered_lem a a.input_price_per_1m_tokens_usdc a.output_price_per_1m_tokens_usdc lacks)
  unpriced_lem a (inr (model, lacks)) = rw model (fixed_lem a.base_price_usdc lacks)

  -- The texts of a registration: a blank one raises `ValueError`, and nothing is sent.
  abbrev Valued : Registration → SynapseAuth → Result ServiceValues × SynapseAuth → Type 0
  Valued a s (ok v, s') = Told a × (requests s' ≡ requests s)
  Valued a s (err e, s') = ((m : String) × (e ≡ value_error m)) × (requests s' ≡ requests s)
  Valued a s (stalled, s') = ⊥

  default_lem :
      (name : String) (u : Trace)
      → (t : String) × ((default_service_id H name u).0 ≡ ok t)
        × (occurrences is_sent (default_service_id H name u).1 ≡ occurrences is_sent u)
  unfolding default_service_id
  default_lem name u = elim (Bool-cases (truthy (slug H name))) [
    | inl made ↦ rw made (slug H name, refl, refl)
    | inr nothing ↦ rw nothing ("service_" +++ keep_first 8 (H.uuid_hex u), refl, omega arith)
  ]

  id_lem :
      (id : Option String) (name : String) (s : SynapseAuth)
      → (t : String) × ((resolved_service_id H id name s).0 ≡ ok t)
        × (requests (resolved_service_id H id name s).1 ≡ requests s)
  unfolding resolved_service_id
  id_lem id name s = elim (Bool-cases (truthy (strip (or_else id "")))) [
    | inl given ↦ rw given (strip (or_else id ""), refl, refl)
    | inr blank ↦ rw blank (default_lem name s.trace)
  ]

  -- The texts behind the three checks.
  named_values : Registration → String → String → String → Action SynapseAuth ServiceValues
  named_values a name endpoint summary = do
    id ← resolved_service_id H a.service_id name
    pure (record { service_id = id; name = name; endpoint = endpoint; summary = summary })

  named_lem :
      (a : Registration) (name endpoint summary : String) (s : SynapseAuth)
      → Told a
      → Valued a s (named_values a name endpoint summary s)
  unfolding named_values
  named_lem a name endpoint summary s told =
      let k = id_lem a.service_id name s in
      bind_cases (Valued a s) (resolved_service_id H a.service_id name)
        (λ id.
          pure (record { service_id = id; name = name; endpoint = endpoint; summary = summary }))
        s (λ id _. (told, k.2)) (λ e h. ground (arith, k.1)) (λ h. ground (arith, k.1))

  values_lem : (a : Registration) (s : SynapseAuth) → Valued a s (provider_service_values H a s)
  unfolding provider_service_values require_value named_values
  values_lem a s = elim (Bool-cases (truthy (strip a.service_name))) [
    | inr blank ↦ rw blank (("service_name is required", refl), refl)
    | inl named ↦ rw named (elim (Bool-cases (truthy (strip a.endpoint_url))) [
      | inr blank ↦ rw blank (("endpoint_url is required", refl), refl)
      | inl placed ↦ rw placed (elim (Bool-cases (truthy (strip a.description_for_model))) [
        | inr blank ↦ rw blank (("description_for_model is required", refl), refl)
        | inl told ↦ rw told (
            named_lem a (strip a.service_name) (strip a.endpoint_url)
              (strip a.description_for_model) s (named, placed, told))
      ])
    ])
  ]

  -- A registration is refused with a `ValueError`, and nothing was sent.
  abbrev pub Refused : SynapseAuth → Result ProviderServiceRegistrationResult × SynapseAuth → Type 0
  Refused s p = ((m : String) × (p.0 ≡ err (value_error m))) × (requests p.1 ≡ requests s)

  values_cases :
      (a : Registration) (s : SynapseAuth) (p : Result ServiceValues × SynapseAuth)
      → Valued a s p
      → ((v : ServiceValues) → p.0 ≡ ok v → Told a × (requests p.1 ≡ requests s))
        × ((e : Error)
            → p.0 ≡ err e
            → ((m : String) × (e ≡ value_error m)) × (requests p.1 ≡ requests s))
        × (p.0 ≢ stalled)
  values_cases a s (ok v, s') h = (λ w e. h, λ e f. cc, λ f. cc)
  values_cases a s (err x, s') h = (λ w e. cc, λ e f. ((h.0.0, ground arith), h.1), λ f. cc)
  values_cases a s (stalled, s') h = absurd h

  -- A registration with a blank name, endpoint or description, or without a price that its price
  -- model asks for, raises a ValueError and sends no request.
  pub register_provider_service-Refused :
      (a : Registration) (s : SynapseAuth)
      → Incomplete a
      → Refused s (register_provider_service H a s)
  unfolding register_provider_service
  register_provider_service-Refused a s lacks =
      let u = (provider_service_values H a s).1 in
      let known = values_cases a s (provider_service_values H a s) (values_lem a s) in
      bind_cases (Refused s) (provider_service_values H a)
        (λ v. lift_result (provider_pricing H a (resolved_price_model a)) >>= post_service H a v) s
        (λ v e. elim lacks [
          | inl blank ↦ absurd (blank_lem a (known.0 v e).0 blank)
          | inr unpriced ↦
              let k = unpriced_lem a unpriced in rw (k.1) ((k.0, refl), (known.0 v e).1)
        ])
        (λ x e. let k = known.1 x e in ((k.0.0, ap err k.0.1), k.1)) (λ e. absurd (known.2 e))
