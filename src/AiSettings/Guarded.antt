-- ===== src/AiSettings/Guarded.antt =====
-- A key that counts as verified was tested with the URL and the model that are set, and the URL is one
-- that the server allows: the changes of one call keep both.
use hrus.Base.{
  true_of_negation, str_eq→eq, ℕ, ◌≡◌, refl, sym, Bool, true, false, not, ◌||◌, ◌⊎◌, inl, inr,
  Option, none, some, List, String, str_eq, is_some, Elem, Bool-cases,
}
use mathlib.Core.Path.{subst}
use hrus.Errors.Chain.{Settles, settled, refused, Settles-bind}
use hrus.Models.Auth.{AccessClaims}
use hrus.Db.{Env}
use hrus.AiSettings.{AiProvider, AiFeature, TenantAiSetting, Server, provider_base_url}
use hrus.AiSettings.Entitlement.{readiness_of, AiReadiness}
use hrus.AiSettings.Changes.{
  AiSettingsUpdate, new_setting, same_provider, allowed_url, not_allowed, resolve_for,
  resolve_base_url, change_provider, place_url, set_provider, set_model, clear_key, encrypted,
  set_key, set_limit, set_consent, not_ready, ensure_ready, set_features, changed, stripped_url,
  newly_enabled, or_current,
}
use hrus.AiSettings.Connection.{Tested, tested_of}

-- A provider's own URL, or one of the server's list.
abbrev pub UrlFits : Server → Option String → String → Type 0
UrlFits server (some fixed) url = url ≡ fixed
UrlFits server none url = allowed_url server url ≡ true

-- The key does not count as verified, or it was tested as it is used.
abbrev pub WasTested : List Tested → TenantAiSetting → Type 0
WasTested passed s = (s.key_verified_at ≡ none) ⊎ Elem (tested_of s) passed

pub record IsGuarded (server : Server) (passed : List Tested) (s : TenantAiSetting) : Type 0 where
  pub tested : WasTested passed s
  pub placed : UrlFits server (provider_base_url s.provider) s.base_url

module _ (server : Server) where
  not_allowed-Settles :
      (provider : Option String) (b : Bool) (url : String)
      → (b ≡ false → UrlFits server provider url)
      → Settles (UrlFits server provider) (not_allowed b url)
  unfolding not_allowed
  not_allowed-Settles provider true url h = refused tt
  not_allowed-Settles provider false url h = settled (h refl)

  resolve_for-Settles :
      (fixed base_url : Option String)
      → Settles (UrlFits server fixed) (resolve_for server fixed base_url)
  unfolding resolve_for
  resolve_for-Settles (some fixed) base_url = not_allowed-Settles (some fixed) _ fixed (λ _. refl)
  resolve_for-Settles none base_url =
      not_allowed-Settles none _ (stripped_url server base_url) (true_of_negation _)

  module _ (passed : List Tested) where
    abbrev Guarded : TenantAiSetting → Type 0
    Guarded s = IsGuarded server passed s

    change_provider-Settles :
        (provider : AiProvider) (other : Bool) (model : Option String) (s : TenantAiSetting)
        → WasTested passed s
        → Settles (WasTested passed) (change_provider provider other model s)
    unfolding change_provider
    change_provider-Settles provider false model s h = settled h
    change_provider-Settles AiProvider.deepseek true none s h = settled (inl refl)
    change_provider-Settles AiProvider.openai true none s h = refused tt
    change_provider-Settles AiProvider.openrouter true none s h = refused tt
    change_provider-Settles AiProvider.custom true none s h = refused tt
    change_provider-Settles provider true (some model) s h = settled (inl refl)

    place_url-IsGuarded :
        (provider : AiProvider) (url : String) (s : TenantAiSetting)
        → WasTested passed s
        → UrlFits server (provider_base_url provider) url
        → IsGuarded server passed (place_url provider url s)
    unfolding place_url
    place_url-IsGuarded provider url s h fits =
        let at : String → TenantAiSetting = λ u. record s { provider = provider; base_url = u } in
        let stays : url ≡ s.base_url → IsGuarded server passed (at url) = λ same.
          subst (λ u. IsGuarded server passed (at u)) (sym same)
            (record {
              tested = h;
              placed = subst (UrlFits server (provider_base_url provider)) same fits;
            }) in
        elim (Bool-cases (str_eq url s.base_url)) [
          | inl same ↦ rw same (stays (str_eq→eq url s.base_url same))
          | inr other ↦ rw other (record { tested = inl refl; placed = fits })
        ]

    set_provider-Settles :
        (form : AiSettingsUpdate) (s : TenantAiSetting)
        → Guarded s
        → Settles Guarded (set_provider server form s)
    unfolding set_provider resolve_base_url
    set_provider-Settles form s g = elim (Bool-cases (moves || is_some form.base_url)) [
      | inl moving ↦ rw moving (
          Settles-bind (resolve_for-Settles (provider_base_url provider) form.base_url) (λ url fits.
            Settles-bind (change_provider-Settles provider moves form.model s g.tested)
              (λ s' h. settled (place_url-IsGuarded provider url s' h fits))))
      | inr staying ↦ rw staying (settled g)
    ]
      where
        provider : AiProvider
        provider = or_current form.provider s.provider

        moves : Bool
        moves = not (same_provider provider s.provider)

    set_model-IsGuarded :
        (model : Option String) (s : TenantAiSetting) → Guarded s → Guarded (set_model model s)
    unfolding set_model
    set_model-IsGuarded none s g = g
    set_model-IsGuarded (some model) s g = elim (Bool-cases (str_eq model s.model)) [
      | inl same ↦ rw same g
      | inr other ↦ rw other (record { tested = inl refl; placed = g.placed })
    ]

    clear_key-IsGuarded :
        (clear : Bool) (s : TenantAiSetting) → Guarded s → Guarded (clear_key clear s)
    unfolding clear_key
    clear_key-IsGuarded false s g = g
    clear_key-IsGuarded true s g = record { tested = inl refl; placed = g.placed }

    encrypted-Settles :
        (raw : String) (text : Option String) (s : TenantAiSetting)
        → Guarded s
        → Settles Guarded (encrypted raw text s)
    unfolding encrypted
    encrypted-Settles raw none s g = refused tt
    encrypted-Settles raw (some text) s g =
        settled (record { tested = inl refl; placed = g.placed })

    set_key-Settles :
        (env : Env) (key : Option String) (s : TenantAiSetting)
        → Guarded s
        → Settles Guarded (set_key server env key s)
    unfolding set_key
    set_key-Settles env none s g = settled g
    set_key-Settles env (some key) s g = encrypted-Settles _ (server.encrypt _ _) s g

    set_limit-IsGuarded :
        (limit : Option (Option ℕ)) (s : TenantAiSetting) → Guarded s → Guarded (set_limit limit s)
    set_limit-IsGuarded none s g = g
    set_limit-IsGuarded (some limit) s g = record { tested = g.tested; placed = g.placed }

    set_consent-IsGuarded :
        (env : Env) (user : ℕ) (consent : Option Bool) (s : TenantAiSetting)
        → Guarded s
        → Guarded (set_consent env user consent s)
    unfolding set_consent
    set_consent-IsGuarded env user none s g = g
    set_consent-IsGuarded env user (some true) s g =
        elim (Bool-cases (is_some s.consent_accepted_at)) [
          | inl given ↦ rw given g
          | inr missing ↦ rw missing (record { tested = g.tested; placed = g.placed })
        ]
    set_consent-IsGuarded env user (some false) s g = record {
      tested = g.tested;
      placed = g.placed;
    }

    not_ready-Settles : (r : AiReadiness) → Settles (λ _. Unit {0}) (not_ready r)
    unfolding not_ready
    not_ready-Settles AiReadiness.no_api_key = refused tt
    not_ready-Settles AiReadiness.consent_required = refused tt
    not_ready-Settles AiReadiness.key_not_verified = refused tt
    not_ready-Settles _ = settled tt

    ensure_ready-Settles :
        (enabling : Bool) (s : TenantAiSetting) → Settles (λ _. Unit {0}) (ensure_ready enabling s)
    unfolding ensure_ready
    ensure_ready-Settles false s = settled tt
    ensure_ready-Settles true s = not_ready-Settles (readiness_of s)

    set_features-Settles :
        (chosen : Option (List AiFeature)) (s : TenantAiSetting)
        → Guarded s
        → Settles Guarded (set_features chosen s)
    unfolding set_features
    set_features-Settles none s g = settled g
    set_features-Settles (some chosen) s g =
        Settles-bind (ensure_ready-Settles (newly_enabled s chosen) s)
          (λ _ _. settled (record { tested = g.tested; placed = g.placed }))

    -- One call keeps the row guarded, or fails with an error of the business.
    pub changed-Settles :
        (env : Env) (actor : AccessClaims) (form : AiSettingsUpdate) (s : TenantAiSetting)
        → Guarded s
        → Settles Guarded (changed server env actor form s)
    unfolding changed
    changed-Settles env actor form s g = Settles-bind (set_provider-Settles form s g) (λ s1 g1.
        Settles-bind
          (set_key-Settles env form.api_key _
            (clear_key-IsGuarded form.clear_api_key _ (set_model-IsGuarded form.model s1 g1)))
          (λ s2 g2.
            Settles-bind
              (set_features-Settles form.enabled_features _ (
                set_consent-IsGuarded env actor.user_id form.consent_accepted _
                  (set_limit-IsGuarded form.monthly_token_limit s2 g2)))
              (λ s3 g3. settled (record { tested = g3.tested; placed = g3.placed }))))

    pub new_setting-IsGuarded : (id tenant_id : ℕ) → Guarded (new_setting id tenant_id)
    new_setting-IsGuarded id tenant_id = record { tested = inl refl; placed = refl }
