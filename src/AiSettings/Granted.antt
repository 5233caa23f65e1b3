-- ===== src/AiSettings/Granted.antt =====
-- What a tenant has where one of its AI features is active.
use hrus.Base.{
  str_eq→eq, ℕ, ◌<◌, ◌≡◌, refl, Bool, true, false, inl, inr, Option, none, some, List, [], ◌∷◌,
  str_eq, any, filter, is_some, Elem, Bool-cases, Option-cases, arith,
}
use mathlib.Core.Path.{subst}
use hrus.AiSettings.{
  AiFeature, Feature, as_ai_feature, feature_value, TenantAiSetting, Server, AiDb, setting_of,
  provider_base_url,
}
use hrus.AiSettings.Entitlement.{
  AiReadiness, is_filled, readiness_of, readiness, features, is_enabled, limited, status_of,
  tokens_now, ai_status, is_active, is_feature_enabled,
}
use hrus.AiSettings.Connection.{Tested, tested_of}
use hrus.AiSettings.Guarded.{UrlFits, IsGuarded}
use hrus.AiSettings.Reach.{World, Reach, AllGuarded, Reach-AllGuarded, found-IsGuarded}

-- The tokens of the month are below the limit, if there is one.
abbrev pub Below : Option ℕ → ℕ → Type 0
Below none tokens = Unit
Below (some limit) tokens = tokens < limit

module _ (server : Server) (now tenant_id : ℕ) (f : AiFeature) (passed : List Tested)
    (db : AiDb) where
  pub record IsGranted : Type 0 where
    pub server_enabled : server.ai_enabled ≡ true
    pub setting : TenantAiSetting
    pub found : setting_of tenant_id db ≡ some setting
    pub has_key : is_filled setting.api_key_ciphertext ≡ true
    pub consented : is_some setting.consent_accepted_at ≡ true
    pub tested : Elem (tested_of setting) passed
    pub placed : UrlFits server (provider_base_url setting.provider) setting.base_url
    pub chosen : is_enabled setting f ≡ true
    pub below : Below setting.monthly_token_limit (tokens_now server now tenant_id db)

enabled-found :
    (s : TenantAiSetting) (f : AiFeature) (fs : List AiFeature)
    → is_active f (filter (is_enabled s) fs) ≡ true
    → is_enabled s f ≡ true
unfolding any filter
enabled-found s f [] h = cc
enabled-found s f (g ∷ fs) h = elim (Bool-cases (is_enabled s g)) [
  | inl chosen ↦ elim (Bool-cases (str_eq (feature_value g) (feature_value f))) [
    | inl same ↦
        subst (λ v. any (str_eq v) s.enabled_features ≡ true)
          (str_eq→eq (feature_value g) (feature_value f) same) chosen
    | inr other ↦ enabled-found s f fs (rw (chosen, other) at h)
  ]
  | inr off ↦ enabled-found s f fs (rw off at h)
]

limited-Below : (limit : Option ℕ) (tokens : ℕ) → limited limit tokens ≡ false → Below limit tokens
limited-Below none tokens h = tt
limited-Below (some limit) tokens h = ground arith

-- Only a tenant that is ready has active features.
active-ready :
    (s : TenantAiSetting) (f : AiFeature) (r : AiReadiness) (tokens : ℕ)
    → is_active f (status_of (some s) r tokens).active_features ≡ true
    → (r ≡ AiReadiness.ready) × Below s.monthly_token_limit tokens × (is_enabled s f ≡ true)
unfolding any
active-ready s f AiReadiness.ready tokens h =
    elim (Bool-cases (limited s.monthly_token_limit tokens)) [
      | inl over ↦ cc (rw over at h)
      | inr under ↦ (
        refl,
        limited-Below s.monthly_token_limit tokens under,
        enabled-found s f features (rw under at h),
      )
    ]
active-ready s f AiReadiness.ai_disabled tokens h = cc
active-ready s f AiReadiness.no_api_key tokens h = cc
active-ready s f AiReadiness.consent_required tokens h = cc
active-ready s f AiReadiness.key_not_verified tokens h = cc
active-ready s f AiReadiness.limit_reached tokens h = cc

abbrev Ready : TenantAiSetting → Type 0
Ready s =
    (is_filled s.api_key_ciphertext ≡ true)
    × (is_some s.consent_accepted_at ≡ true)
    × (is_some s.key_verified_at ≡ true)

readiness_of-Ready : (s : TenantAiSetting) → readiness_of s ≡ AiReadiness.ready → Ready s
unfolding readiness_of
readiness_of-Ready s h = ground arith

readiness-ready :
    (s : TenantAiSetting) (enabled : Bool)
    → readiness (some s) enabled ≡ AiReadiness.ready
    → (enabled ≡ true) × Ready s
unfolding readiness
readiness-ready s false h = cc
readiness-ready s true h = (refl, readiness_of-Ready s h)

no_setting-inactive :
    (f : AiFeature) (enabled : Bool) (tokens : ℕ)
    → is_active f (status_of none (readiness none enabled) tokens).active_features ≡ false
unfolding readiness any
no_setting-inactive f false tokens = refl
no_setting-inactive f true tokens = refl

module _ (server : Server) where
  tested-verified :
      (passed : List Tested) (s : TenantAiSetting)
      → IsGuarded server passed s
      → is_some s.key_verified_at ≡ true
      → Elem (tested_of s) passed
  tested-verified passed s g verified = elim (g.tested) [
    | inl unverified ↦ cc (rw unverified at verified)
    | inr tested ↦ tested
  ]

  -- From tables without settings, after any calls that change settings and any tests of connections,
  -- one call after another: where an AI feature is active for a tenant, the server has AI enabled, the
  -- feature is chosen, consent is given, the tokens of the month are below the limit, the provider's URL
  -- is its own or one of the server's list, and a test of just this key, URL and model had succeeded.
  pub is_feature_enabled-IsGranted :
      (now tenant_id : ℕ) (feature : Feature) (f : AiFeature) (start w : World)
      → start.db.settings ≡ []
      → Reach server start w
      → as_ai_feature feature ≡ some f
      → is_feature_enabled server now tenant_id feature w.db ≡ true
      → IsGranted server now tenant_id f w.passed w.db
  unfolding is_feature_enabled ai_status
  is_feature_enabled-IsGranted now tenant_id feature f start w empty reached ai on =
      elim (Option-cases (setting_of tenant_id w.db)) [
        | inl fresh ↦ cc (
          no_setting-inactive f server.ai_enabled (tokens_now server now tenant_id w.db),
          rw (ai, fresh) at on,
        )
        | inr (s, found) ↦
            let active =
              active-ready s f (readiness (some s) server.ai_enabled)
                (tokens_now server now tenant_id w.db) (rw (ai, found) at on) in
            let ready = readiness-ready s server.ai_enabled active.0 in
            let all : AllGuarded server w.passed w.db =
              Reach-AllGuarded server (rw empty tt) reached in
            let g = found-IsGuarded server w.passed tenant_id w.db s all found in
            record {
              server_enabled = ready.0;
              setting = s;
              found = found;
              has_key = ready.1.0;
              consented = ready.1.1;
              tested = tested-verified w.passed s g ready.1.2;
              placed = g.placed;
              chosen = active.2;
              below = active.1;
            }
      ]
