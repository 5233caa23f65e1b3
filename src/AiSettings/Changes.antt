-- ===== src/AiSettings/Changes.antt =====
-- backend/app/services/ai_settings.py: the changes that one call of `update_ai_settings` makes to a
-- tenant's setting, step by step.
use hrus.Base.{
  ℕ, Bool, true, false, not, ◌||◌, Option, none, some, List, [], map, String, str_eq, if◌then◌else◌,
  any, filter, is_some,
}
use hrus.Errors.{Code, Result, ok, err, rule_violation}
use hrus.Errors.Chain.{◌>>=◌, ◌>>◌}
use hrus.Models.Auth.{AccessClaims}
use hrus.Db.{Env}
use hrus.AiSettings.{
  AiProvider, AiFeature, feature_value, TenantAiSetting, Server, secret_hint, provider_base_url,
  default_base_url, default_model,
}
use hrus.AiSettings.Entitlement.{AiReadiness, readiness_of, features}

-- A limit is sent, perhaps as null, or not sent.
pub record AiSettingsUpdate : Type 0 where
  pub provider : Option AiProvider
  pub base_url : Option String
  pub model : Option String
  pub api_key : Option String
  pub clear_api_key : Bool
  pub enabled_features : Option (List AiFeature)
  pub monthly_token_limit : Option (Option ℕ)
  pub consent_accepted : Option Bool

abbrev pub new_setting : ℕ → ℕ → TenantAiSetting
new_setting id tenant_id = record {
  id = id;
  tenant_id = tenant_id;
  provider = AiProvider.deepseek;
  base_url = default_base_url;
  model = default_model;
  api_key_ciphertext = none;
  api_key_hint = none;
  key_verified_at = none;
  consent_accepted_at = none;
  consent_accepted_by = none;
  enabled_features = [];
  monthly_token_limit = none;
  updated_by_user_id = none;
}

abbrev pub same_provider : AiProvider → AiProvider → Bool
same_provider AiProvider.deepseek AiProvider.deepseek = true
same_provider AiProvider.openai AiProvider.openai = true
same_provider AiProvider.openrouter AiProvider.openrouter = true
same_provider AiProvider.custom AiProvider.custom = true
same_provider _ _ = false

abbrev pub stripped_url : Server → Option String → String
stripped_url server none = ""
stripped_url server (some url) = server.rstrip_slash url

abbrev pub other_url : Server → String → Option String → Bool
other_url server fixed none = false
other_url server fixed (some url) = not (str_eq (server.rstrip_slash url) fixed)

abbrev pub allowed_url : Server → String → Bool
allowed_url server url = any (str_eq url) server.ai_custom_base_urls

unfoldable pub not_allowed : {A : Type 0} → Bool → A → Result A
not_allowed true a = err (rule_violation Code.ai_base_url_not_allowed)
not_allowed false a = ok a

-- `_resolve_base_url`: the provider's own URL, or one of the server's list.
unfoldable pub resolve_for : Server → Option String → Option String → Result String
resolve_for server (some fixed) base_url = not_allowed (other_url server fixed base_url) fixed
resolve_for server none base_url =
    not_allowed (not (allowed_url server (stripped_url server base_url)))
      (stripped_url server base_url)

unfoldable pub resolve_base_url : Server → AiProvider → Option String → Result String
resolve_base_url server provider base_url = resolve_for server (provider_base_url provider) base_url

abbrev pub or_current : {A : Type 0} → Option A → A → A
or_current none current = current
or_current (some a) current = a

-- Another provider: consent and the test of the connection start again, and the model is the default
-- of the default provider, or must be sent.
abbrev pub reset : TenantAiSetting → TenantAiSetting
reset s = record s {
  consent_accepted_at = none;
  consent_accepted_by = none;
  key_verified_at = none;
}

abbrev pub default_for : AiProvider → TenantAiSetting → Result TenantAiSetting
default_for AiProvider.deepseek s = ok (record s { model = default_model })
default_for _ s = err (rule_violation Code.ai_model_required)

abbrev pub with_model_of : AiProvider → Option String → TenantAiSetting → Result TenantAiSetting
with_model_of provider none s = default_for provider s
with_model_of provider (some model) s = ok s

unfoldable pub change_provider :
    AiProvider → Bool → Option String → TenantAiSetting → Result TenantAiSetting
change_provider provider false model s = ok s
change_provider provider true model s = with_model_of provider model (reset s)

abbrev pub unverified_if : Bool → TenantAiSetting → TenantAiSetting
unverified_if true s = record s { key_verified_at = none }
unverified_if false s = s

unfoldable pub place_url : AiProvider → String → TenantAiSetting → TenantAiSetting
place_url provider url s =
    let s' = unverified_if (not (str_eq url s.base_url)) s in
    record s' { provider = provider; base_url = url }

abbrev pub place :
    Server → AiProvider → Bool → AiSettingsUpdate → TenantAiSetting → Result TenantAiSetting
place server provider other form s = do
  url ← resolve_base_url server provider form.base_url
  s' ← change_provider provider other form.model s
  ok (place_url provider url s')

-- The provider and the URL.
unfoldable pub set_provider : Server → AiSettingsUpdate → TenantAiSetting → Result TenantAiSetting
set_provider server form s =
    let provider = or_current form.provider s.provider in
    let other = not (same_provider provider s.provider) in
    if other || is_some form.base_url then place server provider other form s else ok s

unfoldable pub set_model : Option String → TenantAiSetting → TenantAiSetting
set_model none s = s
set_model (some model) s =
    if str_eq model s.model then s else record s { model = model; key_verified_at = none }

unfoldable pub clear_key : Bool → TenantAiSetting → TenantAiSetting
clear_key false s = s
clear_key true s = record s {
  api_key_ciphertext = none;
  api_key_hint = none;
  key_verified_at = none;
}

unfoldable pub encrypted : String → Option String → TenantAiSetting → Result TenantAiSetting
encrypted raw none s = err (rule_violation Code.ai_secret_not_configured)
encrypted raw (some text) s = ok (record s {
  api_key_ciphertext = some text;
  api_key_hint = some (secret_hint raw);
  key_verified_at = none;
})

unfoldable pub set_key : Server → Env → Option String → TenantAiSetting → Result TenantAiSetting
set_key server env none s = ok s
set_key server env (some key) s =
    encrypted (env.strip key) (server.encrypt env.now (env.strip key)) s

abbrev pub set_limit : Option (Option ℕ) → TenantAiSetting → TenantAiSetting
set_limit none s = s
set_limit (some limit) s = record s { monthly_token_limit = limit }

unfoldable pub set_consent : Env → ℕ → Option Bool → TenantAiSetting → TenantAiSetting
set_consent env user_id none s = s
set_consent env user_id (some true) s =
    if is_some s.consent_accepted_at
    then s
    else record s { consent_accepted_at = some env.now; consent_accepted_by = some user_id }
set_consent env user_id (some false) s = record s {
  consent_accepted_at = none;
  consent_accepted_by = none;
}

-- `sorted({str(f) for f in …})`
abbrev wanted : List AiFeature → List String
wanted chosen =
    map feature_value
      (filter (λ f. any (λ g. str_eq (feature_value g) (feature_value f)) chosen) features)

-- `_NOT_READY`, where the server counts as enabled.
unfoldable pub not_ready : AiReadiness → Result (Unit {0})
not_ready AiReadiness.no_api_key = err (rule_violation Code.ai_no_api_key)
not_ready AiReadiness.consent_required = err (rule_violation Code.ai_consent_required)
not_ready AiReadiness.key_not_verified = err (rule_violation Code.ai_key_not_verified)
not_ready _ = ok tt

abbrev pub newly_enabled : TenantAiSetting → List AiFeature → Bool
newly_enabled s chosen = any (λ f. not (any (str_eq f) s.enabled_features)) (wanted chosen)

unfoldable pub ensure_ready : Bool → TenantAiSetting → Result (Unit {0})
ensure_ready false s = ok tt
ensure_ready true s = not_ready (readiness_of s)

unfoldable pub set_features : Option (List AiFeature) → TenantAiSetting → Result TenantAiSetting
set_features none s = ok s
set_features (some chosen) s = do
  ensure_ready (newly_enabled s chosen) s
  ok (record s { enabled_features = wanted chosen })

-- All changes of one call, in their order.
unfoldable pub changed :
    Server → Env → AccessClaims → AiSettingsUpdate → TenantAiSetting → Result TenantAiSetting
changed server env actor form s = do
  s1 ← set_provider server form s
  s2 ← set_key server env form.api_key (clear_key form.clear_api_key (set_model form.model s1))
  s3 ←
      set_features form.enabled_features (
        set_consent env actor.user_id form.consent_accepted (set_limit form.monthly_token_limit s2))
  ok (record s3 { updated_by_user_id = some actor.user_id })
