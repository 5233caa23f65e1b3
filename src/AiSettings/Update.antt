-- ===== src/AiSettings/Update.antt =====
-- backend/app/services/ai_settings.py: the settings are changed and shown.
use hrus.Base.{
  ℕ, Bool, true, false, not, ◌&&◌, ◌||◌, Option, none, some, List, [], ◌∷◌, String, str_eq, ◌==◌,
  is_some, filter,
}
use hrus.Tx.{Tx, pure, gets, modify, lift, ◌>>=◌, ◌>>◌}
use hrus.Models.Auth.{AccessClaims}
use hrus.Db.{Env}
use hrus.AiSettings.{AiProvider, AiFeature, TenantAiSetting, Server, AiDb, setting_of, save, audit}
use hrus.AiSettings.Entitlement.{AiReadiness, AiStatus, is_filled, is_enabled, features, ai_status}
use hrus.AiSettings.Changes.{AiSettingsUpdate, new_setting, same_provider, changed}

pub record AiSettingsRead : Type 0 where
  pub provider : AiProvider
  pub base_url : String
  pub model : String
  pub api_key_set : Bool
  pub api_key_hint : Option String
  pub key_verified_at : Option ℕ
  pub consent_accepted_at : Option ℕ
  pub consent_accepted_by : Option ℕ
  pub enabled_features : List AiFeature
  pub monthly_token_limit : Option ℕ
  pub status : AiReadiness
  pub active_features : List AiFeature
  pub allowed_custom_base_urls : List String

abbrev pub setting_or_new : Option TenantAiSetting → ℕ → ℕ → TenantAiSetting
setting_or_new none id tenant_id = new_setting id tenant_id
setting_or_new (some s) id tenant_id = s

abbrev filled : Option TenantAiSetting → Bool
filled none = false
filled (some s) = is_filled s.api_key_ciphertext

-- `_view`, where an object that is not there stands for the defaults
abbrev pub view_of : Server → TenantAiSetting → AiStatus → AiSettingsRead
view_of server s status = record {
  provider = s.provider;
  base_url = s.base_url;
  model = s.model;
  api_key_set = is_filled s.api_key_ciphertext;
  api_key_hint = s.api_key_hint;
  key_verified_at = s.key_verified_at;
  consent_accepted_at = s.consent_accepted_at;
  consent_accepted_by = s.consent_accepted_by;
  -- The features by name; a text that is none, which no call stores, is left out.
  enabled_features = filter (is_enabled s) features;
  monthly_token_limit = s.monthly_token_limit;
  status = status.status;
  active_features = status.active_features;
  allowed_custom_base_urls = server.ai_custom_base_urls;
}

unfoldable pub get_ai_settings : Server → Env → ℕ → Tx AiDb AiSettingsRead
get_ai_settings server env tenant_id = gets (λ db.
    view_of server (setting_or_new (setting_of tenant_id db) 0 tenant_id)
      (ai_status server env.now tenant_id db))

abbrev same_id : Option ℕ → Option ℕ → Bool
same_id none none = true
same_id (some a) (some b) = a == b
same_id _ _ = false

abbrev same_text : Option String → Option String → Bool
same_text none none = true
same_text (some s) (some t) = str_eq s t
same_text _ _ = false

abbrev same_flag : Bool → Bool → Bool
same_flag true b = b
same_flag false b = not b

abbrev same_features : List String → List String → Bool
same_features [] [] = true
same_features (f ∷ fs) (g ∷ gs) = str_eq f g && same_features fs gs
same_features _ _ = false

-- `after == before`, of `_audit_view`
abbrev same_audit : TenantAiSetting → TenantAiSetting → Bool
same_audit s t =
    same_provider s.provider t.provider
    && str_eq s.base_url t.base_url
    && str_eq s.model t.model
    && same_text s.api_key_hint t.api_key_hint
    && same_flag (is_some s.key_verified_at) (is_some t.key_verified_at)
    && same_flag (is_some s.consent_accepted_at) (is_some t.consent_accepted_at)
    && same_features s.enabled_features t.enabled_features
    && same_id s.monthly_token_limit t.monthly_token_limit

abbrev same_as_before : Option TenantAiSetting → TenantAiSetting → Bool
same_as_before none s = false
same_as_before (some before) s = same_audit before s

abbrev pub is_changed : Option TenantAiSetting → TenantAiSetting → AiSettingsUpdate → Bool
is_changed before s form = not (same_as_before before s) || is_some form.api_key

abbrev pub audit_if : Bool → AccessClaims → ℕ → Tx AiDb (Unit {0})
audit_if true actor id = audit actor "ai_setting.update" id
audit_if false actor id = pure tt

unfoldable pub update_ai_settings :
    Server → Env → AccessClaims → AiSettingsUpdate → Tx AiDb AiSettingsRead
update_ai_settings server env actor form = do
  before ← gets (setting_of actor.tenant_id)
  id ← gets (λ db. db.next_id)
  s ← lift (changed server env actor form (setting_or_new before id actor.tenant_id))
  modify (save s)
  audit_if (is_changed before s form) actor s.id
  gets (λ db. view_of server s (ai_status server env.now actor.tenant_id db))
