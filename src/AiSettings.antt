-- ===== src/AiSettings.antt =====
-- backend/app/models/ai.py (`TenantAiSetting`), backend/app/entitlement/features.py,
-- backend/app/core/secrets.py, and the state of backend/app/services/ai_settings.py.
pub mod Entitlement
pub mod Update
pub mod Connection
pub mod Changes
pub mod Guarded
pub mod Reach
pub mod Granted
pub mod Stale
use hrus.Base.{
  ℕ, zero, suc, ◌-◌, Bool, true, false, ◌&&◌, Option, none, some, List, [], ◌∷◌, ◌++◌, String,
  str_eq, ◌==◌, find, any, update_first,
}
use hrus.Calendar.{Date}
use hrus.Tx.{Tx, modify}
use hrus.Models.Auth.{AccessClaims, AuditLog}
use hrus.AiUsage.{UsageDb}

pub data AiProvider : Type 0 where
  deepseek openai openrouter custom : AiProvider

abbrev pub provider_name : AiProvider → String
provider_name AiProvider.deepseek = "deepseek"
provider_name AiProvider.openai = "openai"
provider_name AiProvider.openrouter = "openrouter"
provider_name AiProvider.custom = "custom"

pub data AiFeature : Type 0 where
  ai_assistant ai_policy_qa ai_form_validation ai_reporting_agent ai_team_summary : AiFeature

pub data Feature : Type 0 where
  core_hr leave report_builder : Feature
  assistant policy_qa form_validation reporting_agent team_summary : Feature

-- `feature in AI_FEATURES`, with the AiFeature of its value
unfoldable pub as_ai_feature : Feature → Option AiFeature
as_ai_feature Feature.core_hr = none
as_ai_feature Feature.leave = none
as_ai_feature Feature.report_builder = none
as_ai_feature Feature.assistant = some AiFeature.ai_assistant
as_ai_feature Feature.policy_qa = some AiFeature.ai_policy_qa
as_ai_feature Feature.form_validation = some AiFeature.ai_form_validation
as_ai_feature Feature.reporting_agent = some AiFeature.ai_reporting_agent
as_ai_feature Feature.team_summary = some AiFeature.ai_team_summary

abbrev pub feature_value : AiFeature → String
feature_value AiFeature.ai_assistant = "ai_assistant"
feature_value AiFeature.ai_policy_qa = "ai_policy_qa"
feature_value AiFeature.ai_form_validation = "ai_form_validation"
feature_value AiFeature.ai_reporting_agent = "ai_reporting_agent"
feature_value AiFeature.ai_team_summary = "ai_team_summary"

-- A text that is kept in the database is no feature by itself.
pub record TenantAiSetting : Type 0 where
  pub id : ℕ
  pub tenant_id : ℕ
  pub provider : AiProvider
  pub base_url : String
  pub model : String
  pub api_key_ciphertext : Option String
  pub api_key_hint : Option String
  pub key_verified_at : Option ℕ
  pub consent_accepted_at : Option ℕ
  pub consent_accepted_by : Option ℕ
  pub enabled_features : List String
  pub monthly_token_limit : Option ℕ
  pub updated_by_user_id : Option ℕ

-- What `decrypt_secret` ends with: SecretConfigError, SecretDecryptError, or the text.
pub data Secret : Type 0 where
  not_configured unreadable : Secret
  opened : String → Secret

-- The server's settings, its keys with Fernet (an encryption depends on the time), the string
-- method `rstrip("/")`, and the dates of a tenant.
pub record Server : Type 0 where
  pub ai_enabled : Bool
  pub ai_custom_base_urls : List String
  pub encrypt : ℕ → String → Option String
  pub decrypt : String → Secret
  pub rstrip_slash : String → String
  pub local_date : ℕ → ℕ → Date

pub record AiDb : Type 0 where
  pub settings : List TenantAiSetting
  pub usage : UsageDb
  pub audit_log : List AuditLog
  pub next_id : ℕ

unfoldable pub is_setting : ℕ → TenantAiSetting → Bool
is_setting tenant_id s = s.tenant_id == tenant_id

-- `_load`
unfoldable pub setting_of : ℕ → AiDb → Option TenantAiSetting
setting_of tenant_id db = find (is_setting tenant_id) db.settings

-- The row of a tenant takes the values of an object; a new object is added.
abbrev store : Option TenantAiSetting → TenantAiSetting → AiDb → AiDb
store none s db = record db { settings = db.settings ++ s ∷ []; next_id = suc db.next_id }
store (some _) s db = record db {
  settings = update_first (is_setting s.tenant_id) (λ _. s) db.settings;
}

unfoldable pub save : TenantAiSetting → AiDb → AiDb
save s db = store (setting_of s.tenant_id db) s db

unfoldable pub audit : AccessClaims → String → ℕ → Tx AiDb (Unit {0})
audit actor action id = modify (λ db. record db {
  audit_log =
      db.audit_log
      ++ record {
        tenant_id = actor.tenant_id;
        actor_user_id = some actor.user_id;
        action = action;
        entity_id = id;
      }
        ∷ [];
})

abbrev length_of : String → ℕ
length_of String.[] = 0
length_of (String.◌∷◌ c s) = suc (length_of s)

abbrev without_first : ℕ → String → String
without_first zero s = s
without_first (suc n) String.[] = String.[]
without_first (suc n) (String.◌∷◌ c s) = without_first n s

-- The last four characters.
unfoldable pub secret_hint : String → String
secret_hint value = without_first (length_of value - 4) value

-- `PROVIDER_BASE_URLS`; a custom provider has none.
abbrev pub provider_base_url : AiProvider → Option String
provider_base_url AiProvider.deepseek = some "https://api.deepseek.com"
provider_base_url AiProvider.openai = some "https://api.openai.com/v1"
provider_base_url AiProvider.openrouter = some "https://openrouter.ai/api/v1"
provider_base_url AiProvider.custom = none

abbrev pub default_base_url : String
default_base_url = "https://api.deepseek.com"

abbrev pub default_model : String
default_model = "deepseek-flash"
