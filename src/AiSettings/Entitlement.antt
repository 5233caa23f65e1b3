-- ===== src/AiSettings/Entitlement.antt =====
-- backend/app/entitlement/service.py and deps.py: which features a tenant has.
use hrus.Base.{
  ℕ, Bool, true, false, not, Option, none, some, List, [], ◌∷◌, String, str_eq, leb, if◌then◌else◌,
  any, filter, is_some,
}
use hrus.Errors.{Code, AppError, Result, ok, err, forbidden}
use hrus.AiUsage.{month_of, month_tokens}
use hrus.AiSettings.{
  AiFeature, Feature, as_ai_feature, feature_value, TenantAiSetting, Server, AiDb, setting_of,
}

pub data AiReadiness : Type 0 where
  ready ai_disabled no_api_key consent_required key_not_verified limit_reached : AiReadiness

pub record AiStatus : Type 0 where
  pub status : AiReadiness
  pub active_features : List AiFeature

-- The truth of an optional text: it is there and not empty.
abbrev pub is_filled : Option String → Bool
is_filled none = false
is_filled (some s) = not (str_eq s "")

unfoldable pub readiness_of : TenantAiSetting → AiReadiness
readiness_of s =
    if not (is_filled s.api_key_ciphertext)
    then no_api_key
    else if not (is_some s.consent_accepted_at)
    then consent_required
    else if not (is_some s.key_verified_at)
    then key_not_verified
    else ready

abbrev pub readiness_for : Option TenantAiSetting → AiReadiness
readiness_for none = no_api_key
readiness_for (some s) = readiness_of s

-- `readiness`, with `settings.ai_enabled`
unfoldable pub readiness : Option TenantAiSetting → Bool → AiReadiness
readiness setting false = ai_disabled
readiness setting true = readiness_for setting

abbrev pub features : List AiFeature
features =
    AiFeature.ai_assistant ∷ AiFeature.ai_form_validation ∷ AiFeature.ai_policy_qa
    ∷ AiFeature.ai_reporting_agent ∷ AiFeature.ai_team_summary ∷ []

abbrev pub is_enabled : TenantAiSetting → AiFeature → Bool
is_enabled s f = any (str_eq (feature_value f)) s.enabled_features

abbrev pub limited : Option ℕ → ℕ → Bool
limited none tokens = false
limited (some limit) tokens = leb limit tokens

-- `{AiFeature(f) for f in setting.enabled_features if f in set(AiFeature)}`
abbrev pub ready_status : TenantAiSetting → Bool → AiStatus
ready_status s true = record { status = limit_reached; active_features = [] }
ready_status s false = record { status = ready; active_features = filter (is_enabled s) features }

abbrev pub status_of : Option TenantAiSetting → AiReadiness → ℕ → AiStatus
status_of (some s) ready tokens = ready_status s (limited s.monthly_token_limit tokens)
status_of _ state tokens = record { status = state; active_features = [] }

-- The tokens of the tenant in the current month.
abbrev pub tokens_now : Server → ℕ → ℕ → AiDb → ℕ
tokens_now server now tenant_id db =
    month_tokens tenant_id (month_of server.local_date tenant_id now) db.usage

unfoldable pub ai_status : Server → ℕ → ℕ → AiDb → AiStatus
ai_status server now tenant_id db =
    let setting = setting_of tenant_id db in
    status_of setting (readiness setting server.ai_enabled) (tokens_now server now tenant_id db)

abbrev pub is_active : AiFeature → List AiFeature → Bool
is_active f active = any (λ g. str_eq (feature_value g) (feature_value f)) active

abbrev pub enabled_for : Option AiFeature → AiStatus → Bool
enabled_for none status = true
enabled_for (some f) status = is_active f status.active_features

unfoldable pub is_feature_enabled : Server → ℕ → ℕ → Feature → AiDb → Bool
is_feature_enabled server now tenant_id feature db =
    enabled_for (as_ai_feature feature) (ai_status server now tenant_id db)

abbrev refusal : AiReadiness → AppError
refusal limit_reached = forbidden Code.ai_limit_reached
refusal _ = forbidden Code.feature_not_enabled

-- `require_feature`
unfoldable pub require_feature : Server → ℕ → ℕ → Feature → AiDb → Result (Unit {0})
require_feature server now tenant_id feature db =
    let status = ai_status server now tenant_id db in
    if enabled_for (as_ai_feature feature) status then ok tt else err (refusal status.status)
