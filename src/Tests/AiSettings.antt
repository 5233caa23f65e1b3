-- ===== src/Tests/AiSettings.antt =====
-- A tenant stores a key and gives consent, tests the connection, and then enables a feature.
use hrus.Base.{◌≡◌, refl, true, false, none, some, [], ◌∷◌, find, any, filter, update_first, sum_by}
use hrus.Errors.{Result, ok, err}
use hrus.Errors.Chain.{◌>>=◌}
use hrus.AiUsage.{month_of, month_tokens, record_usage, upsert, is_counter}
use hrus.AiSettings.{
  AiFeature, Feature, as_ai_feature, Secret, Server, AiDb, is_setting, setting_of, save, audit,
  secret_hint,
}
use hrus.AiSettings.Entitlement.{readiness_of, readiness, ai_status, is_feature_enabled}
use hrus.AiSettings.Changes.{
  AiSettingsUpdate, changed, set_provider, resolve_base_url, resolve_for, not_allowed,
  change_provider, place_url, set_model, clear_key, set_key, encrypted, set_consent, set_features,
  ensure_ready, not_ready,
}
use hrus.AiSettings.Update.{update_ai_settings}
use hrus.AiSettings.Connection.{
  Tested, answered, begin_test, write_verified, finish_answered, test_connection,
}
use hrus.AiSettings.Reach.{World, Step, Reach}
use hrus.AiSettings.Granted.{IsGranted, is_feature_enabled-IsGranted}
use hrus.Tests.Rules.{day}
use hrus.Tests.CoreHr.{env, boss}

abbrev server : Server
server = record {
  ai_enabled = true;
  ai_custom_base_urls = [];
  encrypt = λ now key. some key;
  decrypt = Secret.opened;
  rstrip_slash = λ url. url;
  local_date = λ tenant_id now. day 2026 4 1;
}

abbrev key_sent : AiSettingsUpdate
key_sent = record {
  provider = none;
  base_url = none;
  model = none;
  api_key = some "sk-12345";
  clear_api_key = false;
  enabled_features = none;
  monthly_token_limit = some (some 1000);
  consent_accepted = some true;
}

abbrev feature_sent : AiSettingsUpdate
feature_sent = record {
  provider = none;
  base_url = none;
  model = none;
  api_key = none;
  clear_api_key = false;
  enabled_features = some (AiFeature.ai_assistant ∷ []);
  monthly_token_limit = none;
  consent_accepted = none;
}

-- The state of a call that commits.
abbrev state_of : {A S : Type 0} → S → Result (A × S) → S
state_of other (ok (a, s)) = s
state_of other (err e) = other

abbrev empty : AiDb
empty = record {
  settings = [];
  usage = record { log = []; counters = [] };
  audit_log = [];
  next_id = 60;
}

abbrev start : World
start = record { db = empty; passed = [] }

abbrev tested : Tested
tested = record {
  api_key_ciphertext = some "sk-12345";
  base_url = "https://api.deepseek.com";
  model = "deepseek-flash";
}

abbrev stored : AiDb
stored = state_of empty (update_ai_settings server env boss key_sent empty)

abbrev verified : AiDb
verified = state_of empty (test_connection server env 5 boss (answered none) stored)

abbrev chosen : AiDb
chosen = state_of empty (update_ai_settings server env boss feature_sent verified)

abbrev after : World
after = record { db = chosen; passed = tested ∷ [] }

calls : Reach server start after
unfolding update_ai_settings changed set_provider resolve_base_url resolve_for not_allowed
    change_provider place_url set_model clear_key set_key encrypted set_consent set_features
    ensure_ready not_ready ai_status readiness readiness_of setting_of is_setting save audit
    begin_test test_connection write_verified finish_answered secret_hint ◌>>=◌ find any filter
    update_first month_of month_tokens record_usage upsert is_counter
calls =
    Reach.next
      (Reach.next (Reach.next Reach.here (Step.update start env boss key_sent _ stored refl))
        (Step.test (record start { db = stored }) env 5 boss (answered none) _ verified refl))
      (Step.update (record { db = verified; passed = tested ∷ [] }) env boss feature_sent _ chosen
        refl)

enabled : is_feature_enabled server 9 1 Feature.assistant chosen ≡ true
unfolding is_feature_enabled as_ai_feature update_ai_settings changed set_provider resolve_base_url
    resolve_for not_allowed change_provider place_url set_model clear_key set_key encrypted
    set_consent set_features ensure_ready not_ready ai_status readiness readiness_of setting_of
    is_setting save audit begin_test test_connection write_verified finish_answered secret_hint
    ◌>>=◌ find any filter update_first month_of month_tokens record_usage upsert is_counter sum_by
enabled = refl

is_assistant : as_ai_feature Feature.assistant ≡ some AiFeature.ai_assistant
unfolding as_ai_feature
is_assistant = refl

is_feature_enabled-IsGranted_example :
    IsGranted server 9 1 AiFeature.ai_assistant (tested ∷ []) chosen
is_feature_enabled-IsGranted_example =
    is_feature_enabled-IsGranted server 9 1 Feature.assistant AiFeature.ai_assistant start after
      refl calls is_assistant enabled
