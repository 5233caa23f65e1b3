-- ===== src/AiSettings/Connection.antt =====
-- backend/app/services/ai_settings.py: the test of a connection. The row that is read before the call
-- of the provider is not locked; the row is read again, under a lock, when the answer is there. That
-- second query is of the same session and does not ask for `populate_existing`, so SQLAlchemy hands
-- out the object that the first query made, as it was then, and writes only what changes in it.
use hrus.Base.{
  ◌≡◌, refl, ℕ, Bool, true, false, not, ◌&&◌, Option, none, some, String, str_eq, ◌==◌,
  if◌then◌else◌, update_first,
}
use text.Mathlib.TextPositions.{eq_refl}
use hrus.Errors.{Code, Result, ok, err, rule_violation}
use hrus.Tx.{Tx, pure, gets, modify, lift, or_raise, raise_if, ◌>>=◌, ◌>>◌}
use hrus.Models.Auth.{AccessClaims}
use hrus.Db.{Env}
use hrus.AiUsage.{Reported, record_usage}
use hrus.AiSettings.{
  AiProvider, TenantAiSetting, Secret, not_configured, unreadable, opened, Server, AiDb, is_setting,
  setting_of, audit, provider_name,
}

pub record LlmCredentials : Type 0 where
  pub provider : AiProvider
  pub base_url : String
  pub model : String
  pub api_key : String

-- `tested`: the key, the URL and the model that the test was made with.
pub record Tested : Type 0 where
  pub api_key_ciphertext : Option String
  pub base_url : String
  pub model : String

pub record AiConnectionTestResult : Type 0 where
  pub success : Bool
  pub provider : AiProvider
  pub model : String
  pub key_verified_at : Option ℕ

abbrev pub tested_of : TenantAiSetting → Tested
tested_of s = record {
  api_key_ciphertext = s.api_key_ciphertext;
  base_url = s.base_url;
  model = s.model;
}

abbrev pub same_text : Option String → Option String → Bool
same_text none none = true
same_text (some s) (some t) = str_eq s t
same_text _ _ = false

abbrev pub same_tested : Tested → Tested → Bool
same_tested s t =
    same_text s.api_key_ciphertext t.api_key_ciphertext
    && str_eq s.base_url t.base_url
    && str_eq s.model t.model

same_text_refl : (t : Option String) → same_text t t ≡ true
same_text_refl none = refl
same_text_refl (some s) = eq_refl s

pub same_tested_refl : (t : Tested) → same_tested t t ≡ true
same_tested_refl t =
    rw (same_text_refl t.api_key_ciphertext, eq_refl t.base_url, eq_refl t.model) refl

abbrev with_key : TenantAiSetting → Secret → Result LlmCredentials
with_key s not_configured = err (rule_violation Code.ai_secret_not_configured)
with_key s unreadable = err (rule_violation Code.ai_key_unreadable)
with_key s (opened key) =
    ok (record { provider = s.provider; base_url = s.base_url; model = s.model; api_key = key })

abbrev decrypted : Server → TenantAiSetting → Option String → Result LlmCredentials
decrypted server s none = err (rule_violation Code.ai_no_api_key)
decrypted server s (some text) =
    if str_eq text ""
    then err (rule_violation Code.ai_no_api_key)
    else with_key s (server.decrypt text)

-- `_credentials`; without a key, the error of the test.
abbrev pub credentials : Server → Option TenantAiSetting → Result LlmCredentials
credentials server none = err (rule_violation Code.ai_no_api_key)
credentials server (some s) = decrypted server s s.api_key_ciphertext

abbrev pub with_setting :
    Option TenantAiSetting → Result LlmCredentials → Result (TenantAiSetting × LlmCredentials)
with_setting none c = err (rule_violation Code.ai_no_api_key)
with_setting (some s) (ok c) = ok (s, c)
with_setting (some s) (err e) = err e

-- The test up to the call: the row's object, and what is sent.
unfoldable pub begin_test : Server → ℕ → AiDb → Result (TenantAiSetting × LlmCredentials)
begin_test server tenant_id db =
    if server.ai_enabled
    then with_setting (setting_of tenant_id db) (credentials server (setting_of tenant_id db))
    else err (rule_violation Code.ai_disabled)

-- The second `_load`: none without a row, and otherwise the session's object of that row.
abbrev pub reloaded : TenantAiSetting → Option TenantAiSetting → Option TenantAiSetting
reloaded held none = none
reloaded held (some row) = some held

abbrev pub same_time : Option ℕ → Option ℕ → Bool
same_time none none = true
same_time (some a) (some b) = a == b
same_time _ _ = false

abbrev pub with_verified : Option ℕ → TenantAiSetting → TenantAiSetting
with_verified value s = record s { key_verified_at = value }

-- The flush of `key_verified_at`: the row of the database gets the value where the object's changes.
unfoldable pub write_verified : TenantAiSetting → Option ℕ → AiDb → AiDb
write_verified held value db = if same_time held.key_verified_at value then db else record db {
  settings = update_first (is_setting held.tenant_id) (with_verified value) db.settings;
}

abbrev pub use_of :
    Server → Env → ℕ → AccessClaims → TenantAiSetting → Option Reported → Bool → AiDb → AiDb
use_of server env began actor s usage success db = record db {
  usage =
      record_usage server.local_date began env.now
        (record {
          tenant_id = actor.tenant_id;
          feature = "connection_test";
          provider = provider_name s.provider;
          model = s.model;
          user_id = some actor.user_id;
          usage = usage;
          success = success;
        })
        db.usage;
}

-- The rest of the test, where the call failed; `held` is the object of the first query, and `began`
-- the time at which the transaction began.
unfoldable pub finish_failed :
    Server → Env → ℕ → AccessClaims → TenantAiSetting → Tx AiDb AiConnectionTestResult
finish_failed server env began actor held = do
  found ← gets (setting_of actor.tenant_id)
  s ← or_raise (rule_violation Code.ai_no_api_key) (reloaded held found)
  modify (write_verified s none)
  modify (use_of server env began actor s none false)
  pure (record { success = false; provider = s.provider; model = s.model; key_verified_at = none })

-- The rest of the test, where the provider answered.
unfoldable pub finish_answered :
    Server
    → Env
    → ℕ
    → AccessClaims
    → TenantAiSetting
    → Option Reported
    → Tx AiDb AiConnectionTestResult
finish_answered server env began actor held usage = do
  found ← gets (setting_of actor.tenant_id)
  s ← or_raise (rule_violation Code.ai_setting_changed) (reloaded held found)
  raise_if (not (same_tested (tested_of s) (tested_of held)))
      (rule_violation Code.ai_setting_changed)
  modify (write_verified s (some env.now))
  modify (use_of server env began actor s usage true)
  audit actor "ai_setting.verified" s.id
  pure (record {
    success = true;
    provider = s.provider;
    model = s.model;
    key_verified_at = some env.now;
  })

-- What comes back from the gateway: an AiGatewayError, or an answer with its usage.
pub data Reply : Type 0 where
  gateway_error : Reply
  answered : Option Reported → Reply

abbrev pub finish :
    Server → Env → ℕ → AccessClaims → TenantAiSetting → Reply → Tx AiDb AiConnectionTestResult
finish server env began actor held gateway_error = finish_failed server env began actor held
finish server env began actor held (answered usage) =
    finish_answered server env began actor held usage

-- The whole test, on tables that no one else changes meanwhile.
unfoldable pub test_connection :
    Server → Env → ℕ → AccessClaims → Reply → Tx AiDb AiConnectionTestResult
test_connection server env began actor reply = do
  (held, sent) ← λ db. lift (begin_test server actor.tenant_id db) db
  finish server env began actor held reply
