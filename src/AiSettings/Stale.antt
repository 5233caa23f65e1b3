-- ===== src/AiSettings/Stale.antt =====
-- backend/app/services/ai_settings.py, `test_connection`: what a change of the settings during the
-- call of the provider leads to.
use hrus.Base.{ℕ, ◌≡◌, refl, false, Option, some, find-update_first_self}
use hrus.Errors.{ok}
use hrus.Models.Auth.{AccessClaims}
use hrus.Db.{Env}
use hrus.AiUsage.{Reported}
use hrus.AiSettings.{TenantAiSetting, Server, AiDb, is_setting, setting_of, audit}
use hrus.AiSettings.Connection.{
  AiConnectionTestResult, tested_of, same_tested_refl, same_time, with_verified, write_verified,
  finish_answered,
}

-- When the provider has answered, the tenant's row is marked as verified as it is by then, whatever
-- key, URL and model it has and whatever key, URL and model the test was made with: a change of them
-- during the call is not noticed.
pub finish_answered-unseen :
    (server : Server) (env : Env) (began : ℕ) (actor : AccessClaims)
    (held changed_row : TenantAiSetting) (usage : Option Reported) (db : AiDb)
    → held.tenant_id ≡ actor.tenant_id
    → same_time held.key_verified_at (some env.now) ≡ false
    → setting_of actor.tenant_id db ≡ some changed_row
    → (r : AiConnectionTestResult) × ((db' : AiDb) × (finish_answered server env began actor held
            usage db
          ≡ ok (r, db'))
        × (setting_of actor.tenant_id db' ≡ some (with_verified (some env.now) changed_row)))
unfolding finish_answered write_verified audit setting_of is_setting
finish_answered-unseen server env began actor held row usage db owner fresh found =
    rw (found, same_tested_refl (tested_of held), fresh, owner)
      (
        _,
        (
          _,
          refl,
          find-update_first_self (is_setting actor.tenant_id) (with_verified (some env.now))
              db.settings row (λ y h. h) found,
        ),
      )
