-- ===== src/Tests/Scheduler.antt =====
-- backend/app/jobs/scheduler.py with one schedule that is due.
use hrus.Base.{ℕ, ◌+◌, ◌≡◌, ◌<◌, ◌≤◌, true, none, [], ◌∷◌, String, arith, count}
use hrus.Errors.{ok}
use hrus.Tx.{Commits, Yields}
use hrus.Jobs.Active.{IsSingle}
use hrus.Jobs.Schedules.{IsUnique, ensure_default_schedules, ensure_default_schedules-again}
use hrus.Jobs.Scheduler.{SchedulerDb, WorkKind, is_schedule, empty_result, fire_schedule, tick}
use hrus.Jobs.Scheduler.Ticks.{tick-IsSingle}
use hrus.Jobs.Scheduler.Fires.{fire_schedule-again}
use hrus.Tests.Jobs.{defs, empty, empty-IsSingle}

abbrev next_fire : String → String → ℕ → ℕ
next_fire cron zone now = now + 10

abbrev state : SchedulerDb ℕ
state = record {
  jobs = empty;
  schedules =
      record {
        id = 4;
        tenant_id = 1;
        job_code = "counting";
        cron = "0 1 * * *";
        timezone = "Asia/Jakarta";
        params = "";
        is_active = true;
        next_run_at = 5;
        last_run_at = none;
      }
      ∷ [];
}

tick-IsSingle_example :
    Commits
      (λ db'. IsSingle db'.jobs)
      (tick next_fire defs 6 true
        (record { kind = WorkKind.schedule; tenant_id = 1; item_id = 4 } ∷ [])
        state)
tick-IsSingle_example =
    tick-IsSingle next_fire defs 6 true
      (record { kind = WorkKind.schedule; tenant_id = 1; item_id = 4 } ∷ []) state empty-IsSingle

one_schedule : count (is_schedule 1 4) state.schedules ≤ 1
unfolding count is_schedule
one_schedule = omega arith

next_fire-after : (cron zone : String) → 6 < next_fire cron zone 6
next_fire-after cron zone = omega arith

fire_schedule-again_example :
    Yields
      (λ _ db'.
        fire_schedule next_fire defs 6 1 4 (empty_result true) db' ≡ ok (empty_result true, db'))
      (fire_schedule next_fire defs 6 1 4 (empty_result true) state)
fire_schedule-again_example =
    fire_schedule-again next_fire defs 6 next_fire-after 1 4 state one_schedule (empty_result true)
      (empty_result true)

none_yet : IsUnique ([], 7)
unfolding count
none_yet t code = omega arith

ensure_default_schedules-again_example :
    IsUnique (ensure_default_schedules next_fire 6 1 "UTC" defs ([], 7))
    × (ensure_default_schedules next_fire 9 1 "Asia/Jakarta" defs
          (ensure_default_schedules next_fire 6 1 "UTC" defs ([], 7))
        ≡ ensure_default_schedules next_fire 6 1 "UTC" defs ([], 7))
ensure_default_schedules-again_example =
    ensure_default_schedules-again next_fire 6 9 1 "UTC" "Asia/Jakarta" defs ([], 7) none_yet
