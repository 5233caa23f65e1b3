-- ===== src/Jobs/Scheduler/Ticks.antt =====
-- A tick keeps one active run of each job at most.
use hrus.Base.{
  ℕ, ◌≡◌, ◌≤◌, Bool, true, false, ◌&&◌, Option, none, some, List, [], ◌∷◌, String, arith, count,
  update_first, is_some, Bool-cases, inl, inr,
}
use hrus.Errors.{AppError, Result, ok, err}
use hrus.Tx.{Commits, Commits-bind}
use hrus.Models.Jobs.{
  JobRun, JobRunStatus, JobSchedule, JobDefinition, JobDb, Task, is_queued, is_running,
}
use hrus.Jobs.Service.{is_run, is_active_run, find_definition}
use hrus.Jobs.Active.{IsSingle}
use hrus.Jobs.Single.{create_run-IsSingle}
use hrus.Jobs.Scheduler.{
  SchedulerDb, WorkKind, WorkItem, TickResult, empty_result, schedule_input, mark_fired,
  fire_outcome, fire_found, fire_schedule, touched, touch, requeue_known, requeue_found, requeue,
  resume_known, resume_found, resume, work_on, work_all, tick,
}

abbrev Single : {W : Type 0} → SchedulerDb W → Type 0
Single db = IsSingle db.jobs

count-kept :
    (p q : JobRun → Bool) (f : JobRun → JobRun)
    → ((x : JobRun) → p (f x) ≡ true → p x ≡ true)
    → (xs : List JobRun) → count p (update_first q f xs) ≤ count p xs
unfolding count update_first
count-kept p q f k [] = omega arith
count-kept p q f k (x ∷ xs) = ground (arith, k x, count-kept p q f k xs)

module _ {W : Type 0} (next_fire : String → String → ℕ → ℕ) (defs : List (JobDefinition W))
    (now : ℕ) where
  fire_outcome-IsSingle :
      (s : JobSchedule) (result : TickResult) (db : SchedulerDb W)
      (r : Result ((JobRun × List Task) × JobDb W))
      → Commits IsSingle r
      → Single db
      → Commits Single (fire_outcome next_fire defs now s result db r)
  fire_outcome-IsSingle s result db (ok ((run, tasks), jobs)) c h = c
  fire_outcome-IsSingle s result db (err AppError.unexpected) c h = tt
  fire_outcome-IsSingle s result db (err AppError.not_found) c h = h
  fire_outcome-IsSingle s result db (err (AppError.forbidden e)) c h = h
  fire_outcome-IsSingle s result db (err (AppError.conflict e)) c h = h
  fire_outcome-IsSingle s result db (err (AppError.rule_violation e)) c h = h

  fire_found-IsSingle :
      (o : Option JobSchedule) (result : TickResult) (db : SchedulerDb W)
      → Single db
      → Commits Single (fire_found next_fire defs now o result db)
  unfolding mark_fired
  fire_found-IsSingle none result db h = h
  fire_found-IsSingle (some s) result db h =
      elim (Bool-cases (is_some (find_definition defs s.job_code))) [
        | inl known ↦ rw known (
            fire_outcome-IsSingle s result (mark_fired next_fire defs now s db) _
              (create_run-IsSingle db.jobs defs now s.tenant_id (schedule_input s) h) h)
        | inr gone ↦ rw gone h
      ]

  touched-active :
      (t : ℕ) (code : String) (run : JobRun)
      → is_active_run t code (touched next_fire defs now run) ≡ true
      → is_active_run t code run ≡ true
  unfolding is_active_run
  touched-active t code run h = h

  touch-IsSingle :
      (p : JobRunStatus → Bool) (run : JobRun) (db : SchedulerDb W)
      → Single db
      → Single (touch next_fire defs now p run db)
  unfolding touch
  touch-IsSingle p run db h t code =
      let kept =
        count-kept (is_active_run t code) (λ r. is_run run.tenant_id run.id r && p r.status)
          (touched next_fire defs now) (λ x. touched-active t code x) db.jobs.runs in
      omega (arith, kept, h t code)

  requeue_found-IsSingle :
      (o : Option JobRun) (result : TickResult) (db : SchedulerDb W)
      → Single db
      → Commits Single (requeue_found next_fire defs now o result db)
  requeue_found-IsSingle none result db h = h
  requeue_found-IsSingle (some run) result db h = by_job (find_definition defs run.job_code)
    where
      by_job :
          (d : Option (JobDefinition W))
          → Commits Single (requeue_known next_fire defs now run result d db)
      by_job none = tt
      by_job (some d) = touch-IsSingle is_queued run db h

  resume_found-IsSingle :
      (o : Option JobRun) (result : TickResult) (db : SchedulerDb W)
      → Single db
      → Commits Single (resume_found next_fire defs now o result db)
  resume_found-IsSingle none result db h = h
  resume_found-IsSingle (some run) result db h = by_job (find_definition defs run.job_code)
    where
      by_job :
          (d : Option (JobDefinition W))
          → Commits Single (resume_known next_fire defs now run result d db)
      by_job none = tt
      by_job (some d) = touch-IsSingle is_running run db h

  work_on-IsSingle :
      (item : WorkItem) (result : TickResult) (db : SchedulerDb W)
      → Single db
      → Commits Single (work_on next_fire defs now item result db)
  unfolding fire_schedule requeue resume
  work_on-IsSingle item result db h = by_kind item.kind
    where
      by_kind :
          (k : WorkKind)
          → Commits Single (
              work_on next_fire defs now
                (record { kind = k; tenant_id = item.tenant_id; item_id = item.item_id })
                result
                db)
      by_kind WorkKind.schedule = fire_found-IsSingle _ result db h
      by_kind WorkKind.queued = requeue_found-IsSingle _ result db h
      by_kind WorkKind.stalled = resume_found-IsSingle _ result db h

  work_all-IsSingle :
      (items : List WorkItem) (result : TickResult) (db : SchedulerDb W)
      → Single db
      → Commits Single (work_all next_fire defs now items result db)
  unfolding work_all
  work_all-IsSingle [] result db h = h
  work_all-IsSingle (item ∷ items) result db h =
      Commits-bind Single Single (work_on next_fire defs now item result)
        (λ result'. work_all next_fire defs now items result') db
        (work_on-IsSingle item result db h)
        (λ result' db' h'. work_all-IsSingle items result' db' h')

  -- A tick that commits, whether or not this replica leads and whatever work it is given, leaves one
  -- active run of each job at most, if it was so before.
  pub tick-IsSingle :
      (leader : Bool) (work : List WorkItem) (db : SchedulerDb W)
      → IsSingle db.jobs
      → Commits (λ db'. IsSingle db'.jobs) (tick next_fire defs now leader work db)
  unfolding tick
  tick-IsSingle false work db h = h
  tick-IsSingle true work db h = work_all-IsSingle work (empty_result true) db h
