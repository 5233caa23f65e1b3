-- ===== src/Jobs/Scheduler/Fires.antt =====
-- A schedule that is due fires once, however many ticks find it in their work.
use hrus.Base.{
  ℕ, ◌≡◌, refl, ◌≤◌, ◌<◌, true, false, Option, none, some, List, [], ◌∷◌, String, arith, find,
  count, is_some, update_first, Bool-cases, inl, inr, find-holds,
}
use hrus.Errors.{AppError, Result, ok, err}
use hrus.Tx.{Yields, Yields-map}
use hrus.Models.Jobs.{JobRun, JobSchedule, JobDefinition, JobDb, Task}
use hrus.Jobs.Service.{find_definition}
use hrus.Jobs.Scheduler.{
  SchedulerDb, TickResult, mark_fired, fired, is_schedule, is_due, fire_outcome, fire_found,
  fire_schedule,
}

module _ {W : Type 0} (next_fire : String → String → ℕ → ℕ) (defs : List (JobDefinition W))
    (now : ℕ) (advances : (cron zone : String) → now < next_fire cron zone now) where
  fired-not_due : (t i : ℕ) (s : JobSchedule) → is_due t i now (fired next_fire defs now s) ≡ false
  unfolding is_due
  fired-not_due t i s = ground (arith, advances s.cron s.timezone)

  none_due :
      (t i : ℕ) (ss : List JobSchedule)
      → count (is_schedule t i) ss ≡ 0
      → find (is_due t i now) ss ≡ none
  unfolding find count is_due
  none_due t i [] z = refl
  none_due t i (s ∷ ss) z = ground (arith, none_due t i ss)

  only :
      (t i : ℕ) (s : JobSchedule) (ss : List JobSchedule)
      → is_due t i now s ≡ true
      → count (is_schedule t i) (s ∷ ss) ≤ 1
      → count (is_schedule t i) ss ≡ 0
  unfolding is_due count
  only t i s ss due u = ground arith

  fewer :
      (t i : ℕ) (s : JobSchedule) (ss : List JobSchedule)
      → count (is_schedule t i) ss ≤ count (is_schedule t i) (s ∷ ss)
  unfolding count
  fewer t i s ss = ground arith

  -- With one row for an id at most, the row that fired is not due again.
  fired-none :
      (t i : ℕ) (ss : List JobSchedule)
      → count (is_schedule t i) ss ≤ 1
      → find (is_due t i now) (update_first (is_due t i now) (fired next_fire defs now) ss) ≡ none
  unfolding find count update_first
  fired-none t i [] u = refl
  fired-none t i (s ∷ ss) u = elim (Bool-cases (is_due t i now s)) [
    | inl due ↦ rw (due, fired-not_due t i s) (none_due t i ss (only t i s ss due u))
    | inr idle ↦ rw (idle, idle) (fired-none t i ss (omega (arith, fewer t i s ss, u)))
  ]

  is_due-ids :
      (t i : ℕ) (s : JobSchedule) → is_due t i now s ≡ true → (s.tenant_id ≡ t) × (s.id ≡ i)
  unfolding is_due is_schedule
  is_due-ids t i s h = ground arith

  module _ (t i : ℕ) (db : SchedulerDb W) (unique : count (is_schedule t i) db.schedules ≤ 1) where
    -- What a firing commits finds nothing due under the id.
    abbrev Spent : TickResult → SchedulerDb W → Type 0
    Spent result db' = find (is_due t i now) db'.schedules ≡ none

    fire_outcome-Spent :
        (s : JobSchedule) (result : TickResult) (db' : SchedulerDb W)
        (r : Result ((JobRun × List Task) × JobDb W))
        → find (is_due t i now) db'.schedules ≡ none
        → Yields Spent (fire_outcome next_fire defs now s result db' r)
    fire_outcome-Spent s result db' (ok ((run, tasks), jobs)) h = h
    fire_outcome-Spent s result db' (err AppError.unexpected) h = tt
    fire_outcome-Spent s result db' (err AppError.not_found) h = h
    fire_outcome-Spent s result db' (err (AppError.forbidden e)) h = h
    fire_outcome-Spent s result db' (err (AppError.conflict e)) h = h
    fire_outcome-Spent s result db' (err (AppError.rule_violation e)) h = h

    fire_found-Spent :
        (o : Option JobSchedule) (result : TickResult)
        → find (is_due t i now) db.schedules ≡ o
        → Yields Spent (fire_found next_fire defs now o result db)
    unfolding mark_fired
    fire_found-Spent none result h = h
    fire_found-Spent (some s) result h =
        let ids = is_due-ids t i s (find-holds (is_due t i now) db.schedules s h) in
        let spent : find (is_due t i now) (mark_fired next_fire defs now s db).schedules ≡ none =
          rw (ids.0, ids.1) (fired-none t i db.schedules unique) in
        elim (Bool-cases (is_some (find_definition defs s.job_code))) [
          | inl known ↦
              rw known (fire_outcome-Spent s result (mark_fired next_fire defs now s db) _ spent)
          | inr gone ↦ rw gone spent
        ]

    -- Firing a schedule leaves it spent: handling it again at the same time changes nothing, creates
    -- no run and skips none. The next time of a schedule lies ahead, and an id has one row at most.
    pub fire_schedule-again :
        (result again : TickResult)
        → Yields
            (λ _ db'. fire_schedule next_fire defs now t i again db' ≡ ok (again, db'))
            (fire_schedule next_fire defs now t i result db)
    unfolding fire_schedule
    fire_schedule-again result again =
        Yields-map Spent (λ _ db'. fire_schedule next_fire defs now t i again db' ≡ ok (again, db'))
          (fire_found next_fire defs now (find (is_due t i now) db.schedules) result db)
          (λ r db' (spent : Spent r db'). rw spent refl) (fire_found-Spent _ result refl)
