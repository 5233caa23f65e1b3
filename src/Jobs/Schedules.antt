-- ===== src/Jobs/Schedules.antt =====
-- backend/app/services/jobs.py, `ensure_default_schedules`: the schedules that a new tenant is given.
use hrus.Base.{
  str_eq→eq, ℕ, suc, ◌≡◌, refl, ◌∙◌, ◌≤◌, Bool, true, false, ◌&&◌, ◌||◌, Option, none, some, List,
  [], ◌∷◌, ◌++◌, String, str_eq, ◌==◌, arith, All, if◌then◌else◌, any, any-append, any-count, count,
  count-append, Bool-cases, inl, inr, eqb_refl,
}
use text.Mathlib.TextPositions.{eq_refl}
use mathlib.Core.Path.{subst₂}
use hrus.Models.Jobs.{JobSchedule, JobDefinition}

unfoldable pub is_schedule_of : ℕ → String → JobSchedule → Bool
is_schedule_of tenant_id job_code s = s.tenant_id == tenant_id && str_eq s.job_code job_code

-- The schedules, and the next fresh id.
abbrev pub Schedules : Type 0
Schedules = List JobSchedule × ℕ

module _ (next_fire : String → String → ℕ → ℕ) (now tenant_id : ℕ) (timezone : String) where
  abbrev pub default_schedule : ℕ → String → String → JobSchedule
  default_schedule id code cron = record {
    id = id;
    tenant_id = tenant_id;
    job_code = code;
    cron = cron;
    timezone = timezone;
    params = "{}";
    is_active = true;
    next_run_at = next_fire cron timezone now;
    last_run_at = none;
  }

  -- `on_conflict_do_nothing` on the tenant and the job code.
  abbrev pub insert_default : String → Option String → Schedules → Schedules
  insert_default code none s = s
  insert_default code (some cron) (ss, id) =
      if any (is_schedule_of tenant_id code) ss
      then (ss, id)
      else (ss ++ default_schedule id code cron ∷ [], suc id)

  unfoldable pub ensure_default_schedules :
      {W : Type 0} → List (JobDefinition W) → Schedules → Schedules
  ensure_default_schedules [] s = s
  ensure_default_schedules (d ∷ ds) s =
      ensure_default_schedules ds (insert_default d.code d.default_cron s)

-- A job that has a default has a schedule.
abbrev HasDefault : ℕ → String → Option String → Schedules → Type 0
HasDefault tenant_id code none s = Unit
HasDefault tenant_id code (some cron) s = any (is_schedule_of tenant_id code) s.0 ≡ true

-- A tenant has one schedule of a job at most.
abbrev pub IsUnique : Schedules → Type 0
IsUnique s = (t : ℕ) (code : String) → count (is_schedule_of t code) s.0 ≤ 1

either_way : (a : Bool) {b : Bool} → b ≡ true → (a || b) ≡ true
either_way a h = ground (arith, h)

same_key :
    (t t' : ℕ) (code : String) (s : JobSchedule)
    → is_schedule_of t' code s ≡ true
    → (s.tenant_id ≡ t') × (s.job_code ≡ code)
unfolding is_schedule_of
same_key t t' code s h = (ground (arith, h), str_eq→eq s.job_code code (ground (arith, h)))

module _ (next_fire : String → String → ℕ → ℕ) (now t : ℕ) (zone : String) where
  abbrev insert : String → Option String → Schedules → Schedules
  insert = insert_default next_fire now t zone

  own :
      (id : ℕ) (code cron : String)
      → any (is_schedule_of t code) (default_schedule next_fire now t zone id code cron ∷ []) ≡ true
  unfolding any is_schedule_of
  own id code cron = rw (eqb_refl t, eq_refl code) refl

  insert-has :
      (code : String) (cron : Option String) (s : Schedules)
      → HasDefault t code cron (insert code cron s)
  insert-has code none s = tt
  insert-has code (some cron) s = elim (Bool-cases (any (is_schedule_of t code) s.0)) [
    | inl there ↦ rw there there
    | inr fresh ↦ rw fresh (added s.0 s.1)
  ]
    where
      added :
          (ss : List JobSchedule) (id : ℕ)
          → any
              (is_schedule_of t code)
              (ss ++ default_schedule next_fire now t zone id code cron ∷ [])
            ≡ true
      added ss id =
          any-append (is_schedule_of t code) ss
            (default_schedule next_fire now t zone id code cron ∷ [])
          ∙ either_way (any (is_schedule_of t code) ss) (own id code cron)

  insert-keeps :
      (code : String) (cron : Option String) (s : Schedules) (code' : String)
      (cron' : Option String)
      → HasDefault t code' cron' s
      → HasDefault t code' cron' (insert code cron s)
  insert-keeps code none s code' cron' h = h
  insert-keeps code (some cron) s code' none h = tt
  insert-keeps code (some cron) s code' (some cron') h =
      elim (Bool-cases (any (is_schedule_of t code) s.0)) [
        | inl there ↦ rw there h
        | inr fresh ↦ rw fresh (
            any-append (is_schedule_of t code') s.0
              (default_schedule next_fire now t zone s.1 code cron ∷ [])
            ∙ rw h refl)
      ]

  insert-fixed :
      (code : String) (cron : Option String) (s : Schedules)
      → HasDefault t code cron s
      → insert code cron s ≡ s
  insert-fixed code none s h = refl
  insert-fixed code (some cron) s h = rw h refl

  one_more :
      (code cron : String) (ss : List JobSchedule) (id t' : ℕ) (code' : String)
      → any (is_schedule_of t code) ss ≡ false
      → count (is_schedule_of t' code') ss ≤ 1
      → count
          (is_schedule_of t' code')
          (ss ++ default_schedule next_fire now t zone id code cron ∷ [])
        ≤ 1
  unfolding count
  one_more code cron ss id t' code' fresh u =
      let d = default_schedule next_fire now t zone id code cron in
      let appended = count-append (is_schedule_of t' code') ss (d ∷ []) in
      elim (Bool-cases (is_schedule_of t' code' d)) [
        | inl same ↦
            let keys = same_key t t' code' d same in
            let gone : any (is_schedule_of t' code') ss ≡ false =
              subst₂ (λ (j : ℕ) (k : String). any (is_schedule_of j k) ss ≡ false) keys.0 keys.1
                fresh in
            ground (arith, appended, any-count (is_schedule_of t' code') ss gone, same)
        | inr other ↦ ground (arith, appended, other, u)
      ]

  insert-IsUnique :
      (code : String) (cron : Option String) (s : Schedules)
      → IsUnique s
      → IsUnique (insert code cron s)
  insert-IsUnique code none s u = u
  insert-IsUnique code (some cron) s u = elim (Bool-cases (any (is_schedule_of t code) s.0)) [
    | inl there ↦ rw there u
    | inr fresh ↦ rw fresh (λ t' code'. one_more code cron s.0 s.1 t' code' fresh (u t' code'))
  ]

  module _ {W : Type 0} where
    abbrev ensure : List (JobDefinition W) → Schedules → Schedules
    ensure = ensure_default_schedules next_fire now t zone

    ensure-keeps :
        (ds : List (JobDefinition W)) (s : Schedules) (code : String) (cron : Option String)
        → HasDefault t code cron s
        → HasDefault t code cron (ensure ds s)
    unfolding ensure_default_schedules
    ensure-keeps [] s code cron h = h
    ensure-keeps (d ∷ ds) s code cron h =
        ensure-keeps ds (insert d.code d.default_cron s) code cron
          (insert-keeps d.code d.default_cron s code cron h)

    ensure-has :
        (ds : List (JobDefinition W)) (s : Schedules)
        → All (λ d. HasDefault t d.code d.default_cron (ensure ds s)) ds
    unfolding ensure_default_schedules
    ensure-has [] s = tt
    ensure-has (d ∷ ds) s = (
      ensure-keeps ds (insert d.code d.default_cron s) d.code d.default_cron
          (insert-has d.code d.default_cron s),
      ensure-has ds (insert d.code d.default_cron s),
    )

    ensure-fixed :
        (ds : List (JobDefinition W)) (s : Schedules)
        → All (λ d. HasDefault t d.code d.default_cron s) ds
        → ensure ds s ≡ s
    unfolding ensure_default_schedules
    ensure-fixed [] s h = refl
    ensure-fixed (d ∷ ds) s h =
        rw (insert-fixed d.code d.default_cron s h.0) (ensure-fixed ds s h.1)

    ensure-IsUnique :
        (ds : List (JobDefinition W)) (s : Schedules) → IsUnique s → IsUnique (ensure ds s)
    unfolding ensure_default_schedules
    ensure-IsUnique [] s u = u
    ensure-IsUnique (d ∷ ds) s u =
        ensure-IsUnique ds (insert d.code d.default_cron s)
          (insert-IsUnique d.code d.default_cron s u)

-- Giving a tenant its default schedules leaves one schedule for each tenant and job at most, and
-- doing it again, at another time or for another time zone, changes nothing.
pub ensure_default_schedules-again :
    {W : Type 0} (next_fire : String → String → ℕ → ℕ) (now later t : ℕ) (zone zone' : String)
    (ds : List (JobDefinition W)) (s : Schedules)
    → IsUnique s
    → IsUnique (ensure_default_schedules next_fire now t zone ds s)
      × (ensure_default_schedules next_fire later t zone' ds
            (ensure_default_schedules next_fire now t zone ds s)
          ≡ ensure_default_schedules next_fire now t zone ds s)
ensure_default_schedules-again next_fire now later t zone zone' ds s u = (
  ensure-IsUnique next_fire now t zone ds s u,
  ensure-fixed next_fire later t zone' ds (ensure_default_schedules next_fire now t zone ds s)
      (ensure-has next_fire now t zone ds s),
)
