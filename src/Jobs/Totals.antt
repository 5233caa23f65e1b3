-- ===== src/Jobs/Totals.antt =====
-- backend/app/jobs/runner.py, `finalize`: the counts that a finished run reports.
use hrus.Base.{
  str_eq→eq, ℕ, ◌+◌, ◌≡◌, ◌↔◌, refl, ap, ◌∙◌, Bool, true, false, ◌&&◌, some, List, [], ◌∷◌, String,
  arith, str_eq, if◌then◌else◌, find, filter, sum_by, inl, inr, Bool-cases, find-holds,
  find-update_first_self,
}
use hrus.Models.Jobs.{
  Counts, JobRun, JobRunStatus, JobRunChunk, JobDb, is_active, is_success, is_pending, is_failed,
  is_running,
}
use hrus.Jobs.Service.{is_run, is_chunk_of, change_run, add_log}
use hrus.Jobs.Active.{is_run_ids}
use hrus.Jobs.Execute.{
  add_count, merge_counts, total_counts, count_status, finalize, finished_run, verdict,
}

-- The number that a counter holds for a key.
unfoldable pub amount : String → Counts → ℕ
amount k cs = sum_by (λ (e : String × ℕ). if str_eq e.0 k then e.1 else 0) cs

add_count-amount :
    (k j : String) (n : ℕ) (cs : Counts)
    → amount k (add_count j n cs) ≡ amount k cs + (if str_eq j k then n else 0)
unfolding amount add_count sum_by
add_count-amount k j n [] = omega arith
add_count-amount k j n ((l, m) ∷ cs) = elim (Bool-cases (str_eq l j)) [
  | inl e ↦ rw (e, str_eq→eq l j e) (ground arith)
  | inr e ↦ rw e (omega (arith, add_count-amount k j n cs))
]

merge_counts-amount :
    (k : String) (totals cs : Counts)
    → amount k (merge_counts totals cs) ≡ amount k totals + amount k cs
unfolding merge_counts amount sum_by
merge_counts-amount k totals [] = omega arith
merge_counts-amount k totals ((j, n) ∷ cs) =
    omega (arith, merge_counts-amount k (add_count j n totals) cs, add_count-amount k j n totals)

-- Merging the outputs of chunks adds up, key by key, to what each of them reports.
pub total_counts-amount :
    (k : String) (totals : Counts) (cs : List JobRunChunk)
    → amount k (total_counts totals cs) ≡ amount k totals + sum_by (λ c. amount k c.output) cs
unfolding total_counts sum_by
total_counts-amount k totals [] = omega arith
total_counts-amount k totals (c ∷ cs) = omega (
  arith,
  total_counts-amount k (merge_counts totals c.output) cs,
  merge_counts-amount k totals c.output,
)

sum_by-filter :
    (w : JobRunChunk → ℕ) (p : JobRunChunk → Bool) (cs : List JobRunChunk)
    → sum_by w (filter p cs) ≡ sum_by (λ c. if p c then w c else 0) cs
unfolding sum_by filter
sum_by-filter w p [] = refl
sum_by-filter w p (c ∷ cs) = ground (arith, sum_by-filter w p cs)

verdict-success : (done failed : ℕ) → (verdict done failed ≡ JobRunStatus.success) ↔ (failed ≡ 0)
unfolding verdict
verdict-success done failed = (ground arith, ground arith)

verdict-over : (done failed : ℕ) → is_active (verdict done failed) ≡ false
unfolding verdict
verdict-over done failed = ground arith

-- What a run reports that `finalize` has finished, of the chunks in `db`.
pub record IsFinished {W : Type 0} (t r : ℕ) (db : JobDb W) (run : JobRun) : Type 0 where
  pub over : is_active run.status ≡ false
  pub success : (run.status ≡ JobRunStatus.success) ↔ (count_status is_failed t r db.chunks ≡ 0)
  pub done : run.chunks_done ≡ count_status is_success t r db.chunks
  pub failed : run.chunks_failed ≡ count_status is_failed t r db.chunks
  pub reported :
      (k : String)
      → amount k run.output
        ≡ sum_by
            (λ c. if is_chunk_of t r c && is_success c.status then amount k c.output else 0)
            db.chunks

module _ {W : Type 0} (now t r : ℕ) (db : JobDb W) where
  abbrev finished : JobRun → JobRun
  finished run =
      finished_run now (count_status is_success t r db.chunks)
        (count_status is_failed t r db.chunks)
        (total_counts [] (filter (λ c. is_chunk_of t r c && is_success c.status) db.chunks)) run

  finished-IsFinished : (run : JobRun) → IsFinished t r db (finished run)
  unfolding sum_by amount
  finished-IsFinished run = record {
    over = verdict-over _ _;
    success = verdict-success _ _;
    done = refl;
    failed = refl;
    reported = λ k. omega (
      arith,
      total_counts-amount k [] (filter (λ c. is_chunk_of t r c && is_success c.status) db.chunks),
      sum_by-filter (λ c. amount k c.output) (λ c. is_chunk_of t r c && is_success c.status)
          db.chunks,
    );
  }

  finish-found :
      (run : JobRun) (f : JobRun → JobRun)
      → find (is_run t r) db.runs ≡ some run
      → ((x : JobRun) → is_run t r x ≡ true → is_run t r (f x) ≡ true)
      → find (is_run t r) (change_run run f db).runs ≡ some (f run)
  unfolding change_run
  finish-found run f h keep =
      let ids = is_run_ids t r run (find-holds (is_run t r) db.runs run h) in
      simp (ids.0, ids.1) (find-update_first_self (is_run t r) f db.runs run keep h)

  finished-keyed : (x : JobRun) → is_run t r x ≡ true → is_run t r (finished x) ≡ true
  unfolding is_run
  finished-keyed x e = e

  finalize-runs :
      (run : JobRun)
      → find (is_run t r) db.runs ≡ some run
      → is_running run.status ≡ true
      → count_status is_pending t r db.chunks ≡ 0
      → (finalize now t r db).runs ≡ (change_run run finished db).runs
  unfolding finalize add_log
  finalize-runs run h running idle =
      let ids = is_run_ids t r run (find-holds (is_run t r) db.runs run h) in
      simp (h, running, ids.0, ids.1, idle) refl

  -- `finalize` on a running run whose chunks are none of them pending: the run is over, it counts as
  -- a success exactly if none of its chunks failed, it counts the chunks that succeeded and that
  -- failed, and for each key it reports the sum of what its successful chunks report.
  pub finalize-IsFinished :
      (run : JobRun)
      → find (is_run t r) db.runs ≡ some run
      → is_running run.status ≡ true
      → count_status is_pending t r db.chunks ≡ 0
      → (run' : JobRun) × (find (is_run t r) (finalize now t r db).runs ≡ some run')
        × IsFinished t r db run'
  finalize-IsFinished run h running idle = (
    finished run,
    ap (find (is_run t r)) (finalize-runs run h running idle)
        ∙ finish-found run finished h (λ x e. finished-keyed x e),
    finished-IsFinished run,
  )
