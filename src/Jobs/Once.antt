-- ===== src/Jobs/Once.antt =====
-- backend/app/jobs/runner.py: what an execution of a chunk commits, and what a second delivery of
-- the same chunk's task finds.
use hrus.Base.{
  ℕ, ◌≡◌, refl, ◌≤◌, Bool, true, ◌&&◌, Option, none, some, List, String, arith, find, find-holds,
  count, inl, inr, find-update_first_unique, update_first, Bool-cases,
}
use mathlib.Core.Path.{subst}
use hrus.Models.Jobs.{
  JobRun, JobRunChunk, JobDefinition, JobDb, Outcome, Counts, is_pending, is_running,
}
use hrus.Jobs.Service.{is_run, find_definition, add_log, change_run, is_chunk_of}
use hrus.Jobs.Execute.{
  Execution, skipped, executed, crashed, is_chunk, change_chunk, succeeded, execute_chunk,
  execute_found, execute_run, execute_known, execute_with, store, run_chunk, finalize,
  finalize_running, finalize_found, ChunkOutcome,
}

is_chunk_ids :
    (t r i : ℕ) (c : JobRunChunk)
    → is_chunk t r i c ≡ true
    → (c.tenant_id ≡ t) × (c.job_run_id ≡ r) × (c.id ≡ i)
unfolding is_chunk is_chunk_of
is_chunk_ids t r i c h = ground arith

&&-left : (a b : Bool) → (a && b) ≡ true → a ≡ true
&&-left a b h = ground arith

-- What holds of the state that an execution commits.
abbrev pub Commits : {W : Type 0} → (JobDb W → Type 0) → Execution W → Type 0
Commits P skipped = Unit
Commits P (executed db) = P db
Commits P (crashed e) = Unit

-- A committed execution of the chunk `c` of `run`.
pub record IsCommitted {W : Type 0} (now : ℕ) (run : JobRun) (c : JobRunChunk) (db db' : JobDb W)
    : Type 0 where
  pub counts : Counts
  pub chunks :
      db'.chunks
      ≡ update_first (is_chunk c.tenant_id c.job_run_id c.id) (succeeded now counts) db.chunks
  pub runs : db'.runs ≡ db.runs
  pub kept : run.dry_run ≡ true → db'.world ≡ db.world

module _ {W : Type 0} (defs : List (JobDefinition W)) (now : ℕ) where
  store-IsCommitted :
      (run : JobRun) (c : JobRunChunk) (db : JobDb W) (o : Outcome (W × Counts))
      → Commits (IsCommitted now run c db) (store defs now run c db o)
  unfolding change_chunk
  store-IsCommitted run c db (Outcome.raised e) = tt
  store-IsCommitted run c db (Outcome.done (w, counts)) = record {
    counts = counts;
    chunks = refl;
    runs = refl;
    kept = λ e. rw e;
  }

  execute_with-IsCommitted :
      (run : JobRun) (c : JobRunChunk) (db : JobDb W) (d : JobDefinition W) (o : Option String)
      → Commits (IsCommitted now run c db) (execute_with defs now run c db d o)
  execute_with-IsCommitted run c db d none = tt
  execute_with-IsCommitted run c db d (some params) = store-IsCommitted run c db _

  execute_known-IsCommitted :
      (run : JobRun) (c : JobRunChunk) (db : JobDb W) (o : Option (JobDefinition W))
      → Commits (IsCommitted now run c db) (execute_known defs now run c db o)
  execute_known-IsCommitted run c db none = tt
  execute_known-IsCommitted run c db (some d) = execute_with-IsCommitted run c db d _

  module _ (t r i : ℕ) (db : JobDb W) where
    abbrev pub in_queue : JobRunChunk → Bool
    in_queue c = is_chunk t r i c && is_pending c.status

    -- The same, with the row that was found.
    pub record IsWorked (db' : JobDb W) : Type 0 where
      pub chunk : JobRunChunk
      pub run : JobRun
      pub was_pending : find in_queue db.chunks ≡ some chunk
      pub of_run : find (is_run t r) db.runs ≡ some run
      pub committed : IsCommitted now run chunk db db'

    worked :
        (c : JobRunChunk) (run : JobRun) (e : Execution W)
        → find in_queue db.chunks ≡ some c
        → find (is_run t r) db.runs ≡ some run
        → Commits (IsCommitted now run c db) e
        → Commits IsWorked e
    worked c run skipped h k p = tt
    worked c run (crashed x) h k p = tt
    worked c run (executed db') h k p = record {
      chunk = c;
      run = run;
      was_pending = h;
      of_run = k;
      committed = p;
    }

    execute_run-IsWorked :
        (c : JobRunChunk) (o : Option JobRun)
        → find in_queue db.chunks ≡ some c
        → find (is_run t r) db.runs ≡ o
        → Commits IsWorked (execute_run defs now c db o)
    execute_run-IsWorked c none h k = tt
    execute_run-IsWorked c (some run) h k = elim (Bool-cases (is_running run.status)) [
      | inl e ↦ rw e (
          worked c run _ h k
            (execute_known-IsCommitted run c db (find_definition defs run.job_code)))
      | inr e ↦ rw e tt
    ]

    execute_found-IsWorked :
        (o : Option JobRunChunk)
        → find in_queue db.chunks ≡ o
        → Commits IsWorked (execute_found defs now t r db o)
    execute_found-IsWorked none h = tt
    execute_found-IsWorked (some c) h = execute_run-IsWorked c _ h refl

    pub execute_chunk-IsWorked : Commits IsWorked (execute_chunk defs now t r i db)
    unfolding execute_chunk
    execute_chunk-IsWorked = execute_found-IsWorked _ refl

    -- The query of the chunk finds nothing in the committed state.
    none_left-chunks :
        (c : JobRunChunk) (counts : Counts)
        → count (is_chunk t r i) db.chunks ≤ 1
        → find in_queue db.chunks ≡ some c
        → find in_queue
            (update_first (is_chunk c.tenant_id c.job_run_id c.id) (succeeded now counts) db.chunks)
          ≡ none
    none_left-chunks c counts unique h =
        let ids = is_chunk_ids t r i c (&&-left _ _ (find-holds in_queue db.chunks c h)) in
        rw (ids.0, ids.1, ids.2)
          (find-update_first_unique (is_chunk t r i) (λ y. is_pending y.status)
            (succeeded now counts) db.chunks c h unique refl)

    none_left :
        (db' : JobDb W)
        → count (is_chunk t r i) db.chunks ≤ 1
        → IsWorked db'
        → find in_queue db'.chunks ≡ none
    none_left db' unique w =
        rw (w.committed.chunks) (none_left-chunks w.chunk w.committed.counts unique w.was_pending)

-- `finalize` changes neither the chunks nor the business data.
pub record IsSettled {W : Type 0} (db db' : JobDb W) : Type 0 where
  pub chunks : db'.chunks ≡ db.chunks
  pub world : db'.world ≡ db.world

module _ {W : Type 0} (now t r : ℕ) where
  finalize_running-IsSettled :
      (run : JobRun) (db : JobDb W) → IsSettled db (finalize_running now run db)
  unfolding change_run add_log
  finalize_running-IsSettled run db = record { chunks = ground arith; world = ground arith }

  finalize_found-IsSettled :
      (o : Option JobRun) (db : JobDb W) → IsSettled db (finalize_found now o db)
  finalize_found-IsSettled none db = record { chunks = refl; world = refl }
  finalize_found-IsSettled (some run) db = elim (Bool-cases (is_running run.status)) [
    | inl e ↦ rw e (finalize_running-IsSettled run db)
    | inr e ↦ rw e (record { chunks = refl; world = refl })
  ]

  pub finalize-IsSettled : (db : JobDb W) → IsSettled db (finalize now t r db)
  unfolding finalize
  finalize-IsSettled db = finalize_found-IsSettled _ db

module _ {W : Type 0} (defs : List (JobDefinition W)) (now later t r i : ℕ) where
  done_again :
      (db : JobDb W)
      → find (λ c. is_chunk t r i c && is_pending c.status) db.chunks ≡ none
      → run_chunk defs later t r i db ≡ (db, ChunkOutcome.outcome none)
  unfolding run_chunk execute_chunk
  done_again db h = rw h refl

  worked_of :
      (db db' : JobDb W)
      → execute_chunk defs now t r i db ≡ executed db'
      → IsWorked defs now t r i db db'
  worked_of db db' h =
      subst (Commits (IsWorked defs now t r i db)) h (execute_chunk-IsWorked defs now t r i db)

  -- When the work of a chunk was committed but the worker died before it finalised the run, every
  -- later delivery of the chunk's task leaves the state as it is, so none finalises the run. A
  -- chunk is named by one row at most.
  pub run_chunk-interrupted :
      (db db' : JobDb W)
      → count (is_chunk t r i) db.chunks ≤ 1
      → execute_chunk defs now t r i db ≡ executed db'
      → run_chunk defs later t r i db' ≡ (db', ChunkOutcome.outcome none)
  run_chunk-interrupted db db' unique h =
      done_again db' (none_left defs now t r i db db' unique (worked_of db db' h))

  -- Once `run_chunk` has committed a chunk's work, running the same chunk again changes nothing:
  -- neither the business data nor the run, its chunks or its log. A chunk is named by one row at
  -- most.
  pub run_chunk-again :
      (db db' : JobDb W)
      → count (is_chunk t r i) db.chunks ≤ 1
      → execute_chunk defs now t r i db ≡ executed db'
      → run_chunk defs later t r i (run_chunk defs now t r i db).0
        ≡ ((run_chunk defs now t r i db).0, ChunkOutcome.outcome none)
  unfolding run_chunk
  run_chunk-again db db' unique h = rw h (
      done_again (finalize now t r db') (
        rw ((finalize-IsSettled now t r db').chunks)
          (none_left defs now t r i db db' unique (worked_of db db' h))))
