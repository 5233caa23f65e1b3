-- ===== src/Jobs/Retry.antt =====
-- backend/app/jobs/runner.py, `_record_failure`: how often a chunk that keeps failing is tried.
use hrus.Base.{
  ℕ, zero, suc, ◌≡◌, ◌⊎◌, ◌≤◌, ◌<◌, refl, ap, inl, inr, true, false, String, arith, leb,
  if◌then◌else◌, Bool-cases,
}
use hrus.Models.Jobs.{JobRunChunk, ChunkStatus, is_pending}
use hrus.Jobs.Execute.{attempted}

module _ (now max_attempts : ℕ) (e : String) where
  -- A failure is recorded on a pending chunk only.
  abbrev fail_once : JobRunChunk → JobRunChunk
  fail_once c = if is_pending c.status then attempted now max_attempts e c else c

  unfoldable pub fail : ℕ → JobRunChunk → JobRunChunk
  fail zero c = c
  fail (suc n) c = fail_once (fail n c)

  -- The chunk after so many failures: waiting for another attempt, or failed for good.
  abbrev pub AfterFailures : ℕ → JobRunChunk → Type 0
  AfterFailures n c =
      ((n < max_attempts) × (c.status ≡ ChunkStatus.pending) × (c.attempts ≡ n))
      ⊎ ((max_attempts ≤ n) × (c.status ≡ ChunkStatus.failed) × (c.attempts ≡ max_attempts))

  attempted-AfterFailures :
      (n : ℕ) (c : JobRunChunk)
      → n < max_attempts
      → c.status ≡ ChunkStatus.pending
      → c.attempts ≡ n
      → AfterFailures (suc n) (attempted now max_attempts e c)
  attempted-AfterFailures n c below waiting count =
      elim (Bool-cases (leb max_attempts (suc c.attempts))) [
        | inl b ↦ rw b (inr (ground (arith), refl, ground (arith)))
        | inr b ↦ rw b (inl (ground (arith), waiting, ground (arith)))
      ]

  fail_once-AfterFailures :
      (n : ℕ) (c : JobRunChunk) → AfterFailures n c → AfterFailures (suc n) (fail_once c)
  fail_once-AfterFailures n c (inl h) =
      let waiting : is_pending c.status ≡ true = ap is_pending h.1 in
      rw waiting (attempted-AfterFailures n c h.0 h.1 h.2)
  fail_once-AfterFailures n c (inr h) =
      let over : is_pending c.status ≡ false = ap is_pending h.1 in
      rw over (inr (omega (arith, h.0), h.1, h.2))

  -- A chunk that is planned, with no attempt yet, and that fails each time it is tried: after fewer
  -- failures than the job allows it waits for the next attempt, and from then on it has failed for
  -- good with exactly that many attempts, so the retries end. A job allows one attempt at least.
  fail-AfterFailures :
      (n : ℕ) (c : JobRunChunk)
      → 1 ≤ max_attempts
      → c.status ≡ ChunkStatus.pending
      → c.attempts ≡ 0
      → AfterFailures n (fail n c)
  unfolding fail
  fail-AfterFailures zero c one waiting fresh = inl (omega (arith, one), waiting, fresh)
  fail-AfterFailures (suc n) c one waiting fresh =
      fail_once-AfterFailures n (fail n c) (fail-AfterFailures n c one waiting fresh)
