-- ===== src/AiUsage/Metered.antt =====
-- The monthly counters stand for the log of calls.
use hrus.Base.{
  ℕ, ◌+◌, ◌≡◌, ◌∙◌, true, ◌&&◌, Option, List, [], ◌∷◌, arith, ◌==◌, if◌then◌else◌, find, filter,
  sum_by, sum_by-append, sum_by-update_first, find-holds, Option-cases, inl, inr,
}
use hrus.Calendar.{Date}
use hrus.AiUsage.{
  AiUsageRow, AiUsageMonthly, UsageDb, Call, month_of, same_month, is_counter, new_counter,
  add_call, upsert, new_row, input_of, output_of, record_usage, counted, month_tokens,
  usage_summary,
}

-- A call, the time at which its transaction began, and the time at which it is recorded.
pub record Recorded : Type 0 where
  pub began : ℕ
  pub now : ℕ
  pub call : Call

abbrev pub tokens_of : Call → ℕ
tokens_of c = input_of c + output_of c

-- The tokens of a call of the tenant, and of one that was recorded in the month.
abbrev pub spent : ℕ → Recorded → ℕ
spent tenant_id r = if r.call.tenant_id == tenant_id then tokens_of r.call else 0

abbrev pub spent_in : (ℕ → ℕ → Date) → ℕ → Date → Recorded → ℕ
spent_in local_date tenant_id month r =
    if r.call.tenant_id == tenant_id
      && same_month (month_of local_date r.call.tenant_id r.now) month
    then tokens_of r.call
    else 0

abbrev pub logged : ℕ → AiUsageRow → ℕ
logged tenant_id r = if r.tenant_id == tenant_id then r.input_tokens + r.output_tokens else 0

counted-add :
    (t : ℕ) (month now_month : Date) (c : Call) (m : AiUsageMonthly)
    → is_counter c.tenant_id now_month c.feature m ≡ true
    → counted t month (add_call c m) ≡ counted t month m + counted t month (new_counter c now_month)
unfolding is_counter
counted-add t month now_month c m h = ground arith

upsert-counted :
    (t : ℕ) (month now_month : Date) (c : Call) (ms : List AiUsageMonthly)
    → sum_by (counted t month) (upsert c now_month ms)
      ≡ sum_by (counted t month) ms + counted t month (new_counter c now_month)
unfolding upsert sum_by
upsert-counted t month now_month c ms =
    let p = is_counter c.tenant_id now_month c.feature in
    let w = counted t month in
    elim (Option-cases (find p ms)) [
      | inl fresh ↦ rw fresh (sum_by-append w ms (new_counter c now_month ∷ []) ∙ omega arith)
      | inr (m, found) ↦ rw found (
          omega (
            arith,
            sum_by-update_first w p (add_call c) ms m found,
            counted-add t month now_month c m (find-holds p ms m found),
          ))
    ]

module _ (local_date : ℕ → ℕ → Date) where
  -- Calls one after another.
  unfoldable pub record_all : List Recorded → UsageDb → UsageDb
  record_all [] db = db
  record_all (r ∷ calls) db = record_all calls (record_usage local_date r.began r.now r.call db)

  record_all-month_tokens :
      (t : ℕ) (month : Date) (calls : List Recorded) (db : UsageDb)
      → month_tokens t month (record_all calls db)
        ≡ month_tokens t month db + sum_by (spent_in local_date t month) calls
  unfolding record_all month_tokens record_usage sum_by
  record_all-month_tokens t month [] db = omega arith
  record_all-month_tokens t month (r ∷ calls) db = omega (
    arith,
    record_all-month_tokens t month calls (record_usage local_date r.began r.now r.call db),
    upsert-counted t month (month_of local_date r.call.tenant_id r.now) r.call db.counters,
  )

  record_all-log :
      (t : ℕ) (calls : List Recorded) (db : UsageDb)
      → sum_by (logged t) (record_all calls db).log
        ≡ sum_by (logged t) db.log + sum_by (spent t) calls
  unfolding record_all record_usage sum_by
  record_all-log t [] db = omega arith
  record_all-log t (r ∷ calls) db = omega (
    arith,
    record_all-log t calls (record_usage local_date r.began r.now r.call db),
    sum_by-append (logged t) db.log (new_row r.call r.began ∷ []),
  )

  summary-total :
      (t : ℕ) (month : Date) (limit : Option ℕ) (ms : List AiUsageMonthly)
      → sum_by
            (λ (m : AiUsageMonthly). m.input_tokens)
            (filter (λ m. m.tenant_id == t && same_month m.month month) ms)
          + sum_by
              (λ (m : AiUsageMonthly). m.output_tokens)
              (filter (λ m. m.tenant_id == t && same_month m.month month) ms)
        ≡ sum_by (counted t month) ms
  unfolding sum_by filter
  summary-total t month limit [] = omega arith
  summary-total t month limit (m ∷ ms) = ground (arith, summary-total t month limit ms)

  -- After any calls, from empty tables, what the limit check reads and what the summary reports for
  -- a tenant and a month are the tokens of exactly the calls of that tenant that were recorded when it
  -- was that month in its time zone, and the log has the tokens of all its calls.
  pub month_tokens-exact :
      (calls : List Recorded) (tenant_id : ℕ) (month : Date) (limit : Option ℕ)
      → let db = record_all calls (record { log = []; counters = [] }) in
        (month_tokens tenant_id month db ≡ sum_by (spent_in local_date tenant_id month) calls)
        × ((usage_summary tenant_id month limit db).total_tokens
            ≡ sum_by (spent_in local_date tenant_id month) calls)
        × (sum_by (logged tenant_id) db.log ≡ sum_by (spent tenant_id) calls)
  unfolding month_tokens usage_summary sum_by
  month_tokens-exact calls t month limit =
      let empty : UsageDb = record { log = []; counters = [] } in
      let db = record_all calls empty in
      let metered = record_all-month_tokens t month calls empty in
      (
        omega (arith, metered),
        omega (arith, metered, summary-total t month limit db.counters),
        omega (arith, record_all-log t calls empty),
      )
