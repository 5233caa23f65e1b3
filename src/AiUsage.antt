-- ===== src/AiUsage.antt =====
-- backend/app/services/ai_usage.py: the log of model calls, and the monthly counters that the token
-- limit reads. The tenant's time zone is a parameter. A row of the log has the time at which its
-- transaction began (`created_at` is the database's `now()`), and the month of the counter is that of
-- the clock when the call is recorded.
pub mod Metered
use hrus.Base.{
  ℕ, suc, ◌+◌, Bool, true, false, ◌&&◌, Option, none, some, List, [], ◌∷◌, ◌++◌, map, String,
  str_eq, ◌==◌, leb, if◌then◌else◌, is_some, find, filter, sum_by, update_first,
}
use hrus.Calendar.{Date, date}

pub record AiUsageRow : Type 0 where
  pub tenant_id : ℕ
  pub feature : String
  pub provider : String
  pub model : String
  pub user_id : Option ℕ
  pub input_tokens : ℕ
  pub cached_input_tokens : ℕ
  pub output_tokens : ℕ
  pub success : Bool
  pub created_at : ℕ

pub record AiUsageMonthly : Type 0 where
  pub tenant_id : ℕ
  pub month : Date
  pub feature : String
  pub calls : ℕ
  pub input_tokens : ℕ
  pub cached_input_tokens : ℕ
  pub output_tokens : ℕ

pub record UsageDb : Type 0 where
  pub log : List AiUsageRow
  pub counters : List AiUsageMonthly

-- The numbers that a provider reports; a number that is missing is 0.
pub record Reported : Type 0 where
  pub input_tokens : Option ℕ
  pub cached_input_tokens : Option ℕ
  pub output_tokens : Option ℕ

pub record Call : Type 0 where
  pub tenant_id : ℕ
  pub feature : String
  pub provider : String
  pub model : String
  pub user_id : Option ℕ
  pub usage : Option Reported
  pub success : Bool

abbrev or_zero : Option ℕ → ℕ
or_zero none = 0
or_zero (some n) = n

abbrev pub tokens : (Reported → Option ℕ) → Option Reported → ℕ
tokens field none = 0
tokens field (some usage) = or_zero (field usage)

abbrev pub input_of : Call → ℕ
input_of c = tokens (λ u. u.input_tokens) c.usage

abbrev pub cached_of : Call → ℕ
cached_of c = tokens (λ u. u.cached_input_tokens) c.usage

abbrev pub output_of : Call → ℕ
output_of c = tokens (λ u. u.output_tokens) c.usage

-- `current_month`, of the tenant's date at a time.
unfoldable pub month_of : (ℕ → ℕ → Date) → ℕ → ℕ → Date
month_of local_date tenant_id now =
    let today = local_date tenant_id now in date today.year today.month 1

abbrev pub same_month : Date → Date → Bool
same_month a b = a.year == b.year && a.month == b.month && a.day == b.day

unfoldable pub is_counter : ℕ → Date → String → AiUsageMonthly → Bool
is_counter tenant_id month feature m =
    m.tenant_id == tenant_id && same_month m.month month && str_eq m.feature feature

abbrev pub new_counter : Call → Date → AiUsageMonthly
new_counter c month = record {
  tenant_id = c.tenant_id;
  month = month;
  feature = c.feature;
  calls = 1;
  input_tokens = input_of c;
  cached_input_tokens = cached_of c;
  output_tokens = output_of c;
}

abbrev pub add_call : Call → AiUsageMonthly → AiUsageMonthly
add_call c m = record m {
  calls = m.calls + 1;
  input_tokens = m.input_tokens + input_of c;
  cached_input_tokens = m.cached_input_tokens + cached_of c;
  output_tokens = m.output_tokens + output_of c;
}

-- `insert … on_conflict_do_update`
unfoldable pub upsert : Call → Date → List AiUsageMonthly → List AiUsageMonthly
upsert c month counters =
    if is_some (find (is_counter c.tenant_id month c.feature) counters)
    then update_first (is_counter c.tenant_id month c.feature) (add_call c) counters
    else counters ++ new_counter c month ∷ []

abbrev pub new_row : Call → ℕ → AiUsageRow
new_row c created_at = record {
  tenant_id = c.tenant_id;
  feature = c.feature;
  provider = c.provider;
  model = c.model;
  user_id = c.user_id;
  input_tokens = input_of c;
  cached_input_tokens = cached_of c;
  output_tokens = output_of c;
  success = c.success;
  created_at = created_at;
}

unfoldable pub record_usage : (ℕ → ℕ → Date) → ℕ → ℕ → Call → UsageDb → UsageDb
record_usage local_date created_at now c db = record {
  log = db.log ++ new_row c created_at ∷ [];
  counters = upsert c (month_of local_date c.tenant_id now) db.counters;
}

-- The tokens of a counter that belongs to the month.
abbrev pub counted : ℕ → Date → AiUsageMonthly → ℕ
counted tenant_id month m =
    if m.tenant_id == tenant_id && same_month m.month month
    then m.input_tokens + m.output_tokens
    else 0

unfoldable pub month_tokens : ℕ → Date → UsageDb → ℕ
month_tokens tenant_id month db = sum_by (counted tenant_id month) db.counters

-- `usage_summary`: the sums over the features, and whether the limit is reached.
pub record AiUsageSummary : Type 0 where
  pub calls : ℕ
  pub input_tokens : ℕ
  pub cached_input_tokens : ℕ
  pub output_tokens : ℕ
  pub total_tokens : ℕ
  pub limit_reached : Bool

abbrev reached : Option ℕ → ℕ → Bool
reached none total = false
reached (some limit) total = leb limit total

unfoldable pub usage_summary : ℕ → Date → Option ℕ → UsageDb → AiUsageSummary
usage_summary tenant_id month limit db =
    let rows = filter (λ m. m.tenant_id == tenant_id && same_month m.month month) db.counters in
    let input = sum_by (λ (m : AiUsageMonthly). m.input_tokens) rows in
    let output = sum_by (λ (m : AiUsageMonthly). m.output_tokens) rows in
    record {
      calls = sum_by (λ (m : AiUsageMonthly). m.calls) rows;
      input_tokens = input;
      cached_input_tokens = sum_by (λ (m : AiUsageMonthly). m.cached_input_tokens) rows;
      output_tokens = output;
      total_tokens = input + output;
      limit_reached = reached limit (input + output);
    }
