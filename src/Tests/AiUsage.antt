-- ===== src/Tests/AiUsage.antt =====
-- Two calls of one tenant, the second in the next month.
use hrus.Base.{ℕ, ◌≡◌, true, none, some, List, [], ◌∷◌, sum_by, leb, if◌then◌else◌}
use hrus.Calendar.{Date}
use hrus.AiUsage.{UsageDb, Call, month_tokens, usage_summary}
use hrus.AiUsage.Metered.{Recorded, spent, spent_in, logged, record_all, month_tokens-exact}
use hrus.Tests.Rules.{day}

abbrev call : ℕ → Call
call n = record {
  tenant_id = 1;
  feature = "chat";
  provider = "openai";
  model = "m";
  user_id = some 9;
  usage =
      some (record { input_tokens = some n; cached_input_tokens = none; output_tokens = some 5 });
  success = true;
}

-- The days 0 to 9 lie in April, the later ones in May.
abbrev local_date : ℕ → ℕ → Date
local_date tenant_id now = day 2026 (if leb now 9 then 4 else 5) 3

-- The second transaction began in April, and is recorded in May.
abbrev calls : List Recorded
calls =
    record { began = 3; now = 3; call = call 20 }
    ∷ record { began = 8; now = 12; call = call 30 }
    ∷ []

abbrev after : UsageDb
after = record_all local_date calls (record { log = []; counters = [] })

month_tokens-exact_example :
    (month_tokens 1 (day 2026 5 1) after ≡ sum_by (spent_in local_date 1 (day 2026 5 1)) calls)
    × ((usage_summary 1 (day 2026 5 1) (some 30) after).total_tokens
        ≡ sum_by (spent_in local_date 1 (day 2026 5 1)) calls)
    × (sum_by (logged 1) after.log ≡ sum_by (spent 1) calls)
month_tokens-exact_example = month_tokens-exact local_date calls 1 (day 2026 5 1) (some 30)
