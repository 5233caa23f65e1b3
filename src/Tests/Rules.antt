-- ===== src/Tests/Rules.antt =====
-- backend/app/rules/leave.py at concrete dates and policies.
use hrus.Base.{ℕ, ◌+◌, ◌≡◌, ◌≤◌, ◌↔◌, refl, Option, none, some, List, [], ◌∷◌, String, arith}
use hrus.Base.{any}
use hrus.Calendar.{
  Date, IsDate, ordinal, days_in_month, is_leap, days_before_year, days_before_month, next_day,
  weekday,
}
use hrus.Models.Leave.{LeavePolicy}
use hrus.Rules.Leave.{
  counted, working_days, count_working, pick_policy, service_months, month_index,
}
use hrus.Rules.Leave.WorkingDays.{working_days-counts, count_workdays}
use hrus.Rules.Leave.Policy.{pick_policy-Picks, Chooses}
use hrus.Rules.Leave.Service.{service_months-exact, Reaches}

abbrev pub day : ℕ → ℕ → ℕ → Date
day y m d = record { year = y; month = m; day = d }

-- A Friday and the Tuesday after it, with that Monday a holiday.
friday : IsDate (day 2026 5 1)
unfolding days_in_month is_leap
friday = record {
  year_pos = omega arith;
  month_pos = omega arith;
  month_le = omega arith;
  day_pos = omega arith;
  day_le = omega arith;
}

working_days-counts_example :
    (count_working 6 (day 2026 5 1) (day 2026 5 5) (day 2026 5 4 ∷ []) 0
      ≡ counted (count_workdays (day 2026 5 4 ∷ []) (ordinal (day 2026 5 1)) 5))
    × (working_days (day 2026 5 1) (day 2026 5 5) (day 2026 5 4 ∷ [])
        ≡ some (count_workdays (day 2026 5 4 ∷ []) (ordinal (day 2026 5 1)) 5))
unfolding ordinal days_before_year days_before_month days_in_month is_leap
working_days-counts_example =
    working_days-counts (day 2026 5 1) (day 2026 5 5) (day 2026 5 4 ∷ []) friday

two_days : working_days (day 2026 5 1) (day 2026 5 5) (day 2026 5 4 ∷ []) ≡ some 2
unfolding working_days count_working ordinal days_before_year days_before_month days_in_month
    is_leap next_day weekday any
two_days = refl

-- The last day of all: the loop steps past it.
last_day : working_days (day 9999 12 31) (day 9999 12 31) [] ≡ none
unfolding working_days count_working ordinal days_before_year days_before_month days_in_month
    is_leap next_day weekday any
last_day = refl

abbrev pub policy : ℕ → Option String → ℕ → LeavePolicy
policy id grade months = record {
  id = id;
  tenant_id = 1;
  leave_type_id = 3;
  grade = grade;
  min_service_months = months;
  annual_days = 12;
  max_carry_over_days = 6;
  carry_over_expiry_months = 3;
}

abbrev policies : List LeavePolicy
policies = policy 1 none 0 ∷ policy 2 none 24 ∷ policy 3 (some "M1") 0 ∷ []

pick_policy-Picks_example :
    Chooses (λ s. s) 3 (some "M1") 30 policies (pick_policy (λ s. s) policies 3 (some "M1") 30)
pick_policy-Picks_example = pick_policy-Picks (λ s. s) 3 (some "M1") 30 policies

service_months-exact_example :
    Reaches (month_index (day 2025 1 31) + 1) 31 (day 2025 3 1)
    ↔ (1 ≤ service_months (day 2025 1 31) (day 2025 3 1))
service_months-exact_example = service_months-exact (day 2025 1 31) (day 2025 3 1) 1 (omega arith)
