-- ===== src/Rules/Leave/Service.antt =====
-- Months of service and the day on which a carry-over lapses.
use hrus.Base.{ℕ, ◌+◌, ◌*◌, ◌≤◌, ◌<◌, ◌≡◌, ◌↔◌, ◌⊎◌, Option, none, some, arith}
use hrus.Calendar.{Date, IsDate, days_in_month}
use hrus.Rules.Leave.{month_index, service_months, carry_over_expiry}

-- The date `d` is not before the day `day` of the month with the index `m`.
abbrev pub Reaches : ℕ → ℕ → Date → Type 0
Reaches m day d = (m < month_index d) ⊎ ((m ≡ month_index d) × (day ≤ d.day))

-- The service counts k full months (k at least 1) exactly when the day of the month of hire has
-- come round k months after the month of hire.
pub service_months-exact :
    (hire_date as_of : Date) (k : ℕ)
    → 1 ≤ k
    → Reaches (month_index hire_date + k) hire_date.day as_of ↔ (k ≤ service_months hire_date as_of)
unfolding service_months
service_months-exact h a k pos = (λ r. ground arith, λ le. ground arith)

-- Where a carry-over lapses, and when it never does.
abbrev pub Lapses : ℕ → ℕ → Option Date → Type 0
Lapses year months none = months ≡ 0
Lapses year months (some d) =
    IsDate d × (0 < months) × (month_index d ≡ year * 12 + 1 + months) × (d.day ≡ 1)

-- A carry-over into a year lapses on a valid date, the first day of the month that comes the
-- given number of months after January of that year, and never exactly when that number is 0.
carry_over_expiry-Lapses :
    (year months : ℕ) → 1 ≤ year → Lapses year months (carry_over_expiry year months)
unfolding carry_over_expiry days_in_month
carry_over_expiry-Lapses year months pos = ground arith
