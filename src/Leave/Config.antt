-- ===== src/Leave/Config.antt =====
-- backend/app/services/leave_config.py: what the other services read of the configuration.
pub mod Types
pub mod Policies
pub mod Holidays
pub mod Keyed
use hrus.Base.{ℕ, Bool, ◌&&◌, List, map, ◌==◌, find, filter}
use hrus.Calendar.{Date, on_or_before}
use hrus.Errors.{not_found}
use hrus.Tx.{Tx, gets, or_raise, ◌>>=◌}
use hrus.Models.Leave.{LeaveType, HolidayCalendar}
use hrus.Db.{Db}

unfoldable pub is_leave_type : ℕ → ℕ → LeaveType → Bool
is_leave_type tenant_id type_id t = t.tenant_id == tenant_id && t.id == type_id

unfoldable pub get_leave_type : ℕ → ℕ → Tx Db LeaveType
get_leave_type tenant_id type_id = do
  found ← gets (λ db. find (is_leave_type tenant_id type_id) db.leave_types)
  or_raise not_found found

unfoldable pub holidays_between : Db → ℕ → Date → Date → List Date
holidays_between db tenant_id start end =
    map (λ (h : HolidayCalendar). h.holiday_date)
      (filter
        (λ h.
          h.tenant_id == tenant_id
          && on_or_before start h.holiday_date
          && on_or_before h.holiday_date end)
        db.holidays)
