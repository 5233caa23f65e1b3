-- ===== src/Leave/Config/Holidays.antt =====
-- backend/app/services/leave_config.py: holidays are created and deleted.
use hrus.Base.{ℕ, suc, Bool, not, ◌&&◌, some, [], ◌∷◌, ◌++◌, ◌==◌, find, any, filter}
use hrus.Calendar.{Date, same_date}
use hrus.Errors.{Code, not_found, conflict}
use hrus.Tx.{Tx, pure, gets, modify, or_raise, raise_if, ◌>>=◌, ◌>>◌}
use hrus.Models.Auth.{AccessClaims}
use hrus.Models.Leave.{HolidayCalendar}
use hrus.Db.{Db, record_audit}
use hrus.Leave.Config.Types.{HolidayCreate}

unfoldable pub is_holiday : ℕ → Date → HolidayCalendar → Bool
is_holiday tenant_id d h = h.tenant_id == tenant_id && same_date h.holiday_date d

unfoldable pub is_holiday_row : ℕ → ℕ → HolidayCalendar → Bool
is_holiday_row tenant_id id h = h.tenant_id == tenant_id && h.id == id

abbrev pub new_holiday : ℕ → HolidayCreate → ℕ → HolidayCalendar
new_holiday tenant_id form id = record {
  id = id;
  tenant_id = tenant_id;
  holiday_date = form.holiday_date;
  name = form.name;
  kind = form.kind;
}

abbrev pub add_holiday : HolidayCalendar → Db → Db
add_holiday h db = record db { holidays = db.holidays ++ h ∷ []; next_id = suc db.next_id }

unfoldable pub create_holiday : AccessClaims → HolidayCreate → Tx Db HolidayCalendar
create_holiday actor form = do
  taken ← gets (λ db. any (is_holiday actor.tenant_id form.holiday_date) db.holidays)
  raise_if taken (conflict Code.holiday_exists)
  id ← gets (λ db. db.next_id)
  let holiday = new_holiday actor.tenant_id form id
  modify (add_holiday holiday)
  record_audit actor.tenant_id (some actor.user_id) "holiday.create" id
  pure holiday

abbrev pub remove_holiday : ℕ → ℕ → Db → Db
remove_holiday tenant_id id db = record db {
  holidays = filter (λ h. not (is_holiday_row tenant_id id h)) db.holidays;
}

unfoldable pub delete_holiday : AccessClaims → ℕ → Tx Db (Unit {0})
delete_holiday actor holiday_id = do
  found ← gets (λ db. find (is_holiday_row actor.tenant_id holiday_id) db.holidays)
  holiday ← or_raise not_found found
  modify (remove_holiday actor.tenant_id holiday.id)
  record_audit actor.tenant_id (some actor.user_id) "holiday.delete" holiday_id
