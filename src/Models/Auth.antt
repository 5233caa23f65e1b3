-- ===== src/Models/Auth.antt =====
-- backend/app/models/auth.py (roles), backend/app/core/security.py (access claims) and
-- backend/app/models/audit.py. An id (a UUID) is a number: ids are only compared.
use hrus.Base.{ℕ, Bool, true, false, Option, List, [], ◌∷◌, String, ◌||◌}

pub data Role : Type 0 where
  employee manager hr_admin : Role

abbrev is_hr_role : Role → Bool
is_hr_role hr_admin = true
is_hr_role _ = false

pub record AccessClaims : Type 0 where
  pub user_id : ℕ
  pub tenant_id : ℕ
  pub roles : List Role
  pub employee_id : Option ℕ

has_hr : List Role → Bool
has_hr [] = false
has_hr (r ∷ rs) = is_hr_role r || has_hr rs

-- `Role.HR_ADMIN in actor.roles`
unfoldable pub is_hr : AccessClaims → Bool
unfolding has_hr
is_hr actor = has_hr actor.roles

-- A row of the audit log, without the JSON of the values before and after.
pub record AuditLog : Type 0 where
  pub tenant_id : ℕ
  pub actor_user_id : Option ℕ
  pub action : String
  pub entity_id : ℕ
