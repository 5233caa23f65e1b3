-- ===== src/Models/Users.antt =====
-- backend/app/models/auth.py (users, their roles and refresh tokens) and backend/app/models/tenant.py
-- (tenants): the rows that a login reads and writes. A text of a token is opaque.
use hrus.Base.{ℕ, Bool, Option, List, String}
use hrus.Models.Auth.{Role, AuditLog}

pub record Tenant : Type 0 where
  pub id : ℕ
  pub slug : String
  pub is_active : Bool

pub record AppUser : Type 0 where
  pub id : ℕ
  pub tenant_id : ℕ
  pub email : String
  pub password_hash : String
  pub employee_id : Option ℕ
  pub is_active : Bool
  pub last_login_at : Option ℕ

pub record UserRole : Type 0 where
  pub app_user_id : ℕ
  pub role : Role

pub record RefreshToken : Type 0 where
  pub id : ℕ
  pub tenant_id : ℕ
  pub app_user_id : ℕ
  pub token_hash : String
  pub expires_at : ℕ
  pub revoked_at : Option ℕ
  pub replaced_by_id : Option ℕ

pub record AuthDb : Type 0 where
  pub tenants : List Tenant
  pub users : List AppUser
  pub user_roles : List UserRole
  pub refresh_tokens : List RefreshToken
  pub audit_log : List AuditLog
  pub next_id : ℕ
