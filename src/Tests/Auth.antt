-- ===== src/Tests/Auth.antt =====
-- A user who signs in, is given new tokens, and uses the old one again; and wrong passwords.
use hrus.Base.{
  ◌≡◌, refl, true, false, none, some, [], ◌∷◌, str_eq, find, arith, Either, done, failed,
}
use hrus.Models.Auth.{Role}
use hrus.Models.Users.{AppUser, AuthDb}
use hrus.Auth.{
  Crypto, Settings, AuthError, IssuedTokens, refresh_token_tenant, is_token, is_user, issued,
  verify_password, failed_attempts, record_failed_login,
}
use hrus.Auth.Sessions.{AuthState, login, logout, refresh, rotated}
use hrus.Auth.Logout.{logout-ends}
use hrus.Auth.Rotation.{Refused, refresh-reuse}
use hrus.Auth.Throttle.{Failing, login-locked}

abbrev crypto : Crypto
crypto = record {
  verify = λ password_hash password. str_eq password_hash password;
  check_needs_rehash = λ h. false;
  hash = λ p. p;
  dummy_hash = "-";
  sha256 = λ raw. raw;
  parse_uuid = λ s. some 1;
  uuid_text = λ id. "1";
  split_dot = λ raw. some ("1", raw);
  strip_lower = λ s. s;
}

abbrev settings : Settings
settings = record {
  login_max_attempts = 2;
  login_lockout_seconds = 60;
  refresh_token_ttl = 100;
  access_token_ttl_seconds = 10;
}

abbrev users : AuthDb
users = record {
  tenants = record { id = 1; slug = "acme"; is_active = true } ∷ [];
  users =
      record {
        id = 50;
        tenant_id = 1;
        email = "a@acme";
        password_hash = "right";
        employee_id = some 10;
        is_active = true;
        last_login_at = none;
      }
      ∷ [];
  user_roles = record { app_user_id = 50; role = Role.employee } ∷ [];
  refresh_tokens =
      record {
        id = 60;
        tenant_id = 1;
        app_user_id = 50;
        token_hash = "1.old";
        expires_at = 90;
        revoked_at = none;
        replaced_by_id = none;
      }
      ∷ [];
  audit_log = [];
  next_id = 100;
}

abbrev given : AuthDb × Either AuthError IssuedTokens → IssuedTokens → IssuedTokens
given (db, done tokens) other = tokens
given (db, failed e) other = other

abbrev start : AuthState
start = (users, record { is_up = true; counters = λ key. none })

abbrev tried : AuthState × Either AuthError IssuedTokens
tried = login crypto settings 5 "s" "acme" "a@acme" "wrong" start

abbrev tried_twice : AuthState × Either AuthError IssuedTokens
tried_twice = login crypto settings 6 "s" "acme" "a@acme" "wrong" tried.0

abbrev user : AppUser
user = record {
  id = 50;
  tenant_id = 1;
  email = "a@acme";
  password_hash = "right";
  employee_id = some 10;
  is_active = true;
  last_login_at = none;
}

first_use : refresh crypto settings 20 "new" "1.old" users ≡ (
  rotated crypto settings 20 "new" 1 "1.old" user users,
  done (issued crypto settings 20 "new" user users),
)
unfolding refresh refresh_token_tenant find is_token is_user
first_use = refl

refresh-reuse_example : Refused crypto settings 1 50 (
    refresh crypto settings 30 "more" "1.old"
      (rotated crypto settings 20 "new" 1 "1.old" user users))
refresh-reuse_example =
    refresh-reuse crypto settings 20 30 "new" "more" "1.old" users
      (rotated crypto settings 20 "new" 1 "1.old" user users)
      (issued crypto settings 20 "new" user users) first_use

wrong : tried.1 ≡ failed AuthError.invalid_credentials
unfolding login failed_attempts find verify_password
wrong = refl

wrong_again : tried_twice.1 ≡ failed AuthError.invalid_credentials
unfolding login failed_attempts find verify_password record_failed_login
wrong_again = refl

login-locked_example :
    login crypto settings 30 "s" "acme" "a@acme" "right" tried_twice.0
    ≡ (tried_twice.0, failed AuthError.too_many_attempts)
login-locked_example =
    login-locked crypto settings "acme" "a@acme" 5 30 1 "s" "s" "wrong" "right" start tried_twice.0
      refl refl wrong (Failing.fail Failing.none_yet 6 "s" "wrong" (omega arith) wrong_again)
      (omega arith) (omega arith)

logout-ends_example :
    ((refresh crypto settings 30 "new" "1.old" (logout crypto 20 "1.old" users)).1
      ≡ failed AuthError.invalid_refresh_token)
    × (logout crypto 30 "1.old" (logout crypto 20 "1.old" users) ≡ logout crypto 20 "1.old" users)
logout-ends_example = logout-ends crypto settings 20 30 "new" "1.old" users
