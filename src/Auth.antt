-- ===== src/Auth.antt =====
-- backend/app/services/auth.py and the tokens of backend/app/core/security.py: login with its
-- throttle, rotation of refresh tokens, and logout. Row level security is the condition on the tenant
-- that `set_tenant_context` sets.
pub mod Sessions
pub mod Rotation
pub mod Throttle
pub mod Logout
use Prim.Native.String.{◌++◌ as ◌+++◌}
use hrus.Base.{
  ℕ, suc, ◌+◌, Bool, true, false, not, ◌&&◌, Option, none, some, List, [], ◌∷◌, ◌++◌, map, String,
  str_eq, ◌==◌, leb, ltb, if◌then◌else◌, is_some, find, filter, update_first, update_all, Either,
  failed, done,
}
use hrus.Models.Auth.{AccessClaims, AuditLog}
use hrus.Models.Users.{Tenant, AppUser, UserRole, RefreshToken, AuthDb}

-- What the source calls of argon2, hashlib, uuid and `str`; the JWT of an access token stands for
-- its claims.
pub record Crypto : Type 0 where
  pub verify : String → String → Bool
  pub check_needs_rehash : String → Bool
  pub hash : String → String
  pub dummy_hash : String
  pub sha256 : String → String
  pub parse_uuid : String → Option ℕ
  pub uuid_text : ℕ → String
  pub split_dot : String → Option (String × String)
  pub strip_lower : String → String

pub record Settings : Type 0 where
  pub login_max_attempts : ℕ
  pub login_lockout_seconds : ℕ
  pub refresh_token_ttl : ℕ
  pub access_token_ttl_seconds : ℕ

-- InvalidCredentialsError, TooManyAttemptsError and InvalidRefreshTokenError.
pub data AuthError : Type 0 where
  invalid_credentials too_many_attempts invalid_refresh_token : AuthError

pub record IssuedTokens : Type 0 where
  pub access_token : AccessClaims
  pub expires_in : ℕ
  pub refresh_token : String
  pub refresh_expires_at : ℕ

-- Redis: a counter with the time when it expires, and whether the server answers.
pub record Counter : Type 0 where
  pub count : ℕ
  pub expires_at : ℕ

pub record Redis : Type 0 where
  pub is_up : Bool
  pub counters : String → Option Counter

abbrev pub attempts_key : String → String → String
attempts_key tenant_slug email = "login_fail:" +++ tenant_slug +++ ":" +++ email

-- A counter that has expired is gone.
abbrev unexpired : ℕ → Option Counter → Option Counter
unexpired now none = none
unexpired now (some c) = if ltb now c.expires_at then some c else none

abbrev count_of : Option Counter → ℕ
count_of none = 0
count_of (some c) = c.count

unfoldable pub failed_attempts : ℕ → String → Redis → ℕ
failed_attempts now key redis =
    if redis.is_up then count_of (unexpired now (redis.counters key)) else 0

-- `incr`, and `expire` with `nx`: the first failure sets the time.
abbrev bump : ℕ → ℕ → Option Counter → Counter
bump now lockout none = record { count = 1; expires_at = now + lockout }
bump now lockout (some c) = record c { count = suc c.count }

abbrev set_counter : String → Option Counter → Redis → Redis
set_counter key c redis = record redis {
  counters = λ k. if str_eq k key then c else redis.counters k;
}

unfoldable pub record_failed_login : ℕ → ℕ → String → Redis → Redis
record_failed_login now lockout key redis =
    if redis.is_up
    then set_counter key (some (bump now lockout (unexpired now (redis.counters key)))) redis
    else redis

unfoldable pub reset_attempts : String → Redis → Redis
reset_attempts key redis = if redis.is_up then set_counter key none redis else redis

-- `verify_password`: whether it matches, and whether the hash is out of date.
abbrev target_hash : Crypto → String → String
target_hash c password_hash = if str_eq password_hash "" then c.dummy_hash else password_hash

unfoldable pub verify_password : Crypto → String → Option String → Bool × Bool
verify_password c password none = (false, false)
verify_password c password (some password_hash) =
    if c.verify (target_hash c password_hash) password
    then (true, c.check_needs_rehash password_hash)
    else (false, false)

-- `new_refresh_token`, of the random part.
unfoldable pub new_refresh_token : Crypto → String → ℕ → String × String
new_refresh_token c secret tenant_id =
    let raw = c.uuid_text tenant_id +++ "." +++ secret in (raw, c.sha256 raw)

-- `refresh_token_tenant`
abbrev tenant_of_parts : Crypto → Option (String × String) → Option ℕ
tenant_of_parts c none = none
tenant_of_parts c (some (tenant_part, secret_part)) =
    if str_eq secret_part "" then none else c.parse_uuid tenant_part

unfoldable pub refresh_token_tenant : Crypto → String → Option ℕ
refresh_token_tenant c raw = tenant_of_parts c (c.split_dot raw)

unfoldable pub roles : ℕ → AuthDb → List hrus.Models.Auth.Role
roles user_id db =
    map (λ (r : UserRole). r.role) (filter (λ r. r.app_user_id == user_id) db.user_roles)

unfoldable pub audit : ℕ → ℕ → String → AuthDb → AuthDb
audit tenant_id user_id action db = record db {
  audit_log =
      db.audit_log
      ++ record {
        tenant_id = tenant_id;
        actor_user_id = some user_id;
        action = action;
        entity_id = user_id;
      }
        ∷ [];
}

unfoldable pub is_token : Crypto → ℕ → String → RefreshToken → Bool
is_token c tenant_id raw t = t.tenant_id == tenant_id && str_eq t.token_hash (c.sha256 raw)

abbrev pub is_live : RefreshToken → Bool
is_live t = not (is_some t.revoked_at)

unfoldable pub is_user : ℕ → ℕ → AppUser → Bool
is_user tenant_id user_id u = u.tenant_id == tenant_id && u.id == user_id

-- `now` is the clock and `secret` the random text of a new token.
module _ (c : Crypto) (settings : Settings) (now : ℕ) (secret : String) where
  abbrev pub new_token : AppUser → ℕ → RefreshToken
  new_token user id = record {
    id = id;
    tenant_id = user.tenant_id;
    app_user_id = user.id;
    token_hash = (new_refresh_token c secret user.tenant_id).1;
    expires_at = now + settings.refresh_token_ttl;
    revoked_at = none;
    replaced_by_id = none;
  }

  abbrev pub issued : AppUser → AuthDb → IssuedTokens
  issued user db = record {
    access_token = record {
      user_id = user.id;
      tenant_id = user.tenant_id;
      roles = roles user.id db;
      employee_id = user.employee_id;
    };
    expires_in = settings.access_token_ttl_seconds;
    refresh_token = (new_refresh_token c secret user.tenant_id).0;
    refresh_expires_at = now + settings.refresh_token_ttl;
  }

  -- `_issue_tokens`
  abbrev pub issue_tokens : AppUser → AuthDb → AuthDb
  issue_tokens user db = record db {
    refresh_tokens = db.refresh_tokens ++ new_token user db.next_id ∷ [];
    next_id = suc db.next_id;
  }
