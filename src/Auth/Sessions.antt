-- ===== src/Auth/Sessions.antt =====
-- backend/app/services/auth.py: login, refresh and logout. A call gives the tables that stay: what
-- Redis and a separate transaction have written stays although the call raises.
use hrus.Base.{
  ℕ, Bool, true, not, ◌&&◌, Option, none, some, List, String, str_eq, ◌==◌, leb, if◌then◌else◌,
  find, update_first, update_all, Either, failed, done,
}
use mathlib.Core.Option
use hrus.Models.Users.{Tenant, AppUser, RefreshToken, AuthDb}
use hrus.Auth.{
  Crypto, Settings, AuthError, IssuedTokens, Redis, attempts_key, failed_attempts,
  record_failed_login, reset_attempts, verify_password, refresh_token_tenant, audit, is_token,
  is_live, is_user, issued, issue_tokens,
}

abbrev pub AuthState : Type 0
AuthState = AuthDb × Redis

abbrev pub find_user : String → Option Tenant → List AppUser → Option AppUser
find_user email none users = none
find_user email (some tenant) users =
    find (λ u. u.tenant_id == tenant.id && str_eq u.email email && u.is_active) users

abbrev signed_in : Crypto → ℕ → String → Bool → AppUser → AppUser
signed_in c now password needs_rehash u = record u {
  password_hash = if needs_rehash then c.hash password else u.password_hash;
  last_login_at = some now;
}

unfoldable pub update_user : AppUser → (AppUser → AppUser) → AuthDb → AuthDb
update_user user f db = record db {
  users = update_first (is_user user.tenant_id user.id) f db.users;
}

unfoldable pub of_user : ℕ → ℕ → RefreshToken → Bool
of_user tenant_id user_id t = t.tenant_id == tenant_id && t.app_user_id == user_id

abbrev pub revoke : ℕ → RefreshToken → RefreshToken
revoke now t = record t { revoked_at = some now }

-- `_revoke_all_for_user`, in a transaction of its own.
unfoldable pub revoke_all : ℕ → ℕ → ℕ → AuthDb → AuthDb
revoke_all now tenant_id user_id db =
    audit tenant_id user_id "auth.refresh_token_reuse" (record db {
      refresh_tokens =
          update_all (λ t. of_user tenant_id user_id t && is_live t) (revoke now) db.refresh_tokens;
    })

abbrev pub replace : ℕ → ℕ → RefreshToken → RefreshToken
replace now new_id t = record t { revoked_at = some now; replaced_by_id = some new_id }

module _ (c : Crypto) (settings : Settings) (now : ℕ) (secret : String) where
  abbrev pub admit :
      AppUser → Bool → String → String → AuthState → AuthState × Either AuthError IssuedTokens
  admit user needs_rehash password key (db, redis) = (
    (
      audit user.tenant_id user.id "auth.login" (
          issue_tokens c settings now secret user
            (update_user user (signed_in c now password needs_rehash) db)),
      reset_attempts key redis,
    ),
    done (issued c settings now secret user db),
  )

  abbrev pub refuse : String → AuthState → AuthState × Either AuthError IssuedTokens
  refuse key (db, redis) = (
    (db, record_failed_login now settings.login_lockout_seconds key redis),
    failed AuthError.invalid_credentials,
  )

  abbrev pub verified :
      Option AppUser
      → Bool × Bool
      → String
      → String
      → AuthState
      → AuthState × Either AuthError IssuedTokens
  verified (some user) (true, needs_rehash) password key state =
      admit user needs_rehash password key state
  verified _ _ password key state = refuse key state

  unfoldable pub login :
      String → String → String → AuthState → AuthState × Either AuthError IssuedTokens
  login tenant_slug email password (db, redis) =
      let slug = c.strip_lower tenant_slug in
      let mail = c.strip_lower email in
      let key = attempts_key slug mail in
      let user =
        find_user mail (find (λ (t : Tenant). str_eq t.slug slug && t.is_active) db.tenants)
          db.users in
      if leb settings.login_max_attempts (failed_attempts now key redis)
      then ((db, redis), failed AuthError.too_many_attempts)
      else verified user
          (verify_password c password (Option.map (λ (u : AppUser). u.password_hash) user)) password
          key (db, redis)

  abbrev pub invalid : AuthDb → AuthDb × Either AuthError IssuedTokens
  invalid db = (db, failed AuthError.invalid_refresh_token)

  -- The new token is added before the old one is revoked.
  abbrev pub rotated : ℕ → String → AppUser → AuthDb → AuthDb
  rotated tenant_id raw user db = record (issue_tokens c settings now secret user db) {
    refresh_tokens =
        update_first (is_token c tenant_id raw) (replace now db.next_id)
          (issue_tokens c settings now secret user db).refresh_tokens;
  }

  abbrev pub refresh_for :
      ℕ → String → Option AppUser → AuthDb → AuthDb × Either AuthError IssuedTokens
  refresh_for tenant_id raw none db = invalid db
  refresh_for tenant_id raw (some user) db =
      if user.is_active
      then (rotated tenant_id raw user db, done (issued c settings now secret user db))
      else invalid db

  abbrev pub refresh_token :
      ℕ → String → Option RefreshToken → AuthDb → AuthDb × Either AuthError IssuedTokens
  refresh_token tenant_id raw none db = invalid db
  refresh_token tenant_id raw (some t) db =
      if not (is_live t)
      then invalid (revoke_all now t.tenant_id t.app_user_id db)
      else if leb t.expires_at now
      then invalid db
      else refresh_for tenant_id raw (find (is_user tenant_id t.app_user_id) db.users) db

  abbrev pub refresh_in : Option ℕ → String → AuthDb → AuthDb × Either AuthError IssuedTokens
  refresh_in none raw db = invalid db
  refresh_in (some tenant_id) raw db =
      refresh_token tenant_id raw (find (is_token c tenant_id raw) db.refresh_tokens) db

  unfoldable pub refresh : String → AuthDb → AuthDb × Either AuthError IssuedTokens
  refresh raw db = refresh_in (refresh_token_tenant c raw) raw db

module _ (c : Crypto) (now : ℕ) where
  abbrev pub live_token : ℕ → String → RefreshToken → Bool
  live_token tenant_id raw t = is_token c tenant_id raw t && is_live t

  abbrev pub logged_out : ℕ → Option RefreshToken → AuthDb → AuthDb
  logged_out tenant_id none db = db
  logged_out tenant_id (some t) db = audit tenant_id t.app_user_id "auth.logout" db

  abbrev pub logout_in : Option ℕ → String → AuthDb → AuthDb
  logout_in none raw db = db
  logout_in (some tenant_id) raw db =
      logged_out tenant_id (find (live_token tenant_id raw) db.refresh_tokens) (record db {
        refresh_tokens = update_all (live_token tenant_id raw) (revoke now) db.refresh_tokens;
      })

  unfoldable pub logout : String → AuthDb → AuthDb
  logout raw db = logout_in (refresh_token_tenant c raw) raw db
