-- ===== src/Auth/Throttle.antt =====
-- Failed logins lock an account for a while.
use hrus.Base.{
  ℕ, suc, ◌+◌, ◌≡◌, refl, ◌≤◌, ◌<◌, Bool, true, false, Option, none, some, String, arith, str_eq,
  leb, ltb, if◌then◌else◌, Either, failed, sym, find, ◌&&◌,
}
use text.Mathlib.TextPositions.{eq_refl}
use mathlib.Core.Path.{subst}
use hrus.Models.Users.{AppUser, Tenant}
use mathlib.Core.Option
use hrus.Auth.{
  Crypto, Settings, AuthError, IssuedTokens, Redis, Counter, attempts_key, failed_attempts,
  record_failed_login, verify_password,
}
use hrus.Auth.Sessions.{AuthState, login, verified, find_user}

-- `n` failures at least are counted until `until`.
record IsCounted (key : String) (n until : ℕ) (redis : Redis) : Type 0 where
  pub up : redis.is_up ≡ true
  pub counter : Counter
  pub stored : redis.counters key ≡ some counter
  pub enough : n ≤ counter.count
  pub lasting : until ≤ counter.expires_at

module _ (lockout : ℕ) (key : String) (redis : Redis) where
  first-IsCounted :
      (now : ℕ)
      → redis.is_up ≡ true
      → redis.counters key ≡ none
      → IsCounted key 1 (now + lockout) (record_failed_login now lockout key redis)
  unfolding record_failed_login
  first-IsCounted now up fresh = rw up (record {
    up = refl;
    counter = record { count = 1; expires_at = now + lockout };
    stored = rw (eq_refl key, fresh) refl;
    enough = omega arith;
    lasting = omega arith;
  })

  next-IsCounted :
      (now n until : ℕ)
      → now < until
      → IsCounted key n until redis
      → IsCounted key (suc n) until (record_failed_login now lockout key redis)
  unfolding record_failed_login
  next-IsCounted now n until early k =
      let live : ltb now k.counter.expires_at ≡ true = ground (arith, k.lasting) in
      rw k.up (record {
        up = refl;
        counter = record k.counter { count = suc k.counter.count };
        stored = rw (eq_refl key, k.stored, live) refl;
        enough = omega (arith, k.enough);
        lasting = k.lasting;
      })

  failed_attempts-counted :
      (now n until : ℕ)
      → now < until
      → IsCounted key n until redis
      → n ≤ failed_attempts now key redis
  unfolding failed_attempts
  failed_attempts-counted now n until early k =
      let live : ltb now k.counter.expires_at ≡ true = ground (arith, k.lasting) in
      rw (k.up, k.stored, live) k.enough

abbrev IsRefusal : Either AuthError IssuedTokens → Type 0
IsRefusal (failed AuthError.invalid_credentials) = Unit
IsRefusal _ = ⊥

-- The key under which a login counts its failures.
abbrev pub key_of : Crypto → String → String → String
key_of c tenant_slug email = attempts_key (c.strip_lower tenant_slug) (c.strip_lower email)

module _ (c : Crypto) (settings : Settings) (slug email : String) where
  module _ (now : ℕ) (secret password : String) where
    abbrev try : AuthState → AuthState × Either AuthError IssuedTokens
    try = login c settings now secret slug email password

    verified-counts :
        (user : Option AppUser) (checked : Bool × Bool) (s : AuthState)
        → IsRefusal (verified c settings now secret user checked password (key_of c slug email) s).1
        → (verified c settings now secret user checked password (key_of c slug email) s).0.1
          ≡ record_failed_login now settings.login_lockout_seconds (key_of c slug email) s.1
    verified-counts none checked s h = refl
    verified-counts (some user) (true, rehash) s h = absurd h
    verified-counts (some user) (false, rehash) s h = refl

    -- A login that fails for its credentials counts its failure.
    login-counts :
        (s : AuthState)
        → IsRefusal (try s).1
        → (try s).0.1
          ≡ record_failed_login now settings.login_lockout_seconds (key_of c slug email) s.1
    unfolding login
    login-counts s h =
        by_lock (leb settings.login_max_attempts (failed_attempts now (key_of c slug email) s.1)) h
      where
        user : Option AppUser
        user =
            find_user (c.strip_lower email)
              (find (λ (t : Tenant). str_eq t.slug (c.strip_lower slug) && t.is_active) s.0.tenants)
              s.0.users

        checked : AuthState × Either AuthError IssuedTokens
        checked =
            verified c settings now secret user
              (verify_password c password (Option.map (λ (u : AppUser). u.password_hash) user))
              password (key_of c slug email) s

        by_lock :
            (b : Bool)
            → IsRefusal (if b then (s, failed AuthError.too_many_attempts) else checked).1
            → (if b then (s, failed AuthError.too_many_attempts) else checked).0.1
              ≡ record_failed_login now settings.login_lockout_seconds (key_of c slug email) s.1
        by_lock true q = absurd q
        by_lock false q = verified-counts user _ s q

  -- Logins for one account that fail for their credentials, the last of them before `until`.
  pub data Failing (until : ℕ) (start : AuthState) : ℕ → AuthState → Type 0 where
    none_yet : Failing until start 0 start
    fail :
        {n : ℕ} {s : AuthState}
        → Failing until start n s
        → (now : ℕ) (secret password : String) → now < until
        → (login c settings now secret slug email password s).1
          ≡ failed AuthError.invalid_credentials
        → Failing until start (suc n) (login c settings now secret slug email password s).0

  failing-IsCounted :
      {until : ℕ} {start : AuthState} {n : ℕ} {s : AuthState}
      → IsCounted (key_of c slug email) 1 until start.1
      → Failing until start n s
      → IsCounted (key_of c slug email) (suc n) until s.1
  failing-IsCounted k Failing.none_yet = k
  failing-IsCounted {until = until} k (Failing.fail {n = n} {s = s} f now secret password early h) =
      subst (IsCounted (key_of c slug email) (suc (suc n)) until)
        (sym (login-counts now secret password s (subst IsRefusal (sym h) tt)))
        (next-IsCounted settings.login_lockout_seconds (key_of c slug email) s.1 now (suc n) until
          early (failing-IsCounted k f))

  -- After a first failure at `now`, and as many more failures before the lockout has passed as the
  -- settings allow in all, every login for the account is refused until then, whatever its password,
  -- and changes nothing; Redis is up, and had no counter for the account.
  pub login-locked :
      (now later n : ℕ) (secret secret' password password' : String) (start s : AuthState)
      → start.1.is_up ≡ true
      → start.1.counters (key_of c slug email) ≡ none
      → (login c settings now secret slug email password start).1
        ≡ failed AuthError.invalid_credentials
      → Failing
          (now + settings.login_lockout_seconds)
          (login c settings now secret slug email password start).0
          n
          s
      → settings.login_max_attempts ≤ suc n
      → later < now + settings.login_lockout_seconds
      → login c settings later secret' slug email password' s
        ≡ (s, failed AuthError.too_many_attempts)
  unfolding login
  login-locked now later n secret secret' password password' start s up fresh h f many early =
      let key = key_of c slug email in
      let until = now + settings.login_lockout_seconds in
      let counted : IsCounted key 1 until
          (login c settings now secret slug email password start).0.1 =
        subst (IsCounted key 1 until)
          (sym (login-counts now secret password start (subst IsRefusal (sym h) tt)))
          (first-IsCounted settings.login_lockout_seconds key start.1 now up fresh) in
      let attempts : suc n ≤ failed_attempts later key s.1 =
        failed_attempts-counted settings.login_lockout_seconds key s.1 later (suc n) until early
          (failing-IsCounted counted f) in
      let locked : leb settings.login_max_attempts (failed_attempts later key s.1) ≡ true =
        ground (arith, attempts, many) in
      rw locked refl
