-- ===== src/Auth/Logout.antt =====
-- A logout ends the token for good.
use hrus.Base.{
  sym, ap, ◌∙◌, ℕ, ◌≡◌, refl, false, Option, none, some, List, [], ◌∷◌, String, arith, find,
  update_all, failed,
}
use hrus.Models.Users.{RefreshToken, AuthDb}
use hrus.Auth.{Crypto, Settings, AuthError, refresh_token_tenant, audit, is_token, is_live}
use hrus.Auth.Sessions.{
  revoke, live_token, logged_out, logout_in, logout, refresh_token, refresh_in, refresh,
}

module _ (c : Crypto) (now t : ℕ) (raw : String) where
  revoked : List RefreshToken → List RefreshToken
  revoked ts = update_all (live_token c now t raw) (revoke now) ts

  find-revoked :
      (later : ℕ) (ts : List RefreshToken) → find (live_token c later t raw) (revoked ts) ≡ none
  unfolding find update_all revoked is_token
  find-revoked later [] = refl
  find-revoked later (x ∷ ts) = ground (arith, find-revoked later ts)

  revoked_again :
      (later : ℕ) (ts : List RefreshToken)
      → update_all (live_token c later t raw) (revoke later) (revoked ts) ≡ revoked ts
  unfolding update_all revoked is_token
  revoked_again later [] = refl
  revoked_again later (x ∷ ts) = ground (arith, revoked_again later ts)

  found-used :
      (ts : List RefreshToken) (x : RefreshToken)
      → find (is_token c t raw) (revoked ts) ≡ some x
      → is_live x ≡ false
  unfolding find update_all revoked is_token
  found-used [] x h = ground arith
  found-used (y ∷ ts) x h = ground (arith, found-used ts x)

  logged_out-tokens :
      (o : Option RefreshToken) (db : AuthDb)
      → (logged_out c now t o db).refresh_tokens ≡ db.refresh_tokens
  unfolding audit
  logged_out-tokens none db = refl
  logged_out-tokens (some x) db = refl

  tokens_after :
      (db : AuthDb) → (logout_in c now (some t) raw db).refresh_tokens ≡ revoked db.refresh_tokens
  unfolding revoked
  tokens_after db = logged_out-tokens (find (live_token c now t raw) db.refresh_tokens) _

  nothing_left :
      (later : ℕ) (db : AuthDb) (ts : List RefreshToken)
      → db.refresh_tokens ≡ revoked ts
      → logout_in c later (some t) raw db ≡ db
  nothing_left later db ts h =
      let gone : find (live_token c later t raw) db.refresh_tokens ≡ none =
        rw h (find-revoked later ts) in
      let same : update_all (live_token c later t raw) (revoke later) db.refresh_tokens
          ≡ db.refresh_tokens =
        rw h (revoked_again later ts) in
      rw gone (ap (λ (l : List RefreshToken). record db { refresh_tokens = l }) same)

  refused :
      (settings : Settings) (later : ℕ) (secret : String) (db : AuthDb) (ts : List RefreshToken)
      → db.refresh_tokens ≡ revoked ts
      → (refresh_in c settings later secret (some t) raw db).1
        ≡ failed AuthError.invalid_refresh_token
  refused settings later secret db ts h = by_token (find (is_token c t raw) db.refresh_tokens) refl
    where
      by_token :
          (o : Option RefreshToken)
          → find (is_token c t raw) db.refresh_tokens ≡ o
          → (refresh_token c settings later secret t raw o db).1
            ≡ failed AuthError.invalid_refresh_token
      by_token none f = refl
      by_token (some x) f =
          let used : is_live x ≡ false =
            found-used ts x (ap (find (is_token c t raw)) (sym h) ∙ f) in
          rw used refl

-- After a logout the token gives no new tokens at any later time, and logging out with it again
-- changes nothing; both also for a text that is no token, or a token that nobody holds.
pub logout-ends :
    (c : Crypto) (settings : Settings) (now later : ℕ) (secret raw : String) (db : AuthDb)
    → ((refresh c settings later secret raw (logout c now raw db)).1
        ≡ failed AuthError.invalid_refresh_token)
      × (logout c later raw (logout c now raw db) ≡ logout c now raw db)
unfolding refresh logout
logout-ends c settings now later secret raw db = by_tenant (refresh_token_tenant c raw)
  where
    by_tenant :
        (o : Option ℕ)
        → ((refresh_in c settings later secret o raw (logout_in c now o raw db)).1
            ≡ failed AuthError.invalid_refresh_token)
          × (logout_in c later o raw (logout_in c now o raw db) ≡ logout_in c now o raw db)
    by_tenant none = (refl, refl)
    by_tenant (some t) = (
      refused c now t raw settings later secret (logout_in c now (some t) raw db) db.refresh_tokens
          (tokens_after c now t raw db),
      nothing_left c now t raw later (logout_in c now (some t) raw db) db.refresh_tokens
          (tokens_after c now t raw db),
    )
