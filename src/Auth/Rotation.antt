-- ===== src/Auth/Rotation.antt =====
-- A refresh token is good for one refresh, and using it again ends every session of its user.
use hrus.Base.{
  ℕ, ◌≡◌, refl, sym, ap, ◌∙◌, Bool, true, false, not, ◌&&◌, Option, none, some, List, [], ◌∷◌, ◌++◌,
  String, arith, leb, find, any, update_all, Either, failed, done, Bool-cases, inl, inr, find-holds,
  find-update_first_self,
}
use mathlib.Core.Path.{subst, subst₂}
use hrus.Models.Users.{AppUser, RefreshToken, AuthDb}
use hrus.Auth.{
  Crypto, Settings, AuthError, IssuedTokens, refresh_token_tenant, audit, is_token, is_live,
  is_user, issued, new_token,
}
use hrus.Auth.Sessions.{
  of_user, revoke, revoke_all, replace, rotated, refresh_for, refresh_token, refresh_in, refresh,
}

-- A user's tokens that can still be used.
abbrev pub live_of : ℕ → ℕ → RefreshToken → Bool
live_of tenant_id user_id t = of_user tenant_id user_id t && is_live t

any-update_all :
    (p : RefreshToken → Bool) (f : RefreshToken → RefreshToken) (ts : List RefreshToken)
    → ((t : RefreshToken) → p (f t) ≡ false)
    → any p (update_all p f ts) ≡ false
unfolding any update_all
any-update_all p f [] h = refl
any-update_all p f (t ∷ ts) h = ground (arith, h t, any-update_all p f ts)

revoke_all-none :
    (now tenant_id user_id : ℕ) (db : AuthDb)
    → any (live_of tenant_id user_id) (revoke_all now tenant_id user_id db).refresh_tokens ≡ false
unfolding revoke_all audit
revoke_all-none now tenant_id user_id db =
    any-update_all (live_of tenant_id user_id) (revoke now) db.refresh_tokens (λ t. ground arith)

find-append_found :
    (p : RefreshToken → Bool) (ts us : List RefreshToken) (t : RefreshToken)
    → find p ts ≡ some t
    → find p (ts ++ us) ≡ some t
unfolding find
find-append_found p [] us t h = ground arith
find-append_found p (x ∷ ts) us t h = ground (arith, find-append_found p ts us t)

module _ (c : Crypto) (settings : Settings) where
  -- The row of a successful refresh.
  record IsRotation (now : ℕ) (secret raw : String) (db db' : AuthDb) (tokens : IssuedTokens)
      : Type 0 where
    pub tenant_id : ℕ
    pub token : RefreshToken
    pub user : AppUser
    pub of_tenant : refresh_token_tenant c raw ≡ some tenant_id
    pub found : find (is_token c tenant_id raw) db.refresh_tokens ≡ some token
    pub of_token : find (is_user tenant_id token.app_user_id) db.users ≡ some user
    pub after : db' ≡ rotated c settings now secret tenant_id raw user db
    pub given : tokens ≡ issued c settings now secret user db

  module _ (now : ℕ) (secret raw : String) (db : AuthDb) where
    -- What a result of `refresh` says.
    abbrev Rotates : AuthDb × Either AuthError IssuedTokens → Type 0
    Rotates (db', failed e) = Unit
    Rotates (db', done tokens) = IsRotation now secret raw db db' tokens

    refresh-IsRotation : Rotates (refresh c settings now secret raw db)
    unfolding refresh
    refresh-IsRotation = by_tenant (refresh_token_tenant c raw) refl
      where
        by_user :
            (tenant_id : ℕ) (t : RefreshToken) (o : Option AppUser)
            → refresh_token_tenant c raw ≡ some tenant_id
            → find (is_token c tenant_id raw) db.refresh_tokens ≡ some t
            → find (is_user tenant_id t.app_user_id) db.users ≡ o
            → Rotates (refresh_for c settings now secret tenant_id raw o db)
        by_user tenant_id t none r f u = tt
        by_user tenant_id t (some user) r f u = elim (Bool-cases user.is_active) [
          | inl active ↦ rw active (record {
            tenant_id = tenant_id;
            token = t;
            user = user;
            of_tenant = r;
            found = f;
            of_token = u;
            after = refl;
            given = refl;
          })
          | inr off ↦ rw off tt
        ]

        by_token :
            (tenant_id : ℕ) (o : Option RefreshToken)
            → refresh_token_tenant c raw ≡ some tenant_id
            → find (is_token c tenant_id raw) db.refresh_tokens ≡ o
            → Rotates (refresh_token c settings now secret tenant_id raw o db)
        by_token tenant_id none r f = tt
        by_token tenant_id (some t) r f = elim (Bool-cases (not (is_live t))) [
          | inl used ↦ rw used tt
          | inr live ↦ rw live (elim (Bool-cases (leb t.expires_at now)) [
            | inl late ↦ rw late tt
            | inr fresh ↦ rw fresh (by_user tenant_id t _ r f refl)
          ])
        ]

        by_tenant :
            (o : Option ℕ)
            → refresh_token_tenant c raw ≡ o
            → Rotates (refresh_in c settings now secret o raw db)
        by_tenant none r = tt
        by_tenant (some tenant_id) r = by_token tenant_id _ r refl

is_user-ids : (t i : ℕ) (u : AppUser) → is_user t i u ≡ true → (u.tenant_id ≡ t) × (u.id ≡ i)
unfolding is_user
is_user-ids t i u h = ground arith

module _ (c : Crypto) (settings : Settings) where
  is_token-replace :
      (t now id : ℕ) (raw : String) (x : RefreshToken)
      → is_token c t raw x ≡ true
      → is_token c t raw (replace now id x) ≡ true
  unfolding is_token
  is_token-replace t now id raw x h = h

  is_token-tenant :
      (t : ℕ) (raw : String) (x : RefreshToken) → is_token c t raw x ≡ true → x.tenant_id ≡ t
  unfolding is_token
  is_token-tenant t raw x h = ground arith

  -- What a second use of the token ends with.
  abbrev pub Refused : ℕ → ℕ → AuthDb × Either AuthError IssuedTokens → Type 0
  Refused tenant_id user_id r =
      (r.1 ≡ failed AuthError.invalid_refresh_token)
      × (any (live_of tenant_id user_id) r.0.refresh_tokens ≡ false)

  module _ (now later : ℕ) (secret secret' raw : String) (db db' : AuthDb)
      (tokens : IssuedTokens) where
    used_again :
        (r : IsRotation c settings now secret raw db db' tokens)
        → Refused r.token.tenant_id r.token.app_user_id (refresh c settings later secret' raw db')
    unfolding refresh
    used_again r =
        let is_the_token = is_token c r.tenant_id raw in
        let rows = db.refresh_tokens ++ new_token c settings now secret r.user db.next_id ∷ [] in
        let kept : find is_the_token rows ≡ some r.token =
          find-append_found is_the_token db.refresh_tokens _ r.token r.found in
        let used : find is_the_token db'.refresh_tokens ≡ some (replace now db.next_id r.token) =
          rw r.after (
            find-update_first_self is_the_token (replace now db.next_id) rows r.token
              (λ x. is_token-replace r.tenant_id now db.next_id raw x) kept) in
        rw (r.of_tenant, used)
          (refl, revoke_all-none later r.token.tenant_id r.token.app_user_id db')

    -- A refresh token that has given new tokens gives none again, at any later time: its second use
    -- fails, and revokes every token of the user, the new one included.
    pub refresh-reuse :
        refresh c settings now secret raw db ≡ (db', done tokens)
        → Refused tokens.access_token.tenant_id tokens.access_token.user_id
            (refresh c settings later secret' raw db')
    refresh-reuse h =
        let r : IsRotation c settings now secret raw db db' tokens =
          subst (Rotates c settings now secret raw db) h
            (refresh-IsRotation c settings now secret raw db) in
        let ids =
          is_user-ids r.tenant_id r.token.app_user_id r.user
            (find-holds _ db.users r.user r.of_token) in
        let tenant =
          is_token-tenant r.tenant_id raw r.token
            (find-holds _ db.refresh_tokens r.token r.found) in
        let owner : tokens.access_token.user_id ≡ r.token.app_user_id =
          ap (λ (x : IssuedTokens). x.access_token.user_id) r.given ∙ ids.1 in
        let home : tokens.access_token.tenant_id ≡ r.token.tenant_id =
          ap (λ (x : IssuedTokens). x.access_token.tenant_id) r.given ∙ ids.0 ∙ sym tenant in
        subst₂ (λ (t u : ℕ). Refused t u (refresh c settings later secret' raw db')) (sym home)
          (sym owner) (used_again r)
