-- ===== src/AiSettings/Reach.antt =====
-- Calls of several users, one after another: in every state a verified key was tested as it is used.
use hrus.Base.{
  ℕ, ◌≡◌, refl, sym, ◌⊎◌, Bool, true, false, inl, inr, Option, none, some, List, [], ◌∷◌, All, Elem,
  All-append, All-find, All-update_first, All-update_found, All-map, Option-cases, Bool-cases,
  find-holds, eqb→eq,
}
use mathlib.Core.Path.{subst}
use hrus.Errors.{Result, ok, err}
use hrus.Errors.Chain.{Settles, settled}
use hrus.Tx.{Commits, Commits-read, Commits-bind, lift, Yields}
use hrus.Models.Auth.{AccessClaims}
use hrus.Db.{Env}
use hrus.AiUsage.{Reported}
use hrus.AiSettings.{TenantAiSetting, Server, AiDb, is_setting, setting_of, save, audit}
use hrus.AiSettings.Changes.{AiSettingsUpdate, changed}
use hrus.AiSettings.Update.{
  AiSettingsRead, setting_or_new, is_changed, audit_if, update_ai_settings,
}
use hrus.AiSettings.Connection.{
  LlmCredentials, Tested, AiConnectionTestResult, Reply, gateway_error, answered, tested_of,
  same_tested_refl, credentials, with_setting, begin_test, same_time, with_verified, write_verified,
  finish_failed, finish_answered, finish, test_connection,
}
use hrus.AiSettings.Guarded.{IsGuarded, changed-Settles, new_setting-IsGuarded}

-- The database, and what was tested with success.
pub record World : Type 0 where
  pub db : AiDb
  pub passed : List Tested

-- What a test adds that ends: the key, the URL and the model that were sent to the provider.
abbrev pub passed_by : Reply → Option TenantAiSetting → List Tested → List Tested
passed_by gateway_error o passed = passed
passed_by (answered usage) none passed = passed
passed_by (answered usage) (some s) passed = tested_of s ∷ passed

pub data Step (server : Server) : World → World → Type 0 where
  update :
      (w : World) (env : Env) (actor : AccessClaims) (form : AiSettingsUpdate) (r : AiSettingsRead)
      (db : AiDb)
      → update_ai_settings server env actor form w.db ≡ ok (r, db)
      → Step server w (record w { db = db })
  test :
      (w : World) (env : Env) (began : ℕ) (actor : AccessClaims) (reply : Reply)
      (r : AiConnectionTestResult) (db : AiDb)
      → test_connection server env began actor reply w.db ≡ ok (r, db)
      → Step server w (record w {
        db = db;
        passed = passed_by reply (setting_of actor.tenant_id w.db) w.passed;
      })

pub data Reach (server : Server) (w : World) : World → Type 0 where
  here : Reach server w w
  next : {u v : World} → Reach server w u → Step server u v → Reach server w v

module _ (server : Server) where
  abbrev pub AllGuarded : List Tested → AiDb → Type 0
  AllGuarded passed db = All (IsGuarded server passed) db.settings

  more-passed :
      (t : Tested) (passed : List Tested) (s : TenantAiSetting)
      → IsGuarded server passed s
      → IsGuarded server (t ∷ passed) s
  more-passed t passed s g = elim (g.tested) [
    | inl unverified ↦ record { tested = inl unverified; placed = g.placed }
    | inr tested ↦ record { tested = inr (inr tested); placed = g.placed }
  ]

  save-AllGuarded :
      (passed : List Tested) (s : TenantAiSetting) (db : AiDb)
      → IsGuarded server passed s
      → AllGuarded passed db
      → AllGuarded passed (save s db)
  unfolding save
  save-AllGuarded passed s db g all = elim (Option-cases (setting_of s.tenant_id db)) [
    | inl fresh ↦ rw fresh (All-append _ db.settings (s ∷ []) all (g, tt))
    | inr (old, found) ↦
        rw found (All-update_first _ (is_setting s.tenant_id) (λ _. s) db.settings (λ _ _. g) all)
  ]

  pub found-IsGuarded :
      (passed : List Tested) (tenant_id : ℕ) (db : AiDb) (s : TenantAiSetting)
      → AllGuarded passed db
      → setting_of tenant_id db ≡ some s
      → IsGuarded server passed s
  unfolding setting_of
  found-IsGuarded passed tenant_id db s all found =
      All-find _ (is_setting tenant_id) db.settings s all found

  setting_or_new-IsGuarded :
      (passed : List Tested) (tenant_id id : ℕ) (db : AiDb)
      → AllGuarded passed db
      → IsGuarded server passed (setting_or_new (setting_of tenant_id db) id tenant_id)
  setting_or_new-IsGuarded passed tenant_id id db all =
      elim (Option-cases (setting_of tenant_id db)) [
        | inl fresh ↦ rw fresh (new_setting-IsGuarded server passed id tenant_id)
        | inr (s, found) ↦ rw found (found-IsGuarded passed tenant_id db s all found)
      ]

  lift-Settles :
      {A : Type 0} (P : A → Type 0) (r : Result A) (db : AiDb)
      → Settles P r
      → Yields (λ x s. (s ≡ db) × P x) (lift r db)
  lift-Settles P (ok x) db (settled h) = (refl, h)
  lift-Settles P (err e) db h = tt

  module _ (passed : List Tested) (env : Env) (actor : AccessClaims) (db : AiDb)
      (all : AllGuarded passed db) where
    audit_if-AllGuarded :
        (b : Bool) (id : ℕ) (db' : AiDb)
        → AllGuarded passed db'
        → Commits (AllGuarded passed) (audit_if b actor id db')
    unfolding audit
    audit_if-AllGuarded true id db' h = h
    audit_if-AllGuarded false id db' h = h

    update-AllGuarded :
        (form : AiSettingsUpdate)
        → Commits (AllGuarded passed) (update_ai_settings server env actor form db)
    unfolding update_ai_settings
    update-AllGuarded form =
        let before = setting_of actor.tenant_id db in
        let old = setting_or_new before db.next_id actor.tenant_id in
        Commits-read (AllGuarded passed) (IsGuarded server passed)
          (lift (changed server env actor form old)) _ db
          (lift-Settles _ (changed server env actor form old) db (
            changed-Settles server passed env actor form old
              (setting_or_new-IsGuarded passed actor.tenant_id db.next_id db all)))
          λ s g.
            Commits-bind (AllGuarded passed) (AllGuarded passed)
              (audit_if (is_changed before s form) actor s.id) _ (save s db)
              (audit_if-AllGuarded (is_changed before s form) s.id (save s db)
                (save-AllGuarded passed s db g all))
              λ _ db' h. h

    -- A key that is marked as verified was tested just so.
    write_verified-AllGuarded :
        (value : Option ℕ) (held : TenantAiSetting) (passed' : List Tested)
        → setting_of held.tenant_id db ≡ some held
        → AllGuarded passed' db
        → (value ≡ none) ⊎ Elem (tested_of held) passed'
        → AllGuarded passed' (write_verified held value db)
    unfolding write_verified setting_of
    write_verified-AllGuarded value held passed' found all' tested =
        elim (Bool-cases (same_time held.key_verified_at value)) [
          | inl same ↦ rw same all'
          | inr other ↦ rw other (
              All-update_found _ (is_setting held.tenant_id) (with_verified value) db.settings held
                found
                (record {
                  tested = tested;
                  placed = (found-IsGuarded passed' held.tenant_id db held all' found).placed;
                })
                all')
        ]

    module _ (began : ℕ) (held : TenantAiSetting)
        (found : setting_of actor.tenant_id db ≡ some held) where
      owner : held.tenant_id ≡ actor.tenant_id
      unfolding setting_of is_setting
      owner =
          eqb→eq held.tenant_id actor.tenant_id
            (find-holds (is_setting actor.tenant_id) db.settings held found)

      own : setting_of held.tenant_id db ≡ some held
      own = subst (λ t. setting_of t db ≡ some held) (sym owner) found

      fail-AllGuarded : Commits (AllGuarded passed) (finish_failed server env began actor held db)
      unfolding finish_failed
      fail-AllGuarded = rw found (write_verified-AllGuarded none held passed own all (inl refl))

      answer-AllGuarded :
          (usage : Option Reported)
          → Commits
              (AllGuarded (tested_of held ∷ passed))
              (finish_answered server env began actor held usage db)
      unfolding finish_answered audit
      answer-AllGuarded usage =
          rw (found, same_tested_refl (tested_of held))
            (write_verified-AllGuarded (some env.now) held (tested_of held ∷ passed) own
              (All-map _ _ db.settings (more-passed (tested_of held) passed) all) (inr (inl refl)))

    begin_test-Yields :
        Yields
          (λ x s. (s ≡ db) × (setting_of actor.tenant_id db ≡ some (x.0)))
          (lift (begin_test server actor.tenant_id db) db)
    unfolding begin_test
    begin_test-Yields = elim (Bool-cases server.ai_enabled) [
      | inl on ↦ rw on (
          by_setting (setting_of actor.tenant_id db)
            (credentials server (setting_of actor.tenant_id db)) refl)
      | inr off ↦ rw off tt
    ]
      where
        by_setting :
            (o : Option TenantAiSetting) (c : Result LlmCredentials)
            → setting_of actor.tenant_id db ≡ o
            → Yields
                (λ x s. (s ≡ db) × (setting_of actor.tenant_id db ≡ some (x.0)))
                (lift (with_setting o c) db)
        by_setting none c e = tt
        by_setting (some s) (ok sent) e = (refl, e)
        by_setting (some s) (err x) e = tt

    test-AllGuarded :
        (began : ℕ) (reply : Reply)
        → Commits
            (AllGuarded (passed_by reply (setting_of actor.tenant_id db) passed))
            (test_connection server env began actor reply db)
    unfolding test_connection
    test-AllGuarded began reply =
        Commits-read _ (λ x. setting_of actor.tenant_id db ≡ some (x.0))
          (λ db. lift (begin_test server actor.tenant_id db) db) _ db begin_test-Yields
          (λ x found. by_reply x.0 found reply)
      where
        by_reply :
            (held : TenantAiSetting)
            → setting_of actor.tenant_id db ≡ some held
            → (reply : Reply)
            → Commits
                (AllGuarded (passed_by reply (setting_of actor.tenant_id db) passed))
                (finish server env began actor held reply db)
        by_reply held found gateway_error = fail-AllGuarded began held found
        by_reply held found (answered usage) =
            let kept = answer-AllGuarded began held found usage in
            subst
              (λ o.
                Commits (AllGuarded (passed_by (answered usage) o passed))
                  (finish_answered server env began actor held usage db))
              (sym found) kept

  pub Step-AllGuarded :
      {w v : World} → Step server w v → AllGuarded w.passed w.db → AllGuarded v.passed v.db
  Step-AllGuarded (update w env actor form r db h) all =
      subst (Commits (AllGuarded w.passed)) h (update-AllGuarded w.passed env actor w.db all form)
  Step-AllGuarded (test w env began actor reply r db h) all =
      subst (Commits (AllGuarded (passed_by reply (setting_of actor.tenant_id w.db) w.passed))) h
        (test-AllGuarded w.passed env actor w.db all began reply)

  pub Reach-AllGuarded :
      {w v : World} → AllGuarded w.passed w.db → Reach server w v → AllGuarded v.passed v.db
  Reach-AllGuarded all here = all
  Reach-AllGuarded all (next r s) = Step-AllGuarded s (Reach-AllGuarded all r)
