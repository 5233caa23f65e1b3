-- ===== src/CoreHr/Unique/Rows.antt =====
-- A row of backend/app/models/core_hr.py that is added or changed keeps the keys unique.
use hrus.Base.{
  ℕ, ◌<◌, ◌≡◌, refl, sym, ap, Bool, true, false, ◌&&◌, Option, none, some, List, [], ◌∷◌, String,
  str_eq→eq, find, any, update_first, All, All-append, All-map, All-update_first, count-append_one,
  count-changed, count-others, inl, inr, Bool-cases, arith,
}
use mathlib.Core.Path.{subst}
use hrus.Models.CoreHr.{Employee}
use hrus.Db.{Db}
use hrus.Leave.Balances.{is_employee}
use hrus.CoreHr.Employees.{
  has_number, holds_text, has_email, other_than, add_employee, change_employee,
}
use hrus.CoreHr.Unique.Free.{IsUnique, EmailFree}

pub any-and_true : (p : Employee → Bool) (xs : List Employee) → any (λ y. p y && true) xs ≡ any p xs
unfolding any
any-and_true p [] = refl
any-and_true p (x ∷ xs) = ground (arith, any-and_true p xs)

pub is_employee-ids :
    (t i : ℕ) (e : Employee) → is_employee t i e ≡ true → (e.tenant_id ≡ t) × (e.id ≡ i)
unfolding is_employee
is_employee-ids t i e h = ground arith

has_number-key :
    (t : ℕ) (n : String) (e : Employee)
    → has_number t n e ≡ true
    → (e.tenant_id ≡ t) × (e.employee_number ≡ n)
unfolding has_number
has_number-key t n e h = (ground arith, str_eq→eq e.employee_number n (ground arith))

holds_text-some : (o : Option String) (s : String) → holds_text o s ≡ true → o ≡ some s
holds_text-some none s h = cc
holds_text-some (some t) s h = ap some (str_eq→eq t s h)

has_email-key :
    (t : ℕ) (s : String) (e : Employee)
    → has_email t s e ≡ true
    → (e.tenant_id ≡ t) × (e.work_email ≡ some s)
unfolding has_email
has_email-key t s e h = (ground arith, holds_text-some e.work_email s (ground arith))

fresh-any :
    (t n : ℕ) (xs : List Employee) → All (λ e. e.id < n) xs → any (is_employee t n) xs ≡ false
unfolding any is_employee
fresh-any t n [] h = refl
fresh-any t n (x ∷ xs) h = ground (arith, fresh-any t n xs h.1, h.0)

module _ (e : Employee) (db : Db) (u : IsUnique db) where
  pub add_employee-IsUnique :
      e.id ≡ db.next_id
      → any (has_number e.tenant_id e.employee_number) db.employees ≡ false
      → EmailFree e.tenant_id e.work_email none db
      → IsUnique (add_employee e db)
  add_employee-IsUnique new number email = record {
    ids = λ t i. count-append_one (is_employee t i) db.employees e (u.ids t i) (λ h.
        let key = is_employee-ids t i e h in
        rw (sym key.1, new) (fresh-any t db.next_id db.employees u.fresh));
    numbers = λ t n.
        count-append_one (has_number t n) db.employees e (u.numbers t n)
          (λ h. let key = has_number-key t n e h in rw (sym key.0, sym key.1) number);
    emails = λ t s. count-append_one (has_email t s) db.employees e (u.emails t s) (λ h.
        let key = has_email-key t s e h in
        rw (sym key.0, sym (any-and_true (has_email e.tenant_id s) db.employees))
          (subst (λ o. EmailFree e.tenant_id o none db) key.1 email));
    fresh =
        All-append _ db.employees (e ∷ []) (All-map _ _ db.employees (λ x h. omega arith) u.fresh)
          (omega arith, tt);
  }

  module _ (found : find (is_employee e.tenant_id e.id) db.employees ≡ some e) where
    same_row :
        (t : ℕ) (s : String) (y : Employee)
        → e.tenant_id ≡ t
        → has_email t s y ≡ true
        → other_than (some e.id) y ≡ false
        → is_employee e.tenant_id e.id y ≡ true
    unfolding is_employee has_email
    same_row t s y own h same = ground arith

    pub email-IsUnique :
        (email : Option String)
        → EmailFree e.tenant_id email (some e.id) db
        → IsUnique (change_employee e (λ x. record x { work_email = email }) db)
    unfolding is_employee has_number
    email-IsUnique email free = record {
      ids = λ t i. count-changed (is_employee t i) _ _ db.employees e found (u.ids t i) inl;
      numbers = λ t n. count-changed (has_number t n) _ _ db.employees e found (u.numbers t n) inl;
      emails = λ t s. count-changed (has_email t s) _ _ db.employees e found (u.emails t s) (λ h.
          let key = has_email-key t s (record e { work_email = email }) h in
          let none_other : any (λ y. has_email t s y && other_than (some e.id) y) db.employees
              ≡ false =
            rw (sym key.0) (subst (λ o. EmailFree e.tenant_id o (some e.id) db) key.1 free) in
          elim (Bool-cases (has_email t s e)) [
            | inl had ↦ inl had
            | inr not_had ↦ inr (
                count-others (has_email t s) _ (other_than (some e.id)) db.employees e found
                  (u.ids e.tenant_id e.id) not_had none_other (λ y. same_row t s y key.0))
          ]);
      fresh = All-update_first _ _ _ db.employees (λ x h. h) u.fresh;
    }

pub name-IsUnique :
    (t0 i0 : ℕ) (e : Employee) (db : Db) (name : String)
    → IsUnique db
    → find (is_employee t0 i0) db.employees ≡ some e
    → IsUnique (record db {
      employees =
          update_first (is_employee t0 i0) (λ x. record x { full_name = name }) db.employees;
    })
unfolding is_employee has_number has_email
name-IsUnique t0 i0 e db name u found = record {
  ids = λ t i. count-changed (is_employee t i) _ _ db.employees e found (u.ids t i) inl;
  numbers = λ t n. count-changed (has_number t n) _ _ db.employees e found (u.numbers t n) inl;
  emails = λ t s. count-changed (has_email t s) _ _ db.employees e found (u.emails t s) inl;
  fresh = All-update_first _ _ _ db.employees (λ x h. h) u.fresh;
}

pub same_id :
    (t i : ℕ) (y : Employee) (email : Option String)
    → is_employee t i y ≡ true
    → is_employee t i (record y { work_email = email }) ≡ true
unfolding is_employee
same_id t i y email h = h
