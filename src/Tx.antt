-- ===== src/Tx.antt =====
-- A service call as one transaction (backend/app/core/db.py, `transaction_session`): it commits
-- when it returns, and an exception rolls back all that it wrote, so an error carries no state.
use hrus.Base.{◌≡◌, refl, Bool, true, false, Option, none, some}
use hrus.Errors.{AppError, Result, ok, err}

abbrev pub Tx : Type 0 → Type 0 → Type 0
Tx S A = S → Result (A × S)

module _ {S A : Type 0} where
  abbrev pub pure : A → Tx S A
  pure a s = ok (a, s)

  abbrev pub raise : AppError → Tx S A
  raise e s = err e

  abbrev pub gets : (S → A) → Tx S A
  gets f s = ok (f s, s)

  -- The value of an optional row, or the error that the service raises where there is none.
  abbrev pub or_raise : AppError → Option A → Tx S A
  or_raise e none = raise e
  or_raise e (some a) = pure a

module _ {S A : Type 0} where
  -- A step that changes nothing.
  abbrev pub lift : Result A → Tx S A
  lift (ok a) = pure a
  lift (err e) = raise e

module _ {S A B : Type 0} where
  abbrev continue : Result (A × S) → (A → Tx S B) → Result (B × S)
  continue (ok (a, s)) f = f a s
  continue (err e) f = err e

  infixl 5 ◌>>=◌ ◌>>◌
  abbrev pub ◌>>=◌ : Tx S A → (A → Tx S B) → Tx S B
  ◌>>=◌ m f s = continue (m s) f

  abbrev pub ◌>>◌ : Tx S A → Tx S B → Tx S B
  m >> k = m >>= λ _. k

module _ {S : Type 0} where
  abbrev pub modify : (S → S) → Tx S (Unit {0})
  modify f s = ok (tt, f s)

  abbrev pub raise_if : Bool → AppError → Tx S (Unit {0})
  raise_if true e = raise e
  raise_if false e = pure tt

-- What holds of the result and the committed state; a transaction that fails commits nothing.
abbrev pub Yields : {S A : Type 0} → (A → S → Type 0) → Result (A × S) → Type 0
Yields P (ok (a, s)) = P a s
Yields P (err e) = Unit

-- What holds of the committed state.
abbrev pub Commits : {S A : Type 0} → (S → Type 0) → Result (A × S) → Type 0
Commits P (ok (a, s)) = P s
Commits P (err e) = Unit

module _ {S A B : Type 0} where
  pub Yields-bind :
      (Q : A → S → Type 0) (P : B → S → Type 0) (m : Tx S A) (f : A → Tx S B) (s : S)
      → Yields Q (m s)
      → ((a : A) (s' : S) → m s ≡ ok (a, s') → Q a s' → Yields P (f a s'))
      → Yields P ((m >>= f) s)
  Yields-bind Q P m f s h k = go (m s) refl h
    where
      go : (r : Result (A × S)) → m s ≡ r → Yields Q r → Yields P (continue r f)
      go (ok (a, s')) e q = k a s' e q
      go (err x) e q = tt

module _ {S A : Type 0} (P Q : S → Type 0) where
  pub Commits-map : (r : Result (A × S)) → ((s : S) → P s → Q s) → Commits P r → Commits Q r
  Commits-map (ok (a, s)) k h = k s h
  Commits-map (err e) k h = tt

module _ {S A B : Type 0} (P Q : S → Type 0) where
  pub Commits-bind :
      (m : Tx S A) (f : A → Tx S B) (s : S)
      → Commits P (m s)
      → ((a : A) (s' : S) → P s' → Commits Q (f a s'))
      → Commits Q ((m >>= f) s)
  Commits-bind m f s h k = go (m s) h
    where
      go : (r : Result (A × S)) → Commits P r → Commits Q (continue r f)
      go (ok (a, s')) p = k a s' p
      go (err x) p = tt

module _ {S A B : Type 0} (Q : S → Type 0) where
  -- A step that changes nothing and hands on what it found.
  pub Commits-read :
      (R : A → Type 0) (m : Tx S A) (f : A → Tx S B) (s : S)
      → Yields (λ a s'. (s' ≡ s) × R a) (m s)
      → ((a : A) → R a → Commits Q (f a s))
      → Commits Q ((m >>= f) s)
  Commits-read R m f s h k = go (m s) h
    where
      go : (r : Result (A × S)) → Yields (λ a s'. (s' ≡ s) × R a) r → Commits Q (continue r f)
      go (ok (a, s')) (e, x) = rw e (k a x)
      go (err x) p = tt

-- A step that leaves the state as it was.
pub Yields-Commits :
    {S A : Type 0} (s : S) (R : A → Type 0) (r : Result (A × S))
    → Yields (λ a s'. (s' ≡ s) × R a) r
    → Commits (λ s'. s' ≡ s) r
Yields-Commits s R (ok (a, s')) h = h.0
Yields-Commits s R (err e) h = tt

-- The steps that only read, and what they establish.
pub raise_if-Yields :
    {S : Type 0} (b : Bool) (e : AppError) (s : S)
    → Yields (λ _ s'. (s' ≡ s) × (b ≡ false)) (raise_if b e s)
raise_if-Yields true e s = tt
raise_if-Yields false e s = (refl, refl)

pub or_raise-Yields :
    {S A : Type 0} (e : AppError) (o : Option A) (s : S)
    → Yields (λ a s'. (s' ≡ s) × (o ≡ some a)) (or_raise e o s)
or_raise-Yields e none s = tt
or_raise-Yields e (some a) s = (refl, refl)

module _ {S A B : Type 0} (P : B → S → Type 0) where
  pub Yields-read :
      (R : A → Type 0) (m : Tx S A) (f : A → Tx S B) (s : S)
      → Yields (λ a s'. (s' ≡ s) × R a) (m s)
      → ((a : A) → R a → Yields P (f a s))
      → Yields P ((m >>= f) s)
  Yields-read R m f s h k = go (m s) h
    where
      go : (r : Result (A × S)) → Yields (λ a s'. (s' ≡ s) × R a) r → Yields P (continue r f)
      go (ok (a, s')) (e, x) = rw e (k a x)
      go (err x) p = tt

pub Yields-map :
    {S A : Type 0} (P Q : A → S → Type 0) (r : Result (A × S))
    → ((a : A) (s : S) → P a s → Q a s)
    → Yields P r
    → Yields Q r
Yields-map P Q (ok (a, s)) k h = k a s h
Yields-map P Q (err e) k h = tt

pub lift-Yields :
    {S A : Type 0} (r : Result A) (s : S) → Yields (λ a s'. (s' ≡ s) × (r ≡ ok a)) (lift r s)
lift-Yields (ok a) s = (refl, refl)
lift-Yields (err e) s = tt
