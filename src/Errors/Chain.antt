-- ===== src/Errors/Chain.antt =====
-- Steps that may fail and change nothing, one after another.
use hrus.Base.{◌≡◌, refl, Bool, true, false, Option, none, some}
use hrus.Errors.{AppError, unexpected, Result, ok, err}

module _ {A B : Type 0} where
  infixl 5 ◌>>=◌
  unfoldable pub ◌>>=◌ : Result A → (A → Result B) → Result B
  ok a >>= f = f a
  err e >>= f = err e

module _ {B : Type 0} where
  infixl 5 ◌>>◌
  abbrev pub ◌>>◌ : Result (Unit {0}) → Result B → Result B
  m >> k = m >>= λ _. k

unfoldable pub or_error : {A : Type 0} → AppError → Option A → Result A
or_error e none = err e
or_error e (some a) = ok a

-- `if …: raise …`
unfoldable pub error_if : Bool → AppError → Result (Unit {0})
error_if true e = err e
error_if false e = ok tt

-- An error of the business, which is no failure of the code.
abbrev pub IsBusiness : AppError → Type 0
IsBusiness unexpected = ⊥
IsBusiness _ = Unit

-- What holds of the value; an error is one of the business.
pub data Settles {A : Type 0} (P : A → Type 0) : Result A → Type 0 where
  settled : {a : A} → P a → Settles P (ok a)
  refused : {e : AppError} → IsBusiness e → Settles P (err e)

module _ {A B : Type 0} where
  pub Settles-bind :
      {Q : A → Type 0} {P : B → Type 0} {r : Result A} {f : A → Result B}
      → Settles Q r
      → ((a : A) → Q a → Settles P (f a))
      → Settles P (r >>= f)
  unfolding ◌>>=◌
  Settles-bind (settled {a = a} q) k = k a q
  Settles-bind (refused b) k = refused b

pub Settles-map :
    {A : Type 0} {Q P : A → Type 0} {r : Result A}
    → Settles Q r
    → ((a : A) → Q a → P a)
    → Settles P r
Settles-map (settled {a = a} q) k = settled (k a q)
Settles-map (refused b) k = refused b

pub error_if-Settles :
    (b : Bool) (e : AppError) → IsBusiness e → Settles (λ _. b ≡ false) (error_if b e)
unfolding error_if
error_if-Settles true e h = refused h
error_if-Settles false e h = settled refl

pub or_error-Settles :
    {A : Type 0} (e : AppError) (o : Option A)
    → IsBusiness e
    → Settles (λ a. o ≡ some a) (or_error e o)
unfolding or_error
or_error-Settles e none h = refused h
or_error-Settles e (some a) h = settled refl
