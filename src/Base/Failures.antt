-- ===== src/Base/Failures.antt =====
-- A value, or an error of the program's own.
pub data Either (E A : Type 0) : Type 0 where
  failed : E → Either E A
  done : A → Either E A

-- What holds of the value, if there is no error.
abbrev pub OfDone : {E A : Type 0} → (A → Type 0) → Either E A → Type 0
OfDone P (failed e) = Unit
OfDone P (done a) = P a
