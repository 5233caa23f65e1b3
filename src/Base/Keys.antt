-- ===== src/Base/Keys.antt =====
-- Predicates of all rows, and keys that one row has at most, under additions and changes.
use Prim.Native.Nat.{◌≤◌}
use mathlib.Core.Path.{sym, ◌≡◌, refl, subst}
use mathlib.Core.Logic.{◌⊎◌, inl, inr}
use mathlib.Core.Bool.{Bool, true, false, ◌&&◌}
use mathlib.Core.Option.{some, some-injective}
use mathlib.Core.List.{List, [], ◌∷◌, ◌++◌}
use native.Mathlib.Omega.{arith}
use hrus.Base.Tests.{Bool-cases}
use hrus.Base.Lists.{
  All, find, update_first, any, count, any-count, count-append, count-update_first, filter,
}

module _ {A : Type 0} where
  pub All-append : (P : A → Type 0) (xs ys : List A) → All P xs → All P ys → All P (xs ++ ys)
  All-append P [] ys h k = k
  All-append P (x ∷ xs) ys h k = (h.0, All-append P xs ys h.1 k)

  pub All-find :
      (P : A → Type 0) (p : A → Bool) (xs : List A) (x : A) → All P xs → find p xs ≡ some x → P x
  unfolding find
  All-find P p [] x h e = cc
  All-find P p (y ∷ xs) x h e = elim (Bool-cases (p y)) [
    | inl t ↦ subst P (some-injective y x (rw t at e)) h.0
    | inr f ↦ All-find P p xs x h.1 (rw f at e)
  ]

  pub All-update_first :
      (P : A → Type 0) (p : A → Bool) (f : A → A) (xs : List A)
      → ((x : A) → P x → P (f x))
      → All P xs
      → All P (update_first p f xs)
  unfolding update_first
  All-update_first P p f [] k h = tt
  All-update_first P p f (x ∷ xs) k h = elim (Bool-cases (p x)) [
    | inl t ↦ rw t (k x h.0, h.1)
    | inr u ↦ rw u (h.0, All-update_first P p f xs k h.1)
  ]

  -- The row that is changed is the one that the test finds.
  pub All-update_found :
      (P : A → Type 0) (p : A → Bool) (f : A → A) (xs : List A) (x : A)
      → find p xs ≡ some x
      → P (f x)
      → All P xs
      → All P (update_first p f xs)
  unfolding find update_first
  All-update_found P p f [] x e k h = tt
  All-update_found P p f (y ∷ xs) x e k h = elim (Bool-cases (p y)) [
    | inl t ↦ rw t (subst (λ z. P (f z)) (sym (some-injective y x (rw t at e))) k, h.1)
    | inr u ↦ rw u (h.0, All-update_found P p f xs x (rw u at e) k h.1)
  ]

  pub All-map : (P Q : A → Type 0) (xs : List A) → ((x : A) → P x → Q x) → All P xs → All Q xs
  All-map P Q [] k h = tt
  All-map P Q (x ∷ xs) k h = (k x h.0, All-map P Q xs k h.1)

  -- A row that is added keeps a key that no other row has.
  pub count-append_one :
      (p : A → Bool) (xs : List A) (x : A)
      → count p xs ≤ 1
      → (p x ≡ true → any p xs ≡ false)
      → count p (xs ++ x ∷ []) ≤ 1
  unfolding count
  count-append_one p xs x h k = elim (Bool-cases (p x)) [
    | inl same ↦
        let one : count p (x ∷ []) ≡ 1 = rw same refl in
        omega (arith, count-append p xs (x ∷ []), any-count p xs (k same))
    | inr other ↦
        let nothing : count p (x ∷ []) ≡ 0 = rw other refl in
        omega (arith, count-append p xs (x ∷ []))
  ]

  -- So does a row that is changed, where it had the key or no row has.
  pub count-changed :
      (p q : A → Bool) (f : A → A) (xs : List A) (x : A)
      → find q xs ≡ some x
      → count p xs ≤ 1
      → (p (f x) ≡ true → (p x ≡ true) ⊎ (count p xs ≡ 0))
      → count p (update_first q f xs) ≤ 1
  count-changed p q f xs x found h k = elim (Bool-cases (p (f x))) [
    | inl same ↦ elim (k same) [
      | inl had ↦ ground (arith, count-update_first p q f xs x found)
      | inr free ↦ ground (arith, count-update_first p q f xs x found)
    ]
    | inr other ↦ ground (arith, count-update_first p q f xs x found)
  ]

  -- The rows that the query for other rows does not see are those of another key.
  pub count-none :
      (p q o : A → Bool) (xs : List A)
      → count q xs ≡ 0
      → any (λ y. p y && o y) xs ≡ false
      → ((y : A) → p y ≡ true → o y ≡ false → q y ≡ true)
      → count p xs ≡ 0
  unfolding any count
  count-none p q o [] h n k = refl
  count-none p q o (y ∷ ys) h n k = ground (arith, k y, count-none p q o ys)

  pub count-others :
      (p q o : A → Bool) (xs : List A) (x : A)
      → find q xs ≡ some x
      → count q xs ≤ 1
      → p x ≡ false
      → any (λ y. p y && o y) xs ≡ false
      → ((y : A) → p y ≡ true → o y ≡ false → q y ≡ true)
      → count p xs ≡ 0
  unfolding find any count
  count-others p q o [] x h u n a k = refl
  count-others p q o (y ∷ ys) x h u n a k = elim (Bool-cases (q y)) [
    | inl here ↦
        let same : y ≡ x = some-injective y x (rw here at h) in
        let not_y : p y ≡ false = rw same n in ground (arith, count-none p q o ys, k)
    | inr there ↦ ground (arith, k y, count-others p q o ys x (rw there at h))
  ]

  pub count-filter : (p q : A → Bool) (xs : List A) → count p (filter q xs) ≤ count p xs
  unfolding count filter
  count-filter p q [] = omega arith
  count-filter p q (x ∷ xs) = ground (arith, count-filter p q xs)

  pub any-same : (p q : A → Bool) (xs : List A) → ((x : A) → p x ≡ q x) → any p xs ≡ any q xs
  unfolding any
  any-same p q [] h = refl
  any-same p q (x ∷ xs) h = ground (arith, h x, any-same p q xs h)
