-- ===== src/Base/Lists.antt =====
-- Rows of a table as a list: the first row that a query finds, an update of it, sums and tests.
use Prim.Native.Nat.{ℕ, zero, suc, ◌+◌, ◌≤◌}
use mathlib.Core.Path.{◌≡◌, refl}
use mathlib.Core.Logic.{◌⊎◌}
use mathlib.Core.Bool.{Bool, true, false, ◌&&◌, ◌||◌}
use mathlib.Core.Option.{Option, none, some}
use mathlib.Core.List.{List, [], ◌∷◌, ◌++◌}
use native.Mathlib.Omega.{arith}
use hrus.Base.Tests.{if◌then◌else◌}

-- A predicate of every element.
abbrev pub All {ℓ κ} : {A : Type ℓ} → (A → Type κ) → List A → Type κ
All P [] = Unit
All P (x ∷ xs) = P x × All P xs

-- `x` is an element, with the place where it stands.
abbrev pub Elem : {A : Type 0} → A → List A → Type 0
Elem x [] = ⊥
Elem x (y ∷ ys) = (x ≡ y) ⊎ Elem x ys

module _ {ℓ} {A : Type ℓ} where
  abbrev pub length : List A → ℕ
  length [] = 0
  length (x ∷ xs) = suc (length xs)

  -- The first row that passes a test (`select … where …`, read by `scalar`).
  unfoldable pub find : (A → Bool) → List A → Option A
  find p [] = none
  find p (x ∷ xs) = if p x then some x else find p xs

  -- A change of the row that `find` returns; the other rows stay.
  unfoldable pub update_first : (A → Bool) → (A → A) → List A → List A
  update_first p f [] = []
  update_first p f (x ∷ xs) = if p x then f x ∷ xs else x ∷ update_first p f xs

  -- A change of every row that passes a test (`update … where … values …`).
  unfoldable pub update_all : (A → Bool) → (A → A) → List A → List A
  update_all p f [] = []
  update_all p f (x ∷ xs) = (if p x then f x else x) ∷ update_all p f xs

  unfoldable pub any : (A → Bool) → List A → Bool
  any p [] = false
  any p (x ∷ xs) = p x || any p xs

  unfoldable pub filter : (A → Bool) → List A → List A
  filter p [] = []
  filter p (x ∷ xs) = if p x then x ∷ filter p xs else filter p xs

  unfoldable pub count : (A → Bool) → List A → ℕ
  count p [] = 0
  count p (x ∷ xs) = if p x then suc (count p xs) else count p xs

  unfoldable pub sum_by : (A → ℕ) → List A → ℕ
  sum_by w [] = 0
  sum_by w (x ∷ xs) = w x + sum_by w xs

  -- `xs[:n]` and `xs[n:]`
  unfoldable pub take : ℕ → List A → List A
  take zero xs = []
  take (suc n) [] = []
  take (suc n) (x ∷ xs) = x ∷ take n xs

  unfoldable pub drop : ℕ → List A → List A
  drop zero xs = xs
  drop (suc n) [] = []
  drop (suc n) (x ∷ xs) = drop n xs

  -- The last row of a page.
  unfoldable pub last : List A → Option A
  last [] = none
  last (x ∷ []) = some x
  last (_ ∷ y ∷ ys) = last (y ∷ ys)

  pub find-holds : (p : A → Bool) (xs : List A) (x : A) → find p xs ≡ some x → p x ≡ true
  unfolding find
  find-holds p [] x h = ground arith
  find-holds p (y ∷ xs) x h = ground (arith, find-holds p xs x)

  pub sum_by-append : (w : A → ℕ) (xs ys : List A) → sum_by w (xs ++ ys) ≡ sum_by w xs + sum_by w ys
  unfolding sum_by
  sum_by-append w [] ys = omega arith
  sum_by-append w (x ∷ xs) ys = omega (arith, sum_by-append w xs ys)

  -- Updating the row that was found changes a sum by the difference of that row's weights.
  pub sum_by-update_first :
      (w : A → ℕ) (p : A → Bool) (f : A → A) (xs : List A) (x : A)
      → find p xs ≡ some x
      → sum_by w (update_first p f xs) + w x ≡ sum_by w xs + w (f x)
  unfolding find update_first sum_by
  sum_by-update_first w p f [] x h = ground arith
  sum_by-update_first w p f (y ∷ xs) x h = ground (arith, sum_by-update_first w p f xs x)

  pub any-append : (p : A → Bool) (xs ys : List A) → any p (xs ++ ys) ≡ (any p xs || any p ys)
  unfolding any
  any-append p [] ys = refl
  any-append p (x ∷ xs) ys = ground (arith, any-append p xs ys)

  pub find-update_first_self :
      (p : A → Bool) (f : A → A) (xs : List A) (x : A)
      → ((y : A) → p y ≡ true → p (f y) ≡ true)
      → find p xs ≡ some x
      → find p (update_first p f xs) ≡ some (f x)
  unfolding find update_first
  find-update_first_self p f [] x keep h = ground arith
  find-update_first_self p f (y ∷ xs) x keep h =
      ground (arith, keep y, find-update_first_self p f xs x keep)

  -- A change that another test does not see leaves what that test finds.
  pub find-update_first_other :
      (p q : A → Bool) (f : A → A) (xs : List A)
      → ((y : A) → p y ≡ true → q y ≡ false)
      → ((y : A) → p y ≡ true → q (f y) ≡ false)
      → find q (update_first p f xs) ≡ find q xs
  unfolding find update_first
  find-update_first_other p q f [] hy hf = refl
  find-update_first_other p q f (y ∷ xs) hy hf =
      ground (arith, hy y, hf y, find-update_first_other p q f xs hy hf)

  pub find-append_none :
      (p : A → Bool) (xs ys : List A) → find p xs ≡ none → find p (xs ++ ys) ≡ find p ys
  unfolding find
  find-append_none p [] ys h = refl
  find-append_none p (x ∷ xs) ys h = ground (arith, find-append_none p xs ys)

  pub find-append_other :
      (p : A → Bool) (xs : List A) (y : A) → p y ≡ false → find p (xs ++ y ∷ []) ≡ find p xs
  unfolding find
  find-append_other p [] y h = ground arith
  find-append_other p (x ∷ xs) y h = ground (arith, find-append_other p xs y h)

  pub any-count : (p : A → Bool) (xs : List A) → any p xs ≡ false → count p xs ≡ 0
  unfolding any count
  any-count p [] h = refl
  any-count p (x ∷ xs) h = ground (arith, any-count p xs)

  pub count-append : (p : A → Bool) (xs ys : List A) → count p (xs ++ ys) ≡ count p xs + count p ys
  unfolding count
  count-append p [] ys = omega arith
  count-append p (x ∷ xs) ys = ground (arith, count-append p xs ys)

  -- A row that starts to pass the test adds at most one, and one that does not adds none.
  pub count-update_first :
      (p q : A → Bool) (f : A → A) (xs : List A) (x : A)
      → find q xs ≡ some x
      → count p (update_first q f xs) + (if p x then 1 else 0)
        ≡ count p xs + (if p (f x) then 1 else 0)
  unfolding find count update_first
  count-update_first p q f [] x h = ground arith
  count-update_first p q f (y ∷ xs) x h = ground (arith, count-update_first p q f xs x)

  pub find-count_zero :
      (p q : A → Bool) (xs : List A) → count p xs ≡ 0 → find (λ y. p y && q y) xs ≡ none
  unfolding find count
  find-count_zero p q [] h = refl
  find-count_zero p q (y ∷ xs) h = ground (arith, find-count_zero p q xs)

  -- With a key that one row has at most, a row that a change takes out of the query is not found
  -- again.
  pub find-update_first_unique :
      (p q : A → Bool) (f : A → A) (xs : List A) (x : A)
      → find (λ y. p y && q y) xs ≡ some x
      → count p xs ≤ 1
      → q (f x) ≡ false
      → find (λ y. p y && q y) (update_first p f xs) ≡ none
  unfolding find count update_first
  find-update_first_unique p q f [] x h u out = ground arith
  find-update_first_unique p q f (y ∷ xs) x h u out =
      ground (arith, find-count_zero p q xs, find-update_first_unique p q f xs x)
