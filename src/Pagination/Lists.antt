-- ===== src/Pagination/Lists.antt =====
-- The first rows of a list, its last one, and what a filter keeps.
use hrus.Base.{
  take, last, ℕ, zero, suc, ◌+◌, ◌≡◌, refl, ap, ◌≤◌, ◌<◌, Bool, true, some, List, [], ◌∷◌, ◌++◌,
  arith, ltb, length, filter, All,
}

module _ {A : Type 0} where
  pub take_all : (n : ℕ) (xs : List A) → length xs ≤ n → take n xs ≡ xs
  unfolding take
  take_all zero [] h = refl
  take_all zero (x ∷ xs) h = absurd (omega arith)
  take_all (suc n) [] h = refl
  take_all (suc n) (x ∷ xs) h = ap (λ (ys : List A). x ∷ ys) (take_all n xs (omega arith))

  pub take-take : (n : ℕ) (xs : List A) → take n (take (suc n) xs) ≡ take n xs
  unfolding take
  take-take zero xs = refl
  take-take (suc n) [] = refl
  take-take (suc n) (x ∷ xs) = ap (λ (ys : List A). x ∷ ys) (take-take n xs)

  pub more-take : (n : ℕ) (xs : List A) → ltb n (length (take (suc n) xs)) ≡ ltb n (length xs)
  unfolding take
  more-take zero [] = refl
  more-take zero (x ∷ xs) = ground arith
  more-take (suc n) [] = refl
  more-take (suc n) (x ∷ xs) = ground (arith, more-take n xs)

  -- The first rows up to `final`, and those behind it.
  pub record Split (n : ℕ) (xs : List A) : Type 0 where
    pub front : List A
    pub final : A
    pub rest : List A
    pub whole : xs ≡ front ++ final ∷ rest
    pub first : take n xs ≡ front ++ final ∷ []

  pub split : (n : ℕ) (xs : List A) → suc n < length xs → Split (suc n) xs
  unfolding take
  split n [] h = absurd (omega arith)
  split zero (x ∷ xs) h = record { front = []; final = x; rest = xs; whole = refl; first = refl }
  split (suc n) (x ∷ xs) h =
      let s = split n xs (omega arith) in
      record {
        front = x ∷ s.front;
        final = s.final;
        rest = s.rest;
        whole = ap (λ (ys : List A). x ∷ ys) s.whole;
        first = ap (λ (ys : List A). x ∷ ys) s.first;
      }

  pub last-append : (xs : List A) (x : A) → last (xs ++ x ∷ []) ≡ some x
  unfolding last
  last-append [] x = refl
  last-append (y ∷ []) x = refl
  last-append (y ∷ z ∷ zs) x = last-append (z ∷ zs) x

  pub filter-whole : (p : A → Bool) (xs : List A) → All (λ x. p x ≡ true) xs → filter p xs ≡ xs
  unfolding filter
  filter-whole p [] h = refl
  filter-whole p (x ∷ xs) h = rw (h.0) (ap (λ (ys : List A). x ∷ ys) (filter-whole p xs h.1))

  pub append_assoc : (xs ys zs : List A) → (xs ++ ys) ++ zs ≡ xs ++ (ys ++ zs)
  append_assoc [] ys zs = refl
  append_assoc (x ∷ xs) ys zs = ap (λ (l : List A). x ∷ l) (append_assoc xs ys zs)

  pub length-append : (xs ys : List A) → length (xs ++ ys) ≡ length xs + length ys
  length-append [] ys = omega arith
  length-append (x ∷ xs) ys = omega (arith, length-append xs ys)

  pub All-behind : (P : A → Type 0) (xs : List A) (y : A) (ys : List A) → All P (xs ++ y ∷ ys) → P y
  All-behind P [] y ys h = h.0
  All-behind P (x ∷ xs) y ys h = All-behind P xs y ys h.1
