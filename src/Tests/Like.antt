-- ===== src/Tests/Like.antt =====
-- Searches by ILIKE for texts that are compared as they are.
use hrus.Base.{ℕ, ◌≡◌, refl, Bool, true, false, List, [], ◌∷◌, ◌==◌, if◌then◌else◌, arith}
use hrus.Reports.Like.{
  one as one_char, IsIlike, some_end, begins, contains_pattern, starts_with_pattern, percent,
  underscore, backslash, like_exact,
}

abbrev is_empty : List ℕ → Bool
is_empty [] = true
is_empty (_ ∷ _) = false

abbrev same : ℕ → ℕ → Bool
same a b = a == b

abbrev any_one : (List ℕ → Bool) → List ℕ → Bool
any_one rest [] = false
any_one rest (x ∷ s) = rest s

abbrev matched : ℕ → (List ℕ → Bool) → (List ℕ → Bool) → List ℕ → Bool
matched c rest escaped s =
    if c == percent
    then some_end rest s
    else if c == underscore
    then any_one rest s
    else if c == backslash
    then escaped s
    else one_char same c rest s

abbrev mutual
  like : List ℕ → List ℕ → Bool
  like [] s = is_empty s
  like (c ∷ p) s = matched c (like p) (after_escape p) s

  after_escape : List ℕ → List ℕ → Bool
  after_escape [] s = false
  after_escape (c ∷ p) s = one_char same c (like p) s

like-IsIlike : IsIlike same like
like-IsIlike = record {
  empty = refl;
  anything = λ p s. refl;
  escaped = λ c p s. refl;
  literal = λ c p s np nu nb. ground arith;
}

-- "5%" in "15% off", with the percent sign as it is.
like_exact_example :
    (like (contains_pattern (53 ∷ 37 ∷ [])) (49 ∷ 53 ∷ 37 ∷ 32 ∷ [])
      ≡ some_end (begins same (53 ∷ 37 ∷ [])) (49 ∷ 53 ∷ 37 ∷ 32 ∷ []))
    × (like (starts_with_pattern (53 ∷ 37 ∷ [])) (49 ∷ 53 ∷ 37 ∷ 32 ∷ [])
        ≡ begins same (53 ∷ 37 ∷ []) (49 ∷ 53 ∷ 37 ∷ 32 ∷ []))
like_exact_example = like_exact same like like-IsIlike (53 ∷ 37 ∷ []) (49 ∷ 53 ∷ 37 ∷ 32 ∷ [])
