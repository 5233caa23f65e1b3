-- ===== src/Reports/Like.antt =====
-- backend/app/reports/query.py, `_escape_like`: what a search for a text matches. The database's
-- `ILIKE` is a parameter, with its rules for wildcards and for the escape character.
use hrus.Base.{
  ℕ, ◌≡◌, ◌≢◌, refl, ◌∙◌, Bool, true, false, ◌&&◌, ◌||◌, List, [], ◌∷◌, ◌++◌, arith, ◌==◌,
  if◌then◌else◌, Bool-cases, inl, inr, String,
}
use Prim.Native.Char.{code}

-- The code points of a text.
abbrev pub codes : String → List ℕ
codes String.[] = []
codes (String.◌∷◌ c s) = code c ∷ codes s

abbrev pub percent : ℕ
percent = 37

abbrev pub underscore : ℕ
underscore = 95

abbrev pub backslash : ℕ
backslash = 92

-- `replace(c, "\\" + c)`
unfoldable pub protect : ℕ → List ℕ → List ℕ
protect c [] = []
protect c (x ∷ xs) = if x == c then backslash ∷ x ∷ protect c xs else x ∷ protect c xs

unfoldable pub escape_like : List ℕ → List ℕ
escape_like value = protect underscore (protect percent (protect backslash value))

unfoldable pub contains_pattern : List ℕ → List ℕ
contains_pattern value = percent ∷ escape_like value ++ percent ∷ []

unfoldable pub starts_with_pattern : List ℕ → List ℕ
starts_with_pattern value = escape_like value ++ percent ∷ []

-- Some end of the text, the whole and the empty one included.
abbrev pub some_end : (List ℕ → Bool) → List ℕ → Bool
some_end p [] = p []
some_end p (x ∷ xs) = p (x ∷ xs) || some_end p xs

-- The text begins with the value, where `same` compares characters.
abbrev pub begins : (ℕ → ℕ → Bool) → List ℕ → List ℕ → Bool
begins same [] s = true
begins same (c ∷ cs) [] = false
begins same (c ∷ cs) (x ∷ s) = same c x && begins same cs s

-- One character of a pattern that stands for itself.
abbrev pub one : (ℕ → ℕ → Bool) → ℕ → (List ℕ → Bool) → List ℕ → Bool
one same c rest [] = false
one same c rest (x ∷ s) = same c x && rest s

-- The database's rules: `%` matches any text, an escaped character and one that is no wildcard match
-- themselves, up to case.
pub record IsIlike (same : ℕ → ℕ → Bool) (ilike : List ℕ → List ℕ → Bool) : Type 0 where
  pub empty : ilike [] [] ≡ true
  pub anything : (p s : List ℕ) → ilike (percent ∷ p) s ≡ some_end (ilike p) s
  pub escaped : (c : ℕ) (p s : List ℕ) → ilike (backslash ∷ c ∷ p) s ≡ one same c (ilike p) s
  pub literal :
      (c : ℕ) (p s : List ℕ)
      → c ≢ percent
      → c ≢ underscore
      → c ≢ backslash
      → ilike (c ∷ p) s ≡ one same c (ilike p) s

-- The characters that a pattern must protect.
abbrev special : ℕ → Bool
special c = c == backslash || c == percent || c == underscore

escape_like-cons :
    (c : ℕ) (v : List ℕ)
    → escape_like (c ∷ v) ≡ (if special c then backslash ∷ c ∷ escape_like v else c ∷ escape_like v)
unfolding escape_like protect
escape_like-cons c v = ground arith

escape_like-nil : escape_like [] ≡ []
unfolding escape_like protect
escape_like-nil = refl

some_end-true : (p : List ℕ → Bool) → p [] ≡ true → (s : List ℕ) → some_end p s ≡ true
some_end-true p h [] = h
some_end-true p h (x ∷ s) = ground (arith, some_end-true p h s)

some_end-same :
    (p q : List ℕ → Bool) → ((s : List ℕ) → p s ≡ q s) → (s : List ℕ) → some_end p s ≡ some_end q s
some_end-same p q h [] = h []
some_end-same p q h (x ∷ s) = ground (arith, h (x ∷ s), some_end-same p q h s)

module _ (same : ℕ → ℕ → Bool) (ilike : List ℕ → List ℕ → Bool) (laws : IsIlike same ilike) where
  one-begins :
      (c : ℕ) (v p s : List ℕ)
      → ((t : List ℕ) → ilike p t ≡ begins same v t)
      → one same c (ilike p) s ≡ begins same (c ∷ v) s
  one-begins c v p [] h = refl
  one-begins c v p (x ∷ s) h = rw (h s)

  abbrev rest : List ℕ → List ℕ
  rest v = escape_like v ++ percent ∷ []

  escaped-begins : (v s : List ℕ) → ilike (escape_like v ++ percent ∷ []) s ≡ begins same v s
  escaped-begins [] s =
      rw escape_like-nil (laws.anything [] s ∙ some_end-true (ilike []) laws.empty s)
  escaped-begins (c ∷ v) s = elim (Bool-cases (special c)) [
    | inl e ↦
        rw (escape_like-cons c v, e)
          (laws.escaped c (rest v) s ∙ one-begins c v (rest v) s (escaped-begins v))
    | inr e ↦
        rw (escape_like-cons c v, e)
          (laws.literal c (rest v) s (λ h. ground (arith, e)) (λ h. ground (arith, e))
              (λ h. ground (arith, e))
            ∙ one-begins c v (rest v) s (escaped-begins v))
  ]

  -- Where the database's `ILIKE` follows its rules, a search for a text finds the texts that contain
  -- it, with the characters that the database takes for the same, also where the text has the
  -- wildcards `%` and `_` or a backslash; and a search for a beginning those that begin with it.
  pub like_exact :
      (value s : List ℕ)
      → (ilike (contains_pattern value) s ≡ some_end (begins same value) s)
        × (ilike (starts_with_pattern value) s ≡ begins same value s)
  unfolding contains_pattern starts_with_pattern
  like_exact value s = (
    laws.anything (escape_like value ++ percent ∷ []) s
        ∙ some_end-same _ _ (escaped-begins value) s,
    escaped-begins value s,
  )
