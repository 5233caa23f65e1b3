-- ===== src/Reports/Inert.antt =====
-- No text of an exported CSV file begins as a formula does.
use hrus.Base.{
  ◌≡◌, refl, ap, Bool, false, Option, none, some, List, [], ◌∷◌, String, str_eq, any, All, length,
  suc, Bool-cases, inl, inr, arith,
}
use hrus.Reports.{ColumnDef}
use hrus.Reports.Query.{Value}
use hrus.Reports.Export.{
  Shown, blank, words, amount, on, at, truth, Files, Texts, ◌>>=◌, traverse, formula_prefixes,
  is_formula_like, display_value, csv_value, csv_row, csv_lines,
}

-- A spreadsheet takes a text for a formula by its first character.
abbrev IsHarmless : String → Type 0
IsHarmless String.[] = Unit
IsHarmless (String.◌∷◌ c s) =
    All (λ prefix. str_eq prefix (String.◌∷◌ c String.[]) ≡ false)
      ("=" ∷ "+" ∷ "-" ∷ "@" ∷ "\t" ∷ "\r" ∷ [])

module _ {Number Time : Type 0} where
  abbrev pub IsInert : Shown Number Time → Type 0
  IsInert (words s) = IsHarmless s
  IsInert _ = Unit

-- What holds of a result, if there is one.
abbrev pub OfSome : {A : Type 0} → (A → Type 0) → Option A → Type 0
OfSome P none = Unit
OfSome P (some a) = P a

OfSome-bind :
    {A B : Type 0} (P : A → Type 0) (Q : B → Type 0) (o : Option A) (f : A → Option B)
    → OfSome P o
    → ((a : A) → P a → OfSome Q (f a))
    → OfSome Q (o >>= f)
OfSome-bind P Q none f h k = tt
OfSome-bind P Q (some a) f h k = k a h

any-none : {A : Type 0} (p : A → Bool) (xs : List A) → any p xs ≡ false → All (λ x. p x ≡ false) xs
unfolding any
any-none p [] h = tt
any-none p (x ∷ xs) h = (ground (arith, h), any-none p xs (ground (arith, h)))

is_formula_like-IsHarmless : (s : String) → is_formula_like s ≡ false → IsHarmless s
unfolding is_formula_like
is_formula_like-IsHarmless String.[] h = tt
is_formula_like-IsHarmless (String.◌∷◌ c s) h =
    any-none (λ prefix. str_eq prefix (String.◌∷◌ c String.[])) formula_prefixes h

module _ {Number Time : Type 0} (files : Files Number Time) (texts : Texts Number Time) where
  csv_text-IsInert : (s : String) → IsInert (csv_value files texts (words s))
  unfolding csv_value
  csv_text-IsInert s = elim (Bool-cases (is_formula_like s)) [
    | inl formula ↦ rw formula (refl, (refl, (refl, (refl, (refl, (refl, tt))))))
    | inr plain ↦ rw plain (is_formula_like-IsHarmless s plain)
  ]

  csv_value-IsInert : (v : Shown Number Time) → IsInert (csv_value files texts v)
  unfolding csv_value
  csv_value-IsInert blank = tt
  csv_value-IsInert (words s) = csv_text-IsInert s
  csv_value-IsInert (amount n) = tt
  csv_value-IsInert (on d) = csv_text-IsInert (files.date_iso d)
  csv_value-IsInert (at t) = csv_text-IsInert (files.time_iso t)
  csv_value-IsInert (truth b) = tt

  csv_row-IsInert :
      (sources : List (Option ColumnDef)) (row : List (Option (Value Number Time)))
      → OfSome (All IsInert) (csv_row files texts sources row)
  unfolding csv_row
  csv_row-IsInert [] [] = tt
  csv_row-IsInert [] (raw ∷ row) = tt
  csv_row-IsInert (source ∷ sources) [] = tt
  csv_row-IsInert (source ∷ sources) (raw ∷ row) =
      OfSome-bind (All IsInert) (All IsInert) (csv_row files texts sources row) _
        (csv_row-IsInert sources row)
        (λ rest inert. (csv_value-IsInert (display_value files texts source raw), inert))

  -- The lines are as many as the rows, and inert.
  pub csv_lines-IsInert :
      (sources : List (Option ColumnDef)) (rows : List (List (Option (Value Number Time))))
      → OfSome
          (λ lines. (length lines ≡ length rows) × All (All IsInert) lines)
          (csv_lines files texts sources rows)
  unfolding traverse
  csv_lines-IsInert sources [] = (refl, tt)
  csv_lines-IsInert sources (row ∷ rows) =
      OfSome-bind (All IsInert) _ (csv_row files texts sources row) _ (csv_row-IsInert sources row)
        λ line inert.
          OfSome-bind (λ lines. (length lines ≡ length rows) × All (All IsInert) lines) _
            (csv_lines files texts sources rows) _ (csv_lines-IsInert sources rows)
            (λ lines h. (ap suc h.0, (inert, h.1)))
