-- ===== src/Pagination/Bounds.antt =====
-- How long a page can be, and what a cursor must be like for a page to come out.
use hrus.Base.{
  take, Either, failed, done, OfDone, ℕ, zero, suc, ◌≡◌, refl, ◌≤◌, Bool, ◌&&◌, Option, none, some,
  List, [], ◌∷◌, arith, ◌==◌, leb, ltb, length, filter, Bool-cases, inl, inr, eqb→eq,
}
use hrus.Pagination.{
  CursorValue, Codec, CursorError, Converted, value, refused, escaped, KeysetPage, max_limit,
  max_cursor_length, checked, sought, limited, page_of, is_after, decode_text, decode_cursor, seek,
  order_by, apply_keyset, paged, paginate,
}

length-take : {A : Type 0} (n : ℕ) (xs : List A) → length (take n xs) ≤ n
unfolding take
length-take zero xs = omega arith
length-take (suc n) [] = omega arith
length-take (suc n) (x ∷ xs) = omega (arith, length-take n xs)

module _ {Float Decimal : Type 0} (codec : Codec Float Decimal) where
  pub decode_cursor-Sized :
      (cursor : List ℕ) (n : ℕ)
      → OfDone
          (λ values. (length values ≡ n) × (length cursor ≤ max_cursor_length))
          (decode_cursor codec cursor n)
  unfolding decode_cursor
  decode_cursor-Sized cursor n = elim (Bool-cases (ltb max_cursor_length (length cursor))) [
    | inl long ↦ rw long tt
    | inr short ↦ rw short (by_values (decode_text codec cursor) (ground (arith, short)))
  ]
    where
      by_values :
          (o : Converted (List (CursorValue Float Decimal)))
          → length cursor ≤ max_cursor_length
          → OfDone
              (λ values. (length values ≡ n) × (length cursor ≤ max_cursor_length))
              (checked codec n o)
      by_values refused fits = tt
      by_values escaped fits = tt
      by_values (value values) fits = elim (Bool-cases (length values == n)) [
        | inl same ↦ rw same (eqb→eq (length values) n same, fits)
        | inr other ↦ rw other tt
      ]

module _ {Float Decimal R : Type 0} (codec : Codec Float Decimal)
    (less : List (CursorValue Float Decimal) → List (CursorValue Float Decimal) → Bool)
    (key : R → List (CursorValue Float Decimal)) (descending : Bool) (size : ℕ) where
  -- A cursor that a page was made for.
  abbrev pub IsReadable : Option (List ℕ) → Type 0
  IsReadable none = Unit
  IsReadable (some cursor) =
      (length cursor ≤ max_cursor_length)
      × ((values : List (CursorValue Float Decimal)) × (decode_cursor codec cursor size
            ≡ done values)
          × (length values ≡ size))

  -- A page comes out only for a limit of one to 200, and has no more rows than that; a cursor that
  -- was given is at most 512 characters long and holds a value for each sort column.
  pub paginate-IsBounded :
      (cursor : Option (List ℕ)) (limit : ℕ) (rows : List R)
      → OfDone
          (λ page.
            (length page.items ≤ limit) × (1 ≤ limit) × (limit ≤ max_limit) × IsReadable cursor)
          (paginate codec less key descending size cursor limit rows)
  unfolding paginate apply_keyset
  paginate-IsBounded cursor limit rows = elim (Bool-cases (leb 1 limit && leb limit max_limit)) [
    | inl allowed ↦ rw allowed (elim (Bool-cases (size == 0)) [
      | inl none_given ↦ rw none_given tt
      | inr given ↦
          rw given (sought_page cursor (ground (arith, allowed)) (ground (arith, allowed)))
    ])
    | inr beyond ↦ rw beyond tt
  ]
    where
      sorted : List R
      sorted = order_by less key descending rows

      Bounded : Option (List ℕ) → KeysetPage R → Type 0
      Bounded c page =
          (length page.items ≤ limit) × (1 ≤ limit) × (limit ≤ max_limit) × IsReadable c

      page_at :
          (c : Option (List ℕ)) (found : List R)
          → 1 ≤ limit
          → limit ≤ max_limit
          → IsReadable c
          → Bounded c (page_of codec less key descending size limit (take (suc limit) found))
      page_at c found low high readable =
          (length-take limit (take (suc limit) found), low, high, readable)

      decoded_page :
          (c : List ℕ) (e : Either CursorError (List (CursorValue Float Decimal)))
          → decode_cursor codec c size ≡ e
          → OfDone (λ values. (length values ≡ size) × (length c ≤ max_cursor_length)) e
          → 1 ≤ limit
          → limit ≤ max_limit
          → OfDone (Bounded (some c)) (
              paged codec less key descending size limit (
                limited codec less key descending size limit
                  (sought codec less key descending size sorted e)))
      decoded_page c (failed e) h s low high = tt
      decoded_page c (done values) h s low high =
          page_at (some c) (filter (is_after codec less key descending size values) sorted) low high
            (s.1, (values, h, s.0))

      sought_page :
          (c : Option (List ℕ))
          → 1 ≤ limit
          → limit ≤ max_limit
          → OfDone (Bounded c) (
              paged codec less key descending size limit (
                limited codec less key descending size limit
                  (seek codec less key descending size c sorted)))
      sought_page none low high = page_at none sorted low high tt
      sought_page (some c) low high =
          decoded_page c (decode_cursor codec c size) refl (decode_cursor-Sized codec c size) low
            high
