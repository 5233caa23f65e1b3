-- ===== src/Pagination/Pages.antt =====
-- Following the cursors from page to page gives every row once, in order.
use hrus.Base.{
  take, last, Either, failed, done, ℕ, zero, suc, ◌≡◌, refl, sym, ap, ◌∙◌, ◌≤◌, ◌<◌, Bool, true,
  false, ◌&&◌, Option, none, some, List, [], ◌∷◌, ◌++◌, arith, ◌==◌, leb, ltb, length, filter, All,
  if◌then◌else◌, Bool-cases, inl, inr, map, All-map, eqb_refl, ltb→lt,
}
use mathlib.Core.Path.{subst}
use mathlib.Core.List.{Perm}
use hrus.Pagination.{
  CursorValue, Codec, PageError, KeysetPage, max_limit, encode_cursor, decode_cursor, encode_value,
  max_cursor_length, is_after, seek, order_by, apply_keyset, cursor_of, paginate,
}
use hrus.Pagination.Roundtrip.{IsFaithful, Converts, IsBase64, decode_cursor-encode}
use hrus.Pagination.Order.{
  Before, InOrder, IsUnique, order_by-Perm, length-order_by, order_by-InOrder,
}
use hrus.Pagination.Lists.{
  take_all, take-take, more-take, Split, split, last-append, filter-whole, append_assoc,
  length-append, All-behind,
}

module _ {Float Decimal R : Type 0} (codec : Codec Float Decimal)
    (less : List (CursorValue Float Decimal) → List (CursorValue Float Decimal) → Bool)
    (key : R → List (CursorValue Float Decimal)) (descending : Bool) (size : ℕ) where
  abbrev after : R → R → Bool
  after r = is_after codec less key descending size (key r)

  -- Every row comes after those in front of it: the sort columns are unique together.
  abbrev IsOrdered : List R → Type 0
  IsOrdered [] = Unit
  IsOrdered (r ∷ rs) = All (λ q. after r q ≡ true) rs × IsOrdered rs

  -- A client that asks for the next page as long as it is given a cursor.
  module _ (limit : ℕ) (rows : List R) where
    abbrev continued : List R → Option (List R) → Option (List R)
    continued items none = none
    continued items (some more) = some (items ++ more)

    abbrev pub ask : Option (List ℕ) → Either PageError (KeysetPage R)
    ask cursor = paginate codec less key descending size cursor limit rows

    abbrev onward : (Option (List ℕ) → Option (List R)) → List R → Option (List ℕ) → Option (List R)
    onward next items none = some items
    onward next items (some cursor) = continued items (next (some cursor))

    abbrev turn :
        (Option (List ℕ) → Option (List R)) → Either PageError (KeysetPage R) → Option (List R)
    turn next (failed e) = none
    turn next (done page) = onward next page.items page.next_cursor

    -- No rows come out where a page is refused or the fuel runs out.
    unfoldable pub follow : ℕ → Option (List ℕ) → Option (List R)
    follow zero cursor = none
    follow (suc fuel) cursor = turn (follow fuel) (ask cursor)

-- What the pages rely on: the comparison is an order, and the cursors of the rows can be read.
pub record IsPaged {Float Decimal R : Type 0} (codec : Codec Float Decimal)
    (less : List (CursorValue Float Decimal) → List (CursorValue Float Decimal) → Bool)
    (key : R → List (CursorValue Float Decimal)) (size : ℕ) : Type 0 where
  pub transitive :
      (a b c : List (CursorValue Float Decimal))
      → less a b ≡ true
      → less b c ≡ true
      → less a c ≡ true
  pub asymmetric : (a b : List (CursorValue Float Decimal)) → less a b ≡ true → less b a ≡ false
  pub faithful : IsFaithful codec
  pub converts : (r : R) → All (Converts codec) (key r)
  pub base64 : (r : R) → IsBase64 codec (codec.array (map (encode_value codec) (key r)))
  pub fits : (r : R) → length (encode_cursor codec (key r)) ≤ max_cursor_length
  pub sized : (r : R) → length (key r) ≡ size

module _ {Float Decimal R : Type 0} (codec : Codec Float Decimal)
    (less : List (CursorValue Float Decimal) → List (CursorValue Float Decimal) → Bool)
    (key : R → List (CursorValue Float Decimal)) (descending : Bool) (size : ℕ)
    (laws : IsPaged codec less key size) where
  abbrev after' : R → R → Bool
  after' r = is_after codec less key descending size (key r)

  before-not : (a b : R) → after' a b ≡ true → after' b a ≡ false
  before-not a b h = by_order descending h
    where
      by_order :
          (d : Bool)
          → is_after codec less key d size (key a) b ≡ true
          → is_after codec less key d size (key b) a ≡ false
      by_order true h = laws.asymmetric (key b) (key a) h
      by_order false h = laws.asymmetric (key a) (key b) h

  not_after_self : (a : R) → after' a a ≡ false
  not_after_self a = elim (Bool-cases (after' a a)) [ inl h ↦ before-not a a h | inr h ↦ h ]

  -- The rows behind a row are those that come after it.
  filter-rest :
      (front : List R) (x : R) (rest : List R)
      → IsOrdered codec less key descending size (front ++ x ∷ rest)
      → filter (after' x) (front ++ x ∷ rest) ≡ rest
  unfolding filter
  filter-rest [] x rest o = rw (not_after_self x) (filter-whole (after' x) rest o.0)
  filter-rest (y ∷ front) x rest o =
      let earlier : after' x y ≡ false =
        before-not y x (All-behind (λ q. after' y q ≡ true) front x rest o.0) in
      rw earlier (filter-rest front x rest o.1)

  seek-rest :
      (front : List R) (x : R) (rest : List R)
      → IsOrdered codec less key descending size (front ++ x ∷ rest)
      → seek codec less key descending size (some (encode_cursor codec (key x))) (front ++ x ∷ rest)
        ≡ done rest
  seek-rest front x rest o =
      let decoded : decode_cursor codec (encode_cursor codec (key x)) size ≡ done (key x) =
        decode_cursor-encode codec laws.faithful (key x) size (laws.converts x) (laws.base64 x)
          (laws.fits x)
        ∙ rw (laws.sized x, eqb_refl size) refl in
      rw (decoded, filter-rest front x rest o) refl

  module _ (limit : ℕ) (rows : List R) (low : suc limit ≤ max_limit) (columns : 1 ≤ size)
      (o : IsOrdered codec less key descending size (order_by less key descending rows)) where
    abbrev sorted : List R
    sorted = order_by less key descending rows

    asked :
        (cursor : Option (List ℕ)) (remaining : List R)
        → seek codec less key descending size cursor sorted ≡ done remaining
        → ask codec less key descending size (suc limit) rows cursor
          ≡ done (record {
            items = take (suc limit) remaining;
            next_cursor =
                if ltb (suc limit) (length remaining)
                then cursor_of codec less key descending size (last (take (suc limit) remaining))
                else none;
          })
    unfolding paginate apply_keyset
    asked cursor remaining h =
        let allowed : (leb 1 (suc limit) && leb (suc limit) max_limit) ≡ true =
          ground (arith, low) in
        let some_column : (size == 0) ≡ false = ground (arith, columns) in
        rw
          (
            allowed,
            some_column,
            h,
            take-take (suc limit) remaining,
            more-take (suc limit) remaining,
          )
          refl

    follow-remaining :
        (fuel : ℕ) (cursor : Option (List ℕ)) (front remaining : List R)
        → sorted ≡ front ++ remaining
        → seek codec less key descending size cursor sorted ≡ done remaining
        → length remaining < fuel
        → follow codec less key descending size (suc limit) rows fuel cursor ≡ some remaining
    unfolding follow
    follow-remaining zero cursor front remaining e h enough = absurd (omega arith)
    follow-remaining (suc fuel) cursor front remaining e h enough =
        rw (asked cursor remaining h) (elim (Bool-cases (ltb (suc limit) (length remaining))) [
          | inl more ↦ rw more (
              beyond (split limit remaining (ltb→lt (suc limit) (length remaining) more))
                (λ c front' rest. follow-remaining fuel c front' rest))
          | inr full ↦
              rw full (
                ap (λ (l : List R). some l) (take_all (suc limit) remaining (ground (arith, full))))
        ])
      where
        -- The page ends at `x`, and its cursor continues behind `x`.
        beyond :
            (s : Split (suc limit) remaining)
            → ((c : Option (List ℕ)) (front' rest : List R)
                → sorted ≡ front' ++ rest
                → seek codec less key descending size c sorted ≡ done rest
                → length rest < fuel
                → follow codec less key descending size (suc limit) rows fuel c ≡ some rest)
            → onward codec less key descending size
                (suc limit)
                rows
                (follow codec less key descending size (suc limit) rows fuel)
                (take (suc limit) remaining)
                (cursor_of codec less key descending size (last (take (suc limit) remaining)))
              ≡ some remaining
        beyond s again =
            let whole : sorted ≡ (front ++ s.front) ++ s.final ∷ s.rest =
              e ∙ rw s.whole (sym (append_assoc front s.front (s.final ∷ s.rest))) in
            let placed : seek codec less key descending size
                  (some (encode_cursor codec (key s.final))) sorted
                ≡ done s.rest =
              rw whole (
                seek-rest (front ++ s.front) s.final s.rest
                  (subst (IsOrdered codec less key descending size) whole o)) in
            let shorter : length s.rest < fuel = omega (
              arith,
              ap (λ (l : List R). length l) s.whole,
              length-append s.front (s.final ∷ s.rest),
            ) in
            let later =
              again (some (encode_cursor codec (key s.final))) ((front ++ s.front) ++ s.final ∷ [])
                s.rest (whole ∙ sym (append_assoc (front ++ s.front) (s.final ∷ []) s.rest)) placed
                shorter in
            rw (s.first, last-append s.front s.final, later)
              (ap (λ (l : List R). some l)
                (append_assoc s.front (s.final ∷ []) s.rest ∙ sym s.whole))

  InOrder-IsOrdered :
      (rs : List R) → InOrder less key descending rs → IsOrdered codec less key descending size rs
  InOrder-IsOrdered [] o = tt
  InOrder-IsOrdered (r ∷ rs) o = (
    All-map (Before less key descending r) (λ q. after' r q ≡ true) rs (by_direction descending)
        o.0,
    InOrder-IsOrdered rs o.1,
  )
    where
      by_direction :
          (d : Bool) (q : R)
          → Before less key d r q
          → is_after codec less key d size (key r) q ≡ true
      by_direction true q h = h
      by_direction false q h = h

  -- Asking for the first page and then following each cursor, with a limit of one to 200 rows,
  -- ends after at most one page for each row and one more. The pages together are the rows of the
  -- query, each once, and every row is below those behind it in the sort columns, or above them where
  -- the order descends. The columns must be unique together, and the cursor of a row must keep within
  -- the length limit.
  pub follow-all :
      (limit : ℕ) (rows : List R)
      → 1 ≤ limit
      → limit ≤ max_limit
      → 1 ≤ size
      → IsUnique less key rows
      → (pages : List R) × ((follow codec less key descending size limit rows
              (suc (length rows))
              none
            ≡ some pages)
          × Perm pages rows
          × InOrder less key descending pages)
  follow-all zero rows positive low columns u = absurd (omega arith)
  follow-all (suc limit) rows positive low columns u =
      let o = order_by-InOrder less key descending laws.transitive rows u in
      (
        order_by less key descending rows,
        (
          follow-remaining limit rows low columns (InOrder-IsOrdered _ o) (suc (length rows)) none
              [] (order_by less key descending rows) refl refl
              (omega (arith, length-order_by less key descending rows)),
          order_by-Perm less key descending rows,
          o,
        ),
      )
