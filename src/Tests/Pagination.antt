-- ===== src/Tests/Pagination.antt =====
-- backend/app/core/pagination.py with one integer column, and a codec that knows its cursors.
use mathlib.Core.List.{Perm}
use hrus.Base.{
  ℕ, ◌+◌, ◌-◌, ◌≡◌, refl, Bool, false, none, some, Option, List, [], ◌∷◌, String, arith, ltb,
  length, map, ap, failed, OfDone, ◌≤◌, inl, inr, true,
}
use hrus.Base.Int.{ℤ, pos}
use hrus.Pagination.{
  CursorValue, Codec, CursorError, Converted, max_limit, encode_value, encode_cursor, decode_cursor,
  rstrip_equals, repeat, paginate,
}
use hrus.Pagination.Roundtrip.{IsFaithful, IsBase64, decode_cursor-encode}
use hrus.Pagination.Order.{InOrder, IsUnique}
use hrus.Pagination.Pages.{IsPaged, follow, follow-all}
use hrus.Pagination.Bounds.{IsReadable, paginate-IsBounded}

mutual
  data Value : Type 0 where
    number : ℤ → Value
    text : String → Value
    items : Values → Value

  data Values : Type 0 where
    nil : Values
    cons : Value → Values → Values

from_list : List Value → Values
from_list [] = nil
from_list (v ∷ vs) = cons v (from_list vs)

to_list : Values → List Value
to_list nil = []
to_list (cons v vs) = v ∷ to_list vs

to_list-from_list : (vs : List Value) → to_list (from_list vs) ≡ vs
unfolding to_list from_list
to_list-from_list [] = refl
to_list-from_list (v ∷ vs) = ap (λ (l : List Value). v ∷ l) (to_list-from_list vs)

abbrev parts : Value → Option (List Value)
unfolding to_list
parts (items vs) = some (to_list vs)
parts _ = none

abbrev words : Value → Option String
words (text s) = some s
words _ = none

abbrev number_in : Value → Converted ℤ
number_in (number i) = Converted.value i
number_in _ = Converted.refused

-- A cursor for the integer `n` begins with the code `n + 100`.
abbrev written : Value → List ℕ
written (items (cons (items (cons (text s) (cons (number (pos n)) nil))) nil)) =
    (n + 100) ∷ 61 ∷ 61 ∷ 61 ∷ []
written _ = []

abbrev read : List ℕ → Option Value
read [] = none
read (c ∷ cs) =
    some (items (cons (items (cons (text "i") (cons (number (pos (c - 100))) nil))) nil))

abbrev codec : Codec (Unit {0}) (Unit {0})
unfolding from_list
codec = record {
  Json = Value;
  array = λ vs. items (from_list vs);
  of_bool = λ b. number (pos 0);
  of_int = number;
  of_float = λ x. number (pos 0);
  of_str = text;
  elements = parts;
  as_str = words;
  to_bool = λ v. Bool.true;
  to_int = number_in;
  to_float = λ v. Converted.refused;
  to_str = λ v. "";
  datetime_iso = λ t. "";
  datetime_from = λ v. Converted.refused;
  date_iso = λ d. "";
  date_from = λ v. Converted.refused;
  uuid_str = λ u. "";
  uuid_from = λ v. Converted.refused;
  decimal_str = λ n. "";
  decimal_from = λ v. Converted.escaped;
  to_text = written;
  of_text = read;
}

abbrev key : ℕ → List (CursorValue (Unit {0}) (Unit {0}))
key n = CursorValue.int (pos n) ∷ []

codec-IsFaithful : IsFaithful codec
unfolding to_list from_list
codec-IsFaithful = record {
  elements_array = λ vs. ap (λ (l : List Value). some l) (to_list-from_list vs);
  as_str_of = λ s. refl;
}

shifted : (n : ℕ) → n + 100 - 100 ≡ n
shifted n = omega arith

key-IsBase64 : (n : ℕ) → IsBase64 codec (codec.array (map (encode_value codec) (key n)))
unfolding to_list from_list repeat
key-IsBase64 n = record {
  body = (n + 100) ∷ [];
  pads = 3;
  text = refl;
  alphabet = (ground arith, tt);
  pads_few = omega arith;
  whole = omega arith;
  decoded =
      ap (λ (m : ℕ). some (items (cons (items (cons (text "i") (cons (number (pos m)) nil))) nil)))
        (shifted n);
}

abbrev number_of : List (CursorValue (Unit {0}) (Unit {0})) → ℕ
number_of (CursorValue.int (pos n) ∷ []) = n
number_of _ = 0

abbrev less :
    List (CursorValue (Unit {0}) (Unit {0})) → List (CursorValue (Unit {0}) (Unit {0})) → Bool
less a b = ltb (number_of a) (number_of b)

key_fits : (n : ℕ) → length (encode_cursor codec (key n)) ≤ 512
unfolding encode_cursor to_list from_list rstrip_equals
key_fits n = ground arith

numbers : IsPaged codec less key 1
unfolding codec
numbers = record {
  transitive = λ a b c h k. ground arith;
  asymmetric = λ a b h. ground arith;
  faithful = codec-IsFaithful;
  converts = λ n. (refl, tt);
  base64 = key-IsBase64;
  fits = key_fits;
  sized = λ n. refl;
}

decode_cursor-encode_example :
    decode_cursor codec (encode_cursor codec (key 7)) 2 ≡ failed CursorError.wrong_size
unfolding codec
decode_cursor-encode_example =
    decode_cursor-encode codec codec-IsFaithful (key 7) 2 (refl, tt) (key-IsBase64 7) (key_fits 7)

abbrev rows : List ℕ
rows = 5 ∷ 9 ∷ 3 ∷ []

rows-IsUnique : IsUnique less key rows
rows-IsUnique = ((inl refl, (inr refl, tt)), ((inr refl, tt), (tt, tt)))

-- Newest first.
follow-all_example :
    (pages : List ℕ) × ((follow codec less key true 1 2 rows 4 none ≡ some pages)
      × Perm pages rows
      × InOrder less key true pages)
follow-all_example =
    follow-all codec less key true 1 numbers 2 rows (omega arith) (omega arith) (omega arith)
      rows-IsUnique

paginate-IsBounded_example :
    OfDone
      (λ page.
        (length page.items ≤ 2)
        × (1 ≤ 2)
        × (2 ≤ max_limit)
        × IsReadable codec less key false 1 (some (encode_cursor codec (key 3))))
      (paginate codec less key false 1 (some (encode_cursor codec (key 3))) 2 rows)
paginate-IsBounded_example =
    paginate-IsBounded codec less key false 1 (some (encode_cursor codec (key 3))) 2 rows
