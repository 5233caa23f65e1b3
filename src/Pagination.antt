-- ===== src/Pagination.antt =====
-- backend/app/core/pagination.py: cursors and keyset pages. The modules json, base64, datetime, uuid
-- and decimal of Python's library are a parameter, and so are the rows of the query, in any order. A text is the list of its code points.
pub mod Lists
pub mod Roundtrip
pub mod Bounds
pub mod Order
pub mod Pages
use hrus.Base.{
  take, last, Either, failed, done, OfDone, ℕ, zero, suc, ◌-◌, ◌%◌, Bool, true, false, not, ◌&&◌,
  Option, none, some, List, [], ◌∷◌, ◌++◌, map, String, str_eq, ◌==◌, leb, ltb, length, filter,
  if◌then◌else◌,
}
use hrus.Base.Int.{ℤ}
use hrus.Calendar.{Date}

-- The types of a sort column; a float and a Decimal are opaque.
pub data CursorValue (Float Decimal : Type 0) : Type 0 where
  bool : Bool → CursorValue Float Decimal
  int : ℤ → CursorValue Float Decimal
  float : Float → CursorValue Float Decimal
  str : String → CursorValue Float Decimal
  datetime : ℕ → CursorValue Float Decimal
  date : Date → CursorValue Float Decimal
  uuid : ℕ → CursorValue Float Decimal
  decimal : Decimal → CursorValue Float Decimal

-- How a conversion of a value ends: with a value, with one of the exceptions that `decode_cursor`
-- catches (ValueError, TypeError, KeyError, binascii.Error), or with another one, as the
-- InvalidOperation of Decimal, the AttributeError of UUID and the OverflowError of int.
pub data Converted (A : Type 0) : Type 0 where
  value : A → Converted A
  refused escaped : Converted A

abbrev pub or_refused : {A : Type 0} → Option A → Converted A
or_refused none = refused
or_refused (some a) = value a

-- What the source calls of Python's library: JSON values with their iteration and the conversions of
-- `bool`, `int`, `float` and `str`; ISO dates, UUID and Decimal as text; `to_text` is
-- `urlsafe_b64encode(dumps(…).encode()).decode()`, `of_text` is `loads(urlsafe_b64decode(….encode()))`.
pub record Codec (Float Decimal : Type 0) : Type 1 where
  pub Json : Type 0
  pub array : List Json → Json
  pub of_bool : Bool → Json
  pub of_int : ℤ → Json
  pub of_float : Float → Json
  pub of_str : String → Json
  pub elements : Json → Option (List Json)
  pub as_str : Json → Option String
  pub to_bool : Json → Bool
  pub to_int : Json → Converted ℤ
  pub to_float : Json → Converted Float
  pub to_str : Json → String
  pub datetime_iso : ℕ → String
  pub datetime_from : Json → Converted ℕ
  pub date_iso : Date → String
  pub date_from : Json → Converted Date
  pub uuid_str : ℕ → String
  pub uuid_from : Json → Converted ℕ
  pub decimal_str : Decimal → String
  pub decimal_from : Json → Converted Decimal
  pub to_text : Json → List ℕ
  pub of_text : List ℕ → Option Json

-- The three messages of InvalidCursorError, and an exception that `decode_cursor` does not catch.
pub data CursorError : Type 0 where
  too_long malformed wrong_size uncaught : CursorError

-- The ValueErrors of `apply_keyset` are errors of the program's own.
pub data PageError : Type 0 where
  invalid_cursor : CursorError → PageError
  limit_out_of_range no_sort_columns : PageError

abbrev pub max_limit : ℕ
max_limit = 200

abbrev pub max_cursor_length : ℕ
max_cursor_length = 512

-- The code of "=".
abbrev pub equals_sign : ℕ
equals_sign = 61

unfoldable pub repeat : ℕ → ℕ → List ℕ
repeat c zero = []
repeat c (suc n) = c ∷ repeat c n

-- `rstrip("=")`
abbrev strip_onto : ℕ → List ℕ → List ℕ
strip_onto c [] = if c == equals_sign then [] else c ∷ []
strip_onto c (d ∷ ds) = c ∷ d ∷ ds

unfoldable pub rstrip_equals : List ℕ → List ℕ
rstrip_equals [] = []
rstrip_equals (c ∷ cs) = strip_onto c (rstrip_equals cs)

-- `"=" * (-len(cursor) % 4)`
abbrev pub padding : List ℕ → List ℕ
padding cursor = repeat equals_sign ((4 - length cursor % 4) % 4)

infixl 5 ◌>>=◌
abbrev ◌>>=◌ : {A B : Type 0} → Converted A → (A → Converted B) → Converted B
value a >>= f = f a
refused >>= f = refused
escaped >>= f = escaped

abbrev convert : {A B : Type 0} → (A → B) → Converted A → Converted B
convert f c = c >>= λ a. value (f a)

module _ {Float Decimal : Type 0} (codec : Codec Float Decimal) where
  -- `_encode_value`
  abbrev pub encode_value : CursorValue Float Decimal → codec.Json
  encode_value (CursorValue.bool b) = codec.array (codec.of_str "b" ∷ codec.of_bool b ∷ [])
  encode_value (CursorValue.int i) = codec.array (codec.of_str "i" ∷ codec.of_int i ∷ [])
  encode_value (CursorValue.float x) = codec.array (codec.of_str "f" ∷ codec.of_float x ∷ [])
  encode_value (CursorValue.str s) = codec.array (codec.of_str "s" ∷ codec.of_str s ∷ [])
  encode_value (CursorValue.datetime t) =
      codec.array (codec.of_str "dt" ∷ codec.of_str (codec.datetime_iso t) ∷ [])
  encode_value (CursorValue.date d) =
      codec.array (codec.of_str "d" ∷ codec.of_str (codec.date_iso d) ∷ [])
  encode_value (CursorValue.uuid u) =
      codec.array (codec.of_str "u" ∷ codec.of_str (codec.uuid_str u) ∷ [])
  encode_value (CursorValue.decimal n) =
      codec.array (codec.of_str "n" ∷ codec.of_str (codec.decimal_str n) ∷ [])

  -- `decoders[tag](raw)`; an unknown tag is a KeyError.
  abbrev pub decode_value : String → codec.Json → Converted (CursorValue Float Decimal)
  decode_value tag raw =
      if str_eq tag "b"
      then value (CursorValue.bool (codec.to_bool raw))
      else if str_eq tag "i"
      then convert CursorValue.int (codec.to_int raw)
      else if str_eq tag "f"
      then convert CursorValue.float (codec.to_float raw)
      else if str_eq tag "s"
      then value (CursorValue.str (codec.to_str raw))
      else if str_eq tag "dt"
      then convert CursorValue.datetime (codec.datetime_from raw)
      else if str_eq tag "d"
      then convert CursorValue.date (codec.date_from raw)
      else if str_eq tag "u"
      then convert CursorValue.uuid (codec.uuid_from raw)
      else if str_eq tag "n"
      then convert CursorValue.decimal (codec.decimal_from raw)
      else refused

  -- `for tag, raw in items`: an item that does not unpack into two, or a tag that is no text, raises.
  abbrev tagged : Option String → codec.Json → Converted (CursorValue Float Decimal)
  tagged none raw = refused
  tagged (some tag) raw = decode_value tag raw

  abbrev unpacked : Option (List codec.Json) → Converted (CursorValue Float Decimal)
  unpacked (some (tag ∷ raw ∷ [])) = tagged (codec.as_str tag) raw
  unpacked _ = refused

  abbrev pub decode_item : codec.Json → Converted (CursorValue Float Decimal)
  decode_item item = unpacked (codec.elements item)

  unfoldable pub decode_items : List codec.Json → Converted (List (CursorValue Float Decimal))
  decode_items [] = value []
  decode_items (item ∷ items) = do
    first ← decode_item item
    values ← decode_items items
    value (first ∷ values)

  unfoldable pub encode_cursor : List (CursorValue Float Decimal) → List ℕ
  encode_cursor values = rstrip_equals (codec.to_text (codec.array (map encode_value values)))

  -- The body of the `try`.
  abbrev pub decode_text : List ℕ → Converted (List (CursorValue Float Decimal))
  decode_text cursor = do
    payload ← or_refused (codec.of_text (cursor ++ padding cursor))
    items ← or_refused (codec.elements payload)
    decode_items items

  abbrev pub checked :
      ℕ
      → Converted (List (CursorValue Float Decimal))
      → Either CursorError (List (CursorValue Float Decimal))
  checked expected_size refused = failed malformed
  checked expected_size escaped = failed uncaught
  checked expected_size (value values) =
      if length values == expected_size then done values else failed wrong_size

  unfoldable pub decode_cursor : List ℕ → ℕ → Either CursorError (List (CursorValue Float Decimal))
  decode_cursor cursor expected_size =
      if ltb max_cursor_length (length cursor)
      then failed too_long
      else checked expected_size (decode_text cursor)

pub record KeysetPage (A : Type 0) : Type 0 where
  pub items : List A
  pub next_cursor : Option (List ℕ)

-- `key` gives the values of the sort columns of a row, and `less` is the database's comparison of two
-- such rows of values; `order_by` is ORDER BY with `c.desc()` or `c.asc()` for each column.
module _ {Float Decimal R : Type 0}
    (less : List (CursorValue Float Decimal) → List (CursorValue Float Decimal) → Bool)
    (key : R → List (CursorValue Float Decimal)) (descending : Bool) where
  abbrev pub goes_before : R → R → Bool
  goes_before r q = if descending then less (key q) (key r) else less (key r) (key q)

  unfoldable pub insert : R → List R → List R
  insert r [] = r ∷ []
  insert r (q ∷ rows) =
      let rest = insert r rows in if goes_before r q then r ∷ q ∷ rows else q ∷ rest

  unfoldable pub order_by : List R → List R
  order_by [] = []
  order_by (r ∷ rows) = insert r (order_by rows)

-- `size` is the number of sort columns. What a WHERE leaves of the ordered rows is in order as well.
module _ {Float Decimal R : Type 0} (codec : Codec Float Decimal)
    (less : List (CursorValue Float Decimal) → List (CursorValue Float Decimal) → Bool)
    (key : R → List (CursorValue Float Decimal)) (descending : Bool) (size : ℕ) where
  abbrev pub is_after : List (CursorValue Float Decimal) → R → Bool
  is_after k r = if descending then less (key r) k else less k (key r)

  abbrev pub sought :
      List R → Either CursorError (List (CursorValue Float Decimal)) → Either PageError (List R)
  sought rows (failed e) = failed (PageError.invalid_cursor e)
  sought rows (done k) = done (filter (is_after k) rows)

  abbrev pub seek : Option (List ℕ) → List R → Either PageError (List R)
  seek none rows = done rows
  seek (some cursor) rows = sought rows (decode_cursor codec cursor size)

  abbrev pub limited : ℕ → Either PageError (List R) → Either PageError (List R)
  limited limit (failed e) = failed e
  limited limit (done rows) = done (take (suc limit) rows)

  unfoldable pub apply_keyset : Option (List ℕ) → ℕ → List R → Either PageError (List R)
  apply_keyset cursor limit rows =
      if not (leb 1 limit && leb limit max_limit)
      then failed PageError.limit_out_of_range
      else if size == 0
      then failed PageError.no_sort_columns
      else limited limit (seek cursor (order_by less key descending rows))

  abbrev pub cursor_of : Option R → Option (List ℕ)
  cursor_of none = none
  cursor_of (some r) = some (encode_cursor codec (key r))

  abbrev pub page_of : ℕ → List R → KeysetPage R
  page_of limit rows = record {
    items = take limit rows;
    next_cursor = if ltb limit (length rows) then cursor_of (last (take limit rows)) else none;
  }

  abbrev pub paged : ℕ → Either PageError (List R) → Either PageError (KeysetPage R)
  paged limit (failed e) = failed e
  paged limit (done rows) = done (page_of limit rows)

  unfoldable pub paginate : Option (List ℕ) → ℕ → List R → Either PageError (KeysetPage R)
  paginate cursor limit rows = paged limit (apply_keyset cursor limit rows)
