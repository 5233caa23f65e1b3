-- ===== src/Pagination/Roundtrip.antt =====
-- A cursor of values decodes to these values.
use hrus.Base.{
  failed, done, ℕ, zero, suc, ◌+◌, ◌-◌, ◌%◌, ◌≡◌, refl, ◌∙◌, ◌≤◌, ◌<◌, false, some, List, [], ◌∷◌,
  ◌++◌, map, String, arith, ◌==◌, ltb, length, All, if◌then◌else◌,
}
use hrus.Pagination.{
  CursorValue, Codec, CursorError, value, max_cursor_length, equals_sign, repeat, rstrip_equals,
  padding, encode_value, decode_value, decode_item, decode_items, encode_cursor, decode_text,
  decode_cursor,
}

-- What Python's library promises of JSON: iterating a list gives its elements, and a text is read as
-- itself.
pub record IsFaithful {Float Decimal : Type 0} (codec : Codec Float Decimal) : Type 0 where
  pub elements_array : (xs : List codec.Json) → codec.elements (codec.array xs) ≡ some xs
  pub as_str_of : (s : String) → codec.as_str (codec.of_str s) ≡ some s

-- And of a value's type: converting back what it was converted to gives the value.
abbrev pub Converts :
    {Float Decimal : Type 0} → Codec Float Decimal → CursorValue Float Decimal → Type 0
Converts codec (CursorValue.bool b) = codec.to_bool (codec.of_bool b) ≡ b
Converts codec (CursorValue.int i) = codec.to_int (codec.of_int i) ≡ value i
Converts codec (CursorValue.float x) = codec.to_float (codec.of_float x) ≡ value x
Converts codec (CursorValue.str s) = codec.to_str (codec.of_str s) ≡ s
Converts codec (CursorValue.datetime t) =
    codec.datetime_from (codec.of_str (codec.datetime_iso t)) ≡ value t
Converts codec (CursorValue.date d) = codec.date_from (codec.of_str (codec.date_iso d)) ≡ value d
Converts codec (CursorValue.uuid u) = codec.uuid_from (codec.of_str (codec.uuid_str u)) ≡ value u
Converts codec (CursorValue.decimal n) =
    codec.decimal_from (codec.of_str (codec.decimal_str n)) ≡ value n

-- Base64 of a JSON value: an alphabet without "=", filled up with it to a multiple of four, and
-- decoding reads the value back.
pub record IsBase64 {Float Decimal : Type 0} (codec : Codec Float Decimal) (payload : codec.Json)
    : Type 0 where
  pub body : List ℕ
  pub pads : ℕ
  pub text : codec.to_text payload ≡ body ++ repeat equals_sign pads
  pub alphabet : All (λ c. (c == equals_sign) ≡ false) body
  pub pads_few : pads < 4
  pub whole : (length body + pads) % 4 ≡ 0
  pub decoded : codec.of_text (codec.to_text payload) ≡ some payload

rstrip_equals-repeat : (n : ℕ) → rstrip_equals (repeat equals_sign n) ≡ []
unfolding rstrip_equals repeat
rstrip_equals-repeat zero = refl
rstrip_equals-repeat (suc n) = rw (rstrip_equals-repeat n) refl

rstrip_equals-append :
    (body : List ℕ) (n : ℕ)
    → All (λ c. (c == equals_sign) ≡ false) body
    → rstrip_equals (body ++ repeat equals_sign n) ≡ body
unfolding rstrip_equals
rstrip_equals-append [] n h = rstrip_equals-repeat n
rstrip_equals-append (c ∷ []) n h = rw (rstrip_equals-repeat n, h.0) refl
rstrip_equals-append (c ∷ d ∷ ds) n h = rw (rstrip_equals-append (d ∷ ds) n h.1) refl

pads-exact : (n pads : ℕ) → pads < 4 → (n + pads) % 4 ≡ 0 → (4 - n % 4) % 4 ≡ pads
pads-exact n pads lt h = omega arith

module _ {Float Decimal : Type 0} (codec : Codec Float Decimal) (laws : IsFaithful codec) where
  unpacks :
      (tag : String) (raw : codec.Json)
      → decode_item codec (codec.array (codec.of_str tag ∷ raw ∷ [])) ≡ decode_value codec tag raw
  unpacks tag raw = rw (laws.elements_array (codec.of_str tag ∷ raw ∷ []), laws.as_str_of tag) refl

  decode_item-encode :
      (v : CursorValue Float Decimal)
      → Converts codec v
      → decode_item codec (encode_value codec v) ≡ value v
  decode_item-encode (CursorValue.bool b) h = unpacks "b" _ ∙ rw h refl
  decode_item-encode (CursorValue.int i) h = unpacks "i" _ ∙ rw h refl
  decode_item-encode (CursorValue.float x) h = unpacks "f" _ ∙ rw h refl
  decode_item-encode (CursorValue.str s) h = unpacks "s" _ ∙ rw h refl
  decode_item-encode (CursorValue.datetime t) h = unpacks "dt" _ ∙ rw h refl
  decode_item-encode (CursorValue.date d) h = unpacks "d" _ ∙ rw h refl
  decode_item-encode (CursorValue.uuid u) h = unpacks "u" _ ∙ rw h refl
  decode_item-encode (CursorValue.decimal n) h = unpacks "n" _ ∙ rw h refl

  decode_items-encode :
      (vs : List (CursorValue Float Decimal))
      → All (Converts codec) vs
      → decode_items codec (map (encode_value codec) vs) ≡ value vs
  unfolding decode_items
  decode_items-encode [] h = refl
  decode_items-encode (v ∷ vs) h = rw (decode_item-encode v h.0, decode_items-encode vs h.1) refl

  -- A cursor that is made of values, and is no longer than the limit on cursors, decodes to exactly
  -- these values where as many are expected, and is refused where another number is.
  pub decode_cursor-encode :
      (vs : List (CursorValue Float Decimal)) (expected_size : ℕ)
      → All (Converts codec) vs
      → IsBase64 codec (codec.array (map (encode_value codec) vs))
      → length (encode_cursor codec vs) ≤ max_cursor_length
      → decode_cursor codec (encode_cursor codec vs) expected_size
        ≡ (if length vs == expected_size then done vs else failed CursorError.wrong_size)
  unfolding decode_cursor encode_cursor
  decode_cursor-encode vs n h b fits =
      let payload = codec.array (map (encode_value codec) vs) in
      let stripped : rstrip_equals (codec.to_text payload) ≡ b.body =
        rw b.text (rstrip_equals-append b.body b.pads b.alphabet) in
      let padded : b.body ++ padding b.body ≡ codec.to_text payload =
        rw (pads-exact (length b.body) b.pads b.pads_few b.whole, b.text) refl in
      let read : decode_text codec b.body ≡ value vs =
        rw (padded, b.decoded, laws.elements_array (map (encode_value codec) vs))
          (decode_items-encode vs h) in
      let short : ltb max_cursor_length (length (encode_cursor codec vs)) ≡ false =
        ground (arith, fits) in
      rw (short, stripped, read) refl
