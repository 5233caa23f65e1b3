-- ===== src/Reports/Export.antt =====
-- backend/app/reports/export.py: the cells of an exported file. csv and openpyxl are a parameter, and
-- so are the program's own texts, which the catalogue of the model leaves out.
use hrus.Base.{
  Bool, true, false, Option, none, some, List, [], ◌∷◌, String, str_eq, if◌then◌else◌, any, find,
}
use hrus.Calendar.{Date}
use hrus.Reports.{ColumnType, ColumnDef}
use hrus.Reports.Query.{Value, text, number, day, datetime, boolean, CompiledReport}

-- A value as it is shown; a truth value is one in JSON alone, a file has "Ya" or "Tidak".
pub data Shown (Number Time : Type 0) : Type 0 where
  blank : Shown Number Time
  words : String → Shown Number Time
  amount : Number → Shown Number Time
  on : Date → Shown Number Time
  at : Time → Shown Number Time
  truth : Bool → Shown Number Time

-- A cell of a sheet: whether its type is set to text, and its number format.
pub record XlsxCell (Number Time : Type 0) : Type 0 where
  pub value : Shown Number Time
  pub is_text : Bool
  pub number_format : Option String

pub record Workbook (Number Time : Type 0) : Type 0 where
  pub header : List String
  pub cells : List (List (XlsxCell Number Time))
  pub info : List String

-- The labels of a result's columns and of an enum's values, and the lines of the definition.
pub record Texts (Number Time : Type 0) : Type 0 where
  pub column_label : String × ColumnType → String
  pub enum_values : ColumnDef → List (String × String)
  pub dataset_label : CompiledReport (Value Number Time) → String
  pub definition : CompiledReport (Value Number Time) → List String

-- What export.py calls of Python's library: `str`, a Decimal as int or float, `replace(tzinfo=None)`,
-- `isoformat`, the csv writer, and openpyxl, which refuses a text with control characters.
pub record Files (Number Time : Type 0) : Type 1 where
  pub str_of : Value Number Time → String
  pub int_or_float : Number → Number
  pub without_zone : Time → Time
  pub date_iso : Date → String
  pub time_iso : Time → String
  pub Bytes : Type 0
  pub write_csv : List (List (Shown Number Time)) → Bytes
  pub check_string : String → Option String
  pub save : Workbook Number Time → Bytes

infixl 5 ◌>>=◌
abbrev pub ◌>>=◌ : {A B : Type 0} → Option A → (A → Option B) → Option B
none >>= f = none
some a >>= f = f a

-- Every element, or none where one has no result.
unfoldable pub traverse : {A B : Type 0} → (A → Option B) → List A → Option (List B)
traverse f [] = some []
traverse f (x ∷ xs) = do y ← f x; ys ← traverse f xs; some (y ∷ ys)

abbrev pub formula_prefixes : List String
formula_prefixes = "=" ∷ "+" ∷ "-" ∷ "@" ∷ "\t" ∷ "\r" ∷ []

-- `_is_formula_like`, of a text.
unfoldable pub is_formula_like : String → Bool
is_formula_like String.[] = false
is_formula_like (String.◌∷◌ c s) =
    any (λ (prefix : String). str_eq prefix (String.◌∷◌ c String.[])) formula_prefixes

abbrev is_enum : ColumnType → Bool
is_enum ColumnType.enum = true
is_enum _ = false

abbrev is_date : ColumnType → Bool
is_date ColumnType.date = true
is_date _ = false

abbrev label_or : String → Option (String × String) → String
label_or s none = s
label_or s (some l) = l.1

module _ {Number Time : Type 0} (files : Files Number Time) (texts : Texts Number Time) where
  abbrev S : Type 0
  S = Shown Number Time

  -- `ColumnDef.enum_label`
  abbrev pub enum_label : ColumnDef → String → String
  enum_label c s = label_or s (find (λ (l : String × String). str_eq l.0 s) (texts.enum_values c))

  abbrev plain_value : Value Number Time → S
  plain_value (text s) = words s
  plain_value (number n) = amount (files.int_or_float n)
  plain_value (day d) = on d
  plain_value (datetime t) = at (files.without_zone t)
  plain_value (boolean true) = words "Ya"
  plain_value (boolean false) = words "Tidak"

  unfoldable pub display_value : Option ColumnDef → Option (Value Number Time) → S
  display_value source none = blank
  display_value none (some v) = plain_value v
  display_value (some c) (some v) =
      if is_enum c.type then words (enum_label c (files.str_of v)) else plain_value v

  abbrev apostrophe : Bool → String → S
  apostrophe true s = words (String.◌∷◌ "'" s)
  apostrophe false s = words s

  unfoldable pub csv_value : S → S
  csv_value blank = words ""
  csv_value (words s) = apostrophe (is_formula_like s) s
  csv_value (amount n) = amount n
  csv_value (truth b) = truth b
  csv_value (on d) = let s = files.date_iso d in apostrophe (is_formula_like s) s
  csv_value (at t) = let s = files.time_iso t in apostrophe (is_formula_like s) s

  -- `zip(sources, row, strict=True)`; lists of two lengths are a ValueError.
  unfoldable pub csv_row :
      List (Option ColumnDef) → List (Option (Value Number Time)) → Option (List S)
  csv_row [] [] = some []
  csv_row (source ∷ sources) (raw ∷ row) = do
    rest ← csv_row sources row
    some (csv_value (display_value source raw) ∷ rest)
  csv_row _ _ = none

  -- `to_csv`, below the labels.
  abbrev pub csv_lines :
      List (Option ColumnDef) → List (List (Option (Value Number Time))) → Option (List (List S))
  csv_lines sources rows = traverse (csv_row sources) rows

  abbrev labels_of : List (String × ColumnType) → List String
  labels_of [] = []
  labels_of (c ∷ columns) = texts.column_label c ∷ labels_of columns

  abbrev all_words : List String → List S
  all_words [] = []
  all_words (s ∷ rest) = words s ∷ all_words rest

  unfoldable pub to_csv :
      CompiledReport (Value Number Time)
      → List (List (Option (Value Number Time)))
      → Option files.Bytes
  to_csv c rows = do
    lines ← csv_lines c.sources rows
    some (files.write_csv (all_words (labels_of c.columns) ∷ lines))

  abbrev pub cell_of : S → Bool → Option String → XlsxCell Number Time
  cell_of value is_text format = record { value = value; is_text = is_text; number_format = format }

  unfoldable pub xlsx_cell : ColumnType → S → Option (XlsxCell Number Time)
  xlsx_cell type blank = some (cell_of blank false none)
  xlsx_cell type (words s) = do
    checked ← files.check_string s
    some (cell_of (words checked) (is_formula_like s) none)
  xlsx_cell type (amount n) = some (cell_of (amount n) false none)
  xlsx_cell type (truth b) = some (cell_of (truth b) false none)
  xlsx_cell type (on d) =
      some (cell_of (on d) false (if is_date type then some "yyyy-mm-dd" else none))
  xlsx_cell type (at t) =
      some (cell_of (at t) false (some (if is_date type then "yyyy-mm-dd" else "yyyy-mm-dd hh:mm")))

  unfoldable pub xlsx_row :
      List (String × ColumnType)
      → List (Option ColumnDef)
      → List (Option (Value Number Time))
      → Option (List (XlsxCell Number Time))
  xlsx_row [] [] [] = some []
  xlsx_row (column ∷ columns) (source ∷ sources) (raw ∷ row) = do
    cell ← xlsx_cell column.1 (display_value source raw)
    rest ← xlsx_row columns sources row
    some (cell ∷ rest)
  xlsx_row _ _ _ = none

  unfoldable pub to_xlsx :
      String
      → CompiledReport (Value Number Time)
      → List (List (Option (Value Number Time)))
      → Option files.Bytes
  to_xlsx title c rows = do
    header ← traverse files.check_string (labels_of c.columns)
    cells ← traverse (xlsx_row c.columns c.sources) rows
    info ← traverse files.check_string (title ∷ texts.definition c)
    some (files.save (record { header = header; cells = cells; info = info }))
