-- ===== src/Reports/Dims.antt =====
-- The columns that a report asks for are a selection of its dataset.
use hrus.Base.{◌≡◌, refl, ap, false, inl, inr, List, [], ◌∷◌, map, String, All, length, arith}
use hrus.Reports.{ColumnDef, Dataset}
use hrus.Reports.Query.{plain, count_rows, aggregate}
use hrus.Reports.Compile.{Selected, has_duplicates, dim_select, dim_column}
use hrus.Reports.Fits.{IsColumn, SelectFits}
use hrus.Reports.Selection.{key_of, select_of, Column, PlainIn, IsSelection}

-- The columns that a report asks for, before the aggregates.
dims-plain :
    (dataset : Dataset) (dims : List ColumnDef)
    → All (λ c. IsColumn dataset c.key c) dims
    → All (λ s. SelectFits dataset (select_of s)) (map dim_select dims)
dims-plain dataset [] h = tt
dims-plain dataset (c ∷ rest) h = ((c, h.0), dims-plain dataset rest h.1)

All-wider :
    (key : String) (keys : List String) (selected : Selected)
    → All (λ s. PlainIn keys (select_of s)) selected
    → All (λ s. PlainIn (key ∷ keys) (select_of s)) selected
All-wider key keys [] h = tt
All-wider key keys ((k, plain c) ∷ rest) h = (inr h.0, All-wider key keys rest h.1)
All-wider key keys ((k, count_rows) ∷ rest) h = (tt, All-wider key keys rest h.1)
All-wider key keys ((k, aggregate f c) ∷ rest) h = (tt, All-wider key keys rest h.1)

dims-PlainIn :
    (dims : List ColumnDef)
    → All (λ s. PlainIn (map (λ (c : ColumnDef). c.key) dims) (select_of s)) (map dim_select dims)
dims-PlainIn [] = tt
dims-PlainIn (c ∷ rest) = (inl refl, All-wider c.key _ (map dim_select rest) (dims-PlainIn rest))

dims-keys :
    (dims : List ColumnDef) → map key_of (map dim_select dims) ≡ map (λ (c : ColumnDef). c.key) dims
dims-keys [] = refl
dims-keys (c ∷ rest) = ap (λ l. c.key ∷ l) (dims-keys rest)

dims-aligned :
    (dims : List ColumnDef)
    → map (λ (c : Column). c.0) (map dim_column dims) ≡ map key_of (map dim_select dims)
dims-aligned [] = refl
dims-aligned (c ∷ rest) = ap (λ l. c.key ∷ l) (dims-aligned rest)

pub dims-length : (dims : List ColumnDef) → length (map dim_select dims) ≡ length dims
dims-length [] = refl
dims-length (c ∷ rest) = omega (arith, dims-length rest)

pub dims-IsSelection :
    (dataset : Dataset) (keys : List String) (dims : List ColumnDef)
    → All (λ c. IsColumn dataset c.key c) dims
    → map (λ (c : ColumnDef). c.key) dims ≡ keys
    → has_duplicates keys ≡ false
    → IsSelection dataset keys (map dim_select dims) (map dim_column dims)
dims-IsSelection dataset keys dims known same once = record {
  fits = dims-plain dataset dims known;
  plains = rw (← same) (dims-PlainIn dims);
  distinct = rw (dims-keys dims, same) once;
  aligned = dims-aligned dims;
}
