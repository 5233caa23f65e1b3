-- ===== src/Reports/Selection.antt =====
-- The columns and aggregates of a statement, and its order.
use hrus.Base.{
  ◌+◌, ◌≡◌, refl, ap, sym, ◌∙◌, Bool, false, ◌⊎◌, inl, inr, Option, none, some, List, [], ◌∷◌, ◌++◌,
  map, String, str_eq, find, any, All, Elem, length, arith, any-append, Bool-cases, ◌<◌,
}
use mathlib.Core.Option.{some-injective}
use hrus.Errors.Chain.{
  Settles, settled, Settles-bind, Settles-map, error_if-Settles, or_error-Settles,
}
use hrus.Reports.{ColumnType, ColumnDef, Dataset, AggregateFunc}
use hrus.Reports.Query.{Select, plain, count_rows, aggregate, ReportAggregate, ReportSort}
use hrus.Reports.Compile.{
  Selected, has_duplicates, columns_of, aggregate_of, of_key, add_aggregates, order_of, or_first,
  groups,
}
use hrus.Reports.Fits.{IsColumn, SelectFits, column-Settles, IsColumn-own}

abbrev pub key_of : String × Select → String
key_of (k, e) = k

abbrev pub select_of : String × Select → Select
select_of (k, e) = e

abbrev pub Column : Type 0
Column = String × ColumnType

abbrev pub select_only : Select × Bool → Select
select_only (e, descending) = e

-- A column that is selected as it is stands among the keys.
abbrev pub PlainIn : List String → Select → Type 0
PlainIn keys (plain key) = Elem key keys
PlainIn keys _ = Unit

-- The expressions fit the dataset, no key stands twice, and the results have the same keys.
pub record IsSelection (dataset : Dataset) (keys : List String) (selected : Selected)
    (columns : List Column) : Type 0 where
  pub fits : All (λ s. SelectFits dataset (select_of s)) selected
  pub plains : All (λ s. PlainIn keys (select_of s)) selected
  pub distinct : has_duplicates (map key_of selected) ≡ false
  pub aligned : map (λ (c : Column). c.0) columns ≡ map key_of selected

module _ {A : Type 0} where
  All-append_one : (P : A → Type 0) (xs : List A) (y : A) → All P xs → P y → All P (xs ++ y ∷ [])
  All-append_one P [] y h p = (p, tt)
  All-append_one P (x ∷ xs) y h p = (h.0, All-append_one P xs y h.1 p)

  map-append_one :
      {B : Type 0} (f : A → B) (xs : List A) (y : A) → map f (xs ++ y ∷ []) ≡ map f xs ++ f y ∷ []
  map-append_one f [] y = refl
  map-append_one f (x ∷ xs) y = ap (λ l. f x ∷ l) (map-append_one f xs y)

module _ {A : Type 0} where
  length-append_one : (xs : List A) (y : A) → length (xs ++ y ∷ []) ≡ length xs + 1
  length-append_one [] y = omega arith
  length-append_one (x ∷ xs) y = omega (arith, length-append_one xs y)

has_duplicates-append_one :
    (ks : List String) (k : String)
    → has_duplicates ks ≡ false
    → any (λ j. str_eq j k) ks ≡ false
    → has_duplicates (ks ++ k ∷ []) ≡ false
unfolding has_duplicates any
has_duplicates-append_one [] k d n = refl
has_duplicates-append_one (j ∷ ks) k d n =
    ground (arith, has_duplicates-append_one ks k, any-append (str_eq j) ks (k ∷ []))

any-keys :
    (key : String) (selected : Selected)
    → any (of_key key) selected ≡ any (λ j. str_eq j key) (map key_of selected)
unfolding any
any-keys key [] = refl
any-keys key ((k, e) ∷ rest) = ground (arith, any-keys key rest)

-- The columns that a report asks for.
pub columns_of-Settles :
    (dataset : Dataset) (keys : List String)
    → Settles
        (λ cs. All (λ c. IsColumn dataset c.key c) cs × (map (λ (c : ColumnDef). c.key) cs ≡ keys))
        (columns_of dataset keys)
unfolding columns_of
columns_of-Settles dataset [] = settled (tt, refl)
columns_of-Settles dataset (k ∷ ks) =
    let rest = columns_of-Settles dataset ks in
    Settles-bind (column-Settles dataset k) (λ c known.
      Settles-bind rest
        (λ cs h. settled ((IsColumn-own dataset _ _ known, h.0), cc (known.1, h.1))))

-- What an aggregate gives.
Aggregated : Dataset → String × Select × ColumnType → Type 0
Aggregated dataset (key, e, kind) = SelectFits dataset e × ((keys : List String) → PlainIn keys e)

aggregate_of-Settles :
    (dataset : Dataset) (f : AggregateFunc) (key : Option String)
    → Settles (Aggregated dataset) (aggregate_of dataset f key)
unfolding aggregate_of Aggregated
aggregate_of-Settles dataset f none =
    Settles-bind (error_if-Settles _ _ tt) (λ _ h. settled (tt, λ _. tt))
aggregate_of-Settles dataset f (some key) = Settles-bind (column-Settles dataset key) (λ col known.
    Settles-bind (error_if-Settles _ _ tt)
      (λ _ h. settled ((col, IsColumn-own dataset _ _ known, ground (arith, h)), λ _. tt)))

module _ (dataset : Dataset) (keys : List String) where
  IsSelection-append :
      (selected : Selected) (columns : List Column) (key : String) (e : Select) (kind : ColumnType)
      → IsSelection dataset keys selected columns
      → SelectFits dataset e
      → PlainIn keys e
      → any (of_key key) selected ≡ false
      → IsSelection dataset keys (selected ++ (key, e) ∷ []) (columns ++ (key, kind) ∷ [])
  IsSelection-append selected columns key e kind s f p n = record {
    fits = All-append_one _ selected (key, e) s.fits f;
    plains = All-append_one _ selected (key, e) s.plains p;
    distinct = rw (map-append_one key_of selected (key, e)) (
        has_duplicates-append_one (map key_of selected) key s.distinct
          (sym (any-keys key selected) ∙ n));
    aligned =
        rw
          (
            map-append_one key_of selected (key, e),
            map-append_one (λ (c : Column). c.0) columns (key, kind),
          )
          (ap (λ l. l ++ key ∷ []) s.aligned);
  }

  -- The loop keeps the selection well formed, and adds one expression for each aggregate.
  pub add_aggregates-Settles :
      (aggregates : List ReportAggregate) (selected : Selected) (columns : List Column)
      → IsSelection dataset keys selected columns
      → Settles
          (λ r.
            IsSelection dataset keys r.0 r.1 × (length r.0 ≡ length selected + length aggregates))
          (add_aggregates dataset aggregates selected columns)
  unfolding add_aggregates Aggregated
  add_aggregates-Settles [] selected columns s = settled (s, omega arith)
  add_aggregates-Settles (a ∷ rest) selected columns s =
      Settles-bind (aggregate_of-Settles dataset a.func a.column) (λ r fits.
        Settles-bind (error_if-Settles _ _ tt) (λ _ n.
          Settles-map
            (add_aggregates-Settles rest (selected ++ (r.0, r.1) ∷ []) (columns ++ (r.0, r.2) ∷ [])
              (IsSelection-append selected columns r.0 r.1 r.2 s fits.0 (fits.1 keys) n))
            (λ q h. (h.0, omega (arith, h.1, length-append_one selected (r.0, r.1))))))

module _ {A : Type 0} where
  pub find-Elem : (p : A → Bool) (xs : List A) (x : A) → find p xs ≡ some x → Elem x xs
  unfolding find
  find-Elem p [] x h = cc
  find-Elem p (y ∷ xs) x h = elim (Bool-cases (p y)) [
    | inl e ↦ inl (sym (some-injective y x (rw e at h)))
    | inr e ↦ inr (find-Elem p xs x (rw e at h))
  ]

  Elem-map : {B : Type 0} (f : A → B) (xs : List A) (x : A) → Elem x xs → Elem (f x) (map f xs)
  Elem-map f [] x h = absurd h
  Elem-map f (y ∷ xs) x (inl e) = inl (ap f e)
  Elem-map f (y ∷ xs) x (inr h) = inr (Elem-map f xs x h)

-- The order is by selected expressions.
abbrev pub OrderedBy : Selected → List (Select × Bool) → Type 0
OrderedBy selected order = All (λ o. Elem (select_only o) (map select_of selected)) order

pub order_of-Settles :
    (selected : Selected) (sorts : List ReportSort)
    → Settles (OrderedBy selected) (order_of selected sorts)
unfolding order_of
order_of-Settles selected [] = settled tt
order_of-Settles selected (s ∷ rest) =
    let others = order_of-Settles selected rest in
    Settles-bind (or_error-Settles _ _ tt) (λ found e.
      Settles-bind others
        (λ os h. settled (Elem-map select_of selected found (find-Elem _ selected found e), h)))

pub or_first-Settles :
    (selected : Selected) (order : List (Select × Bool))
    → 0 < length selected
    → OrderedBy selected order
    → Settles (λ os. OrderedBy selected os × (0 < length os)) (or_first selected order)
unfolding or_first
or_first-Settles [] [] some_key h = absurd (omega arith)
or_first-Settles ((key, e) ∷ rest) [] some_key h = settled ((inl refl, tt), omega arith)
or_first-Settles selected (o ∷ os) some_key h = settled (h, omega arith)

-- The columns that are selected as they are, where there are no aggregates, or grouped by.
abbrev pub Grouped : List ReportAggregate → List String → Select → Type 0
Grouped aggregates keys (plain key) = (aggregates ≡ []) ⊎ Elem key keys
Grouped aggregates keys _ = Unit

module _ (dims : List ColumnDef) (keys : List String)
    (same : map (λ (c : ColumnDef). c.key) dims ≡ keys) where
  select-Grouped :
      (aggregates : List ReportAggregate) (e : Select)
      → PlainIn keys e
      → Grouped aggregates (groups aggregates dims) e
  select-Grouped [] (plain key) h = inl refl
  select-Grouped (a ∷ rest) (plain key) h = inr (rw same h)
  select-Grouped aggregates count_rows h = tt
  select-Grouped aggregates (aggregate f key) h = tt

  pub groups-Grouped :
      (aggregates : List ReportAggregate) (selected : Selected)
      → All (λ s. PlainIn keys (select_of s)) selected
      → All (λ s. Grouped aggregates (groups aggregates dims) (select_of s)) selected
  groups-Grouped aggregates [] h = tt
  groups-Grouped aggregates ((key, e) ∷ rest) h =
      (select-Grouped aggregates e h.0, groups-Grouped aggregates rest h.1)
