-- ===== src/Rules/Leave/Policy.antt =====
-- `pick_policy` chooses a most specific policy among those that apply.
use hrus.Base.{
  ℕ, ◌≡◌, refl, ◌⊎◌, inl, inr, Bool, true, false, Option, none, some, List, [], ◌∷◌, String, arith,
  All, Elem, filter, Bool-cases, ◌≤◌, ltb, str_eq, str_eq→eq, All-map,
}
use text.Mathlib.TextPositions.{eq_refl}
use hrus.Models.Leave.{LeavePolicy}
use hrus.Rules.Leave.{
  normal_grade, fits_grade, grade_first, is_candidate, more_specific, least, least?, pick_policy,
}

more_specific_trans :
    (p q r : LeavePolicy)
    → more_specific p q ≡ true
    → more_specific q r ≡ true
    → more_specific p r ≡ true
more_specific_trans p q r h k = ground arith

more_specific_irrefl : (p : LeavePolicy) → more_specific p p ≡ false
more_specific_irrefl p = ground arith

-- What loses against `p` wins nothing that `p` does not.
more_specific_below :
    (p q r : LeavePolicy)
    → more_specific p q ≡ true
    → more_specific p r ≡ false
    → more_specific q r ≡ false
more_specific_below p q r h k = ground arith

-- What `min` promises of its result.
pub record IsLeast (p : LeavePolicy) (ps : List LeavePolicy) : Type 0 where
  pub member : Elem p ps
  pub minimal : All (λ q. more_specific q p ≡ false) ps

least-first :
    (best : LeavePolicy) (ps : List LeavePolicy) → more_specific best (least best ps) ≡ false
unfolding least
least-first best [] = more_specific_irrefl best
least-first best (p ∷ ps) = elim (Bool-cases (more_specific p best)) [
  | inl e ↦ rw (e, least) (more_specific_below p best (least p ps) e (least-first p ps))
  | inr e ↦ rw (e, least) (least-first best ps)
]

more_specific_not_below :
    (p q r : LeavePolicy)
    → more_specific p q ≡ false
    → more_specific q r ≡ false
    → more_specific p r ≡ false
more_specific_not_below p q r h k = ground arith

least-IsLeast : (best : LeavePolicy) (ps : List LeavePolicy) → IsLeast (least best ps) (best ∷ ps)
unfolding least
least-IsLeast best [] = record { member = inl refl; minimal = (more_specific_irrefl best, tt) }
least-IsLeast best (p ∷ ps) = elim (Bool-cases (more_specific p best)) [
  | inl e ↦
      let ih = least-IsLeast p ps in
      rw (e, least)
        (record {
          member = inr ih.member;
          minimal = (more_specific_below p best (least p ps) e (least-first p ps), ih.minimal);
        })
  | inr e ↦
      let ih = least-IsLeast best ps in
      rw (e, least)
        (record {
          member = skip ih.member;
          minimal = (
            ih.minimal.0,
            (more_specific_not_below p best (least best ps) e (least-first best ps), ih.minimal.1),
          );
        })
]
  where
    skip : Elem (least best ps) (best ∷ ps) → Elem (least best ps) (best ∷ p ∷ ps)
    skip (inl h) = inl h
    skip (inr h) = inr (inr h)

-- Rows that pass the filter stand in the table, and a promise about the rows that pass is one
-- about all rows of the table.
module _ {A : Type 0} (c : A → Bool) where
  Elem-filter : (x : A) (xs : List A) → Elem x (filter c xs) → Elem x xs × (c x ≡ true)
  unfolding filter
  Elem-filter x [] h = elim h [ ]
  Elem-filter x (y ∷ xs) h = elim (Bool-cases (c y)) [
    | inl e ↦ kept (Elem-filter x xs) e (rw (e, filter) at h)
    | inr e ↦ let r = Elem-filter x xs (rw (e, filter) at h) in (inr r.0, r.1)
  ]
    where
      kept :
          (Elem x (filter c xs) → Elem x xs × (c x ≡ true))
          → c y ≡ true
          → (x ≡ y) ⊎ Elem x (filter c xs)
          → Elem x (y ∷ xs) × (c x ≡ true)
      kept rest e (inl p) = (inl p, rw p e)
      kept rest e (inr m) = let r = rest m in (inr r.0, r.1)

  All-filter : (P : A → Type 0) (xs : List A) → All P (filter c xs) → All (λ q. c q ≡ true → P q) xs
  unfolding filter
  All-filter P [] h = tt
  All-filter P (y ∷ xs) h = elim (Bool-cases (c y)) [
    | inl e ↦
        let k : P y × All P (filter c xs) = rw (e, filter) at h in (λ _. k.0, All-filter P xs k.1)
    | inr e ↦ (λ t. cc, All-filter P xs (rw (e, filter) at h))
  ]

  filter-none : (xs : List A) → filter c xs ≡ [] → All (λ q. c q ≡ false) xs
  unfolding filter
  filter-none [] h = tt
  filter-none (y ∷ xs) h = elim (Bool-cases (c y)) [
    | inl e ↦ absurd (ground arith)
    | inr e ↦ (e, filter-none xs (rw (e, filter) at h))
  ]

-- A choice that is best: it applies, and no policy that applies is more specific.
record IsBest (c : LeavePolicy → Bool) (p : LeavePolicy) (ps : List LeavePolicy) : Type 0 where
  pub member : Elem p ps
  pub applies : c p ≡ true
  pub minimal : All (λ q. c q ≡ true → more_specific q p ≡ false) ps

abbrev Picks : (LeavePolicy → Bool) → List LeavePolicy → Option LeavePolicy → Type 0
Picks c ps none = All (λ q. c q ≡ false) ps
Picks c ps (some p) = IsBest c p ps

least?-Picks :
    (c : LeavePolicy → Bool) (ps fs : List LeavePolicy) → filter c ps ≡ fs → Picks c ps (least? fs)
least?-Picks c ps [] e = filter-none c ps e
least?-Picks c ps (p ∷ fs) e =
    let best = least-IsLeast p fs in
    let found = Elem-filter c (least p fs) ps (rw e best.member) in
    record {
      member = found.0;
      applies = found.1;
      minimal = All-filter c (λ q. more_specific q (least p fs) ≡ false) ps (rw e best.minimal);
    }

-- The employee's grade in upper case is that of the policy; an empty grade is none.
abbrev FitsGrade : (String → String) → Option String → Option String → Type 0
FitsGrade upper none grade = Unit
FitsGrade upper (some wanted) none = ⊥
FitsGrade upper (some wanted) (some grade) = (str_eq grade "" ≡ false) × (wanted ≡ upper grade)

-- A policy that applies to an employee of a grade with so many months of service.
pub record Applies (upper : String → String) (leave_type_id : ℕ) (grade : Option String)
    (months : ℕ) (p : LeavePolicy) : Type 0 where
  pub leave_type : p.leave_type_id ≡ leave_type_id
  pub served : p.min_service_months ≤ months
  pub graded : FitsGrade upper p.grade grade

-- A policy with a grade goes first; among policies with one, or without, the longer service does.
abbrev GradeFirst : Option String → Option String → Type 0 → Type 0
GradeFirst (some g) none longer = Unit
GradeFirst none (some h) longer = ⊥
GradeFirst (some g) (some h) longer = longer
GradeFirst none none longer = longer

abbrev pub GoesFirst : LeavePolicy → LeavePolicy → Type 0
GoesFirst p q = GradeFirst p.grade q.grade (q.min_service_months ≤ p.min_service_months)

pub record IsChosen (upper : String → String) (leave_type_id : ℕ) (grade : Option String)
    (months : ℕ) (p : LeavePolicy) (ps : List LeavePolicy) : Type 0 where
  pub member : Elem p ps
  pub applies : Applies upper leave_type_id grade months p
  pub first : All (λ q. Applies upper leave_type_id grade months q → GoesFirst p q) ps

abbrev pub Chooses :
    (String → String) → ℕ → Option String → ℕ → List LeavePolicy → Option LeavePolicy → Type 0
Chooses upper leave_type_id grade months ps none =
    All (λ q. ¬ Applies upper leave_type_id grade months q) ps
Chooses upper leave_type_id grade months ps (some p) =
    IsChosen upper leave_type_id grade months p ps

module _ (upper : String → String) (leave_type_id : ℕ) (grade : Option String) (months : ℕ) where
  abbrev candidate : LeavePolicy → Bool
  candidate = is_candidate leave_type_id (normal_grade upper grade) months

  fits_grade-FitsGrade :
      (wanted grade : Option String)
      → fits_grade wanted (normal_grade upper grade) ≡ true
      → FitsGrade upper wanted grade
  fits_grade-FitsGrade none grade h = tt
  fits_grade-FitsGrade (some w) none h = cc
  fits_grade-FitsGrade (some w) (some g) h = elim (Bool-cases (str_eq g "")) [
    | inl e ↦ cc (rw e at h)
    | inr e ↦ (e, str_eq→eq w (upper g) (rw e at h))
  ]

  FitsGrade-fits_grade :
      (wanted grade : Option String)
      → FitsGrade upper wanted grade
      → fits_grade wanted (normal_grade upper grade) ≡ true
  FitsGrade-fits_grade none grade h = refl
  FitsGrade-fits_grade (some w) none h = elim h [ ]
  FitsGrade-fits_grade (some w) (some g) h = rw (h.0, h.1) (eq_refl (upper g))

  is_candidate-Applies :
      (p : LeavePolicy) → candidate p ≡ true → Applies upper leave_type_id grade months p
  unfolding is_candidate
  is_candidate-Applies p h = record {
    leave_type = ground (arith, h);
    served = ground (arith, h);
    graded = fits_grade-FitsGrade p.grade grade (ground arith);
  }

  Applies-is_candidate :
      (p : LeavePolicy) → Applies upper leave_type_id grade months p → candidate p ≡ true
  unfolding is_candidate
  Applies-is_candidate p a =
      ground (arith, a.leave_type, a.served, FitsGrade-fits_grade p.grade grade a.graded)

  more_specific-GoesFirst :
      (g h : Option String) (m n : ℕ) → grade_first h g (ltb m n) ≡ false → GradeFirst g h (n ≤ m)
  more_specific-GoesFirst none none m n e = ground (arith, e)
  more_specific-GoesFirst none (some h) m n e = cc
  more_specific-GoesFirst (some g) none m n e = tt
  more_specific-GoesFirst (some g) (some h) m n e = ground (arith, e)

  Picks-Chooses :
      (ps : List LeavePolicy) (o : Option LeavePolicy)
      → Picks candidate ps o
      → Chooses upper leave_type_id grade months ps o
  Picks-Chooses ps none all = All-map _ _ ps (λ q out a. cc (Applies-is_candidate q a, out)) all
  Picks-Chooses ps (some p) best = record {
    member = best.member;
    applies = is_candidate-Applies p best.applies;
    first =
        All-map _ _ ps
          (λ q least a.
            more_specific-GoesFirst p.grade q.grade p.min_service_months q.min_service_months
              (least (Applies-is_candidate q a)))
          best.minimal;
  }

  -- The policy chosen stands in the table and applies: it is of the leave type, asks for no more
  -- months of service than the employee has, and has no grade or the employee's in upper case. Of
  -- the policies that apply, none with a grade stands behind one without, and among those with a
  -- grade, or without, the chosen one asks for the most months. None is chosen only when none applies.
  pub pick_policy-Picks :
      (policies : List LeavePolicy)
      → Chooses upper leave_type_id grade months policies
          (pick_policy upper policies leave_type_id grade months)
  unfolding pick_policy
  pick_policy-Picks policies =
      Picks-Chooses policies (least? (filter candidate policies))
        (least?-Picks candidate policies (filter candidate policies) refl)
