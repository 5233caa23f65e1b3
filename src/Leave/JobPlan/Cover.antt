-- ===== src/Leave/JobPlan/Cover.antt =====
-- Every employee who has started falls into exactly one chunk of a leave job.
use hrus.Base.{
  ◌≢◌, ◌∙◌, ℕ, zero, suc, ◌+◌, ◌-◌, ◌≡◌, refl, ◌∙◌, ◌≤◌, Bool, true, false, ◌&&◌, List, [], ◌∷◌,
  arith, ◌==◌, leb, take, drop, length, count, All, Bool-cases, inl, inr,
}
use mathlib.Core.Path.{subst}
use hrus.Calendar.{Date}
use hrus.Models.CoreHr.{Employee}
use hrus.Leave.JobPlan.{
  insert_id, sort_ids, started_ids, Group, last_of, chunk_size, group_of, groups, plan,
}

-- How often an id occurs.
abbrev pub occurs : ℕ → List ℕ → ℕ
occurs i = count (λ n. n == i)

occurs-insert_id : (i n : ℕ) (ns : List ℕ) → occurs i (insert_id n ns) ≡ occurs i (n ∷ ns)
unfolding insert_id count
occurs-insert_id i n [] = refl
occurs-insert_id i n (m ∷ ms) = ground (arith, occurs-insert_id i n ms)

occurs-sort_ids : (i : ℕ) (ns : List ℕ) → occurs i (sort_ids ns) ≡ occurs i ns
unfolding sort_ids count
occurs-sort_ids i [] = refl
occurs-sort_ids i (n ∷ ns) =
    ground (arith, occurs-insert_id i n (sort_ids ns), occurs-sort_ids i ns)

abbrev IsSorted : List ℕ → Type 0
IsSorted [] = Unit
IsSorted (n ∷ ns) = All (λ m. n ≤ m) ns × IsSorted ns

All-weaken : (a b : ℕ) (ns : List ℕ) → a ≤ b → All (λ m. b ≤ m) ns → All (λ m. a ≤ m) ns
All-weaken a b [] h all = tt
All-weaken a b (n ∷ ns) h all = (omega (arith, all.0), All-weaken a b ns h all.1)

All-insert_id :
    (a n : ℕ) (ns : List ℕ) → a ≤ n → All (λ m. a ≤ m) ns → All (λ m. a ≤ m) (insert_id n ns)
unfolding insert_id
All-insert_id a n [] h all = (h, tt)
All-insert_id a n (m ∷ ms) h all = elim (Bool-cases (leb n m)) [
  | inl e ↦ rw e (h, all)
  | inr e ↦ rw e (all.0, All-insert_id a n ms h all.1)
]

insert_id-IsSorted : (n : ℕ) (ns : List ℕ) → IsSorted ns → IsSorted (insert_id n ns)
unfolding insert_id
insert_id-IsSorted n [] s = (tt, tt)
insert_id-IsSorted n (m ∷ ms) s = elim (Bool-cases (leb n m)) [
  | inl e ↦ let low : n ≤ m = ground (arith, e) in rw e ((low, All-weaken n m ms low s.0), s)
  | inr e ↦
      let high : m ≤ n = ground (arith, e) in
      rw e (All-insert_id m n ms high s.0, insert_id-IsSorted n ms s.1)
]

sort_ids-IsSorted : (ns : List ℕ) → IsSorted (sort_ids ns)
unfolding sort_ids
sort_ids-IsSorted [] = tt
sort_ids-IsSorted (n ∷ ns) = insert_id-IsSorted n (sort_ids ns) (sort_ids-IsSorted ns)

All-drop : (a k : ℕ) (ns : List ℕ) → All (λ m. a ≤ m) ns → All (λ m. a ≤ m) (drop k ns)
unfolding drop
All-drop a zero ns h = h
All-drop a (suc k) [] h = tt
All-drop a (suc k) (n ∷ ns) h = All-drop a k ns h.1

drop-IsSorted : (k : ℕ) (ns : List ℕ) → IsSorted ns → IsSorted (drop k ns)
unfolding drop
drop-IsSorted zero ns s = s
drop-IsSorted (suc k) [] s = tt
drop-IsSorted (suc k) (n ∷ ns) s = drop-IsSorted k ns s.1

occurs-split : (i k : ℕ) (ns : List ℕ) → occurs i ns ≡ occurs i (take k ns) + occurs i (drop k ns)
unfolding count take drop
occurs-split i zero ns = omega arith
occurs-split i (suc k) [] = omega arith
occurs-split i (suc k) (n ∷ ns) = ground (arith, occurs-split i k ns)

length-drop : (k : ℕ) (ns : List ℕ) → length (drop k ns) ≤ length ns
unfolding drop
length-drop zero ns = omega arith
length-drop (suc k) [] = omega arith
length-drop (suc k) (n ∷ ns) = omega (arith, length-drop k ns)

-- The ids behind a slice are at least its last one.
last_of-drop :
    (n k : ℕ) (ns : List ℕ) → IsSorted (n ∷ ns) → All (λ m. last_of n (take k ns) ≤ m) (drop k ns)
unfolding last_of take drop
last_of-drop n zero ns s = s.0
last_of-drop n (suc k) [] s = tt
last_of-drop n (suc k) (m ∷ ms) s = last_of-drop m k ms s.1

first-last : (n k : ℕ) (ns : List ℕ) → IsSorted (n ∷ ns) → n ≤ last_of n (take k ns)
unfolding last_of take
first-last n zero ns s = omega arith
first-last n (suc k) [] s = omega arith
first-last n (suc k) (m ∷ ms) s = omega (arith, first-last m k ms s.1, s.0.0)

-- An id of a slice lies between its first and its last.
occurs-between :
    (i n k : ℕ) (ns : List ℕ)
    → IsSorted (n ∷ ns)
    → 1 ≤ occurs i (n ∷ take k ns)
    → (n ≤ i) × (i ≤ last_of n (take k ns))
unfolding count last_of take
occurs-between i n zero ns s h = ground arith
occurs-between i n (suc k) [] s h = ground arith
occurs-between i n (suc k) (m ∷ ms) s h =
    ground (arith, first-last m k ms s.1, s.0.0, occurs-between i m k ms s.1)

last_of-occurs : (n : ℕ) (ns : List ℕ) → 1 ≤ occurs (last_of n ns) (n ∷ ns)
unfolding count last_of
last_of-occurs n [] = ground arith
last_of-occurs n (m ∷ ms) = ground (arith, last_of-occurs m ms)

All-occurs : (a i : ℕ) (ns : List ℕ) → All (λ m. a ≤ m) ns → 1 ≤ occurs i ns → a ≤ i
unfolding count
All-occurs a i [] all h = absurd (omega arith)
All-occurs a i (n ∷ ns) all h = ground (arith, all.0, All-occurs a i ns all.1)

All-strict :
    (a i : ℕ) (ns : List ℕ)
    → i ≤ a
    → All (λ m. a ≤ m) ns
    → occurs i ns ≡ 0
    → All (λ m. suc i ≤ m) ns
unfolding count
All-strict a i [] h all z = tt
All-strict a i (n ∷ ns) h all z = (ground (arith, all.0), All-strict a i ns h all.1 (ground arith))

-- Whether an id lies in a group.
abbrev pub is_in : ℕ → Group → Bool
is_in i g = leb g.first_id i && leb i g.last_id

groups-below :
    (i size fuel : ℕ) (ns : List ℕ)
    → All (λ m. suc i ≤ m) ns
    → count (is_in i) (groups size fuel ns) ≡ 0
unfolding groups count
groups-below i size zero ns h = refl
groups-below i size (suc fuel) [] h = refl
groups-below i size (suc fuel) (n ∷ ns) h =
    ground (
      arith,
      h.0,
      groups-below i size fuel (drop (size - 1) ns) (All-drop (suc i) (size - 1) ns h.1),
    )

module _ (i n k : ℕ) (ns : List ℕ) (s : IsSorted (n ∷ ns)) where
  parted : occurs i (n ∷ ns) ≡ occurs i (n ∷ take k ns) + occurs i (drop k ns)
  unfolding count
  parted = ground (arith, occurs-split i k ns)

  group-holds : 1 ≤ occurs i (n ∷ take k ns) → is_in i (group_of n (take k ns)) ≡ true
  group-holds h = let b = occurs-between i n k ns s h in ground (arith, b.0, b.1)

  group-misses :
      occurs i (n ∷ take k ns) ≡ 0
      → 1 ≤ occurs i (drop k ns)
      → is_in i (group_of n (take k ns)) ≡ false
  group-misses z h =
      let behind : last_of n (take k ns) ≤ i =
        All-occurs (last_of n (take k ns)) i (drop k ns) (last_of-drop n k ns s) h in
      let other : last_of n (take k ns) ≢ i = λ e. absurd (
        omega
          (arith, z, subst (λ j. 1 ≤ occurs j (n ∷ take k ns)) e (last_of-occurs n (take k ns)))) in
      ground (arith, behind, other)

none_occurs : (i : ℕ) → occurs i [] ≡ 1 → ⊥
unfolding count
none_occurs i h = omega arith

groups-once :
    (i size fuel : ℕ) (ns : List ℕ)
    → IsSorted ns
    → occurs i ns ≡ 1
    → length ns ≤ fuel
    → count (is_in i) (groups size fuel ns) ≡ 1
unfolding groups count
groups-once i size zero [] s h enough = absurd (none_occurs i h)
groups-once i size zero (n ∷ ns) s h enough = absurd (omega arith)
groups-once i size (suc fuel) [] s h enough = absurd (none_occurs i h)
groups-once i size (suc fuel) (n ∷ ns) s h enough =
    let k = size - 1 in
    elim (Bool-cases (leb 1 (occurs i (n ∷ take k ns)))) [
      | inl here ↦
          let within : 1 ≤ occurs i (n ∷ take k ns) = ground (arith, here) in
          let none_left : occurs i (drop k ns) ≡ 0 = omega (arith, parted i n k ns s, h, within) in
          let beyond =
            All-strict (last_of n (take k ns)) i (drop k ns) (occurs-between i n k ns s within).1
              (last_of-drop n k ns s) none_left in
          rw (group-holds i n k ns s within, groups-below i size fuel (drop k ns) beyond) refl
      | inr there ↦
          let missing : occurs i (n ∷ take k ns) ≡ 0 = ground (arith, there) in
          let later : occurs i (drop k ns) ≡ 1 = omega (arith, parted i n k ns s, h, missing) in
          rw (group-misses i n k ns s missing (omega (arith, later))) (
            groups-once i size fuel (drop k ns) (drop-IsSorted k ns s.1) later
              (omega (arith, length-drop k ns, enough)))
    ]

-- The plan of a leave job puts every employee who has started by its date into exactly one chunk:
-- the one between whose first and last id the employee's id lies. Ids are unique.
pub plan-once :
    (tenant_id : ℕ) (as_of : Date) (employees : List Employee) (id : ℕ)
    → occurs id (started_ids tenant_id as_of employees) ≡ 1
    → count (is_in id) (plan tenant_id as_of employees) ≡ 1
unfolding plan
plan-once tenant_id as_of employees id h =
    let ids = sort_ids (started_ids tenant_id as_of employees) in
    groups-once id chunk_size (length ids) ids
      (sort_ids-IsSorted (started_ids tenant_id as_of employees))
      (occurs-sort_ids id (started_ids tenant_id as_of employees) ∙ h) (omega arith)
