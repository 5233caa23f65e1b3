-- ===== src/Leave/JobPlan.antt =====
-- backend/app/jobs/leave.py: the date of a leave job, and the chunks of employees that it works on.
pub mod Cover
use hrus.Base.{
  ℕ, zero, suc, ◌-◌, Bool, not, ◌&&◌, Option, none, some, List, [], ◌∷◌, map, ◌==◌, leb,
  if◌then◌else◌, filter, take, drop, length,
}
use hrus.Errors.{Code, Result, ok, err, rule_violation}
use hrus.Calendar.{Date, on_or_before}
use hrus.Models.CoreHr.{Employee}

-- `params.as_of or today`
abbrev date_of : Option Date → Date → Date
date_of none today = today
date_of (some as_of) today = as_of

-- `_prepare`
unfoldable pub prepare : Option Date → Date → Result Date
prepare params today =
    let as_of = date_of params today in
    if not (on_or_before as_of today) then err (rule_violation Code.as_of_in_future) else ok as_of

-- `ORDER BY id`
unfoldable pub insert_id : ℕ → List ℕ → List ℕ
insert_id n [] = n ∷ []
insert_id n (m ∷ ms) = if leb n m then n ∷ m ∷ ms else m ∷ insert_id n ms

unfoldable pub sort_ids : List ℕ → List ℕ
sort_ids [] = []
sort_ids (n ∷ ns) = insert_id n (sort_ids ns)

abbrev pub is_started : ℕ → Date → Employee → Bool
is_started tenant_id as_of e = e.tenant_id == tenant_id && on_or_before e.hire_date as_of

unfoldable pub started_ids : ℕ → Date → List Employee → List ℕ
started_ids tenant_id as_of employees =
    map (λ (e : Employee). e.id) (filter (is_started tenant_id as_of) employees)

pub record Group : Type 0 where
  pub first_id : ℕ
  pub last_id : ℕ
  pub employees : ℕ

-- `group[-1]` of a group that begins with `n`.
unfoldable pub last_of : ℕ → List ℕ → ℕ
last_of n [] = n
last_of n (m ∷ ms) = last_of m ms

abbrev pub chunk_size : ℕ
chunk_size = 500

abbrev pub group_of : ℕ → List ℕ → Group
group_of n ns = record { first_id = n; last_id = last_of n ns; employees = suc (length ns) }

-- The slices of `size` ids; a group is its first id and at most `size - 1` more.
unfoldable pub groups : ℕ → ℕ → List ℕ → List Group
groups size zero ns = []
groups size (suc fuel) [] = []
groups size (suc fuel) (n ∷ ns) =
    group_of n (take (size - 1) ns) ∷ groups size fuel (drop (size - 1) ns)

-- `_plan`; there are no more groups than ids.
unfoldable pub plan : ℕ → Date → List Employee → List Group
plan tenant_id as_of employees =
    let ids = sort_ids (started_ids tenant_id as_of employees) in groups chunk_size (length ids) ids
