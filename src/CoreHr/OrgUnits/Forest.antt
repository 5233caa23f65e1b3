-- ===== src/CoreHr/OrgUnits/Forest.antt =====
-- The organisation as a forest: every unit leads to a unit without a parent.
use hrus.Base.{
  ℕ, suc, ◌≡◌, refl, sym, ap, ◌∙◌, ◌⊎◌, Bool, false, ◌&&◌, Option, none, some, List, [], ◌∷◌, ◌++◌,
  arith, ◌==◌, find, update_first, inl, inr,
}
use mathlib.Core.Option
use mathlib.Core.Path.{subst}
use hrus.Models.CoreHr.{OrgUnit}
use hrus.CoreHr.OrgUnits.{is_org_unit}

-- The parent of a unit, if there is such a unit.
abbrev parent_of : Option OrgUnit → Option (Option ℕ)
parent_of none = none
parent_of (some u) = some u.parent_id

unfoldable pub up : List OrgUnit → ℕ → ℕ → Option (Option ℕ)
up units tenant_id id = parent_of (find (is_org_unit tenant_id id) units)

-- The unit `id` stands `depth` steps below a unit without a parent, and each unit on the way exists.
pub data Rooted (units : List OrgUnit) (tenant_id : ℕ) : ℕ → ℕ → Type 0 where
  root : {id : ℕ} → up units tenant_id id ≡ some none → Rooted units tenant_id 0 id
  child :
      {depth id parent : ℕ}
      → up units tenant_id id ≡ some (some parent)
      → Rooted units tenant_id depth parent
      → Rooted units tenant_id (suc depth) id

abbrev pub SomeDepth : List OrgUnit → ℕ → ℕ → Type 0
SomeDepth units tenant_id id = (depth : ℕ) × Rooted units tenant_id depth id

-- No parent is missing, and the parents form no cycle.
abbrev pub IsForest : List OrgUnit → Type 0
IsForest units =
    (tenant_id id : ℕ) (parent : Option ℕ)
    → up units tenant_id id ≡ some parent
    → SomeDepth units tenant_id id

pub find-up :
    (units : List OrgUnit) (t id : ℕ) (parent : Option ℕ)
    → up units t id ≡ some parent
    → (u : OrgUnit) × (find (is_org_unit t id) units ≡ some u) × (u.parent_id ≡ parent)
unfolding up
find-up units t id parent h = by_unit (find (is_org_unit t id) units) refl h
  where
    by_unit :
        (o : Option OrgUnit)
        → find (is_org_unit t id) units ≡ o
        → parent_of o ≡ some parent
        → (u : OrgUnit) × (find (is_org_unit t id) units ≡ some u) × (u.parent_id ≡ parent)
    by_unit none f e = absurd (Option.none-ne-some parent e)
    by_unit (some u) f e = (u, f, Option.some-injective u.parent_id parent e)

module _ (units : List OrgUnit) (t : ℕ) where
  not_both : (id : ℕ) (o o' : Option ℕ) → up units t id ≡ some o → up units t id ≡ some o' → o ≡ o'
  not_both id o o' h h' = Option.some-injective o o' (sym h ∙ h')

  -- A unit stands at one depth.
  pub Rooted-unique : {d id e : ℕ} → Rooted units t d id → Rooted units t e id → d ≡ e
  Rooted-unique {id = id} (Rooted.root h) (Rooted.root h') = refl
  Rooted-unique {id = id} (Rooted.root h) (Rooted.child {parent = p} h' r') =
      absurd (Option.none-ne-some p (not_both id none (some p) h h'))
  Rooted-unique {id = id} (Rooted.child {parent = p} h r) (Rooted.root h') =
      absurd (Option.none-ne-some p (not_both id none (some p) h' h))
  Rooted-unique {id = id} (Rooted.child {parent = p} h r)
        (Rooted.child {depth = e'} {parent = q} h' r') =
      let same : q ≡ p = Option.some-injective q p (not_both id (some q) (some p) h' h) in
      ap (λ (n : ℕ). suc n) (Rooted-unique r (subst (Rooted units t e') same r'))

-- A new table, in which each unit keeps its parent or has a place of its own.
module _ (units units' : List OrgUnit) (t : ℕ)
    (placed : (j : ℕ) → (up units' t j ≡ up units t j) ⊎ SomeDepth units' t j) where
  rebuild : {d id : ℕ} → Rooted units t d id → SomeDepth units' t id
  rebuild {id = id} (Rooted.root h) = elim (placed id) [
    | inl same ↦ (0, Rooted.root (same ∙ h))
    | inr own ↦ own
  ]
  rebuild {id = id} (Rooted.child h r) =
      let above = rebuild r in
      elim (placed id) [ inl same ↦ (suc above.0, Rooted.child (same ∙ h) above.1) | inr own ↦ own ]

pub IsForest-change :
    (units units' : List OrgUnit)
    → ((t j : ℕ) → (up units' t j ≡ up units t j) ⊎ SomeDepth units' t j)
    → IsForest units
    → IsForest units'
IsForest-change units units' placed forest t id parent h = elim (placed t id) [
  | inl same ↦ rebuild units units' t (placed t) (forest t id parent (sym same ∙ h)).1
  | inr own ↦ own
]

-- How a change of one row and a new row change the parents.
pub up-update_kept :
    (p : OrgUnit → Bool) (f : OrgUnit → OrgUnit)
    → ((u : OrgUnit)
        → ((f u).id ≡ u.id) × ((f u).tenant_id ≡ u.tenant_id) × ((f u).parent_id ≡ u.parent_id))
    → (units : List OrgUnit) (t j : ℕ) → up (update_first p f units) t j ≡ up units t j
unfolding up find update_first is_org_unit
up-update_kept p f keep [] t j = refl
up-update_kept p f keep (u ∷ us) t j =
    ground (arith, (keep u).0, (keep u).1, (keep u).2, up-update_kept p f keep us t j)

abbrev pub with_parent : Option ℕ → OrgUnit → OrgUnit
with_parent parent u = record u { parent_id = parent }

pub up-reparent_other :
    (t id : ℕ) (parent : Option ℕ) (units : List OrgUnit) (t' j : ℕ)
    → (t' == t && j == id) ≡ false
    → up (update_first (is_org_unit t id) (with_parent parent) units) t' j ≡ up units t' j
unfolding up find update_first is_org_unit
up-reparent_other t id parent [] t' j h = refl
up-reparent_other t id parent (u ∷ us) t' j h =
    ground (arith, h, up-reparent_other t id parent us t' j h)

pub up-reparent_self :
    (t id : ℕ) (parent : Option ℕ) (units : List OrgUnit) (u : OrgUnit)
    → find (is_org_unit t id) units ≡ some u
    → up (update_first (is_org_unit t id) (with_parent parent) units) t id ≡ some parent
unfolding up find update_first is_org_unit
up-reparent_self t id parent [] u h = ground arith
up-reparent_self t id parent (x ∷ us) u h = ground (arith, up-reparent_self t id parent us u)

pub up-append_found :
    (units : List OrgUnit) (u : OrgUnit) (t j : ℕ) (parent : Option ℕ)
    → up units t j ≡ some parent
    → up (units ++ u ∷ []) t j ≡ some parent
unfolding up find
up-append_found [] u t j parent h = absurd (Option.none-ne-some parent h)
up-append_found (x ∷ us) u t j parent h = ground (arith, up-append_found us u t j parent)
