-- ===== src/CoreHr/OrgUnits/Reparent.antt =====
-- Creating and changing units keeps the organisation a forest.
use hrus.Base.{
  ℕ, zero, suc, ◌≡◌, refl, sym, ◌∙◌, ◌≢◌, ◌≤◌, ◌<◌, ◌⊎◌, true, false, ◌&&◌, Option, none, some,
  List, [], ◌∷◌, ◌++◌, arith, ◌==◌, if◌then◌else◌, find, any, filter, length, update_first,
  Bool-cases, inl, inr, find-holds,
}
use mathlib.Core.Path.{subst, subst₂}
use hrus.Models.CoreHr.{OrgUnit}
use hrus.CoreHr.OrgUnits.{is_org_unit}
use hrus.CoreHr.OrgUnits.Forest.{
  up, Rooted, SomeDepth, IsForest, find-up, Rooted-unique, IsForest-change, with_parent,
  up-reparent_other, up-reparent_self, up-append_found,
}
use hrus.CoreHr.OrgUnits.Services.{onward, without, walk, ancestors}

is_org_unit-ids :
    (t id : ℕ) (u : OrgUnit) → is_org_unit t id u ≡ true → (u.tenant_id ≡ t) × (u.id ≡ id)
unfolding is_org_unit
is_org_unit-ids t id u h = ground arith

find-without :
    (t id j : ℕ) (units : List OrgUnit)
    → j ≢ id
    → find (is_org_unit t j) (without t id units) ≡ find (is_org_unit t j) units
unfolding find filter is_org_unit
find-without t id j [] h = refl
find-without t id j (u ∷ us) h = ground (arith, h, find-without t id j us h)

length-without : (t id : ℕ) (units : List OrgUnit) → length (without t id units) ≤ length units
unfolding filter
length-without t id [] = omega arith
length-without t id (u ∷ us) = ground (arith, length-without t id us)

fewer-without :
    (t id : ℕ) (units : List OrgUnit) (u : OrgUnit)
    → find (is_org_unit t id) units ≡ some u
    → length (without t id units) < length units
unfolding find filter
fewer-without t id [] u h = ground arith
fewer-without t id (x ∷ us) u h = ground (arith, length-without t id us, fewer-without t id us u)

-- A unit `moved` that the walk does not meet.
module _ (units units' : List OrgUnit) (t moved : ℕ)
    (kept : (j : ℕ) → (j == moved) ≡ false → up units' t j ≡ up units t j) where
  clear-parts :
      (fuel id : ℕ) (sub : List OrgUnit) (u : OrgUnit)
      → find (is_org_unit t id) sub ≡ some u
      → any (λ a. moved == a) (walk (suc fuel) t sub id) ≡ false
      → ((moved == u.id) ≡ false)
        × (any (λ a. moved == a) (onward (walk fuel t (without t id sub)) u.parent_id) ≡ false)
  unfolding walk any
  clear-parts fuel id sub u f c = let e = rw f at c in (ground (arith, e), ground (arith, e))

  apart :
      (id : ℕ) (u : OrgUnit)
      → find (is_org_unit t id) units ≡ some u
      → (moved == u.id) ≡ false
      → up units' t id ≡ up units t id
  apart id u f c =
      let ids = is_org_unit-ids t id u (find-holds (is_org_unit t id) units u f) in
      kept id (ground (arith, ids.1, c))

  -- The walk meets each unit above `id`, so all of these keep their places.
  walk-Rooted :
      (fuel : ℕ) (sub : List OrgUnit) {d id : ℕ}
      → Rooted units t d id
      → ((j e : ℕ)
          → Rooted units t e j
          → e ≤ d
          → find (is_org_unit t j) sub ≡ find (is_org_unit t j) units)
      → length sub < fuel
      → any (λ a. moved == a) (walk fuel t sub id) ≡ false
      → Rooted units' t d id
  walk-Rooted zero sub r seen enough clear = absurd (omega arith)
  walk-Rooted (suc fuel) sub {id = id} (Rooted.root h) seen enough clear =
      let (u, f, p) = find-up units t id none h in
      let c = clear-parts fuel id sub u (seen id 0 (Rooted.root h) (omega arith) ∙ f) clear in
      Rooted.root (apart id u f c.0 ∙ h)
  walk-Rooted (suc fuel) sub {id = id} (Rooted.child {depth = d} {parent = parent} h r) seen enough
        clear =
      let (u, f, p) = find-up units t id (some parent) h in
      let here = seen id (suc d) (Rooted.child h r) (omega arith) ∙ f in
      let c = clear-parts fuel id sub u here clear in
      let fewer = fewer-without t id sub u here in
      let other : (j e : ℕ) → Rooted units t e j → e ≤ d → j ≢ id = λ j e r' low same. absurd (
        omega (
          arith,
          low,
          Rooted-unique units t (subst (Rooted units t e) same r') (Rooted.child h r),
        )) in
      Rooted.child (apart id u f c.0 ∙ h) (
        walk-Rooted fuel (without t id sub) r
          (λ j e r' low.
            find-without t id j sub (other j e r' low) ∙ seen j e r' (omega (arith, low)))
          (omega (arith, fewer, enough))
          (subst
            (λ (o : Option ℕ).
              any (λ a. moved == a) (onward (walk fuel t (without t id sub)) o) ≡ false)
            p c.1))

-- A unit under a unit that it is not above.
module _ (t moved parent : ℕ) (units : List OrgUnit) where
  abbrev moved_to : Option ℕ → List OrgUnit
  moved_to p = update_first (is_org_unit t moved) (with_parent p) units

  placed_by :
      (p : Option ℕ) → SomeDepth (moved_to p) t moved → IsForest units → IsForest (moved_to p)
  placed_by p own = IsForest-change units (moved_to p) λ t' j.
      elim (Bool-cases (t' == t && j == moved)) [
        | inl here ↦
            inr (subst₂ (SomeDepth (moved_to p)) (ground (arith, here)) (ground (arith, here)) own)
        | inr there ↦ inl (up-reparent_other t moved p units t' j there)
      ]

  module _ (u : OrgUnit) (found : find (is_org_unit t moved) units ≡ some u) where
    pub root-IsForest : IsForest units → IsForest (moved_to none)
    root-IsForest = placed_by none (0, Rooted.root (up-reparent_self t moved none units u found))

    pub reparent-IsForest :
        (o : Option ℕ)
        → up units t parent ≡ some o
        → any (λ a. moved == a) (ancestors t units parent) ≡ false
        → IsForest units
        → IsForest (moved_to (some parent))
    unfolding ancestors
    reparent-IsForest o h clear forest =
        let (d, r) = forest t parent o h in
        placed_by (some parent)
          (
            suc d,
            Rooted.child (up-reparent_self t moved (some parent) units u found) (
                walk-Rooted units (moved_to (some parent)) t moved
                  (λ j other.
                    up-reparent_other t moved (some parent) units t j (ground (arith, other)))
                  (suc (length units)) units r (λ j e r' low. refl) (omega arith) clear),
          )
          forest

-- A new unit under a unit that exists.
module _ (units : List OrgUnit) (u : OrgUnit) where
  Rooted-append : (t : ℕ) {d id : ℕ} → Rooted units t d id → Rooted (units ++ u ∷ []) t d id
  Rooted-append t {id = id} (Rooted.root h) = Rooted.root (up-append_found units u t id none h)
  Rooted-append t {id = id} (Rooted.child {parent = p} h r) =
      Rooted.child (up-append_found units u t id (some p) h) (Rooted-append t r)

  up-append_none :
      (us : List OrgUnit) (t j : ℕ)
      → up us t j ≡ none
      → up (us ++ u ∷ []) t j ≡ (if is_org_unit t j u then some u.parent_id else none)
  unfolding up find
  up-append_none [] t j h = ground arith
  up-append_none (x ∷ us) t j h = ground (arith, up-append_none us t j)

  new_place :
      (t j : ℕ) (p : Option ℕ)
      → up (units ++ u ∷ []) t j ≡ some p
      → ((q : ℕ) → p ≡ some q → SomeDepth units t q)
      → SomeDepth (units ++ u ∷ []) t j
  new_place t j none h above = (0, Rooted.root h)
  new_place t j (some q) h above =
      let (d, r) = above q refl in (suc d, Rooted.child h (Rooted-append t r))

  pub append-IsForest :
      ((q : ℕ) → u.parent_id ≡ some q → SomeDepth units u.tenant_id q)
      → IsForest units
      → IsForest (units ++ u ∷ [])
  append-IsForest above =
      IsForest-change units (units ++ u ∷ []) λ t j. placed t j (up units t j) refl
    where
      placed :
          (t j : ℕ) (o : Option (Option ℕ))
          → up units t j ≡ o
          → (up (units ++ u ∷ []) t j ≡ up units t j) ⊎ SomeDepth (units ++ u ∷ []) t j
      placed t j (some p) h = inl (up-append_found units u t j p h ∙ sym h)
      placed t j none h = elim (Bool-cases (is_org_unit t j u)) [
        | inl new ↦ inr (
            new_place t j u.parent_id (up-append_none units t j h ∙ rw new refl) (
              subst (λ i. (q : ℕ) → u.parent_id ≡ some q → SomeDepth units i q)
                (is_org_unit-ids t j u new).0 above))
        | inr old ↦ inl (up-append_none units t j h ∙ rw old (sym h))
      ]
