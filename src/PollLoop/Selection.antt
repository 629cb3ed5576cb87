-- ===== src/PollLoop/Selection.antt =====
-- src/watcher/poll_loop.py: which beads are selected.
use orchestrator_state_machi.Prelude.{All, Bool-cases, text_eq_sound, ◌⊎◌, inl, inr, true, false}
use orchestrator_state_machi.Prelude.Int.{◌<ℤ◌, eq_of_parts}
use mathlib.Core.List.{Perm, ◌∷◌}
use orchestrator_state_machi.Prelude.{
  zero, suc, ◌≤◌, true, false, not, ◌&&◌, List, [], ◌++◌, keep, take, drop, take-drop, length,
  length-take, ◌≡◌, refl, sym, subst, ◌⊎◌, text_eq, arith,
}
use orchestrator_state_machi.Prelude.Int.{ℤ, pos, negsuc, ltb_ℤ, leb_ℤ, pos_part}
use orchestrator_state_machi.Prelude.Sort.{
  sort, sort-perm, sort-IsOrdered, IsOrder, IsOrdered, text_before, text_before-IsOrder,
  text_eq-text_before, pair_before, pair_before-IsOrder,
}
use orchestrator_state_machi.PollLoop.{
  BeadSnapshot, is_eligible_queued, int_eq, sort_key, key_before, item_before,
  select_eligible_queued,
}

-- The order of two beads: by priority, then by time, then by id.
abbrev pub Precedes : BeadSnapshot → BeadSnapshot → Type 0
Precedes a b =
    (a.priority <ℤ b.priority)
    ⊎ ((a.priority ≡ b.priority)
        × ((text_before a.updated_at b.updated_at ≡ true)
            ⊎ ((a.updated_at ≡ b.updated_at) × (text_before b.bead_id a.bead_id ≡ false))))

abbrev pub IsSorted : List BeadSnapshot → Type 0
IsSorted [] = Unit
IsSorted (a ∷ items) = All (Precedes a) items × IsSorted items

-- What is selected and the others are the eligible beads, in the order of their keys; the limit is kept,
-- and there are others only if it is reached.
pub record IsSelection (snapshots : List BeadSnapshot) (limit : ℤ) (selected : List BeadSnapshot)
    : Type 0 where
  pub others : List BeadSnapshot
  pub same : Perm (selected ++ others) (keep is_eligible_queued snapshots)
  pub ordered : IsOrdered item_before (selected ++ others)
  pub sorted : IsSorted (selected ++ others)
  pub short : length selected ≤ pos_part limit
  pub full : (others ≡ []) ⊎ (length selected ≡ pos_part limit)

ltb_ℤ-IsOrder : IsOrder ltb_ℤ
ltb_ℤ-IsOrder = record { asym = λ a b h. ground arith; trans = λ a b c h k. ground arith }

int_eq-ltb_ℤ : (a b : ℤ) → int_eq a b ≡ (not (ltb_ℤ a b) && not (ltb_ℤ b a))
int_eq-ltb_ℤ a b = ground arith

key_before-IsOrder : IsOrder key_before
unfolding key_before
key_before-IsOrder =
    pair_before-IsOrder int_eq ltb_ℤ (pair_before text_eq text_before text_before) int_eq-ltb_ℤ
      ltb_ℤ-IsOrder
      (pair_before-IsOrder text_eq text_before text_before text_eq-text_before text_before-IsOrder
        text_before-IsOrder)

item_before-IsOrder : IsOrder item_before
unfolding item_before
item_before-IsOrder = record {
  asym = λ a b. key_before-IsOrder.asym (sort_key a) (sort_key b);
  trans = λ a b c. key_before-IsOrder.trans (sort_key a) (sort_key b) (sort_key c);
}

int_eq_sound : (a b : ℤ) → int_eq a b ≡ true → a ≡ b
int_eq_sound a b h = eq_of_parts a b (ground (arith, h))

not_before-Precedes : (a b : BeadSnapshot) → item_before b a ≡ false → Precedes a b
unfolding item_before key_before
not_before-Precedes a b h = elim (Bool-cases (int_eq b.priority a.priority)) [
  | inr other ↦ let h₁ = rw other at h in inl (ground (arith, h₁, other))
  | inl same ↦
      let priority = sym (int_eq_sound b.priority a.priority same) in
      let h₁ = rw same at h in
      elim (Bool-cases (text_eq b.updated_at a.updated_at)) [
        | inl at_once ↦ inr (
          priority,
          inr (sym (text_eq_sound b.updated_at a.updated_at at_once), rw at_once at h₁),
        )
        | inr apart ↦
            let h₂ = rw apart at h₁ in
            inr (
              priority,
              inl (ground (arith, h₂, apart, text_eq-text_before b.updated_at a.updated_at)),
            )
      ]
]

All-Precedes :
    (a : BeadSnapshot) (items : List BeadSnapshot)
    → All (λ b. item_before b a ≡ false) items
    → All (Precedes a) items
All-Precedes a [] h = tt
All-Precedes a (b ∷ items) (here, below) =
    (not_before-Precedes a b here, All-Precedes a items below)

IsOrdered-IsSorted : (items : List BeadSnapshot) → IsOrdered item_before items → IsSorted items
IsOrdered-IsSorted [] h = tt
IsOrdered-IsSorted (a ∷ items) (here, below) =
    (All-Precedes a items here, IsOrdered-IsSorted items below)

select_eligible_queued-take :
    (snapshots : List BeadSnapshot) (limit : ℤ)
    → select_eligible_queued snapshots limit
      ≡ take (pos_part limit) (sort item_before (keep is_eligible_queued snapshots))
unfolding select_eligible_queued
select_eligible_queued-take snapshots (pos zero) = refl
select_eligible_queued-take snapshots (pos (suc n)) =
    let positive : leb_ℤ (pos (suc n)) (pos 0) ≡ false = ground arith in rw positive refl
select_eligible_queued-take snapshots (negsuc n) =
    let negative : leb_ℤ (negsuc n) (pos 0) ≡ true = ground arith in rw negative refl

take-IsSelection :
    (snapshots : List BeadSnapshot) (limit : ℤ)
    → IsSelection snapshots limit
        (take (pos_part limit) (sort item_before (keep is_eligible_queued snapshots)))
take-IsSelection snapshots limit =
    let sorted = sort item_before (keep is_eligible_queued snapshots) in
    let n = pos_part limit in
    let whole = sym (take-drop n sorted) in
    let in_order =
      subst (IsOrdered item_before) whole
        (sort-IsOrdered item_before item_before-IsOrder (keep is_eligible_queued snapshots)) in
    record {
      others = drop n sorted;
      same =
          subst (λ xs. Perm xs (keep is_eligible_queued snapshots)) whole
            (sort-perm item_before (keep is_eligible_queued snapshots));
      ordered = in_order;
      sorted = IsOrdered-IsSorted _ in_order;
      short = (length-take n sorted).0;
      full = (length-take n sorted).1;
    }

-- The selection is the first of the eligible beads, by priority, time and id, each as often as it was
-- given: no more than the limit, and all of them unless the limit is reached. A limit that is not
-- positive selects none.
pub select_eligible_queued-IsSelection :
    (snapshots : List BeadSnapshot) (limit : ℤ)
    → IsSelection snapshots limit (select_eligible_queued snapshots limit)
select_eligible_queued-IsSelection snapshots limit =
    subst (IsSelection snapshots limit) (sym (select_eligible_queued-take snapshots limit))
      (take-IsSelection snapshots limit)
