-- ===== src/LabelInvariants/Sets.antt =====
-- Membership in the label sets that src/watcher/label_invariants.py builds.
use orchestrator_state_machi.Prelude.{
  String, Bool, ◌&&◌, ◌||◌, not, List, [], ◌∷◌, ◌≡◌, refl, arith, contains, keep, text_eq, eq_iff,
}
use orchestrator_state_machi.LabelInvariants.{
  discard_all, escalate_to_human_required, human_label, primary_state_labels, add, discard,
  insert_sorted, sorted,
}

pub contains-add :
    (x y : String) (s : List String) → contains (add x s) y ≡ (text_eq x y || contains s y)
unfolding add
contains-add x y s = ground (arith, eq_iff x y)

pub contains-discard :
    (x y : String) (s : List String)
    → contains (discard x s) y ≡ (contains s y && not (text_eq x y))
unfolding discard
contains-discard x y [] = refl
contains-discard x y (z ∷ s) =
    ground (arith, eq_iff x y, eq_iff x z, eq_iff z y, contains-discard x y s)

contains-insert_sorted :
    (x y : String) (s : List String)
    → contains (insert_sorted x s) y ≡ (text_eq x y || contains s y)
unfolding insert_sorted
contains-insert_sorted x y [] = refl
contains-insert_sorted x y (z ∷ s) = ground (arith, contains-insert_sorted x y s)

pub contains-sorted : (y : String) (s : List String) → contains (sorted s) y ≡ contains s y
unfolding sorted
contains-sorted y [] = refl
contains-sorted y (x ∷ s) = rw (contains-insert_sorted x y (sorted s), contains-sorted y s)

pub contains-keep :
    (p : String → Bool) (y : String) (s : List String)
    → contains (keep p s) y ≡ (contains s y && p y)
contains-keep p y [] = refl
contains-keep p y (x ∷ s) = ground (arith, eq_iff x y, contains-keep p y s)

contains-discard_all :
    (xs : List String) (y : String) (s : List String)
    → contains (discard_all xs s) y ≡ (contains s y && not (contains xs y))
contains-discard_all [] y s = ground arith
contains-discard_all (x ∷ xs) y s =
    rw (contains-discard_all xs y (discard x s), contains-discard x y s) (ground arith)

-- An escalated set holds the two labels of an escalation, and of the others those of no state.
pub contains-escalate_to_human_required :
    (y : String) (s : List String)
    → contains (escalate_to_human_required s) y ≡ (
        text_eq human_label y
        || text_eq "orchestrator:dead" y
        || (contains s y && not (contains primary_state_labels y)))
unfolding escalate_to_human_required
contains-escalate_to_human_required y s =
    rw (contains-add, contains-add, contains-discard, contains-discard_all) (ground arith)
