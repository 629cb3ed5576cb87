-- ===== src/LabelInvariants/Flags.antt =====
-- src/watcher/label_invariants.py: the state labels of a set by whether it holds each of them, and
-- what the steps of the repair make of them.
use orchestrator_state_machi.Prelude.{
  String, Bool, true, false, ◌&&◌, ◌||◌, List, ◌≡◌, refl, arith, contains, keep, text_eq, ◌==◌,
  eq_iff, Bool-cases, inl, inr, contains-append, length, ap,
}
use mathlib.Core.Path.{fun_ext}
use orchestrator_state_machi.LabelInvariants.{
  add, discard, active_state_labels, primary_state_labels, human_label, not_failed_or_dead, Draft,
  escalate_to_human_required, resolve_multiple, resolve_states, resolve_human, ordered_labels,
}
use orchestrator_state_machi.LabelInvariants.Sets.{
  contains-escalate_to_human_required, contains-add, contains-discard, contains-keep,
  contains-sorted,
}

-- Exactly one state label is there, and needs:human only beside failed or dead.
pub record IsConsistent (labels : List String) : Type 0 where
  pub one_state : length (active_state_labels labels) ≡ 1
  pub human_allowed :
      contains labels human_label ≡ true → not_failed_or_dead (active_state_labels labels) ≡ false

pub contains-ordered_labels :
    (s : List String) (x : String) → contains (ordered_labels s) x ≡ contains s x
unfolding ordered_labels
contains-ordered_labels s x =
    simp (contains-append, contains-keep, contains-sorted) (ground (arith, eq_iff human_label x))

-- The state labels of a set depend on its members alone.
active_state_labels-ordered_labels :
    (s : List String) → active_state_labels (ordered_labels s) ≡ active_state_labels s
unfolding active_state_labels
active_state_labels-ordered_labels s =
    ap (λ p. keep p primary_state_labels) (fun_ext (contains-ordered_labels s))

-- Whether a set holds each of the six labels.
pub record Holds (s : List String) (queued running failed done dead human : Bool) : Type 0 where
  is_queued : contains s "needs:orchestrator" ≡ queued
  is_running : contains s "orchestrator:running" ≡ running
  is_failed : contains s "orchestrator:failed" ≡ failed
  is_done : contains s "orchestrator:done" ≡ done
  is_dead : contains s "orchestrator:dead" ≡ dead
  is_human : contains s "needs:human" ≡ human

-- The state labels of a set with these members.
abbrev pub active_flags : Bool → Bool → Bool → Bool → Bool → List String
active_flags q r f d x =
    keep
      (λ l.
        (text_eq l "needs:orchestrator" && q)
        || (text_eq l "orchestrator:running" && r)
        || (text_eq l "orchestrator:failed" && f)
        || (text_eq l "orchestrator:done" && d)
        || (text_eq l "orchestrator:dead" && x))
      primary_state_labels

module _ {s : List String} {q r f d x h : Bool} (k : Holds s q r f d x h) where
  active-Holds : active_state_labels s ≡ active_flags q r f d x
  unfolding active_state_labels
  active-Holds = rw (k.is_queued, k.is_running, k.is_failed, k.is_done, k.is_dead) (ground arith)

  add_queued-Holds : Holds (add "needs:orchestrator" s) true r f d x h
  add_queued-Holds = record {
    is_queued = rw contains-add;
    is_running = rw contains-add k.is_running;
    is_failed = rw contains-add k.is_failed;
    is_done = rw contains-add k.is_done;
    is_dead = rw contains-add k.is_dead;
    is_human = rw contains-add k.is_human;
  }

  discard_queued-Holds : Holds (discard "needs:orchestrator" s) false r f d x h
  discard_queued-Holds = record {
    is_queued = rw contains-discard (ground arith);
    is_running = rw (contains-discard, k.is_running) (ground arith);
    is_failed = rw (contains-discard, k.is_failed) (ground arith);
    is_done = rw (contains-discard, k.is_done) (ground arith);
    is_dead = rw (contains-discard, k.is_dead) (ground arith);
    is_human = rw (contains-discard, k.is_human) (ground arith);
  }

  discard_failed-Holds : Holds (discard "orchestrator:failed" s) q r false d x h
  discard_failed-Holds = record {
    is_queued = rw (contains-discard, k.is_queued) (ground arith);
    is_running = rw (contains-discard, k.is_running) (ground arith);
    is_failed = rw contains-discard (ground arith);
    is_done = rw (contains-discard, k.is_done) (ground arith);
    is_dead = rw (contains-discard, k.is_dead) (ground arith);
    is_human = rw (contains-discard, k.is_human) (ground arith);
  }

escalate-Holds :
    (s : List String) → Holds (escalate_to_human_required s) false false false false true true
escalate-Holds s = record {
  is_queued = rw contains-escalate_to_human_required (ground arith);
  is_running = rw contains-escalate_to_human_required (ground arith);
  is_failed = rw contains-escalate_to_human_required (ground arith);
  is_done = rw contains-escalate_to_human_required (ground arith);
  is_dead = rw contains-escalate_to_human_required (ground arith);
  is_human = rw contains-escalate_to_human_required (ground arith);
}

-- One state label at most.
abbrev pub one_hot : Bool → Bool → Bool → Bool → Bool → Bool
one_hot q r f d x = length (active_flags q r f d x) == 1

-- A set with one state label, whatever its other labels.
pub record HasOneState (s : List String) : Type 0 where
  queued : Bool
  running : Bool
  failed : Bool
  done : Bool
  dead : Bool
  human : Bool
  holds : Holds s queued running failed done dead human
  one : one_hot queued running failed done dead ≡ true

has_one :
    {s : List String} {q r f d x h : Bool}
    → Holds s q r f d x h
    → one_hot q r f d x ≡ true
    → HasOneState s
has_one {q = q} {r = r} {f = f} {d = d} {x = x} {h = h} k o = record {
  queued = q;
  running = r;
  failed = f;
  done = d;
  dead = x;
  human = h;
  holds = k;
  one = o;
}

resolve_states-flags :
    (s : List String) (q r f d x h : Bool)
    → Holds s q r f d x h
    → HasOneState (resolve_states s (active_flags q r f d x)).label_set
unfolding resolve_states resolve_multiple
resolve_states-flags s false false false false false h k = has_one (add_queued-Holds k) refl
resolve_states-flags s true false false false false h k = has_one k refl
resolve_states-flags s false true false false false h k = has_one k refl
resolve_states-flags s false false true false false h k = has_one k refl
resolve_states-flags s false false false true false h k = has_one k refl
resolve_states-flags s false false false false true h k = has_one k refl
resolve_states-flags s true true false false false h k = has_one (discard_queued-Holds k) refl
resolve_states-flags s false false true false true h k = has_one (discard_failed-Holds k) refl
resolve_states-flags s _ _ _ _ _ h k = has_one (escalate-Holds s) refl

escalate-IsConsistent : (s : List String) → IsConsistent (escalate_to_human_required s)
escalate-IsConsistent s = record {
  one_state = rw (active-Holds (escalate-Holds s));
  human_allowed = λ _. rw (active-Holds (escalate-Holds s));
}

pub resolve_human-IsConsistent :
    (d : Draft) → HasOneState d.label_set → IsConsistent (resolve_human d).label_set
unfolding resolve_human
resolve_human-IsConsistent d w =
    elim (Bool-cases
      (contains d.label_set human_label && not_failed_or_dead (active_state_labels d.label_set))) [
        | inl clash ↦ rw (clash, resolve_human) (escalate-IsConsistent d.label_set)
        | inr fine ↦
            rw (fine, resolve_human)
              (record {
                one_state = rw (active-Holds w.holds) (ground (arith, w.one));
                human_allowed = λ h. ground arith;
              })
      ]

pub resolve_states-HasOneState :
    (s : List String) → HasOneState (resolve_states s (active_state_labels s)).label_set
resolve_states-HasOneState s =
    let k : Holds s (contains s "needs:orchestrator") (contains s "orchestrator:running")
        (contains s "orchestrator:failed") (contains s "orchestrator:done")
        (contains s "orchestrator:dead") (contains s "needs:human") =
      record {
        is_queued = refl;
        is_running = refl;
        is_failed = refl;
        is_done = refl;
        is_dead = refl;
        is_human = refl;
      } in
    rw (active-Holds k) (resolve_states-flags s _ _ _ _ _ _ k)

pub ordered_labels-IsConsistent :
    (s : List String) → IsConsistent s → IsConsistent (ordered_labels s)
ordered_labels-IsConsistent s c = record {
  one_state = rw active_state_labels-ordered_labels c.one_state;
  human_allowed = λ h.
      rw active_state_labels-ordered_labels (c.human_allowed (rw contains-ordered_labels at h));
}
