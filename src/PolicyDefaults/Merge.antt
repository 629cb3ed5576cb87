-- ===== src/PolicyDefaults/Merge.antt =====
-- src/watcher/policy_defaults.py: a merged policy has the shape of the defaults, and merging it again
-- changes nothing.
use orchestrator_state_machi.Prelude.{
  String, false, Option, none, some, [], ◌≡◌, refl, ap, sym, arith, eq_iff, text_eq_refl, subst,
}
use orchestrator_state_machi.Prelude.Json.{
  Value, null, bool, int, float, str, list, dict, Fields, end, field, get, has_key,
}
use orchestrator_state_machi.PolicyDefaults.{
  join_path, unknown_paths, Override, object, no_object, as_object, is_null, Merged, merge_leaf,
  merge_node, merge_entries, merge_override, merge_given,
}

-- Defaults with no null among them, and each key once.
abbrev mutual
  pub IsComplete : Value → Type 0
  IsComplete null = ⊥
  IsComplete (dict d) = HasOnce d
  IsComplete _ = Unit

  pub HasOnce : Fields → Type 0
  HasOnce end = Unit
  HasOnce (field k v d) = (get k d ≡ none) × IsComplete v × HasOnce d

-- A value with the keys of the defaults, in their order, and no null at their leaves.
abbrev mutual
  pub Shaped : Value → Value → Type 0
  Shaped (dict ds) (dict ms) = ShapedAs ds ms
  Shaped (dict ds) _ = ⊥
  Shaped _ m = is_null m ≡ false

  pub ShapedAs : Fields → Fields → Type 0
  ShapedAs end end = Unit
  ShapedAs (field k v ds) (field j w ms) = (k ≡ j) × Shaped v w × ShapedAs ds ms
  ShapedAs _ _ = ⊥

mutual
  Shaped-refl : (v : Value) → IsComplete v → Shaped v v
  Shaped-refl null c = absurd c
  Shaped-refl (dict d) c = ShapedAs-refl d c
  Shaped-refl (bool b) c = refl
  Shaped-refl (int b) c = refl
  Shaped-refl (float b) c = refl
  Shaped-refl (str b) c = refl
  Shaped-refl (list b) c = refl

  ShapedAs-refl : (d : Fields) → HasOnce d → ShapedAs d d
  ShapedAs-refl end c = tt
  ShapedAs-refl (field k v d) c = (refl, Shaped-refl v c.1, ShapedAs-refl d c.2)

leaf-Shaped :
    (v o : Value) (path : String) → is_null v ≡ false → is_null (merge_leaf v o path).merged ≡ false
leaf-Shaped v o path h = ground (arith, h)

override-Shaped :
    (ds : Fields) (x : Override) (path : String) (merge : Fields → Merged Fields)
    → HasOnce ds
    → ((d : Fields) → ShapedAs ds (merge d).merged)
    → Shaped (dict ds) (merge_override ds x path merge).merged
override-Shaped ds no_object path merge c h = ShapedAs-refl ds c
override-Shaped ds (object d) path merge c h = h d

given-Shaped :
    (v : Value) (o : Option Value) (path : String) (merge : Value → Merged Value)
    → IsComplete v
    → ((w : Value) → Shaped v (merge w).merged)
    → Shaped v (merge_given v o path merge).merged
given-Shaped v none path merge c h = Shaped-refl v c
given-Shaped v (some w) path merge c h = h w

mutual
  unfolding merge_node

  pub merge_node-Shaped :
      (v o : Value) (path : String) → IsComplete v → Shaped v (merge_node v o path).merged
  merge_node-Shaped null o path c = absurd c
  merge_node-Shaped (dict ds) o path c =
      override-Shaped ds (as_object o) path (λ d. merge_entries ds d path) c
        (λ d. merge_entries-ShapedAs ds d path c)
  merge_node-Shaped (bool b) o path c = leaf-Shaped (bool b) o path refl
  merge_node-Shaped (int b) o path c = leaf-Shaped (int b) o path refl
  merge_node-Shaped (float b) o path c = leaf-Shaped (float b) o path refl
  merge_node-Shaped (str b) o path c = leaf-Shaped (str b) o path refl
  merge_node-Shaped (list b) o path c = leaf-Shaped (list b) o path refl

  merge_entries-ShapedAs :
      (ds o : Fields) (path : String) → HasOnce ds → ShapedAs ds (merge_entries ds o path).merged
  merge_entries-ShapedAs end o path c = tt
  merge_entries-ShapedAs (field k v ds) o path c = (
    refl,
    given-Shaped v (get k o) (join_path path k) (λ w. merge_node v w (join_path path k)) c.1
        (λ w. merge_node-Shaped v w (join_path path k) c.1),
    merge_entries-ShapedAs ds o path c.2,
  )

-- A merge that changes nothing.
abbrev pub unchanged : {A : Type 0} → A → Merged A
unchanged a = record { merged = a; merge_errors = []; defaults_applied = [] }

-- The entries of the one object stand in the other.
abbrev AreIn : Fields → Fields → Type 0
AreIn end m = Unit
AreIn (field j w ms) m = (get j m ≡ some w) × AreIn ms m

-- A key that the defaults have not, the merged object has not.
get-ShapedAs : (k : String) (ds ms : Fields) → ShapedAs ds ms → get k ds ≡ none → get k ms ≡ none
unfolding get
get-ShapedAs k end end s h = refl
get-ShapedAs k end (field j w ms) s h = absurd s
get-ShapedAs k (field i v ds) end s h = absurd s
get-ShapedAs k (field i v ds) (field j w ms) s h = ground (arith, h, s.0, get-ShapedAs k ds ms s.2)

unknown_paths-ShapedAs :
    (ds ms all : Fields) (path : String)
    → ShapedAs ds ms
    → AreIn ds all
    → unknown_paths ms all path ≡ []
unfolding unknown_paths
unknown_paths-ShapedAs end end all path s a = refl
unknown_paths-ShapedAs end (field j w ms) all path s a = absurd s
unknown_paths-ShapedAs (field k v ds) end all path s a = absurd s
unknown_paths-ShapedAs (field k v ds) (field j w ms) all path s a =
    rw (subst (λ i. get i all ≡ some v) s.0 a.0, has_key)
      (unknown_paths-ShapedAs ds ms all path s.2 a.1)

AreIn-field :
    (ms m : Fields) (k : String) (w : Value) → get k ms ≡ none → AreIn ms m → AreIn ms (field k w m)
unfolding get
AreIn-field end m k w h a = tt
AreIn-field (field j v ms) m k w h a =
    (ground (arith, h, a.0, eq_iff k j, eq_iff j k), AreIn-field ms m k w (ground (arith, h)) a.1)

AreIn-self : (ds ms : Fields) → HasOnce ds → ShapedAs ds ms → AreIn ms ms
unfolding get
AreIn-self end end c s = tt
AreIn-self end (field j w ms) c s = absurd s
AreIn-self (field k v ds) end c s = absurd s
AreIn-self (field k v ds) (field j w ms) c s = (
  rw text_eq_refl,
  AreIn-field ms ms j w (subst (λ i. get i ms ≡ none) s.0 (get-ShapedAs k ds ms s.2 c.0))
      (AreIn-self ds ms c.2 s.2),
)

leaf_again : (v m : Value) (path : String) → is_null m ≡ false → merge_leaf v m path ≡ unchanged m
leaf_again v m path h = rw h

mutual
  unfolding merge_node

  pub merge_node-again :
      (v m : Value) (path : String) → IsComplete v → Shaped v m → merge_node v m path ≡ unchanged m
  merge_node-again null m path c s = absurd c
  merge_node-again (dict ds) (dict ms) path c s = rw (
    merge_entries-again ds ms ms path c s (AreIn-self ds ms c s),
    unknown_paths-ShapedAs ds ms ds path s (AreIn-self ds ds c (ShapedAs-refl ds c)),
  )
  merge_node-again (dict ds) _ path c s = absurd s
  merge_node-again (bool b) m path c s = leaf_again (bool b) m path s
  merge_node-again (int b) m path c s = leaf_again (int b) m path s
  merge_node-again (float b) m path c s = leaf_again (float b) m path s
  merge_node-again (str b) m path c s = leaf_again (str b) m path s
  merge_node-again (list b) m path c s = leaf_again (list b) m path s

  merge_entries-again :
      (ds ms all : Fields) (path : String)
      → HasOnce ds
      → ShapedAs ds ms
      → AreIn ms all
      → merge_entries ds all path ≡ unchanged ms
  merge_entries-again end end all path c s a = refl
  merge_entries-again end (field j w ms) all path c s a = absurd s
  merge_entries-again (field k v ds) end all path c s a = absurd s
  merge_entries-again (field k v ds) (field j w ms) all path c s a =
      rw
        (
          subst (λ i. get i all ≡ some w) (sym s.0) a.0,
          merge_node-again v w (join_path path k) c.1 s.1,
          merge_entries-again ds ms all path c.2 s.2 a.1,
        )
        (ap (λ i. unchanged (field i w ms)) s.0)
