-- ===== src/Prelude/Sort.antt =====
-- Python's `list.sort`: a stable sort, and the order of tuples and texts.
use Prim.Native.Char.{code}
use Prim.Native.String.{String}
use mathlib.Core.Path.{◌≡◌, refl, ap₂, subst}
use mathlib.Core.Logic.{inl, inr}
use mathlib.Core.Bool.{Bool, true, false, ◌&&◌, not}
use mathlib.Core.List.{List, [], ◌∷◌, Perm}
use mathlib.Core.List.Perm
use native.Mathlib.Omega.{arith}
use text.Mathlib.TextEquality.{eq_iff, Char-path}
use orchestrator_state_machi.Prelude.Tests.{
  ltb, ◌==◌, if◌then◌else◌, text_eq, text_eq_refl, text_eq_sound, Bool-cases,
}
use orchestrator_state_machi.Prelude.Lists.{All}

module _ {ℓ} {A : Type ℓ} (before : A → A → Bool) where
  unfoldable pub insert_sorted : A → List A → List A
  insert_sorted x [] = x ∷ []
  insert_sorted x (y ∷ ys) =
      let rest = insert_sorted x ys in if before y x then y ∷ rest else x ∷ y ∷ ys

  -- `xs.sort(key=...)`: elements that are not before each other keep their order.
  unfoldable pub sort : List A → List A
  unfolding insert_sorted
  sort [] = []
  sort (x ∷ xs) = insert_sorted x (sort xs)

  insert_sorted-perm : (x : A) (xs : List A) → Perm (insert_sorted x xs) (x ∷ xs)
  unfolding insert_sorted
  insert_sorted-perm x [] = Perm.rfl
  insert_sorted-perm x (y ∷ ys) = elim (Bool-cases (before y x)) [
    | inl later ↦ rw later (Perm.trans (Perm.cons y (insert_sorted-perm x ys)) (Perm.swap x y ys))
    | inr here ↦ rw here Perm.rfl
  ]

  pub sort-perm : (xs : List A) → Perm (sort xs) xs
  unfolding sort
  sort-perm [] = Perm.rfl
  sort-perm (x ∷ xs) = Perm.trans (insert_sorted-perm x (sort xs)) (Perm.cons x (sort-perm xs))

  -- No element stands behind one that it is before.
  abbrev pub IsOrdered : List A → Type ℓ
  IsOrdered [] = Unit
  IsOrdered (x ∷ xs) = All (λ y. before y x ≡ false) xs × IsOrdered xs

-- A strict weak order: the tests of two elements and of three.
pub record IsOrder {ℓ} {A : Type ℓ} (before : A → A → Bool) : Type ℓ where
  pub asym : (a b : A) → before a b ≡ true → before b a ≡ false
  pub trans : (a b c : A) → before b a ≡ false → before c b ≡ false → before c a ≡ false

module _ {ℓ} {A : Type ℓ} (before : A → A → Bool) (order : IsOrder before) where
  not_before-insert_sorted :
      (a x : A) (ys : List A)
      → before x a ≡ false
      → All (λ y. before y a ≡ false) ys
      → All (λ y. before y a ≡ false) (insert_sorted before x ys)
  unfolding insert_sorted
  not_before-insert_sorted a x [] h hs = (h, tt)
  not_before-insert_sorted a x (y ∷ ys) h (k, hs) = elim (Bool-cases (before y x)) [
    | inl later ↦ rw later (k, not_before-insert_sorted a x ys h hs)
    | inr here ↦ rw here (h, (k, hs))
  ]

  not_before_trans :
      (a b : A) (ys : List A)
      → before b a ≡ false
      → All (λ y. before y b ≡ false) ys
      → All (λ y. before y a ≡ false) ys
  not_before_trans a b [] h hs = tt
  not_before_trans a b (y ∷ ys) h (k, hs) = (order.trans a b y h k, not_before_trans a b ys h hs)

  insert_sorted-IsOrdered :
      (x : A) (xs : List A) → IsOrdered before xs → IsOrdered before (insert_sorted before x xs)
  unfolding insert_sorted
  insert_sorted-IsOrdered x [] h = (tt, tt)
  insert_sorted-IsOrdered x (y ∷ ys) (below, h) = elim (Bool-cases (before y x)) [
    | inl later ↦ rw later (
      not_before-insert_sorted y x ys (order.asym y x later) below,
      insert_sorted-IsOrdered x ys h,
    )
    | inr here ↦ rw here ((here, not_before_trans x y ys here below), (below, h))
  ]

  pub sort-IsOrdered : (xs : List A) → IsOrdered before (sort before xs)
  unfolding sort
  sort-IsOrdered [] = tt
  sort-IsOrdered (x ∷ xs) = insert_sorted-IsOrdered x (sort before xs) (sort-IsOrdered xs)

-- `s < t` on texts.
unfoldable pub text_before : String → String → Bool
text_before s String.[] = false
text_before String.[] (String.◌∷◌ d t) = true
text_before (String.◌∷◌ c s) (String.◌∷◌ d t) =
    let rest = text_before s t in if code c == code d then rest else ltb (code c) (code d)

text_before-asym : (s t : String) → text_before s t ≡ true → text_before t s ≡ false
unfolding text_before
text_before-asym s String.[] h = cc
text_before-asym String.[] (String.◌∷◌ d t) h = refl
text_before-asym (String.◌∷◌ c s) (String.◌∷◌ d t) h = ground (arith, text_before-asym s t)

text_before_trans :
    (s t u : String) → text_before t s ≡ false → text_before u t ≡ false → text_before u s ≡ false
unfolding text_before
text_before_trans String.[] t u h k = refl
text_before_trans (String.◌∷◌ c s) String.[] u h k = cc
text_before_trans (String.◌∷◌ c s) (String.◌∷◌ d t) String.[] h k = cc
text_before_trans (String.◌∷◌ c s) (String.◌∷◌ d t) (String.◌∷◌ e u) h k =
    ground (arith, text_before_trans s t u)

pub text_before-IsOrder : IsOrder text_before
text_before-IsOrder = record { asym = text_before-asym; trans = text_before_trans }

-- Texts that are not before each other are equal, for `==` too.
text_before-connected : (s t : String) → text_before s t ≡ false → text_before t s ≡ false → s ≡ t
unfolding text_before
text_before-connected String.[] String.[] h k = refl
text_before-connected String.[] (String.◌∷◌ d t) h k = cc
text_before-connected (String.◌∷◌ c s) String.[] h k = cc
text_before-connected (String.◌∷◌ c s) (String.◌∷◌ d t) h k =
    let same : code c ≡ code d = ground (arith, h, k) in
    let test : (code c == code d) ≡ true = ground (arith, same) in
    let test_back : (code d == code c) ≡ true = ground (arith, same) in
    ap₂ (λ e u. String.◌∷◌ e u) (Char-path c d same)
      (text_before-connected s t (rw test at h) (rw test_back at k))

text_before_irrefl : (s : String) → text_before s s ≡ false
unfolding text_before
text_before_irrefl String.[] = refl
text_before_irrefl (String.◌∷◌ c s) = ground (arith, text_before_irrefl s)

pub text_eq-text_before :
    (s t : String) → text_eq s t ≡ (not (text_before s t) && not (text_before t s))
text_eq-text_before s t = elim (Bool-cases (text_eq s t)) [
  | inl same ↦
      subst (λ u. text_eq s u ≡ (not (text_before s u) && not (text_before u s)))
        (text_eq_sound s t same) (rw (text_eq_refl s, text_before_irrefl s) refl)
  | inr other ↦ elim (Bool-cases (text_before s t)) [
    | inl less ↦ rw (other, less) refl
    | inr not_less ↦ elim (Bool-cases (text_before t s)) [
      | inl more ↦ rw (other, not_less, more) refl
      | inr not_more ↦ absurd (
          ground (
            arith,
            other,
            text_eq_refl s,
            (eq_iff s t).1 (text_before-connected s t not_less not_more),
          ))
    ]
  ]
]

-- Tuples: by the first parts, and by the others where the first are equal.
module _ {ℓ κ} {A : Type ℓ} {B : Type κ} (eq : A → A → Bool) (before : A → A → Bool)
    (then_before : B → B → Bool) where
  abbrev pub pair_before : A × B → A × B → Bool
  pair_before (a, b) (a₁, b₁) = if eq a a₁ then then_before b b₁ else before a a₁

  pub pair_before-IsOrder :
      ((a b : A) → eq a b ≡ (not (before a b) && not (before b a)))
      → IsOrder before
      → IsOrder then_before
      → IsOrder pair_before
  pair_before-IsOrder same first second = record {
    asym = λ x y h. ground (
      arith,
      h,
      same (x.0) (y.0),
      same (y.0) (x.0),
      first.asym (x.0) (y.0),
      second.asym (x.1) (y.1),
    );
    trans = λ x y z h k. ground (
      arith,
      h,
      k,
      same (y.0) (x.0),
      same (z.0) (y.0),
      same (z.0) (x.0),
      first.trans (x.0) (y.0) (z.0),
      first.trans (y.0) (z.0) (x.0),
      first.trans (z.0) (x.0) (y.0),
      second.trans (x.1) (y.1) (z.1),
    );
  }
