-- ===== src/ErrorClassifier/Taxonomy.antt =====
-- src/watcher/error_classifier.py: the taxonomy is closed, and classifying again changes nothing.
use orchestrator_state_machi.Prelude.{
  String, Bool, true, false, ◌≡◌, refl, sym, ap, subst, contains, contains-All, Bool-cases, ok,
  ◌++◌, inl, inr, contains-append, some, ◌||◌, ok_injective,
}
use orchestrator_state_machi.Prelude.Text.{is_blank}
use orchestrator_state_machi.ErrorClassifier.{
  Arg, absent, text, foreign, ErrorClassification, retriable_error_classes,
  non_retriable_error_classes, classify_resolved, classify_text, classify_error, resolve_alias,
  normalize,
}

-- RETRIABLE_ERROR_CLASSES | NON_RETRIABLE_ERROR_CLASSES
abbrev pub is_class : String → Bool
is_class s = contains retriable_error_classes s || contains non_retriable_error_classes s

-- A classification that names a canonical class, and tells truly whether it is retriable.
pub record IsCanonical (c : ErrorClassification) : Type 0 where
  pub listed : is_class c.normalized_error_class ≡ true
  pub retryable_exact : c.retryable ≡ contains retriable_error_classes c.normalized_error_class
  pub fallback : c.known ≡ false → c.normalized_error_class ≡ "unknown_error"

classify_resolved-IsCanonical : (raw s : String) → IsCanonical (classify_resolved raw s)
unfolding classify_resolved
classify_resolved-IsCanonical raw s = elim (Bool-cases (contains retriable_error_classes s)) [
  | inl r ↦ rw r (record { listed = rw r; retryable_exact = sym r; fallback = λ h. cc })
  | inr r ↦ rw r (elim (Bool-cases (contains non_retriable_error_classes s)) [
    | inl n ↦ rw n (record { listed = rw (r, n); retryable_exact = sym r; fallback = λ h. cc })
    | inr n ↦ rw n (record { listed = refl; retryable_exact = refl; fallback = λ h. refl })
  ])
]

classify_text-IsCanonical : (raw : String) → IsCanonical (classify_text raw)
unfolding classify_text
classify_text-IsCanonical raw = elim (Bool-cases (is_blank (normalize raw))) [
  | inl e ↦ rw e (record { listed = refl; retryable_exact = refl; fallback = λ h. refl })
  | inr e ↦ rw e (classify_resolved-IsCanonical raw (resolve_alias (normalize raw)))
]

-- Every classification that `classify_error` returns names one of the twelve canonical classes, is
-- retriable exactly when that class is in RETRIABLE_ERROR_CLASSES, and names `unknown_error` when
-- it is not known.
pub classify_error-IsCanonical :
    (a : Arg) {c : ErrorClassification} → classify_error a ≡ ok c → IsCanonical c
unfolding classify_error
classify_error-IsCanonical absent {c} h =
    subst IsCanonical (ok_injective h)
      (record { listed = refl; retryable_exact = refl; fallback = λ h. refl })
classify_error-IsCanonical (text raw) {c} h =
    subst IsCanonical (ok_injective h) (classify_text-IsCanonical raw)
classify_error-IsCanonical (foreign b) h = cc

-- The classification of a canonical class under its own name.
abbrev pub canonical : String → ErrorClassification
canonical s = record {
  original = some s;
  normalized_error_class = s;
  retryable = contains retriable_error_classes s;
  known = true;
}

-- A canonical class is classified as itself.
pub classify_text-class : (s : String) → is_class s ≡ true → classify_text s ≡ canonical s
unfolding classify_text
classify_text-class s h =
    contains-All (λ t. classify_text t ≡ canonical t)
      (retriable_error_classes ++ non_retriable_error_classes) s
      (
        refl,
        (refl, (refl, (refl, (refl, (refl, (refl, (refl, (refl, (refl, (refl, (refl, tt))))))))))),
      )
      (rw contains-append h)

-- Classifying a class that a classification returned gives the same class again with the same
-- retriability, now as a known one.
pub classify_error_again :
    (a : Arg) {c : ErrorClassification}
    → classify_error a ≡ ok c
    → classify_error (text c.normalized_error_class)
      ≡ ok (record {
        original = some c.normalized_error_class;
        normalized_error_class = c.normalized_error_class;
        retryable = c.retryable;
        known = true;
      })
unfolding classify_error
classify_error_again a {c} h =
    let w = classify_error-IsCanonical a h in
    rw (w.retryable_exact) (ap ok (classify_text-class c.normalized_error_class w.listed))
