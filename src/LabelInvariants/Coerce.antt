-- ===== src/LabelInvariants/Coerce.antt =====
-- src/watcher/label_invariants.py: `_coerce_labels`, which reads labels out of texts, lists and
-- objects, and the whole function on such a payload.
use orchestrator_state_machi.Prelude.{String, List, [], ◌∷◌, ◌≡◌, refl, if◌then◌else◌, text_eq}
use orchestrator_state_machi.Prelude.Text.{is_space, is_blank, lower, replace_char}
use orchestrator_state_machi.Prelude.Json.{
  Value, null, bool, int, float, str, list, dict, Items, nil, cons, Fields, end, field,
}
use orchestrator_state_machi.LabelInvariants.{InvariantResult, add, check_label_set}

-- A word put before the others, if there is one.
abbrev pub flush : String × List String → List String
flush (w, ws) = if is_blank w then ws else w ∷ ws

-- `s.split()`: the word that the text starts with, and those that follow.
unfoldable pub split_words : String → String × List String
unfolding is_space
split_words String.[] = (String.[], [])
split_words (String.◌∷◌ c s) =
    let rest = split_words s in
    if is_space c then (String.[], flush rest) else (String.◌∷◌ c rest.0, rest.1)

-- `labels.update(xs)`
abbrev pub update : List String → List String → List String
update labels [] = labels
update labels (x ∷ xs) = update (add x labels) xs

abbrev pub lower_all : List String → List String
lower_all [] = []
lower_all (w ∷ ws) = lower w ∷ lower_all ws

-- The labels of one text: its words, parted by white space or commas, in lower case. (A word has no
-- white space to strip and is never empty.)
unfoldable pub text_labels : String → List String
unfolding split_words replace_char lower add
text_labels s = update [] (lower_all (flush (split_words (replace_char b',' " " s))))

-- `_coerce_labels`; a list stands for tuples and sets too, and an object is read at the keys
-- `labels` and `label`.
unfoldable mutual
  unfolding text_labels

  pub coerce_labels : Value → List String
  coerce_labels null = []
  coerce_labels (bool b) = []
  coerce_labels (int n) = []
  coerce_labels (float x) = []
  coerce_labels (str s) = text_labels s
  coerce_labels (list xs) = coerce_items xs
  coerce_labels (dict d) = update (coerce_entry "labels" d) (coerce_entry "label" d)

  pub coerce_items : Items → List String
  coerce_items nil = []
  coerce_items (cons x xs) = update (coerce_labels x) (coerce_items xs)

  -- `_coerce_labels(d.get(k))`
  pub coerce_entry : String → Fields → List String
  coerce_entry k end = []
  coerce_entry k (field j v d) =
      let here = coerce_labels v in
      let there = coerce_entry k d in if text_eq j k then here else there

-- `validate_and_normalize_labels`
unfoldable pub validate_and_normalize_labels : Value → InvariantResult
unfolding coerce_labels check_label_set
validate_and_normalize_labels labels = check_label_set (coerce_labels labels)

words_test :
    text_labels "Needs:Human,  orchestrator:dead x" ≡ "x" ∷ "orchestrator:dead" ∷ "needs:human" ∷ []
unfolding text_labels
words_test = refl
