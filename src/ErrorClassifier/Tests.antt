-- ===== src/ErrorClassifier/Tests.antt =====
-- Runs and instances for the error classifier.
use orchestrator_state_machi.Prelude.{◌≡◌, refl, true, some, ok, raise}
use orchestrator_state_machi.ErrorClassifier.{
  text, foreign, ErrorClassification, normalize, classify_error, not_a_string_or_none,
}
use orchestrator_state_machi.ErrorClassifier.Taxonomy.{IsCanonical, classify_error-IsCanonical}

abbrev rate_limited : ErrorClassification
rate_limited = record {
  original = some " Rate-Limit ";
  normalized_error_class = "rate_limited";
  retryable = true;
  known = true;
}

alias : classify_error (text " Rate-Limit ") ≡ ok rate_limited
unfolding classify_error
alias = refl

spelling : normalize "  Timed  Out!! " ≡ "timed_out"
unfolding normalize
spelling = refl

not_text : classify_error (foreign true) ≡ raise not_a_string_or_none
unfolding classify_error
not_text = refl

classify_error-IsCanonical_example : IsCanonical rate_limited
classify_error-IsCanonical_example = classify_error-IsCanonical (text " Rate-Limit ") alias
