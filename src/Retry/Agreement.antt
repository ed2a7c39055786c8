-- ===== src/Retry/Agreement.antt =====
-- The orchestrator's classification and the worker's.
use development_brain.Prelude.{◌≡◌, true, false, ◌||◌, arith}
use development_brain.Prelude.Text.{Text, codes, contains_text, lower}
use development_brain.Errors.{PyException, message}
use development_brain.Worker.Failures.{classify_failure, says}
use development_brain.Retry.{RetryKind, contains_any, classify_text, classify_retry}

classify_text-invalid :
    (text : Text)
    → (contains_text (codes "invalid") text || contains_text (codes "validation") text) ≡ true
    → ((classify_text text).kind ≡ RetryKind.invalid_input)
      × ((classify_text text).retryable ≡ false)
unfolding classify_text contains_any
classify_text-invalid text h = ground (arith, h)

not_eligible :
    (exc : PyException)
    → (classify_failure exc).1 ≡ false
    → (says exc "invalid" || says exc "validation") ≡ true
unfolding classify_failure
not_eligible exc h = ground (arith, h)

-- An exception that the worker records as not eligible for a retry is for the orchestrator invalid
-- input, and not retryable.
pub classify_retry-classify_failure :
    (exc : PyException)
    → (classify_failure exc).1 ≡ false
    → ((classify_retry exc).kind ≡ RetryKind.invalid_input)
      × ((classify_retry exc).retryable ≡ false)
unfolding classify_retry says
classify_retry-classify_failure exc h =
    classify_text-invalid (lower (message exc)) (not_eligible exc h)
