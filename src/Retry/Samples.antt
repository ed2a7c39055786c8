-- ===== src/Retry/Samples.antt =====
-- A validation error.
use development_brain.Prelude.{◌≡◌, refl, false}
use development_brain.Prelude.Text.{codes, contains_text, lower, starts_with}
use development_brain.Errors.{PyException, message}
use development_brain.Worker.Failures.{classify_failure, says}
use development_brain.Retry.{RetryKind, classify_retry}
use development_brain.Retry.Agreement.{classify_retry-classify_failure}

abbrev rejected : PyException
rejected = record { type_name = codes "ValidationError"; text = codes "a field is missing" }

not_retried : (classify_failure rejected).1 ≡ false
unfolding classify_failure says contains_text lower message starts_with
not_retried = refl

classify_retry-classify_failure_example :
    ((classify_retry rejected).kind ≡ RetryKind.invalid_input)
    × ((classify_retry rejected).retryable ≡ false)
classify_retry-classify_failure_example = classify_retry-classify_failure rejected not_retried
