-- ===== src/Retry.antt =====
-- brain/orchestration/retry.py: what kind of failure an exception of an orchestrator's node is, and
-- whether and how often it is tried again.
pub mod Agreement
mod Samples
use development_brain.Prelude.{ℕ, String, Bool, true, false, ◌||◌, List, [], ◌∷◌, if◌then◌else◌}
use development_brain.Prelude.Text.{Text, codes, lower, contains_text}
use development_brain.Errors.{PyException, message}

pub data RetryKind : Type 0 where
  transient_provider model_failure execution_failure : RetryKind
  verification_failure human_decision_required invalid_input : RetryKind

pub record RetryClassification : Type 0 where
  pub kind : RetryKind
  pub retryable : Bool
  pub max_attempts : ℕ

-- `_contains`: some needle stands in the message.
unfoldable pub contains_any : Text → List String → Bool
contains_any text [] = false
contains_any text (needle ∷ needles) =
    contains_text (codes needle) text || contains_any text needles

unfoldable pub classify_text : Text → RetryClassification
classify_text text =
    if contains_any text ("invalid" ∷ "validation" ∷ "not found" ∷ "no executor" ∷ [])
    then record { kind = RetryKind.invalid_input; retryable = false; max_attempts = 1 }
    else if contains_any text ("human" ∷ "approval" ∷ "clarification" ∷ [])
    then record { kind = RetryKind.human_decision_required; retryable = false; max_attempts = 1 }
    else if contains_any text ("verification" ∷ "verify" ∷ [])
    then record { kind = RetryKind.verification_failure; retryable = true; max_attempts = 3 }
    else if contains_any text ("execution" ∷ "executor" ∷ [])
    then record { kind = RetryKind.execution_failure; retryable = true; max_attempts = 3 }
    else if contains_any text
        ("timeout" ∷ "unavailable" ∷ "connection" ∷ "transient" ∷ "retry" ∷ [])
    then record { kind = RetryKind.transient_provider; retryable = true; max_attempts = 5 }
    else if contains_any text ("model" ∷ "llm" ∷ "token" ∷ "context window" ∷ [])
    then record { kind = RetryKind.model_failure; retryable = true; max_attempts = 3 }
    else record { kind = RetryKind.execution_failure; retryable = true; max_attempts = 3 }

unfoldable pub classify_retry : PyException → RetryClassification
classify_retry exc = classify_text (lower (message exc))
