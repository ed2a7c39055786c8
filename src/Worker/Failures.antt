-- ===== src/Worker/Failures.antt =====
-- brain/domain/command_failure.py, brain/adapters/in_memory/command_failure.py and
-- `classify_failure` of brain/workers/loop.py. The generated id and time of a record, which nothing
-- here reads, are left out.
use development_brain.Prelude.{
  ℕ, ◌-◌, String, Bool, true, false, ◌||◌, Option, some, List, keep, length, drop, ◌==◌, nat_eq,
  if◌then◌else◌,
}
use development_brain.Prelude.Text.{Text, codes, lower, contains_text}
use development_brain.Errors.{PyException, message}
use development_brain.Commands.{CommandEnvelope, value}

pub data CommandFailureCategory : Type 0 where
  transient_provider model_failure execution_failure : CommandFailureCategory
  verification_failure invalid_input internal : CommandFailureCategory

pub record CommandFailure : Type 0 where
  pub command_id : ℕ
  pub command_type : String
  pub attempt : ℕ
  pub category : CommandFailureCategory
  pub message : Text
  pub correlation_id : Option ℕ
  pub retry_eligible : Bool

-- The word stands in the lower-cased message.
unfoldable pub says : PyException → String → Bool
says exc word = contains_text (codes word) (lower (message exc))

unfoldable pub classify_failure : PyException → CommandFailureCategory × Bool
classify_failure exc =
    if says exc "invalid" || says exc "validation"
    then (CommandFailureCategory.invalid_input, false)
    else if says exc "verification"
    then (CommandFailureCategory.verification_failure, true)
    else if says exc "execution"
    then (CommandFailureCategory.execution_failure, true)
    else (CommandFailureCategory.internal, true)

unfoldable pub failure_of : CommandEnvelope → ℕ → PyException → CommandFailure
failure_of c attempt exc = record {
  command_id = c.command_id;
  command_type = value c.command_type;
  attempt = attempt;
  category = (classify_failure exc).0;
  message = message exc;
  correlation_id = some c.correlation_id;
  retry_eligible = (classify_failure exc).1;
}

unfoldable pub list_by_command : List CommandFailure → ℕ → List CommandFailure
list_by_command failures i = keep (λ f. f.command_id == i) failures

-- `failures[-limit:]`; a limit of 0 slices from the start.
unfoldable pub list_recent : List CommandFailure → ℕ → List CommandFailure
list_recent failures limit =
    if limit == 0 then failures else drop (length failures - limit) failures
