-- ===== src/Events/Samples.antt =====
-- A webhook that is delivered twice to a handler that counts.
use development_brain.Prelude.{ℕ, ◌+◌, ◌≡◌, refl, none, some, [], ◌∷◌, string_eq, contains}
use development_brain.Prelude.Dict
use development_brain.Errors.{ok}
use development_brain.Events.{
  EventEnvelope, EventHandler, ProcessOutcome, Processor, handle_all, publish, is_processed,
  process,
}
use development_brain.Events.Once.{process_all, process-once}

abbrev counter : EventHandler ℕ
counter = record { identity = 1; handle = λ event n. (ok tt, n + 1) }

abbrev webhook : ℕ → EventEnvelope
webhook i = record {
  event_id = i;
  event_type = "document_changed";
  correlation_id = 3;
  idempotency_key = some "hook-17";
}

abbrev internal : EventEnvelope
internal = record {
  event_id = 9;
  event_type = "document_changed";
  correlation_id = 3;
  idempotency_key = none;
}

abbrev fresh : Processor ℕ
fresh = record {
  bus = record { handlers = ("document_changed", counter ∷ []) ∷ []; published = [] };
  idempotency = [];
  event_log = [];
  world = 0;
}

done : (process (webhook 1) fresh).0 ≡ ok ProcessOutcome.processed
unfolding process publish handle_all Dict.get is_processed contains
done = refl

process-once_example :
    process (webhook 2) (process_all (internal ∷ []) (process (webhook 1) fresh).1) ≡ (
      ok ProcessOutcome.skipped_already_processed,
      process_all (internal ∷ []) (process (webhook 1) fresh).1,
    )
process-once_example =
    process-once "hook-17" (webhook 1) (webhook 2) (internal ∷ []) fresh refl refl done
