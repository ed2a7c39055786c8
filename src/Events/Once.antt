-- ===== src/Events/Once.antt =====
-- An event with a key that was processed already.
use development_brain.Prelude.{
  ◌≡◌, refl, String, true, Option, none, some, List, [], ◌∷◌, contains, beq_refl, arith, string_eq,
}
use development_brain.Errors.{ok}
use development_brain.Events.{
  EventEnvelope, ProcessOutcome, Processor, process, is_processed, mark_processed, marked,
}

unfoldable pub process_all : {W : Type 0} → List EventEnvelope → Processor W → Processor W
process_all [] p = p
process_all (e ∷ es) p = process_all es (process e p).1

mark_processed-keeps :
    (k j : String) (keys : List String)
    → contains keys k ≡ true
    → contains (mark_processed j keys) k ≡ true
unfolding mark_processed contains
mark_processed-keeps k j keys h = ground (arith, h)

mark_processed-adds : (k : String) (keys : List String) → contains (mark_processed k keys) k ≡ true
unfolding mark_processed contains
mark_processed-adds k keys = ground (arith, beq_refl k)

marked-keeps :
    (k : String) (key : Option String) (keys : List String)
    → contains keys k ≡ true
    → contains (marked key keys) k ≡ true
marked-keeps k none keys h = h
marked-keeps k (some j) keys h = mark_processed-keeps k j keys h

marked-adds :
    (k : String) (key : Option String) (keys : List String)
    → key ≡ some k
    → contains (marked key keys) k ≡ true
marked-adds k key keys e = rw e (mark_processed-adds k keys)

module _ {W : Type 0} where
  process-keeps :
      (k : String) (e : EventEnvelope) (p : Processor W)
      → is_processed k p.idempotency ≡ true
      → is_processed k (process e p).1.idempotency ≡ true
  unfolding process is_processed
  process-keeps k e p h = ground (arith, h, marked-keeps k e.idempotency_key p.idempotency h)

  process-marks :
      (k : String) (e : EventEnvelope) (p : Processor W)
      → e.idempotency_key ≡ some k
      → (process e p).0 ≡ ok ProcessOutcome.processed
      → is_processed k (process e p).1.idempotency ≡ true
  unfolding process is_processed
  process-marks k e p key done =
      ground (arith, key, done, marked-adds k e.idempotency_key p.idempotency key)

  process_all-keeps :
      (k : String) (es : List EventEnvelope) (p : Processor W)
      → is_processed k p.idempotency ≡ true
      → is_processed k (process_all es p).idempotency ≡ true
  unfolding process_all
  process_all-keeps k [] p h = h
  process_all-keeps k (e ∷ es) p h = process_all-keeps k es (process e p).1 (process-keeps k e p h)

  process-skips :
      (k : String) (e : EventEnvelope) (p : Processor W)
      → e.idempotency_key ≡ some k
      → is_processed k p.idempotency ≡ true
      → process e p ≡ (ok ProcessOutcome.skipped_already_processed, p)
  unfolding process
  process-skips k e p key h = rw (key, h) refl

  -- Once an event with a key was processed, and after any further events, processed or failed, every
  -- event with the same key is skipped, and changes nothing: no handler, log or world.
  pub process-once :
      (k : String) (e e' : EventEnvelope) (es : List EventEnvelope) (p : Processor W)
      → e.idempotency_key ≡ some k
      → e'.idempotency_key ≡ some k
      → (process e p).0 ≡ ok ProcessOutcome.processed
      → process e' (process_all es (process e p).1)
        ≡ (ok ProcessOutcome.skipped_already_processed, process_all es (process e p).1)
  process-once k e e' es p key key' done =
      process-skips k e' (process_all es (process e p).1) key'
        (process_all-keeps k es (process e p).1 (process-marks k e p key done))
