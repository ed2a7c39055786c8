-- ===== src/Worker/Run.antt =====
-- The outer loop of the worker over a whole schedule: when it returns, and what it leaves behind.
use development_brain.Prelude.{
  ℕ, ◌+◌, ◌≤◌, ◌<◌, ◌≡◌, refl, ◌∙◌, inl, inr, Bool, true, false, ◌||◌, Option, none, some, List, [],
  ◌∷◌, length, nat_eq, arith, Bool-cases, Option-cases, beq_refl,
}
use development_brain.Prelude.Dict
use development_brain.Errors.{PyException, Result, ok, err}
use development_brain.Commands.{CommandEnvelope}
use development_brain.Queue.{consume, enqueue_all, enqueue_all-eq}
use development_brain.Queue.Custody.{consume-eq-some}
use development_brain.Worker.Loop.{Settled, acknowledged, buried, uncommitted, handle-Settled}
use development_brain.Worker.{Config, State, Tick, Outcome, Pass, spent, pass_once, run}

or_false_right : (a b : Bool) → (a || b) ≡ false → b ≡ false
or_false_right true b h = cc
or_false_right false b h = h

module _ {W : Type 0} (cfg : Config W) where
  -- Nothing is in flight, or the one command whose commit raised.
  abbrev pub Clear : Outcome × State W → Type 0
  Clear (Outcome.crashed exc, s) =
      (c : CommandEnvelope) × (s.queue.inflight ≡ (c.command_id, c) ∷ [])
  Clear (_, s) = s.queue.inflight ≡ []

  -- What one pass guarantees, from a queue with nothing in flight.
  data Passed (max_commands : Option ℕ) (processed : ℕ) : Pass W → Type 0 where
    halted :
        {s : State W}
        → s.queue.inflight ≡ []
        → Passed max_commands processed (Pass.leave (Outcome.returned processed) s)
    lost :
        {s : State W} (exc : PyException) (c : CommandEnvelope)
        → s.queue.inflight ≡ (c.command_id, c) ∷ []
        → Passed max_commands processed (Pass.leave (Outcome.crashed exc) s)
    idle :
        {s : State W}
        → max_commands ≡ none
        → s.queue.inflight ≡ []
        → Passed max_commands processed (Pass.again processed s)
    worked :
        {s : State W}
        → spent cfg max_commands processed ≡ false
        → s.queue.inflight ≡ []
        → Passed max_commands processed (Pass.again (processed + 1) s)

  -- After the command that alone was in flight.
  Settled-Passed :
      (max_commands : Option ℕ) (processed : ℕ) (c : CommandEnvelope) (s : State W)
      {r : Result Unit × State W}
      → spent cfg max_commands processed ≡ false
      → s.queue.inflight ≡ (c.command_id, c) ∷ []
      → Settled cfg c s r
      → Passed max_commands processed (elim (r.0) [
        | ok _ ↦ Pass.again (processed + 1) (r.1)
        | err exc ↦ Pass.leave (Outcome.crashed exc) (r.1)
      ])
  unfolding Dict.remove
  Settled-Passed m n c s room one (acknowledged _ _ _ _ e _) = worked room (e ∙ rw (one, beq_refl))
  Settled-Passed m n c s room one (buried _ _ _ _ e _) = worked room (e ∙ rw (one, beq_refl))
  Settled-Passed m n c s room one (uncommitted exc e _) = lost exc c (e ∙ one)

  idle-Passed :
      (max_commands : Option ℕ) (processed : ℕ) (s : State W)
      → s.queue.inflight ≡ []
      → Passed max_commands processed (elim max_commands [
        | none ↦ Pass.again processed s
        | some _ ↦ Pass.leave (Outcome.returned processed) s
      ])
  idle-Passed none processed s h = idle refl h
  idle-Passed (some m) processed s h = halted h

  pass_once-Passed :
      (max_commands : Option ℕ) (processed : ℕ) (t : Tick) (s : State W)
      → 1 ≤ cfg.max_attempts
      → s.queue.inflight ≡ []
      → Passed max_commands processed (pass_once cfg max_commands processed t s)
  unfolding pass_once Dict.insert
  pass_once-Passed m n t s allowed clear =
      elim (Bool-cases ((s.stop || t.stop_signal) || spent cfg m n)) [
        | inl halt ↦ rw halt (halted clear)
        | inr go ↦ elim (Option-cases (consume (enqueue_all s.queue t.arrivals))) [
          | inl empty ↦ rw (go, empty) (idle-Passed m n _ (rw enqueue_all-eq clear))
          | inr ((c, q), e) ↦
              let (rest, p, q') = consume-eq-some _ e in
              let one : q.inflight ≡ (c.command_id, c) ∷ [] = rw (q', enqueue_all-eq, clear) in
              rw (go, e)
                (Settled-Passed m n c _ (or_false_right _ _ go) one
                  (handle-Settled cfg c _ allowed))
        ]
      ]

  -- The rest of the loop after one pass.
  abbrev after_pass : Option ℕ → List Tick → Pass W → Outcome × State W
  after_pass m ts (Pass.leave outcome s) = (outcome, s)
  after_pass m ts (Pass.again processed s) = run cfg m processed ts s

  after_pass-Clear :
      (m : Option ℕ) (n : ℕ) (ts : List Tick) {p : Pass W}
      → Passed m n p
      → ((n : ℕ) (s : State W) → s.queue.inflight ≡ [] → Clear (run cfg m n ts s))
      → Clear (after_pass m ts p)
  after_pass-Clear m n ts (halted h) rest = h
  after_pass-Clear m n ts (lost exc c h) rest = (c, h)
  after_pass-Clear m n ts (idle {s = s} e h) rest = rest n s h
  after_pass-Clear m n ts (worked {s = s} room h) rest = rest (n + 1) s h

  -- However the handlers, the session, the signals and the other producers behave, a loop that
  -- starts with nothing in flight and allows an attempt has nothing in flight when it has returned
  -- or the schedule ends; where an exception left the loop, exactly one command is in flight.
  pub run-Clear :
      (max_commands : Option ℕ) (processed : ℕ) (ts : List Tick) (s : State W)
      → 1 ≤ cfg.max_attempts
      → s.queue.inflight ≡ []
      → Clear (run cfg max_commands processed ts s)
  unfolding run
  run-Clear m n [] s allowed clear = clear
  run-Clear m n (t ∷ ts) s allowed clear =
      after_pass-Clear m n ts (pass_once-Passed m n t s allowed clear)
        λ n' s' h. run-Clear m n' ts s' allowed h

  -- The loop left, with at most `m` commands processed if it returned.
  abbrev pub Ended : ℕ → Outcome × State W → Type 0
  Ended m (Outcome.polling n, s) = ⊥
  Ended m (Outcome.returned n, s) = n ≤ m
  Ended m (Outcome.crashed exc, s) = Unit

  after_pass-Ended :
      (m n : ℕ) (ts : List Tick) {p : Pass W}
      → Passed (some m) n p
      → n ≤ m
      → ((s : State W)
          → s.queue.inflight ≡ []
          → n + 1 ≤ m
          → Ended m (run cfg (some m) (n + 1) ts s))
      → Ended m (after_pass (some m) ts p)
  after_pass-Ended m n ts (halted h) le rest = le
  after_pass-Ended m n ts (lost exc c h) le rest = tt
  after_pass-Ended m n ts (idle {s = s} e h) le rest = cc
  after_pass-Ended m n ts (worked {s = s} room h) le rest = rest s h (ground arith)

  -- With at least one attempt allowed and nothing in flight at first, a loop with a bound of `m`
  -- commands leaves within `m + 1` passes, and has processed at most `m` commands if it returned.
  pub run-Ended :
      (m processed : ℕ) (ts : List Tick) (s : State W)
      → 1 ≤ cfg.max_attempts
      → s.queue.inflight ≡ []
      → processed ≤ m
      → m < processed + length ts
      → Ended m (run cfg (some m) processed ts s)
  unfolding run
  run-Ended m n [] s allowed clear le enough = absurd (omega arith)
  run-Ended m n (t ∷ ts) s allowed clear le enough =
      after_pass-Ended m n ts (pass_once-Passed (some m) n t s allowed clear) le
        λ s' h more. run-Ended m (n + 1) ts s' allowed h more (omega arith)
