-- ===== src/Worker.antt =====
-- brain/workers/loop.py, with brain/domain/command_failure.py and
-- brain/adapters/in_memory/command_failure.py: commands are consumed one at a time, tried up to
-- `max_attempts` times, recorded when they fail, and then acknowledged or dead-lettered.
-- The database session is a parameter: `commit` may raise, `rollback` may not.
pub mod Failures
pub mod Attempts
pub mod Loop
pub mod Run
mod Samples
use development_brain.Prelude.{
  ℕ, zero, suc, ◌+◌, Bool, true, false, ◌||◌, Option, none, some, List, [], ◌∷◌, ◌++◌, leb, ltb,
  if◌then◌else◌,
}
use development_brain.Prelude.Text.{Text, codes, decimal}
use development_brain.Errors.{PyException, Result, ok, err}
use development_brain.Commands.{CommandEnvelope}
use development_brain.Commands.Dispatcher.{CommandDispatcher, Effect, dispatch}
use development_brain.Queue.{InMemoryCommandQueue, enqueue_all, consume, acknowledge, dead_letter}
use Failures.{CommandFailure, failure_of}

-- The SQLAlchemy session of the container.
pub record Session (W : Type 0) : Type 0 where
  pub commit : W → Result Unit × W
  pub rollback : W → W

-- What the loop is built from.
pub record Config (W : Type 0) : Type 0 where
  pub dispatcher : CommandDispatcher W
  pub session : Option (Session W)
  pub max_attempts : ℕ

-- What the loop changes.
pub record State (W : Type 0) : Type 0 where
  pub queue : InMemoryCommandQueue
  pub failures : List CommandFailure
  pub stop : Bool
  pub world : W

-- What the environment does around one pass of the loop: a signal may have called `stop` by the
-- time of the loop's test, and others enqueue commands before `consume` returns.
pub record Tick : Type 0 where
  pub stop_signal : Bool
  pub arrivals : List CommandEnvelope

-- `polling`: the observed schedule ends while the loop still runs.
pub data Outcome : Type 0 where
  returned polling : ℕ → Outcome
  crashed : PyException → Outcome

-- f"failed after {attempt} attempts"
unfoldable pub failed_after : ℕ → Text
failed_after attempt = codes "failed after " ++ (decimal attempt ++ codes " attempts")

-- A pass leaves the loop, or goes on with a count of processed commands.
pub data Pass (W : Type 0) : Type 0 where
  leave : Outcome → State W → Pass W
  again : ℕ → State W → Pass W

module _ {W : Type 0} (cfg : Config W) where
  -- A failure is recorded, and the exception goes on to the caller.
  unfoldable pub process_command : CommandEnvelope → ℕ → State W → Result Bool × State W
  process_command c attempt s =
      let effect = dispatch cfg.dispatcher c s.world in
      let s' = record s { queue = enqueue_all s.queue effect.enqueued; world = effect.world } in
      elim (effect.result) [
        | ok _ ↦ (ok true, s')
        | err exc ↦
            (err exc, record s' { failures = s'.failures ++ (failure_of c attempt exc ∷ []) })
      ]

  unfoldable pub commit_if_needed : State W → Result Unit × State W
  commit_if_needed s = elim cfg.session [
    | none ↦ (ok tt, s)
    | some session ↦
        let (result, world) = session.commit s.world in
        elim result [
          | ok _ ↦ (ok tt, record s { world = world })
          | err exc ↦ (err exc, record s { world = session.rollback world })
        ]
  ]

  -- The inner `while`: `left` bounds the passes, of which there are at most `max_attempts`.
  unfoldable pub try_command : ℕ → ℕ → CommandEnvelope → State W → Bool × State W
  try_command zero attempt c s = (false, s)
  try_command (suc left) attempt c s =
      let (result, s') = process_command c attempt s in
      let rest = try_command left (attempt + 1) c s' in
      if leb attempt cfg.max_attempts
      then elim result [
        | ok _ ↦ (true, s')
        | err exc ↦
            if leb cfg.max_attempts attempt
            then (false, record s' { queue = dead_letter s'.queue c (failed_after attempt) })
            else rest
      ]
      else (false, s)

  -- What follows a success: the commit, whose exception leaves the loop, and the acknowledgement.
  unfoldable pub finish : CommandEnvelope → State W → Result Unit × State W
  finish c s =
      let (result, s') = commit_if_needed s in
      elim result [
        | ok _ ↦ (ok tt, record s' { queue = acknowledge s'.queue c.command_id })
        | err exc ↦ (err exc, s')
      ]

  -- What the loop does with a command that it has consumed.
  unfoldable pub handle : CommandEnvelope → State W → Result Unit × State W
  handle c s =
      let (success, s') = try_command cfg.max_attempts 1 c s in
      if success then finish c s' else (ok tt, s')

  -- `max_commands is not None and processed >= max_commands`
  abbrev pub spent : Option ℕ → ℕ → Bool
  spent none processed = false
  spent (some m) processed = leb m processed

  -- One pass of the outer `while`: its test, its `consume`, and what follows.
  unfoldable pub pass_once : Option ℕ → ℕ → Tick → State W → Pass W
  pass_once max_commands processed t s =
      let s' = record s { stop = s.stop || t.stop_signal } in
      let waited = record s' { queue = enqueue_all s.queue t.arrivals } in
      if s'.stop || spent max_commands processed
      then Pass.leave (Outcome.returned processed) s'
      else elim (consume waited.queue) [
        | none ↦ elim max_commands [
          | none ↦ Pass.again processed waited
          | some _ ↦ Pass.leave (Outcome.returned processed) waited
        ]
        | some (c, q) ↦
            let (result, s'') = handle c (record waited { queue = q }) in
            elim result [
              | ok _ ↦ Pass.again (processed + 1) s''
              | err exc ↦ Pass.leave (Outcome.crashed exc) s''
            ]
      ]

  -- The outer `while`, over the schedule of the environment.
  unfoldable pub run : Option ℕ → ℕ → List Tick → State W → Outcome × State W
  run max_commands processed [] s = (Outcome.polling processed, s)
  run max_commands processed (t ∷ ts) s = elim (pass_once max_commands processed t s) [
    | Pass.leave outcome s' ↦ (outcome, s')
    | Pass.again processed' s' ↦ run max_commands processed' ts s'
  ]
