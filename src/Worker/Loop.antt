-- ===== src/Worker/Loop.antt =====
-- The outer loop of the worker: what becomes of each command that is consumed, when the loop
-- returns, and in which order commands are taken.
use development_brain.Prelude.{
  ◌≤◌, ◌<◌, ◌≡◌, refl, ◌∙◌, inl, inr, Bool, List, [], ◌∷◌, ◌++◌, length, nat_eq, arith,
  if◌then◌else◌,
}
use development_brain.Prelude.Dict
use development_brain.Errors.{PyException, Result, ok, err, Result-cases}
use development_brain.Commands.{CommandEnvelope}
use development_brain.Queue.{dead_letter, acknowledge}
use development_brain.Worker.Failures.{CommandFailure}
use development_brain.Worker.Attempts.{
  Numbered, Progress, Tried, succeeded, gave_up, try_command-Tried,
}
use development_brain.Worker.{Config, State, commit_if_needed, finish, handle, failed_after}

module _ {W : Type 0} (cfg : Config W) (c : CommandEnvelope) where
  -- What becomes of a command that the loop has consumed.
  pub data Settled (s : State W) : Result Unit × State W → Type 0 where
    acknowledged :
        {s' : State W} (fails : List CommandFailure)
        → Numbered c 1 fails
        → length fails < cfg.max_attempts
        → s'.failures ≡ s.failures ++ fails
        → s'.queue.inflight ≡ Dict.remove s.queue.inflight c.command_id
        → s'.queue.dead ≡ s.queue.dead
        → Settled s (ok tt, s')
    buried :
        {s' : State W} (fails : List CommandFailure)
        → Numbered c 1 fails
        → length fails ≡ cfg.max_attempts
        → s'.failures ≡ s.failures ++ fails
        → s'.queue.inflight ≡ Dict.remove s.queue.inflight c.command_id
        → s'.queue.dead ≡ s.queue.dead ++ ((c, failed_after cfg.max_attempts) ∷ [])
        → Settled s (ok tt, s')
    uncommitted :
        {s' : State W} (exc : PyException)
        → s'.queue.inflight ≡ s.queue.inflight
        → s'.queue.dead ≡ s.queue.dead
        → Settled s (err exc, s')

  -- A commit changes nothing but the world.
  commit_if_needed-queue :
      (s : State W)
      → ((commit_if_needed cfg s).1.queue ≡ s.queue)
        × ((commit_if_needed cfg s).1.failures ≡ s.failures)
  unfolding commit_if_needed
  commit_if_needed-queue s = ground arith

  finish-Settled :
      (s s' : State W) (fails : List CommandFailure)
      → Numbered c 1 fails
      → length fails < cfg.max_attempts
      → Progress s fails s'
      → Settled s (finish cfg c s')
  unfolding acknowledge finish
  finish-Settled s s' fails numbered few p =
      let (queue_kept, failures_kept) = commit_if_needed-queue s' in
      elim (Result-cases (commit_if_needed cfg s').0) [
        | inl (a, e) ↦
            rw (e, finish)
              (acknowledged fails numbered few (failures_kept ∙ p.failures)
                (rw (queue_kept, p.inflight)) (rw (queue_kept, p.dead)))
        | inr (exc, e) ↦
            rw (e, finish) (uncommitted exc (rw (queue_kept, p.inflight)) (rw (queue_kept, p.dead)))
      ]

  outcome-Settled :
      (s : State W) {r : Bool × State W}
      → Tried cfg c 1 s r
      → Settled s (if r.0 then finish cfg c (r.1) else (ok tt, r.1))
  unfolding dead_letter
  outcome-Settled s (succeeded {s' = t} fails numbered few p) =
      finish-Settled s t fails numbered (omega arith) p
  outcome-Settled s (gave_up {s' = t} fails numbered all p) =
      buried fails numbered (omega arith) p.failures (rw p.inflight) (rw p.dead)

  -- With at least one attempt allowed, a consumed command is acknowledged after fewer failures than
  -- attempts, or dead-lettered after as many, or stays in flight because the commit raised.
  pub handle-Settled : (s : State W) → 1 ≤ cfg.max_attempts → Settled s (handle cfg c s)
  unfolding handle
  handle-Settled s h = outcome-Settled s (try_command-Tried cfg c cfg.max_attempts 1 s refl h)
