-- ===== src/Worker/Attempts.antt =====
-- One command in the inner loop of the worker: how often it is tried, and what is left behind.
use development_brain.Prelude.{
  ℕ, zero, suc, ◌+◌, ◌≤◌, ◌<◌, ◌≡◌, refl, sym, ◌∙◌, inl, inr, Bool, true, false, List, [], ◌∷◌,
  ◌++◌, append_assoc, append-nil, length, leb, nat_eq, arith, Bool-cases, if◌then◌else◌,
}
use mathlib.Core.Path.{subst}
use development_brain.Errors.{PyException, Result, ok, err, Result-cases}
use development_brain.Commands.{CommandEnvelope}
use development_brain.Commands.Dispatcher.{dispatch}
use development_brain.Queue.{dead_letter, enqueue_all-eq}
use development_brain.Worker.Failures.{CommandFailure, failure_of}
use development_brain.Worker.{Config, State, process_command, try_command, failed_after}

-- The records are of this command's attempts `n`, `n + 1` and so on.
abbrev pub Numbered : CommandEnvelope → ℕ → List CommandFailure → Type 0
Numbered c n [] = Unit
Numbered c n (f ∷ fs) = (f.command_id ≡ c.command_id) × (f.attempt ≡ n) × Numbered c (n + 1) fs

module _ {W : Type 0} where
  -- `s'` differs from `s` in the world, in new pending commands, and by the failure records `fails`.
  pub record Progress (s : State W) (fails : List CommandFailure) (s' : State W) : Type 0 where
    pub inflight : s'.queue.inflight ≡ s.queue.inflight
    pub dead : s'.queue.dead ≡ s.queue.dead
    pub stop : s'.stop ≡ s.stop
    pub spawned : List CommandEnvelope
    pub pending : s'.queue.pending ≡ s.queue.pending ++ spawned
    pub failures : s'.failures ≡ s.failures ++ fails

  pub Progress-trans :
      {s t u : State W} {fs gs : List CommandFailure}
      → Progress s fs t
      → Progress t gs u
      → Progress s (fs ++ gs) u
  Progress-trans {s} {t} {u} {fs} {gs} p q = record {
    inflight = q.inflight ∙ p.inflight;
    dead = q.dead ∙ p.dead;
    stop = q.stop ∙ p.stop;
    spawned = p.spawned ++ q.spawned;
    pending = cc (q.pending, p.pending, append_assoc s.queue.pending p.spawned q.spawned);
    failures = cc (q.failures, p.failures, append_assoc s.failures fs gs);
  }

  module _ (cfg : Config W) (c : CommandEnvelope) where
    -- One attempt: success leaves no record, a failure exactly one.
    pub data Attempted (n : ℕ) (s : State W) : Result Bool × State W → Type 0 where
      done : {s' : State W} → Progress s [] s' → Attempted n s (ok true, s')
      failed :
          {s' : State W} (exc : PyException)
          → Progress s (failure_of c n exc ∷ []) s'
          → Attempted n s (err exc, s')

    pub process_command-Attempted :
        (n : ℕ) (s : State W) → Attempted n s (process_command cfg c n s)
    unfolding process_command
    process_command-Attempted n s = elim (Result-cases (dispatch cfg.dispatcher c s.world).result) [
      | inl (a, e) ↦
          rw (e, process_command)
            (done (record {
              inflight = rw enqueue_all-eq;
              dead = rw enqueue_all-eq;
              stop = refl;
              spawned = (dispatch cfg.dispatcher c s.world).enqueued;
              pending = rw enqueue_all-eq;
              failures = rw append-nil;
            }))
      | inr (exc, e) ↦
          rw (e, process_command)
            (failed exc (record {
              inflight = rw enqueue_all-eq;
              dead = rw enqueue_all-eq;
              stop = refl;
              spawned = (dispatch cfg.dispatcher c s.world).enqueued;
              pending = rw enqueue_all-eq;
              failures = refl;
            }))
    ]

    -- How the inner loop ends when it begins with attempt `n`.
    pub data Tried (n : ℕ) (s : State W) : Bool × State W → Type 0 where
      succeeded :
          {s' : State W} (fails : List CommandFailure)
          → Numbered c n fails
          → n + length fails ≤ cfg.max_attempts
          → Progress s fails s'
          → Tried n s (true, s')
      gave_up :
          {s' : State W} (fails : List CommandFailure)
          → Numbered c n fails
          → n + length fails ≡ cfg.max_attempts + 1
          → Progress s fails s'
          → Tried n s
              (false, record s' { queue = dead_letter s'.queue c (failed_after cfg.max_attempts) })

    -- One more failure before the rest.
    Tried-after :
        {n : ℕ} {s t : State W} {r : Bool × State W} (exc : PyException)
        → Progress s (failure_of c n exc ∷ []) t
        → Tried (n + 1) t r
        → Tried n s r
    unfolding failure_of
    Tried-after {n} exc p (succeeded fails numbered few q) =
        succeeded (failure_of c n exc ∷ fails) (refl, refl, numbered) (omega arith)
          (Progress-trans p q)
    Tried-after {n} exc p (gave_up fails numbered all q) =
        gave_up (failure_of c n exc ∷ fails) (refl, refl, numbered) (omega arith)
          (Progress-trans p q)

    -- One pass of the loop, given the rest of it.
    pass-Tried :
        (left n : ℕ) (s : State W) {r : Result Bool × State W}
        → n ≤ cfg.max_attempts
        → Attempted n s r
        → ((t : State W)
            → n < cfg.max_attempts
            → Tried (n + 1) t (try_command cfg left (n + 1) c t))
        → Tried n s (
            if leb n cfg.max_attempts
            then elim (r.0) [
              | ok _ ↦ (true, r.1)
              | err exc ↦
                  if leb cfg.max_attempts n
                  then (false, record (r.1) { queue = dead_letter (r.1).queue c (failed_after n) })
                  else try_command cfg left (n + 1) c (r.1)
            ]
            else (false, s))
    unfolding failure_of
    pass-Tried left n s le (done {s' = t} p) rest =
        let inside : leb n cfg.max_attempts ≡ true = ground arith in
        rw inside (succeeded [] tt (omega arith) p)
    pass-Tried left n s le (failed {s' = t} exc p) rest =
        let inside : leb n cfg.max_attempts ≡ true = ground arith in
        elim (Bool-cases (leb cfg.max_attempts n)) [
          | inl last ↦
              let n-max : n ≡ cfg.max_attempts = ground arith in
              rw (inside, last)
                (subst
                  (λ m.
                    Tried n s (false, record t { queue = dead_letter t.queue c (failed_after m) }))
                  (sym n-max) (gave_up (failure_of c n exc ∷ []) (refl, refl, tt) (omega arith) p))
          | inr more ↦ rw (inside, more) (Tried-after exc p (rest t (ground arith)))
        ]

    -- Enough passes are allowed: the loop ends by success or by giving the command up.
    pub try_command-Tried :
        (left n : ℕ) (s : State W)
        → left + n ≡ cfg.max_attempts + 1
        → n ≤ cfg.max_attempts
        → Tried n s (try_command cfg left n c s)
    unfolding try_command
    try_command-Tried zero n s h le = absurd (omega arith)
    try_command-Tried (suc left) n s h le =
        pass-Tried left n s le (process_command-Attempted n s)
          λ t more. try_command-Tried left (n + 1) t (omega arith) (omega arith)
