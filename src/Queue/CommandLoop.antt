-- ===== src/Queue/CommandLoop.antt =====
-- `run_command_loop` of brain/application/command_dispatcher.py: the loop of tests and of local
-- development, which takes commands until the queue is empty. Each command takes one unit of fuel.
use development_brain.Prelude.{
  ℕ, zero, suc, ◌+◌, ◌≡◌, ◌∙◌, refl, sym, ap, ◌⊎◌, inl, inr, Bool, true, false, Option, none, some,
  List, [], ◌∷◌, leb, nat_eq, beq_refl, length, arith, Option-cases, if◌then◌else◌,
}
use development_brain.Prelude.Dict
use development_brain.Errors.{ok, err, Result-cases}
use development_brain.Commands.{CommandEnvelope}
use development_brain.Commands.Dispatcher.{CommandDispatcher, dispatch}
use mathlib.Core.Path.{subst}
use development_brain.Queue.Custody.{consume-eq-some}
use development_brain.Queue.{
  InMemoryCommandQueue, enqueue_all, consume, take_first, acknowledge, dead_letter, pending_count,
  enqueue_all-eq,
}

take_first-none :
    (q : InMemoryCommandQueue) (cs : List CommandEnvelope) → take_first q cs ≡ none → length cs ≡ 0
unfolding take_first
take_first-none q [] h = refl
take_first-none q (c ∷ cs) h = cc

consume-none : (q : InMemoryCommandQueue) → consume q ≡ none → pending_count q ≡ 0
unfolding consume pending_count
consume-none q h = take_first-none q q.pending h

consume-inflight :
    (q : InMemoryCommandQueue) (c : CommandEnvelope) (q' : InMemoryCommandQueue)
    → q.inflight ≡ []
    → consume q ≡ some (c, q')
    → q'.inflight ≡ (c.command_id, c) ∷ []
unfolding Dict.insert
consume-inflight q c q' h k = let (rest, p, e) = consume-eq-some q k in rw e (rw h refl)

pub record LoopState (W : Type 0) : Type 0 where
  pub queue : InMemoryCommandQueue
  pub world : W

-- `max_commands is not None and processed >= max_commands`
abbrev pub is_spent : Option ℕ → ℕ → Bool
is_spent none processed = false
is_spent (some m) processed = leb m processed

module _ {W : Type 0} (dispatcher : CommandDispatcher W) where
  -- A command that raises is dead-lettered, and the loop goes on.
  unfoldable pub run_one : CommandEnvelope → LoopState W → LoopState W
  run_one c s =
      let effect = dispatch dispatcher c s.world in
      let q = enqueue_all s.queue effect.enqueued in
      elim effect.result [
        | ok r ↦ record { queue = acknowledge q c.command_id; world = effect.world }
        | err exc ↦ record { queue = dead_letter q c exc.text; world = effect.world }
      ]

  unfoldable pub run_command_loop :
      (fuel : ℕ) (max_commands : Option ℕ) (processed : ℕ) → LoopState W → Option (ℕ × LoopState W)
  run_command_loop zero max_commands processed s = none
  run_command_loop (suc fuel) max_commands processed s =
      if is_spent max_commands processed then some (processed, s) else elim (consume s.queue) [
        | none ↦ some (processed, s)
        | some (c, q) ↦
            run_command_loop fuel max_commands (processed + 1) (run_one c (record s { queue = q }))
      ]

  -- What was the only command in flight is no longer.
  run_one-settled :
      (c : CommandEnvelope) (s : LoopState W)
      → s.queue.inflight ≡ (c.command_id, c) ∷ []
      → (run_one c s).queue.inflight ≡ []
  unfolding run_one acknowledge dead_letter Dict.remove
  run_one-settled c s h =
      let effect = dispatch dispatcher c s.world in
      elim (Result-cases effect.result) [
        | inl (r, e) ↦
            rw (run_one, e, enqueue_all-eq s.queue effect.enqueued, h, beq_refl c.command_id) refl
        | inr (exc, e) ↦
            rw (run_one, e, enqueue_all-eq s.queue effect.enqueued, h, beq_refl c.command_id) refl
      ]

  -- With a limit of commands, and nothing in flight at the start, one more unit of fuel than the limit
  -- leaves is enough: the loop ends with nothing in flight, and with the limit reached or nothing pending.
  pub run_command_loop-settled :
      (left processed : ℕ) (s : LoopState W)
      → s.queue.inflight ≡ []
      → (n : ℕ) × (s' : LoopState W) × ((run_command_loop
              (suc left)
              (some (processed + left))
              processed
              s
            ≡ some (n, s'))
          × ((s'.queue.inflight ≡ []) × ((n ≡ processed + left) ⊎ (pending_count s'.queue ≡ 0))))
  unfolding run_command_loop
  run_command_loop-settled zero processed s h =
      let e : leb (processed + 0) processed ≡ true = ground arith in
      (processed, s, (rw (run_command_loop, e) refl, (h, inl (omega arith))))
  run_command_loop-settled (suc left) processed s h =
      let e : leb (processed + suc left) processed ≡ false = ground arith in
      elim (Option-cases (consume s.queue)) [
        | inl n ↦
            (processed, s, (rw (run_command_loop, e, n) refl, (h, inr (consume-none s.queue n))))
        | inr ((c, q), k) ↦
            let s' = run_one c (record s { queue = q }) in
            let settled =
              run_one-settled c (record s { queue = q }) (consume-inflight s.queue c q h k) in
            let (n, s'', (run, (quiet, end))) =
              run_command_loop-settled left (processed + 1) s' settled in
            let sum : processed + 1 + left ≡ processed + suc left = omega arith in
            (
              n,
              s'',
              (
                rw (run_command_loop, e, k)
                    (ap (λ m. run_command_loop (suc left) (some m) (processed + 1) s') (sym sum)
                      ∙ run),
                (quiet, subst (λ m. (n ≡ m) ⊎ (pending_count s''.queue ≡ 0)) sum end),
              ),
            )
      ]
