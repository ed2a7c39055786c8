-- ===== src/Queue/Samples.antt =====
-- Two commands through the queue: one is acknowledged, the other is dead-lettered.
use development_brain.Prelude.{ℕ, ◌+◌, ◌⊎◌, ◌≡◌, refl, none, some, [], ◌∷◌, ◌++◌, nat_eq}
use mathlib.Core.List.{Perm}
use development_brain.Prelude.Dict
use development_brain.Prelude.Object.{Fields}
use development_brain.Prelude.Text.{codes}
use development_brain.Commands.{TriggerType, CommandType, CommandEnvelope}
use development_brain.Commands.Dispatcher.{CommandDispatcher}
use development_brain.Queue.CommandLoop.{LoopState, run_command_loop, run_command_loop-settled}
use development_brain.Queue.{
  pending_count, InMemoryCommandQueue, enqueue, take_first, consume, acknowledge, dead_letter,
}
use development_brain.Queue.Custody.{
  held, Reach, start, enqueued, consumed, acknowledged, buried, custody,
}

abbrev pub command : ℕ → CommandEnvelope
command i = record {
  command_id = i;
  command_type = CommandType.sync_work_management;
  project_id = none;
  requested_at = 0;
  requested_by = none;
  trigger_type = TriggerType.scheduled;
  correlation_id = 7;
  payload = Fields.end;
}

abbrev two : InMemoryCommandQueue
two = record { pending = command 1 ∷ command 2 ∷ []; inflight = []; dead = [] }

abbrev first_out : InMemoryCommandQueue
first_out = record { pending = command 2 ∷ []; inflight = (1, command 1) ∷ []; dead = [] }

abbrev both_out : InMemoryCommandQueue
both_out = record { pending = []; inflight = (1, command 1) ∷ (2, command 2) ∷ []; dead = [] }

first_consumed : consume two ≡ some (command 1, first_out)
unfolding consume take_first Dict.insert
first_consumed = refl

second_consumed : consume first_out ≡ some (command 2, both_out)
unfolding consume take_first Dict.insert
second_consumed = refl

second_in_flight : Dict.get both_out.inflight 2 ≡ some (command 2)
unfolding Dict.get
second_in_flight = refl

abbrev one_left : InMemoryCommandQueue
one_left = dead_letter both_out (command 2) (codes "broken")

first_in_flight : Dict.get one_left.inflight 1 ≡ some (command 1)
unfolding dead_letter Dict.remove Dict.get
first_in_flight = refl

two_reached : Reach (command 2 ∷ command 1 ∷ []) [] two
unfolding enqueue
two_reached = enqueued (command 2) (enqueued (command 1) start)

done_reached : Reach (command 2 ∷ command 1 ∷ []) (command 1 ∷ []) (acknowledge one_left 1)
unfolding Dict.get
done_reached =
    acknowledged (command 1)
      (buried (command 2) (codes "broken")
        (consumed (consumed two_reached first_consumed refl) second_consumed refl) second_in_flight)
      first_in_flight

custody_example :
    Perm ((command 1 ∷ []) ++ held (acknowledge one_left 1)) (command 2 ∷ command 1 ∷ [])
custody_example = custody done_reached

-- Nothing handles these commands.
abbrev no_handlers : CommandDispatcher ℕ
no_handlers = record { handlers = [] }

run_command_loop-settled_example :
    (n : ℕ) × (s' : LoopState ℕ) × ((run_command_loop no_handlers 2
          (some 1)
          0
          (record { queue = two; world = 0 })
        ≡ some (n, s'))
      × ((s'.queue.inflight ≡ []) × ((n ≡ 0 + 1) ⊎ (pending_count s'.queue ≡ 0))))
run_command_loop-settled_example =
    run_command_loop-settled no_handlers 1 0 (record { queue = two; world = 0 }) refl
