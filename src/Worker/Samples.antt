-- ===== src/Worker/Samples.antt =====
-- A worker with two attempts and one handler, which always raises.
use development_brain.Prelude.{ℕ, ◌≤◌, ◌<◌, ◌+◌, refl, false, none, some, [], ◌∷◌, length, arith}
use development_brain.Prelude.Text.{codes}
use development_brain.Errors.{PyException, ok, err}
use development_brain.Commands.{CommandType}
use development_brain.Commands.Dispatcher.{CommandHandler}
use development_brain.Queue.Samples.{command}
use development_brain.Worker.{Session, Config, State, Tick, handle, run}
use development_brain.Worker.Loop.{Settled, handle-Settled}
use development_brain.Worker.Run.{Clear, run-Clear, Ended, run-Ended}

abbrev invalid : PyException
invalid = record { type_name = codes "ValueError"; text = codes "invalid payload" }

-- The world counts the calls of the handler.
abbrev refuse : CommandHandler ℕ
refuse c n = record { result = err invalid; enqueued = []; world = n + 1 }

abbrev session : Session ℕ
session = record { commit = λ n. (ok tt, n); rollback = λ n. n }

abbrev cfg : Config ℕ
cfg = record {
  dispatcher = record { handlers = (CommandType.sync_work_management, refuse) ∷ [] };
  session = some session;
  max_attempts = 2;
}

abbrev in_flight : State ℕ
in_flight = record {
  queue = record { pending = []; inflight = (1, command 1) ∷ []; dead = [] };
  failures = [];
  stop = false;
  world = 0;
}

abbrev waiting : State ℕ
waiting = record {
  queue = record { pending = command 1 ∷ command 2 ∷ []; inflight = []; dead = [] };
  failures = [];
  stop = false;
  world = 0;
}

abbrev quiet : Tick
quiet = record { stop_signal = false; arrivals = [] }

two_attempts : 1 ≤ 2
two_attempts = omega arith

handle-Settled_example : Settled cfg (command 1) in_flight (handle cfg (command 1) in_flight)
handle-Settled_example = handle-Settled cfg (command 1) in_flight two_attempts

run-Clear_example : Clear cfg (run cfg none 0 (quiet ∷ quiet ∷ quiet ∷ []) waiting)
run-Clear_example = run-Clear cfg none 0 (quiet ∷ quiet ∷ quiet ∷ []) waiting two_attempts refl

none_processed : 0 ≤ 2
none_processed = omega arith

enough_passes : 2 < 0 + length (quiet ∷ quiet ∷ quiet ∷ [])
enough_passes = omega arith

run-Ended_example : Ended cfg 2 (run cfg (some 2) 0 (quiet ∷ quiet ∷ quiet ∷ []) waiting)
run-Ended_example =
    run-Ended cfg 2 0 (quiet ∷ quiet ∷ quiet ∷ []) waiting two_attempts refl none_processed
      enough_passes
