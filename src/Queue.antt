-- ===== src/Queue.antt =====
-- brain/adapters/in_memory/commands.py: the FIFO command queue with its commands in flight and its
-- dead letters. `consume` is the state after its wait: an empty queue means that it timed out.
pub mod Custody
pub mod CommandLoop
pub mod Samples
use development_brain.Prelude.{
  ℕ, ◌≡◌, ◌∙◌, Option, none, some, List, [], ◌∷◌, ◌++◌, append_assoc, append-nil, length, nat_eq,
}
use development_brain.Prelude.Dict
use development_brain.Prelude.Dict.{Dict}
use development_brain.Prelude.Text.{Text}
use development_brain.Commands.{CommandEnvelope}

pub record InMemoryCommandQueue : Type 0 where
  pub pending : List CommandEnvelope
  pub inflight : Dict ℕ CommandEnvelope
  pub dead : List (CommandEnvelope × Text)

abbrev pub empty : InMemoryCommandQueue
empty = record { pending = []; inflight = []; dead = [] }

unfoldable pub enqueue : InMemoryCommandQueue → CommandEnvelope → InMemoryCommandQueue
enqueue q c = record q { pending = q.pending ++ (c ∷ []) }

-- Several calls of `enqueue`, in order.
unfoldable pub enqueue_all : InMemoryCommandQueue → List CommandEnvelope → InMemoryCommandQueue
unfolding enqueue
enqueue_all q [] = q
enqueue_all q (c ∷ cs) = enqueue_all (enqueue q c) cs

take_first :
    InMemoryCommandQueue → List CommandEnvelope → Option (CommandEnvelope × InMemoryCommandQueue)
take_first q [] = none
take_first q (c ∷ rest) =
    some (c, record q { pending = rest; inflight = Dict.insert q.inflight c.command_id c })

unfoldable pub consume : InMemoryCommandQueue → Option (CommandEnvelope × InMemoryCommandQueue)
unfolding take_first
consume q = take_first q q.pending

unfoldable pub acknowledge : InMemoryCommandQueue → ℕ → InMemoryCommandQueue
acknowledge q i = record q { inflight = Dict.remove q.inflight i }

unfoldable pub requeue : InMemoryCommandQueue → CommandEnvelope → InMemoryCommandQueue
unfolding enqueue
requeue q c = enqueue (record q { inflight = Dict.remove q.inflight c.command_id }) c

unfoldable pub dead_letter : InMemoryCommandQueue → CommandEnvelope → Text → InMemoryCommandQueue
dead_letter q c reason = record q {
  inflight = Dict.remove q.inflight c.command_id;
  dead = q.dead ++ ((c, reason) ∷ []);
}

unfoldable pub pending_count : InMemoryCommandQueue → ℕ
pending_count q = length q.pending

unfoldable pub close : InMemoryCommandQueue → InMemoryCommandQueue
close q = record q { pending = []; inflight = [] }

unfoldable pub dead_letters : InMemoryCommandQueue → List (CommandEnvelope × Text)
dead_letters q = q.dead

-- Enqueuing only adds to the end of the pending commands.
pub enqueue_all-eq :
    (q : InMemoryCommandQueue) (cs : List CommandEnvelope)
    → enqueue_all q cs ≡ record q { pending = q.pending ++ cs }
unfolding enqueue_all
enqueue_all-eq q [] = rw append-nil
enqueue_all-eq q (c ∷ cs) = enqueue_all-eq (enqueue q c) cs ∙ rw append_assoc
