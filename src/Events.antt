-- ===== src/Events.antt =====
-- brain/application/events.py over brain/adapters/in_memory/event_bus.py, event_log.py and
-- idempotency.py. A handler acts on a world of its own, and returns or raises; it is compared by
-- its identity. The lock of the bus, the payload and the times of an event are left out.
pub mod Once
mod Samples
use development_brain.Prelude.{
  ℕ, String, Bool, true, false, Option, none, some, List, [], ◌∷◌, ◌++◌, keep, drop, contains,
  length, ◌-◌, ◌==◌, nat_eq, string_eq, if◌then◌else◌,
}
use development_brain.Prelude.Dict
use development_brain.Prelude.Dict.{Dict}
use development_brain.Errors.{Result, ok, err}

-- `event_type` is the value of the type.
pub record EventEnvelope : Type 0 where
  pub event_id : ℕ
  pub event_type : String
  pub correlation_id : ℕ
  pub idempotency_key : Option String

pub record EventHandler (W : Type 0) : Type 0 where
  pub identity : ℕ
  pub handle : EventEnvelope → W → Result Unit × W

pub data ProcessOutcome : Type 0 where
  processed skipped_already_processed : ProcessOutcome

pub record InMemoryEventBus (W : Type 0) : Type 0 where
  pub handlers : Dict String (List (EventHandler W))
  pub published : List EventEnvelope

abbrev pub found {ℓ} : {A : Type ℓ} → Option (List A) → List A
found none = []
found (some xs) = xs

module _ {W : Type 0} where
  unfoldable pub subscribe : String → EventHandler W → InMemoryEventBus W → InMemoryEventBus W
  subscribe t h bus = record bus {
    handlers = Dict.insert bus.handlers t (found (Dict.get bus.handlers t) ++ (h ∷ []));
  }

  -- `handlers.remove(handler)`: the first one goes.
  unfoldable pub without : EventHandler W → List (EventHandler W) → List (EventHandler W)
  without h [] = []
  without h (g ∷ gs) = let rest = without h gs in if g.identity == h.identity then gs else g ∷ rest

  -- The list under a type that has none is not written back.
  unfoldable pub unsubscribe : String → EventHandler W → InMemoryEventBus W → InMemoryEventBus W
  unsubscribe t h bus = elim (Dict.get bus.handlers t) [
    | none ↦ bus
    | some hs ↦ record bus { handlers = Dict.insert bus.handlers t (without h hs) }
  ]

  -- One handler after the other; an exception keeps the rest from the event.
  unfoldable pub handle_all : List (EventHandler W) → EventEnvelope → W → Result Unit × W
  handle_all [] event w = (ok tt, w)
  handle_all (h ∷ hs) event w =
      let (result, w') = h.handle event w in
      let rest = handle_all hs event w' in elim result [ ok u ↦ rest | err exc ↦ (err exc, w') ]

  unfoldable pub publish :
      EventEnvelope → InMemoryEventBus W → W → Result Unit × (InMemoryEventBus W × W)
  publish event bus w =
      let (result, w') = handle_all (found (Dict.get bus.handlers event.event_type)) event w in
      (result, (record bus { published = bus.published ++ (event ∷ []) }, w'))

unfoldable pub append : EventEnvelope → List EventEnvelope → List EventEnvelope
append event events = events ++ (event ∷ [])

unfoldable pub list_by_correlation : ℕ → List EventEnvelope → List EventEnvelope
list_by_correlation correlation_id events = keep (λ e. e.correlation_id == correlation_id) events

-- `events[-limit:]`, where `-0` is 0.
unfoldable pub list_recent : ℕ → List EventEnvelope → List EventEnvelope
list_recent limit events = if limit == 0 then events else drop (length events - limit) events

unfoldable pub is_processed : String → List String → Bool
is_processed key keys = contains keys key

-- A set: a key that is there is not added again.
unfoldable pub mark_processed : String → List String → List String
mark_processed key keys = if contains keys key then keys else key ∷ keys

pub record Processor (W : Type 0) : Type 0 where
  pub bus : InMemoryEventBus W
  pub idempotency : List String
  pub event_log : List EventEnvelope
  pub world : W

abbrev pub seen : Option String → List String → Bool
seen none keys = false
seen (some key) keys = is_processed key keys

abbrev pub marked : Option String → List String → List String
marked none keys = keys
marked (some key) keys = mark_processed key keys

-- `IncomingEventProcessor.process`
unfoldable pub process :
    {W : Type 0} → EventEnvelope → Processor W → Result ProcessOutcome × Processor W
process event p =
    let (result, (bus, world)) = publish event p.bus p.world in
    let published = record p { bus = bus; world = world } in
    if seen event.idempotency_key p.idempotency
    then (ok ProcessOutcome.skipped_already_processed, p)
    else elim result [
      | err exc ↦ (err exc, published)
      | ok u ↦ (
        ok ProcessOutcome.processed,
        record published {
          event_log = append event p.event_log;
          idempotency = marked event.idempotency_key p.idempotency;
        },
      )
    ]
