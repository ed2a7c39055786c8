-- ===== src/Queue/Custody.antt =====
-- The commands in the keeping of the queue, through enqueue, consume, acknowledge, requeue and
-- dead_letter. `close` is not among these calls: it clears what is pending and in flight.
use mathlib.Core.List.Perm
use mathlib.Core.List.{Perm, perm_middle, perm_append_singleton, map-append}
use development_brain.Prelude.{◌≡◌, none, some, List, [], ◌∷◌, ◌++◌, map, append_assoc, nat_eq}
use development_brain.Prelude.Dict
use development_brain.Prelude.Dict.Entries.{
  IsKeyed, insert-IsKeyed, remove-IsKeyed, values-insert_new, values-remove_perm,
}
use development_brain.Prelude.Text.{Text}
use development_brain.Commands.{CommandEnvelope}
use development_brain.Queue.{
  InMemoryCommandQueue, empty, enqueue, take_first, consume, acknowledge, requeue, dead_letter,
}

-- Every command that the queue has in its keeping.
abbrev pub held : InMemoryCommandQueue → List CommandEnvelope
held q = q.pending ++ (Dict.values q.inflight ++ map (λ d. d.0) q.dead)

enqueue-held_perm :
    (q : InMemoryCommandQueue) (c : CommandEnvelope) → Perm (held (enqueue q c)) (c ∷ held q)
unfolding enqueue
enqueue-held_perm q c = rw append_assoc (perm_middle q.pending _)

-- What `consume` returns is the first pending command, which it puts in flight.
pub consume-eq-some :
    (q : InMemoryCommandQueue) {c : CommandEnvelope} {q' : InMemoryCommandQueue}
    → consume q ≡ some (c, q')
    → (rest : List CommandEnvelope) × (q.pending ≡ c ∷ rest)
      × (q' ≡ record q { pending = rest; inflight = Dict.insert q.inflight c.command_id c })
unfolding consume
consume-eq-some q {c} {q'} e = go q.pending e
  where
    go :
        (p : List CommandEnvelope)
        → take_first q p ≡ some (c, q')
        → (rest : List CommandEnvelope) × (p ≡ c ∷ rest)
          × (q' ≡ record q { pending = rest; inflight = Dict.insert q.inflight c.command_id c })
    go [] h = cc
    go (x ∷ rest) h = (rest, cc, cc)

module _ (q : InMemoryCommandQueue) (c : CommandEnvelope) where
  module _ (keyed : IsKeyed q.inflight) (holds : Dict.get q.inflight c.command_id ≡ some c) where
    acknowledge-held_perm : Perm (c ∷ held (acknowledge q c.command_id)) (held q)
    unfolding acknowledge
    acknowledge-held_perm =
        let out = values-remove_perm q.inflight c.command_id c keyed holds in
        Perm.trans (Perm.symm (perm_middle q.pending _))
          (Perm.append_left q.pending (Perm.append_right _ out))

    requeue-held_perm : Perm (held (requeue q c)) (held q)
    unfolding requeue acknowledge
    requeue-held_perm =
        Perm.trans (enqueue-held_perm (acknowledge q c.command_id) c) acknowledge-held_perm

    dead_letter-held_perm : (reason : Text) → Perm (held (dead_letter q c reason)) (held q)
    unfolding dead_letter acknowledge
    dead_letter-held_perm reason =
        let kept = Dict.values (Dict.remove q.inflight c.command_id) in
        let last = perm_append_singleton c (map (λ d. d.0) q.dead) in
        Perm.trans (rw map-append (Perm.append_left q.pending (Perm.append_left kept last))) (
          Perm.trans (Perm.append_left q.pending (perm_middle kept _))
            (Perm.trans (perm_middle q.pending _) acknowledge-held_perm))

  consume-held_perm :
      {q' : InMemoryCommandQueue}
      → consume q ≡ some (c, q')
      → Dict.get q.inflight c.command_id ≡ none
      → Perm (held q') (held q)
  unfolding consume
  consume-held_perm e fresh =
      let (rest, p, e') = consume-eq-some q e in
      rw (e', p, values-insert_new q.inflight c.command_id c fresh, append_assoc)
        (Perm.trans (Perm.append_left rest (perm_middle (Dict.values q.inflight) _))
          (perm_middle rest _))

-- The queues that a sequence of calls leads to from the empty queue, with the commands that were
-- enqueued and those that were acknowledged. The callers finish only commands that are in flight,
-- and no command is consumed while another with its id is in flight.
pub data Reach : List CommandEnvelope → List CommandEnvelope → InMemoryCommandQueue → Type 0 where
  start : Reach [] [] empty
  enqueued :
      {added acked : List CommandEnvelope} {q : InMemoryCommandQueue} (c : CommandEnvelope)
      → Reach added acked q
      → Reach (c ∷ added) acked (enqueue q c)
  consumed :
      {added acked : List CommandEnvelope} {q q' : InMemoryCommandQueue} {c : CommandEnvelope}
      → Reach added acked q
      → consume q ≡ some (c, q')
      → Dict.get q.inflight c.command_id ≡ none
      → Reach added acked q'
  acknowledged :
      {added acked : List CommandEnvelope} {q : InMemoryCommandQueue} (c : CommandEnvelope)
      → Reach added acked q
      → Dict.get q.inflight c.command_id ≡ some c
      → Reach added (c ∷ acked) (acknowledge q c.command_id)
  requeued :
      {added acked : List CommandEnvelope} {q : InMemoryCommandQueue} (c : CommandEnvelope)
      → Reach added acked q
      → Dict.get q.inflight c.command_id ≡ some c
      → Reach added acked (requeue q c)
  buried :
      {added acked : List CommandEnvelope} {q : InMemoryCommandQueue} (c : CommandEnvelope)
      → (reason : Text) → Reach added acked q
      → Dict.get q.inflight c.command_id ≡ some c
      → Reach added acked (dead_letter q c reason)

-- The commands in flight have distinct ids.
Reach-IsKeyed :
    {added acked : List CommandEnvelope} {q : InMemoryCommandQueue}
    → Reach added acked q
    → IsKeyed q.inflight
unfolding enqueue consume acknowledge requeue dead_letter
Reach-IsKeyed start = tt
Reach-IsKeyed (enqueued c r) = Reach-IsKeyed r
Reach-IsKeyed (consumed {q = q} {c = c} r e fresh) =
    let (rest, p, e') = consume-eq-some q e in rw e' (insert-IsKeyed _ _ _ (Reach-IsKeyed r))
Reach-IsKeyed (acknowledged c r h) = remove-IsKeyed _ _ (Reach-IsKeyed r)
Reach-IsKeyed (requeued c r h) = remove-IsKeyed _ _ (Reach-IsKeyed r)
Reach-IsKeyed (buried c reason r h) = remove-IsKeyed _ _ (Reach-IsKeyed r)

-- After any calls of enqueue, consume, acknowledge, requeue and dead_letter from the empty queue, if
-- only commands in flight are finished and none is consumed while another
-- with its id is in flight, the commands acknowledged, pending, in flight and dead-lettered are
-- together those that were enqueued, each as often as it was enqueued.
pub custody :
    {added acked : List CommandEnvelope} {q : InMemoryCommandQueue}
    → Reach added acked q
    → Perm (acked ++ held q) added
unfolding Dict.values
custody start = Perm.refl []
custody (enqueued {acked = acked} {q = q} c r) =
    Perm.trans (Perm.append_left acked (enqueue-held_perm q c))
      (Perm.trans (perm_middle acked _) (Perm.cons c (custody r)))
custody (consumed {acked = acked} {q = q} {c = c} r e fresh) =
    Perm.trans (Perm.append_left acked (consume-held_perm q c e fresh)) (custody r)
custody (acknowledged {acked = acked} {q = q} c r h) =
    Perm.trans (Perm.symm (perm_middle acked _)) (
      Perm.trans (Perm.append_left acked (acknowledge-held_perm q c (Reach-IsKeyed r) h))
        (custody r))
custody (requeued {acked = acked} {q = q} c r h) =
    Perm.trans (Perm.append_left acked (requeue-held_perm q c (Reach-IsKeyed r) h)) (custody r)
custody (buried {acked = acked} {q = q} c reason r h) =
    Perm.trans (Perm.append_left acked (dead_letter-held_perm q c (Reach-IsKeyed r) h reason))
      (custody r)
