-- ===== src/Ingestion/Effects.antt =====
-- The steps of the service: each acts on the store and may raise.
use development_brain.Prelude.{ℕ, ◌+◌}
use development_brain.Errors.{Result, ok, err}
use development_brain.Ingestion.{Store}

abbrev pub M : Type 0 → Type 0 → Type 0
M S A = S → Result A × S

-- The rest of the steps, on what the first one gave and left.
unfoldable pub after : {S A C : Type 0} → (A → M S C) → Result A × S → Result C × S
after f (ok a, s) = f a s
after f (err exc, s) = (err exc, s)

infixl 5 ◌>>=◌ ◌>>◌
unfoldable pub ◌>>=◌ : {S A C : Type 0} → M S A → (A → M S C) → M S C
unfolding after
◌>>=◌ m f s = after f (m s)

unfoldable pub ◌>>◌ : {S C : Type 0} → M S Unit → M S C → M S C
unfolding after
◌>>◌ m k s = after (λ _. k) (m s)

unfoldable pub pure : {S A : Type 0} → A → M S A
pure a s = (ok a, s)

-- What the store says.
unfoldable pub asks : {S A : Type 0} → (S → A) → M S A
asks f s = (ok (f s), s)

unfoldable pub modify : {S : Type 0} → (S → S) → M S Unit
modify f s = (ok tt, f s)

-- `try: ... except Exception: log`
unfoldable pub guarded : {S : Type 0} → M S Unit → M S Unit
guarded m s = (ok tt, (m s).1)

module _ {G B : Type 0} where
  -- `uuid.uuid4()`
  unfoldable pub fresh : M (Store G B) ℕ
  fresh s = (ok s.next_id, record s { next_id = s.next_id + 1 })

  -- A call of the graph or the documents.
  unfoldable pub on_graph : {A : Type 0} → (G → Result A × G) → M (Store G B) A
  on_graph call s = ((call s.graph).0, record s { graph = (call s.graph).1 })

  -- The ingestion of a document, which has the same bus.
  unfoldable pub on_documents : (G × B → Result Unit × (G × B)) → M (Store G B) Unit
  on_documents call s =
      let r = call (s.graph, s.event_bus) in (r.0, record s { graph = r.1.0; event_bus = r.1.1 })

  unfoldable pub on_bus : (B → Result Unit × B) → M (Store G B) Unit
  on_bus call s = ((call s.event_bus).0, record s { event_bus = (call s.event_bus).1 })
