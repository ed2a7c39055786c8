-- ===== src/Ingestion/Again.antt =====
-- The event bus under calls of `ingest_work_item_snapshot`: in the mode BOOTSTRAP, and with a snapshot that
-- was taken in before. The ingestion of a document may publish on the bus as well.
use development_brain.Prelude.{
  ℕ, ◌≡◌, refl, ◌∙◌, ap, not, ◌&&◌, true, false, Option, none, some, List, [], ◌∷◌, string_eq,
  option_eq, nat_eq, beq_refl, arith,
}
use development_brain.Errors.{Result, ok, err}
use development_brain.Domain.{Project, WorkItem}
use development_brain.Repositories.{Collection, rows_by}
use development_brain.Sync.Pull.{Snapshot}
use development_brain.Ingestion.{
  SourceArtifact, IngestionMode, SemanticChange, OpenProjectIngestionResult, Store, Deps,
  diff_snapshots,
}
use development_brain.Ingestion.Effects.{pure}
use development_brain.Ingestion.WorkItems.{project_of}
use development_brain.Ingestion.Service.{
  IngestionCall, is_bootstrap, report, store_item, ingest_work_item_snapshot,
}
use development_brain.Ingestion.Triples.{
  Outcome, Triple, bind-Triple, seq-Triple, pure-Triple, asks-Triple, modify-Triple, option-Triple,
  if-Triple, true-Triple, fact-Triple, weaken-Triple, Keeps,
}
use development_brain.Prelude.{inr}
use development_brain.Ingestion.Attached.{IsFiled, Holds-suc}
use development_brain.Ingestion.Frames.{Facts, On, reconcile_attachments-Keeps}
use development_brain.Ingestion.Repeating.{Quiet, reconcile_attachments-Quiet}
use development_brain.Ingestion.Identity.{Known, upsert-Known}
use development_brain.Ingestion.Settled.{Listing, Ready, ingest-Ready}
use development_brain.Ingestion.Writes.{ingest_item-Triple}

-- Nothing changed in a snapshot that is compared with itself.
diff_snapshots-same : (s : Snapshot) → diff_snapshots (some s) s ≡ []
unfolding diff_snapshots
diff_snapshots-same s =
    rw
      (
        beq_refl s.summary,
        beq_refl s.description,
        beq_refl s.assignee_id,
        beq_refl s.state,
        beq_refl s.priority,
        beq_refl s.parent_id,
      )
      refl

module _ {G B : Type 0} (deps : Deps G B) (s : Snapshot) (P : B → Type 0)
    (kept : (ingest : SourceArtifact → (project_id : ℕ) → G × B → Result Unit × (G × B))
        (artifact : SourceArtifact) (i : ℕ) (g : G) (b : B)
      → deps.document_ingestion ≡ some ingest
      → P b
      → P (ingest artifact i (g, b)).1.1) where
  -- P holds of the events.
  abbrev Silent : Facts B
  Silent b ws ps = P b.0

  report-bootstrap :
      (call : IngestionCall) (changes : List SemanticChange) (project_id : Option ℕ)
      (result : OpenProjectIngestionResult)
      → call.mode ≡ IngestionMode.bootstrap
      → report deps call s changes project_id result ≡ pure result
  unfolding report is_bootstrap
  report-bootstrap call changes project_id result e = rw e refl

  store_item-Silent :
      (now : ℕ) (changes : List SemanticChange) (project_id : Option ℕ)
      → Triple (On Silent) (store_item deps now s changes project_id) (λ _. On Silent) (On Silent)
  unfolding store_item
  store_item-Silent now changes none = pure-Triple _ (λ t p. p)
  store_item-Silent now changes (some i) =
      weaken-Triple (λ r t p. p.1) (λ t p. p)
        (ingest_item-Triple deps s Silent Silent (λ b ws ps w c p. p) (λ b fs n ws ps p. p)
          (λ b ws ps p. p) (λ w. reconcile_attachments-Keeps deps P kept w s.attachments 0) Silent
          (λ created. Unit) (λ b ws ps w p e. (tt, p)) (λ b ws ps w p e c. (tt, p))
          (λ b fs n ws ps p. p) now i changes)

  ingest-Silent :
      (now : ℕ) (call : IngestionCall)
      → call.mode ≡ IngestionMode.bootstrap
      → Keeps (On Silent) (ingest_work_item_snapshot deps now s call)
  unfolding ingest_work_item_snapshot
  ingest-Silent now call e = bind-Triple {Q = λ _. On Silent} (asks-Triple _ (λ t p. p)) (λ changes.
      bind-Triple {Q = λ _. On Silent} (asks-Triple _ (λ t p. p)) (λ project.
        bind-Triple (store_item-Silent now changes project) (λ result.
          seq-Triple {Q = On Silent} (modify-Triple _ (λ t p. p)) (
            rw (report-bootstrap call changes project (record result { snapshot_saved = true }) e)
              (pure-Triple _ (λ t p. p))))))

module _ {G B : Type 0} (deps : Deps G B) (s : Snapshot) (bus : B) where
  -- The events are those of the bus, the item of the snapshot is known, and its attachments are found.
  abbrev Seen : Facts B
  Seen = Quiet deps bus (Listing deps s) (λ ws ps. Known s.external_id ws)

  -- What is said of a result that is no news.
  abbrev NoNews : OpenProjectIngestionResult → Type 0
  NoNews r = (r.created ≡ false) × (r.changes ≡ [])

  store_item-Seen :
      (now : ℕ) (changes : List SemanticChange) (project : Option ℕ) (project_id : ℕ)
      → changes ≡ []
      → project ≡ some project_id
      → Triple
          (On Seen)
          (store_item deps now s changes project)
          (λ r t. (((w : WorkItem) × (r.work_item ≡ some w)) × NoNews r) × On Seen t)
          (On Seen)
  unfolding store_item rows_by
  store_item-Seen now changes none project_id unchanged e = ground (arith, e)
  store_item-Seen now changes (some i) project_id unchanged e =
      weaken-Triple (λ r t p. ((p.0.0, (p.0.1.0, p.0.1.1 ∙ unchanged)), p.1)) (λ t p. p)
        (ingest_item-Triple deps s Seen Seen
          (λ b ws ps w c p. (p.0, (upsert-Known s.external_id ws w c, p.1.1)))
          (λ b fs n ws ps p. (p.0, (p.1.0, Holds-suc (Listing deps s) n fs p.1.1))) (λ b ws ps p. p)
          (λ w.
            reconcile_attachments-Quiet deps bus (Listing deps s) (λ ws ps. Known s.external_id ws)
              w s.attachments 0 (λ y m. inr m))
          Seen (λ created. created ≡ false) (λ b ws ps w p e. (refl, p))
          (λ b ws ps w p e c. absurd (p.1.0 e))
          (λ b fs n ws ps p. (p.0, (p.1.0, Holds-suc (Listing deps s) n fs p.1.1))) now i changes)

  report-again :
      (call : IngestionCall) (changes : List SemanticChange) (project : Option ℕ) (project_id : ℕ)
      (result : OpenProjectIngestionResult) (w : WorkItem)
      → call.publish_unchanged ≡ false
      → changes ≡ []
      → project ≡ some project_id
      → result.work_item ≡ some w
      → NoNews result
      → Triple
          (On Seen)
          (report deps call s changes project result)
          (λ r t. NoNews r × On Seen t)
          (On Seen)
  unfolding report
  report-again call (c ∷ cs) project project_id result w quiet unchanged found e news =
      ground (arith, unchanged)
  report-again call [] none project_id result w quiet unchanged found e news = ground (arith, found)
  report-again call [] (some i) project_id result w quiet unchanged found e (c, n) =
      if-Triple (is_bootstrap call.mode) (pure-Triple _ (λ t p. ((c, n), p))) (
        option-Triple result.work_item (λ o. ground (arith, o, e))
          (λ v _.
            true-Triple _ (not call.publish_unchanged && (not result.created && true))
              (ground (arith, quiet, c)) (pure-Triple _ (λ t p. ((c, n), p)))))

  ingest-Seen :
      (now project_id : ℕ) (call : IngestionCall) (ps : Collection Project)
      → project_of s call.project_id ps ≡ some project_id
      → call.publish_unchanged ≡ false
      → Triple
          (λ t. Ready deps s ps t × (t.event_bus ≡ bus))
          (ingest_work_item_snapshot deps now s call)
          (λ r t. NoNews r × On Seen t)
          (On Seen)
  unfolding ingest_work_item_snapshot
  ingest-Seen now project_id call ps e quiet =
      bind-Triple {Q = λ changes t. (changes ≡ []) × (On Seen t × (t.projects ≡ ps))}
        (asks-Triple _ (λ t p. (
          ap (λ previous. diff_snapshots previous s) p.0.0 ∙ diff_snapshots-same s,
          ((p.1, (p.0.1.0.0, p.0.1.1)), p.0.1.0.1),
        )))
        (λ changes. fact-Triple (λ unchanged.
          bind-Triple {Q = λ project t. (project ≡ some project_id) × On Seen t}
            (asks-Triple _ (λ t p. (ap (project_of s call.project_id) p.1 ∙ e, p.0)))
            (λ project. fact-Triple (λ found.
              bind-Triple (store_item-Seen now changes project project_id unchanged found)
                (λ result. fact-Triple (λ facts.
                  seq-Triple {Q = On Seen} (modify-Triple _ (λ t p. p)) (
                    report-again call changes project project_id
                      (record result { snapshot_saved = true }) facts.0.0 quiet unchanged found
                      facts.0.1 facts.1)))))))

Outcome-always : {S A : Type 0} (P : S → Type 0) (r : Result A × S) → Outcome (λ _. P) P r → P r.1
Outcome-always P (ok a, t) p = p
Outcome-always P (err exc, t) p = p

Outcome-ok :
    {S A : Type 0} (P : S → Type 0) (r : Result A × S) (a : A)
    → r.0 ≡ ok a
    → Outcome (λ _. P) (λ _. Unit) r
    → P r.1
Outcome-ok P (ok a, t) a' e p = p
Outcome-ok P (err exc, t) a' e p = ground (arith, e)

module _ {G B : Type 0} (deps : Deps G B) (P : B → Type 0)
    (kept : (ingest : SourceArtifact → (project_id : ℕ) → G × B → Result Unit × (G × B))
        (artifact : SourceArtifact) (i : ℕ) (g : G) (b : B)
      → deps.document_ingestion ≡ some ingest
      → P b
      → P (ingest artifact i (g, b)).1.1) where
  -- For a property of the event bus that every ingestion of a document keeps: a call in the mode
  -- BOOTSTRAP keeps it, whatever it returns or raises, and whatever the event bus makes of an event.
  pub ingest-bootstrap :
      (now : ℕ) (s : Snapshot) (call : IngestionCall) (st : Store G B)
      → call.mode ≡ IngestionMode.bootstrap
      → P st.event_bus
      → P (ingest_work_item_snapshot deps now s call st).1.event_bus
  ingest-bootstrap now s call st e p =
      Outcome-always _ (ingest_work_item_snapshot deps now s call st)
        ((ingest-Silent deps s P kept now call e).run st p)

module _ {G B : Type 0} (deps : Deps G B) where
  -- A call that returned, with a project resolved, in a store that has each attachment once and under
  -- its id and no attachment under an id that is still to be given out, is followed by another call
  -- with the same snapshot that does not publish what is unchanged and whose project is resolved among
  -- the same projects. The second call leaves the event bus as the first one left it, whatever it
  -- returns or raises, so it ingests no document again; and if it returns then its result says that
  -- nothing was created and lists no change.
  pub ingest-again :
      (now now' project_id project_id' : ℕ) (s : Snapshot) (call call' : IngestionCall)
      (st : Store G B) (result : OpenProjectIngestionResult)
      → IsFiled st.next_id st.attachments
      → project_of s call.project_id st.projects ≡ some project_id
      → project_of s call'.project_id st.projects ≡ some project_id'
      → call'.publish_unchanged ≡ false
      → (ingest_work_item_snapshot deps now s call st).0 ≡ ok result
      → let first = (ingest_work_item_snapshot deps now s call st).1 in
        Outcome
          (λ r t. (t.event_bus ≡ first.event_bus) × (r.created ≡ false) × (r.changes ≡ []))
          (λ t. t.event_bus ≡ first.event_bus)
          (ingest_work_item_snapshot deps now' s call' first)
  ingest-again now now' project_id project_id' s call call' st result filed e e' quiet returned =
      let left = ingest_work_item_snapshot deps now s call st in
      let ready = Outcome-ok (Ready deps s st.projects) left result returned (
        (ingest-Ready deps s now project_id call st.projects e).run st
          (refl, (filed, λ y m. absurd m))) in
      (weaken-Triple (λ r t p. (p.1.0, p.0.0, p.0.1)) (λ t p. p.0)
          (ingest-Seen deps s left.1.event_bus now' project_id' call' st.projects e' quiet)).run
        left.1 (ready, refl)
