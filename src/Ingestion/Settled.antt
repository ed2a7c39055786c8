-- ===== src/Ingestion/Settled.antt =====
-- The saved snapshot and the work item that a call of `ingest_work_item_snapshot` leaves.
use development_brain.Prelude.{
  ℕ, ◌≡◌, refl, ◌∙◌, ap, Option, none, some, List, string_eq, option_eq, nat_eq, beq_refl, arith,
}
use development_brain.Prelude.Dict
use development_brain.Errors.{Result}
use development_brain.Domain.{Project, WorkItem}
use development_brain.Repositories.{Collection, rows_by}
use development_brain.Sync.Pull.{Snapshot}
use development_brain.Ingestion.{
  SemanticChange, OpenProjectIngestionResult, Store, Deps, get_snapshot, save_snapshot,
}
use development_brain.Ingestion.Effects.{on_bus}
use development_brain.Ingestion.WorkItems.{project_of}
use development_brain.Ingestion.Service.{
  IngestionCall, is_bootstrap, report, store_item, publish_item, publish_fact,
  should_trigger_assignment, ingest_work_item_snapshot,
}
use development_brain.Ingestion.Triples.{
  Triple, bind-Triple, seq-Triple, pure-Triple, asks-Triple, modify-Triple, option-Triple,
  if-Triple, fact-Triple, weaken-Triple, Outcome-kept,
}
use development_brain.Prelude.{◌⊎◌, String}
use development_brain.Ingestion.Attached.{Holds-suc}
use development_brain.Ingestion.Reconciling.{Held, Listed, reconcile_attachments-Held}
use development_brain.Ingestion.Frames.{On}
use development_brain.Ingestion.Identity.{Known, upsert-Known}
use development_brain.Ingestion.Writes.{ingest_item-Triple}

get-save_snapshot :
    (s : Snapshot) (rows : Dict.Dict _ Snapshot)
    → get_snapshot s.external_id (save_snapshot s rows) ≡ some s
unfolding get_snapshot save_snapshot
get-save_snapshot s rows =
    Dict.get-insert rows s.external_id s.external_id s ∙ rw (beq_refl s.external_id) refl

module _ {G B : Type 0} (deps : Deps G B) (s : Snapshot) where
  -- The projects are ps, and the item of the snapshot is known.
  abbrev pub Named : Collection Project → Collection WorkItem → Collection Project → Type 0
  Named ps ws ps' = Known s.external_id ws × (ps' ≡ ps)

  abbrev pub Listing : String → Type 0
  Listing y = ⊥ ⊎ Listed deps s.attachments y

  -- The snapshot is saved, its item is known, and its attachments are found.
  abbrev pub Ready : Collection Project → Store G B → Type 0
  Ready ps t =
      (get_snapshot s.external_id t.snapshots ≡ some s) × On (Held deps (Named ps) Listing) t

  -- The projects are ps, and the attachments are filed.
  abbrev pub Start : Collection Project → Store G B → Type 0
  Start ps t = On (Held deps (λ ws ps'. ps' ≡ ps) (λ y. ⊥)) t

  store_item-Named :
      (now : ℕ) (changes : List SemanticChange) (ps : Collection Project) (project : Option ℕ)
      (project_id : ℕ)
      → project ≡ some project_id
      → Triple
          (Start ps)
          (store_item deps now s changes project)
          (λ _. On (Held deps (Named ps) Listing))
          (λ _. Unit)
  unfolding store_item rows_by
  store_item-Named now changes ps none project_id e = ground (arith, e)
  store_item-Named now changes ps (some i) project_id e =
      weaken-Triple (λ r t p. p.1) (λ t p. tt)
        (ingest_item-Triple deps s (Held deps (Named ps) (λ y. ⊥)) (Held deps (Named ps) Listing)
          (λ b ws ps' w c p. ((upsert-Known s.external_id ws w c, p.0.1), p.1))
          (λ b fs n ws ps' p. (p.0, Holds-suc (λ y. ⊥) n fs p.1))
          (λ b ws ps' p. (p.0, (p.1.0, λ y m. absurd m)))
          (λ w. reconcile_attachments-Held deps (Named ps) (λ y. ⊥) w s.attachments 0)
          (Held deps (λ ws ps'. ps' ≡ ps) (λ y. ⊥)) (λ created. Unit)
          (λ b ws ps' w p e. (tt, ((λ n. ground (arith, n, e), p.0), p.1)))
          (λ b ws ps' w p e c. (tt, ((upsert-Known s.external_id ws w c, p.0), p.1)))
          (λ b fs n ws ps' p. (p.0, Holds-suc (λ y. ⊥) n fs p.1)) now i changes)

  on_bus-Ready :
      (ps : Collection Project) (call : B → Result Unit × B)
      → Triple (Ready ps) (on_bus call) (λ _. Ready ps) (λ _. Unit)
  unfolding on_bus
  on_bus-Ready ps call =
      weaken-Triple (λ r t p. p) (λ t p. tt)
        (record { run = λ t p. Outcome-kept (Ready ps) (call t.event_bus).0 _ p })

  publish_item-Ready :
      (ps : Collection Project) (call : IngestionCall) (changes : List SemanticChange) (i : ℕ)
      (w : WorkItem) (result : OpenProjectIngestionResult)
      → Triple (Ready ps) (publish_item deps call s changes i w result) (λ _. Ready ps) (λ _. Unit)
  unfolding publish_item
  publish_item-Ready ps call changes i w result = seq-Triple (on_bus-Ready ps _) (
      if-Triple
        (should_trigger_assignment deps.brain_actor_id s changes result.created
          call.provider_action)
        (seq-Triple (on_bus-Ready ps _) (pure-Triple _ (λ t p. p))) (pure-Triple _ (λ t p. p)))

  publish_fact-Ready :
      (ps : Collection Project) (call : IngestionCall) (changes : List SemanticChange)
      (result : OpenProjectIngestionResult)
      → Triple (Ready ps) (publish_fact deps call s changes result) (λ _. Ready ps) (λ _. Unit)
  unfolding publish_fact
  publish_fact-Ready ps call changes result =
      seq-Triple (on_bus-Ready ps _) (pure-Triple _ (λ t p. p))

  report-Ready :
      (ps : Collection Project) (call : IngestionCall) (changes : List SemanticChange)
      (project_id : Option ℕ) (result : OpenProjectIngestionResult)
      → Triple (Ready ps) (report deps call s changes project_id result) (λ _. Ready ps) (λ _. Unit)
  unfolding report
  report-Ready ps call changes project_id result =
      if-Triple (is_bootstrap call.mode) (pure-Triple _ (λ t p. p)) (
        option-Triple project_id (λ _. publish_fact-Ready ps call changes result)
          (λ i _.
            option-Triple result.work_item (λ _. publish_fact-Ready ps call changes result)
              (λ w _.
                if-Triple _ (pure-Triple _ (λ t p. p))
                  (publish_item-Ready ps call changes i w result))))

  pub ingest-Ready :
      (now project_id : ℕ) (call : IngestionCall) (ps : Collection Project)
      → project_of s call.project_id ps ≡ some project_id
      → Triple (Start ps) (ingest_work_item_snapshot deps now s call) (λ _. Ready ps) (λ _. Unit)
  unfolding ingest_work_item_snapshot
  ingest-Ready now project_id call ps e =
      bind-Triple {Q = λ changes. Start ps} (asks-Triple _ (λ t p. p)) (λ changes.
        bind-Triple {Q = λ project t. (project ≡ some project_id) × Start ps t}
          (asks-Triple _ (λ t p. (ap (project_of s call.project_id) p.0 ∙ e, p)))
          (λ project. fact-Triple (λ found.
            bind-Triple (store_item-Named now changes ps project project_id found) (λ result.
              seq-Triple {Q = Ready ps}
                (modify-Triple _ (λ t p. (get-save_snapshot s t.snapshots, p)))
                (report-Ready ps call changes project _)))))
