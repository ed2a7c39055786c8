-- ===== src/Ingestion/Service.antt =====
-- The operations of `OpenProjectIngestionService`. `now` is the time of a new mapping.
use development_brain.Prelude.{
  ℕ, String, Bool, true, false, not, ◌&&◌, ◌||◌, Option, none, some, List, [], ◌∷◌, any, ◌==◌,
  string_eq, nat_eq, option_eq, Eq, eq_of_discrete, if◌then◌else◌,
}
use development_brain.Domain.{WorkItem}
use development_brain.Sync.Pull.{Snapshot}
use development_brain.Ingestion.{
  IngestionMode, SemanticChange, IngestionEvent, EventType, OpenProjectIngestionResult, Store, Deps,
  diff_snapshots, get_snapshot, save_snapshot,
}
use development_brain.Ingestion.Effects.{M, ◌>>=◌, ◌>>◌, asks, modify, pure, on_bus}
use development_brain.Ingestion.Records.{text_of}
use development_brain.Ingestion.Projection.{project_subgraph}
use development_brain.Ingestion.Attachments.{reconcile_attachments}
use development_brain.Ingestion.WorkItems.{
  find_package, project_of, find_or_create_work_item, apply_snapshot,
}
use development_brain.Ingestion.Links.{resolve_parent, resolve_relations}

unfoldable pub SemanticChange-discrete : Discrete SemanticChange
SemanticChange-discrete = hlevel

instance abbrev pub change_eq : Eq SemanticChange
change_eq = eq_of_discrete SemanticChange-discrete

-- Whether the provider says that the item is new, or else whether it is new here.
unfoldable pub event_is_created : (created : Bool) → (provider_action : Option String) → Bool
event_is_created created none = created
event_is_created created (some action) = action == "work_package:created"

unfoldable pub should_trigger_assignment :
    (brain_actor_id : Option String)
    → Snapshot
    → List SemanticChange
    → (created : Bool) → (provider_action : Option String) → Bool
unfolding text_of event_is_created
should_trigger_assignment brain s changes created action =
    not (text_of brain == "")
    && (not (text_of s.assignee_id == "")
        && (text_of s.assignee_id == text_of brain
            && (event_is_created created action
                || any (λ c. c == SemanticChange.assignee_changed) changes)))

unfoldable pub is_bootstrap : IngestionMode → Bool
is_bootstrap IngestionMode.bootstrap = true
is_bootstrap IngestionMode.live = false

abbrev no_result : OpenProjectIngestionResult
no_result = record {
  work_item = none;
  created = false;
  changes = [];
  event_type = none;
  assignment_triggered = false;
  snapshot_saved = false;
  comments_ingested = 0;
  attachments_ingested = 0;
  relations_ingested = 0;
}

abbrev event_type_of : Bool → EventType
event_type_of true = EventType.work_item_created
event_type_of false = EventType.work_item_changed

-- What a call of `ingest_work_item_snapshot` is given besides the snapshot.
pub record IngestionCall : Type 0 where
  pub mode : IngestionMode
  pub source : String
  pub correlation_id : Option ℕ
  pub project_id : Option ℕ
  pub provider_action : Option String
  pub publish_unchanged : Bool

module _ {G B : Type 0} (deps : Deps G B) where
  -- What is stored of a snapshot in a project.
  unfoldable pub ingest_item :
      (now project_id : ℕ)
      → Snapshot
      → List SemanticChange
      → M (Store G B) OpenProjectIngestionResult
  ingest_item now project_id s changes = do
    (w, created) ← find_or_create_work_item deps now project_id s
    applied ← apply_snapshot deps w s
    placed ← resolve_parent deps applied s
    relations ← resolve_relations deps placed s.external_id s.relations 0
    attachments ← reconcile_attachments deps placed s.attachments 0
    project_subgraph deps placed
    pure (record no_result {
      work_item = some placed;
      created = created;
      changes = changes;
      attachments_ingested = attachments;
      relations_ingested = relations;
    })

  -- The event of a snapshot with a work item, and the assignment if it is one.
  unfoldable pub publish_item :
      IngestionCall
      → Snapshot
      → List SemanticChange
      → (project_id : ℕ) → WorkItem
      → OpenProjectIngestionResult
      → M (Store G B) OpenProjectIngestionResult
  unfolding event_is_created should_trigger_assignment
  publish_item call s changes project_id w result =
      let created = event_is_created result.created call.provider_action in
      let event =
        if created
        then IngestionEvent.work_item_created w changes s call.source project_id call.correlation_id
        else IngestionEvent.work_item_changed w changes s call.source project_id
            call.correlation_id in
      let assigned =
        IngestionEvent.work_item_assigned w.id s.assignee_id call.source call.correlation_id in
      let told : OpenProjectIngestionResult = record result {
        event_type = some (event_type_of created);
      } in
      on_bus (deps.publish event)
      >> (if should_trigger_assignment deps.brain_actor_id s changes result.created
            call.provider_action
          then (on_bus (deps.publish assigned)
              >> pure (record told { assignment_triggered = true }))
          else pure told)

  unfoldable pub publish_fact :
      IngestionCall
      → Snapshot
      → List SemanticChange
      → OpenProjectIngestionResult
      → M (Store G B) OpenProjectIngestionResult
  unfolding event_is_created
  publish_fact call s changes result =
      let created = event_is_created result.created call.provider_action in
      on_bus (
        deps.publish
          (IngestionEvent.provider_fact created changes s call.source call.correlation_id))
      >> pure (record result { event_type = some (event_type_of created) })

  abbrev is_empty : List SemanticChange → Bool
  is_empty [] = true
  is_empty (c ∷ cs) = false

  -- What is published, after the snapshot was saved.
  unfoldable pub report :
      IngestionCall
      → Snapshot
      → List SemanticChange
      → (project_id : Option ℕ) → OpenProjectIngestionResult
      → M (Store G B) OpenProjectIngestionResult
  unfolding publish_item publish_fact is_bootstrap
  report call s changes project_id result =
      let quiet = not call.publish_unchanged && (not result.created && is_empty changes) in
      let live : M (Store G B) OpenProjectIngestionResult =
        elim project_id as (λ _. M (Store G B) OpenProjectIngestionResult) [
          | none ↦ publish_fact call s changes result
          | some p ↦ elim result.work_item as (λ _. M (Store G B) OpenProjectIngestionResult) [
            | none ↦ publish_fact call s changes result
            | some w ↦ if quiet then pure result else publish_item call s changes p w result
          ]
        ] in
      if is_bootstrap call.mode then pure result else live

  -- The part of a call before the snapshot is saved.
  unfoldable pub store_item :
      (now : ℕ)
      → Snapshot
      → List SemanticChange
      → (project_id : Option ℕ) → M (Store G B) OpenProjectIngestionResult
  unfolding ingest_item
  store_item now s changes none = pure no_result
  store_item now s changes (some p) = ingest_item now p s changes

  unfoldable pub ingest_work_item_snapshot :
      (now : ℕ) → Snapshot → IngestionCall → M (Store G B) OpenProjectIngestionResult
  unfolding store_item report
  ingest_work_item_snapshot now s call = do
    changes ← asks (λ st. diff_snapshots (get_snapshot s.external_id st.snapshots) s)
    project ← asks (λ st. project_of s call.project_id st.projects)
    result ← store_item now s changes project
    modify (λ st. record st { snapshots = save_snapshot s st.snapshots })
    report call s changes project (record result { snapshot_saved = true })

  -- The second pass over a batch, after all its items exist.
  unfoldable pub resolve_relationships : List Snapshot → M (Store G B) Unit
  resolve_relationships [] = pure tt
  resolve_relationships (s ∷ snapshots) =
      asks (λ st. find_package s.external_id st.work_items) >>= λ found.
      elim found as (λ _. M (Store G B) Unit) [
        | none ↦ resolve_relationships snapshots
        | some w ↦ resolve_parent deps w s >>= λ placed.
            resolve_relations deps placed s.external_id s.relations 0 >>= λ _.
            project_subgraph deps placed >> resolve_relationships snapshots
      ]
