-- ===== src/Ingestion/Samples.antt =====
-- A snapshot with a parent that is unknown, an assignee and an attachment, taken in twice.
use mathlib.Core.Path.{subst}
use development_brain.Prelude.{All, ℕ, String, ◌++◌}
use development_brain.Ingestion.{SourceArtifact}
use development_brain.Prelude.{◌≡◌, refl, true, false, none, some, List, [], ◌∷◌, ◌++◌}
use development_brain.Prelude.Dict
use development_brain.Prelude.Object.{Object, Fields}
use development_brain.Errors.{Result, ok}
use development_brain.Domain.{
  Project, ProjectStatus, ImplementationStatus, VerificationStatus, PullRequestStatus,
}
use development_brain.Repositories.{
  rows_by, get_item, upsert, list_all, first_with_ref, find_work_item, find_attachment, refers,
}
use development_brain.Prelude.{any}
use development_brain.Prelude.Text.{codes}
use development_brain.Sync.Mapping.{map_work_item_type, map_human_work_status, map_priority}
use development_brain.Ingestion.{
  OpenProjectIngestionResult, diff_snapshots, get_snapshot, save_snapshot,
}
use development_brain.Ingestion.Effects.{
  after, ◌>>=◌, ◌>>◌, pure, asks, modify, guarded, fresh, on_graph, on_bus,
}
use development_brain.Ingestion.Records.{
  text_or, text_of, openproject_ref, text_of_object, truthy, raw_get, lookup,
}
use development_brain.Ingestion.Projection.{project_subgraph, project_subgraph_inner}
use development_brain.Ingestion.Attachments.{
  reconcile_attachments, reconcile_attachment, add_attachment, ingest_attachment_content,
  upsert_attachment_edges, new_attachment,
}
use development_brain.Sync.Pull.{Snapshot}
use development_brain.Ingestion.{IngestionMode, IngestionEvent, Store, Deps}
use development_brain.Ingestion.Service.{
  IngestionCall, ingest_work_item_snapshot, store_item, ingest_item, report, publish_item,
  should_trigger_assignment, event_is_created, is_bootstrap,
}
use development_brain.Ingestion.WorkItems.{
  project_of, find_or_create_work_item, create_work_item, apply_snapshot, resolve_assignee,
  actor_of, find_package, new_work_item, applied,
}
use development_brain.Ingestion.Links.{
  resolve_parent, resolve_relations, with_parent, parent_number,
}
use development_brain.Ingestion.Triples.{Outcome}
use development_brain.Ingestion.Again.{ingest-bootstrap, ingest-again}

-- What stands on the bus: the events of the service, and those of the ingestion of documents.
data Published : Type 0 where
  of_service : IngestionEvent → Published
  document_changed : (source_uri : String) → Published

abbrev IsDocument : Published → Type 0
IsDocument (of_service e) = ⊥
IsDocument (document_changed uri) = Unit

IsDocument-append :
    (bus : List Published) (uri : String)
    → All IsDocument bus
    → All IsDocument (bus ++ (document_changed uri ∷ []))
IsDocument-append [] uri h = (tt, tt)
IsDocument-append (e ∷ bus) uri (h, hs) = (h, IsDocument-append bus uri hs)

abbrev snapshot : Snapshot
snapshot = record {
  external_id = "7";
  summary = "A task";
  description = "";
  type = "task";
  priority = "";
  state = "in progress";
  closed = false;
  project_id = none;
  project_name = none;
  assignee_id = some "5";
  assignee_name = none;
  parent_id = some 3;
  attachments = Object.dict (Fields.field "id" (Object.str "9") Fields.end) ∷ [];
  relations = [];
  activities_url = none;
  created_at = none;
  updated_at = none;
}

-- The graph raises nothing and stays as it is; the bus keeps what is published.
abbrev shown : Object → String
shown (Object.str t) = t
shown _ = "9"

abbrev document_ingestion :
    SourceArtifact → ℕ → Unit {0} × List Published → Result Unit × (Unit {0} × List Published)
document_ingestion artifact i (g, bus) =
    (ok tt, (g, bus ++ (document_changed artifact.source_uri ∷ [])))

abbrev deps : Deps Unit (List Published)
deps = record {
  publish = λ e bus. (ok tt, bus ++ (of_service e ∷ []));
  upsert_entities = λ es g. (ok tt, g);
  upsert_relations = λ rs g. (ok tt, g);
  content_fetcher = some (λ url g. (ok (codes "a text"), g));
  document_ingestion = some document_ingestion;
  brain_actor_id = some "5";
  actor_id = λ user. 100;
  show = shown;
  show_id = λ i. "0";
  parse_int = λ t. none;
  type_value = λ t. "task";
  status_value = λ t. "new";
}

documents_only :
    (ingest : SourceArtifact
      → ℕ
      → Unit {0} × List Published
      → Result Unit × (Unit {0} × List Published))
    (artifact : SourceArtifact) (i : ℕ) (g : Unit) (bus : List Published)
    → deps.document_ingestion ≡ some ingest
    → All IsDocument bus
    → All IsDocument (ingest artifact i (g, bus)).1.1
documents_only ingest artifact i g bus e h =
    let q : document_ingestion ≡ ingest = cc in
    subst (λ f. All IsDocument (f artifact i (g, bus)).1.1) q
      (IsDocument-append bus artifact.source_uri h)

abbrev project : Project
project = record {
  id = 1;
  name = "P";
  description = none;
  status = ProjectStatus.planned;
  parent_id = none;
  repositories = [];
  external_refs = [];
}

abbrev store : Store Unit (List Published)
store = record {
  projects = (1, project) ∷ [];
  work_items = [];
  actors = [];
  comments = [];
  attachments = [];
  relations = [];
  integrations = [];
  snapshots = [];
  next_id = 2;
  graph = tt;
  event_bus = [];
}

abbrev call : IngestionMode → IngestionCall
call mode = record {
  mode = mode;
  source = "pull";
  correlation_id = none;
  project_id = some 1;
  provider_action = none;
  publish_unchanged = false;
}

-- An attachment of which the text is ingested.
abbrev with_text : Snapshot
with_text = record snapshot {
  attachments =
      Object.dict (
        Fields.field "id" (Object.str "10") (
          Fields.field "content_type" (Object.str "text/plain")
            (Fields.field "download_url" (Object.str "https://files/10") Fields.end)))
      ∷ [];
}

ingest-bootstrap_example :
    All IsDocument
      (ingest_work_item_snapshot deps 0 with_text (call IngestionMode.bootstrap) store).1.event_bus
ingest-bootstrap_example =
    ingest-bootstrap deps (All IsDocument) documents_only 0 with_text (call IngestionMode.bootstrap)
      store refl tt

resolved : project_of snapshot (some 1) store.projects ≡ some 1
unfolding project_of rows_by get_item Dict.get
resolved = refl

abbrev result : OpenProjectIngestionResult
result = record {
  work_item = some (record {
    id = 2;
    project_id = 1;
    type = map_work_item_type (codes "task");
    title = "A task";
    description = "";
    priority = map_priority (codes "");
    parent_id = none;
    assignee = some 100;
    acceptance_criteria = [];
    requirement_refs = [];
    external_refs = openproject_ref "7" "work_package" ∷ [];
    human_work_status = map_human_work_status (codes "in progress");
    implementation_status = ImplementationStatus.not_started;
    verification_status = VerificationStatus.not_verified;
    pull_request_status = PullRequestStatus.not_created;
  });
  created = true;
  changes = [];
  event_type = none;
  assignment_triggered = false;
  snapshot_saved = true;
  comments_ingested = 0;
  attachments_ingested = 1;
  relations_ingested = 0;
}

returned :
    (ingest_work_item_snapshot deps 0 snapshot (call IngestionMode.bootstrap) store).0 ≡ ok result
unfolding ingest_work_item_snapshot store_item ingest_item find_or_create_work_item create_work_item
    apply_snapshot resolve_assignee actor_of resolve_parent resolve_relations reconcile_attachments
    reconcile_attachment add_attachment ingest_attachment_content upsert_attachment_edges
    project_subgraph project_subgraph_inner report publish_item after ◌>>=◌ ◌>>◌ pure asks modify
    guarded fresh on_graph on_bus diff_snapshots get_snapshot save_snapshot project_of find_package
    find_work_item first_with_ref list_all rows_by get_item upsert Dict.get Dict.insert Dict.values
    new_work_item text_or text_of openproject_ref applied with_parent parent_number new_attachment
    text_of_object truthy raw_get lookup find_attachment refers any should_trigger_assignment
    event_is_created is_bootstrap
returned = refl

ingest-again_example :
    let first =
      (ingest_work_item_snapshot deps 0 snapshot (call IngestionMode.bootstrap) store).1 in
    Outcome
      (λ r t. (t.event_bus ≡ first.event_bus) × (r.created ≡ false) × (r.changes ≡ []))
      (λ t. t.event_bus ≡ first.event_bus)
      (ingest_work_item_snapshot deps 5 snapshot (call IngestionMode.live) first)
ingest-again_example =
    ingest-again deps 0 5 1 1 snapshot (call IngestionMode.bootstrap) (call IngestionMode.live)
      store result (tt, tt) resolved resolved refl returned
