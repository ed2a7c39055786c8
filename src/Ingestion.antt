-- ===== src/Ingestion.antt =====
-- brain/application/openproject_ingestion.py with `diff_snapshots` of
-- brain/application/openproject_parser.py and brain/adapters/in_memory/openproject_snapshot.py. The service acts
-- on the repositories in memory, on a world G that holds the graph and the documents, and on an event
-- bus B, on which the ingestion of a document publishes as well; their calls are what it is built with, and may raise. A generated id is the next number of a
-- supply. How an object or an enumeration is written out, the number that a text stands for, and the id that uuid5
-- gives a user of the provider are parameters. A size that is no number counts as none.
pub mod Effects
pub mod Records
pub mod Projection
pub mod Attachments
pub mod WorkItems
pub mod Links
pub mod Service
pub mod Comments
pub mod Projects
pub mod Triples
pub mod Attached
pub mod Frames
pub mod Identity
pub mod Reconciling
pub mod Repeating
pub mod Writes
pub mod Settled
pub mod Again
mod Samples
use development_brain.Prelude.{
  ℕ, String, Bool, true, false, Option, none, some, List, [], ◌∷◌, ◌++◌, ◌==◌, string_eq, option_eq,
  nat_eq, not, if◌then◌else◌,
}
use development_brain.Prelude.Dict
use development_brain.Prelude.Dict.{Dict}
use development_brain.Prelude.Object.{Object}
use development_brain.Prelude.Text.{Text}
use development_brain.Errors.{Result}
use development_brain.Domain.{Project, WorkItem, WorkItemType, HumanWorkStatus}
use development_brain.Domain.Work.{WorkItemRelation, Comment, Attachment, Actor}
use development_brain.Repositories.{Collection}
use development_brain.KnowledgeGraph.{GraphEntity, GraphRelation}
use development_brain.Sync.{Mappings}
use development_brain.Sync.Pull.{Snapshot}

pub data IngestionMode : Type 0 where
  bootstrap live : IngestionMode

pub data SemanticChange : Type 0 where
  summary_changed description_changed assignee_changed : SemanticChange
  state_changed priority_changed parent_changed : SemanticChange

-- The change, if the two values differ.
abbrev differs : Bool → SemanticChange → List SemanticChange
differs equal change = if equal then [] else change ∷ []

unfoldable pub diff_snapshots : Option Snapshot → Snapshot → List SemanticChange
diff_snapshots none current = []
diff_snapshots (some previous) current =
    differs (previous.summary == current.summary) SemanticChange.summary_changed
    ++ (differs (previous.description == current.description) SemanticChange.description_changed
        ++ (differs (previous.assignee_id == current.assignee_id) SemanticChange.assignee_changed
            ++ (differs (previous.state == current.state) SemanticChange.state_changed
                ++ (differs (previous.priority == current.priority) SemanticChange.priority_changed
                    ++ differs (previous.parent_id == current.parent_id)
                        SemanticChange.parent_changed))))

abbrev pub Snapshots : Type 0
Snapshots = Dict String Snapshot

unfoldable pub get_snapshot : String → Snapshots → Option Snapshot
get_snapshot external_id rows = Dict.get rows external_id

unfoldable pub save_snapshot : Snapshot → Snapshots → Snapshots
save_snapshot s rows = Dict.insert rows s.external_id s

-- The events, with what their envelopes carry: the source, the project and the correlation.
pub data IngestionEvent : Type 0 where
  work_item_created :
      WorkItem
      → List SemanticChange
      → Snapshot
      → (source : String) → (project_id : ℕ) → (correlation_id : Option ℕ) → IngestionEvent
  work_item_changed :
      WorkItem
      → List SemanticChange
      → Snapshot
      → (source : String) → (project_id : ℕ) → (correlation_id : Option ℕ) → IngestionEvent
  work_item_assigned :
      (work_item_id : ℕ) (external_actor_id : Option String) (source : String)
      → (correlation_id : Option ℕ) → IngestionEvent
  provider_fact :
      (created : Bool)
      → List SemanticChange
      → Snapshot
      → (source : String) → (correlation_id : Option ℕ) → IngestionEvent
  human_feedback_received :
      (work_item_id : Option ℕ) (author external_comment_id feedback source : String)
      → (correlation_id : Option ℕ) → IngestionEvent

pub data EventType : Type 0 where
  work_item_created work_item_changed : EventType

pub record OpenProjectIngestionResult : Type 0 where
  pub work_item : Option WorkItem
  pub created : Bool
  pub changes : List SemanticChange
  pub event_type : Option EventType
  pub assignment_triggered : Bool
  pub snapshot_saved : Bool
  pub comments_ingested : ℕ
  pub attachments_ingested : ℕ
  pub relations_ingested : ℕ

-- The file of an attachment, for the ingestion of documents.
pub record SourceArtifact : Type 0 where
  pub source_uri : String
  pub provider : String
  pub mime_type : String
  pub file_name : String
  pub content : Text

pub record Store (G B : Type 0) : Type 0 where
  pub projects : Collection Project
  pub work_items : Collection WorkItem
  pub actors : Collection Actor
  pub comments : Collection Comment
  pub attachments : Collection Attachment
  pub relations : Collection WorkItemRelation
  pub integrations : Mappings
  pub snapshots : Snapshots
  pub next_id : ℕ
  pub graph : G
  pub event_bus : B

pub record Deps (G B : Type 0) : Type 0 where
  pub publish : IngestionEvent → B → Result Unit × B
  pub upsert_entities : List GraphEntity → G → Result Unit × G
  pub upsert_relations : List GraphRelation → G → Result Unit × G
  pub content_fetcher : Option ((url : String) → G → Result Text × G)
  pub document_ingestion :
      Option (SourceArtifact → (project_id : ℕ) → G × B → Result Unit × (G × B))
  pub brain_actor_id : Option String
  pub actor_id : (user : String) → ℕ
  pub show : Object → String
  pub show_id : ℕ → String
  pub parse_int : String → Option ℕ
  pub type_value : WorkItemType → String
  pub status_value : HumanWorkStatus → String
