-- ===== src/Domain/Work.antt =====
-- What hangs on a work item or a project: brain/domain/work_item_relations.py, comments.py,
-- attachments.py, actors.py, decisions.py, evidence.py, artifacts.py, documents.py, sync_watermark.py
-- and bootstrap_state.py. Times that nothing reads, payloads and source references are left out.
use development_brain.Prelude.{ℕ, String, Bool, Option, List, Eq, eq_of_discrete}
use development_brain.Domain.{ExternalReference}

pub data WorkItemRelationType : Type 0 where
  parent_of blocks relates_to precedes follows : WorkItemRelationType

unfoldable pub WorkItemRelationType-discrete : Discrete WorkItemRelationType
WorkItemRelationType-discrete = hlevel

instance abbrev pub relation_type_eq : Eq WorkItemRelationType
relation_type_eq = eq_of_discrete WorkItemRelationType-discrete

pub record WorkItemRelation : Type 0 where
  pub id : ℕ
  pub source_work_item_id : ℕ
  pub target_work_item_id : ℕ
  pub relation_type : WorkItemRelationType
  pub external_refs : List ExternalReference

pub data CommentKind : Type 0 where
  context feedback : CommentKind

pub record Comment : Type 0 where
  pub id : ℕ
  pub work_item_id : ℕ
  pub author_id : Option ℕ
  pub author_name : Option String
  pub text : String
  pub kind : CommentKind
  pub external_refs : List ExternalReference

pub record Attachment : Type 0 where
  pub id : ℕ
  pub work_item_id : ℕ
  pub file_name : String
  pub content_type : String
  pub file_size : Option ℕ
  pub download_url : Option String
  pub content_ingested : Bool
  pub external_refs : List ExternalReference

pub data ActorType : Type 0 where
  human agent automation system ci : ActorType

pub record Actor : Type 0 where
  pub id : ℕ
  pub actor_type : ActorType
  pub display_name : String
  pub capabilities : List String

pub data DecisionStatus : Type 0 where
  proposed accepted superseded rejected deprecated : DecisionStatus

pub record Decision : Type 0 where
  pub id : ℕ
  pub project_id : ℕ
  pub title : String
  pub context : String
  pub decision : String
  pub alternatives : List String
  pub consequences : List String
  pub status : DecisionStatus
  pub external_refs : List ExternalReference

pub data EvidenceType : Type 0 where
  test_result git_diff build_output lint_result static_analysis verification_report : EvidenceType
  runtime_observation command_output observation blocker trace : EvidenceType

pub record Evidence : Type 0 where
  pub id : ℕ
  pub execution_id : ℕ
  pub evidence_type : EvidenceType
  pub source : String
  pub artifact_id : Option ℕ

pub data ArtifactType : Type 0 where
  source_file patch commit build test_report container_image configuration : ArtifactType
  document trace coverage_report diff : ArtifactType

pub record Artifact : Type 0 where
  pub id : ℕ
  pub project_id : ℕ
  pub artifact_type : ArtifactType
  pub uri : Option String
  pub checksum : Option String
  pub repository_id : Option ℕ
  pub commit_sha : Option String
  pub execution_id : Option ℕ

pub data DocumentType : Type 0 where
  readme requirements architecture adr api_spec general : DocumentType

pub record DocumentSource : Type 0 where
  pub provider : String
  pub uri : String
  pub mime_type : Option String
  pub external_ref : Option ExternalReference

pub record Document : Type 0 where
  pub id : ℕ
  pub project_id : ℕ
  pub type : DocumentType
  pub title : String
  pub source : DocumentSource
  pub current_version_id : Option ℕ
  pub external_refs : List ExternalReference

pub record DocumentVersion : Type 0 where
  pub id : ℕ
  pub document_id : ℕ
  pub source_version : Option String
  pub repository_id : Option ℕ
  pub commit_sha : Option String
  pub checksum : String
  pub ingested_at : ℕ
  pub content_uri : Option String

pub data DocumentNodeType : Type 0 where
  section paragraph code_block table bullets front_matter : DocumentNodeType
  adr_context adr_decision adr_alternatives adr_consequences : DocumentNodeType

pub record DocumentNode : Type 0 where
  pub id : ℕ
  pub version_id : ℕ
  pub node_type : DocumentNodeType
  pub title : Option String
  pub heading_path : List String
  pub content : String
  pub parent_id : Option ℕ
  pub child_ids : List ℕ
  pub code_refs : List String
  pub requirement_refs : List ℕ
  pub work_item_refs : List ℕ
  pub links : List String
  pub unresolved_refs : List String

pub record ProviderSyncWatermark : Type 0 where
  pub provider : String
  pub sync_key : String
  pub last_synced_at : Option ℕ
  pub last_external_id : Option String
  pub bootstrap_completed_at : Option ℕ

pub data BootstrapStatus : Type 0 where
  connected discovering ingesting building_graph establishing_baseline : BootstrapStatus
  ready live_sync failed : BootstrapStatus

pub data BootstrapStage : Type 0 where
  discover_projects fetch_work_items resolve_relations ingest_comments : BootstrapStage
  ingest_attachments build_graph establish_baseline complete : BootstrapStage

pub record ProviderBootstrapState : Type 0 where
  pub project_id : ℕ
  pub provider : String
  pub status : BootstrapStatus
  pub stage : BootstrapStage
  pub last_page : ℕ
  pub items_processed : ℕ
  pub last_error : Option String
