-- ===== src/Domain.antt =====
-- The records that the services share: brain/domain/external_reference.py, projects.py, work_items.py,
-- work_item_relations.py, repositories.py and verification.py. Ids are numbers, and texts that no
-- operation looks into are `String`. Of an execution (brain/domain/executions.py) the
-- parts that the services read.
pub mod Work
pub mod Software
use development_brain.Prelude.{ℕ, String, Bool, Option, List, Eq, eq_of_discrete}

pub record ExternalReference : Type 0 where
  pub provider : String
  pub external_id : String
  pub external_type : Option String
  pub url : Option String
  pub namespace : Option String

pub data ProjectStatus : Type 0 where
  planned active paused archived : ProjectStatus

pub record Project : Type 0 where
  pub id : ℕ
  pub name : String
  pub description : Option String
  pub status : ProjectStatus
  pub parent_id : Option ℕ
  pub repositories : List ℕ
  pub external_refs : List ExternalReference

pub record Repository : Type 0 where
  pub id : ℕ
  pub project_id : ℕ
  pub name : String
  pub clone_url : String
  pub default_branch : String
  pub current_revision : Option String
  pub external_refs : List ExternalReference

pub data Priority : Type 0 where
  low medium high urgent critical : Priority

pub data WorkItemType : Type 0 where
  epic feature story task bug investigation refactoring : WorkItemType
  verification documentation operations : WorkItemType

pub data HumanWorkStatus : Type 0 where
  new in_progress blocked finished cancelled : HumanWorkStatus

pub data ImplementationStatus : Type 0 where
  not_started in_progress code_modified implemented implemented_unverified : ImplementationStatus

pub data VerificationStatus : Type 0 where
  not_verified passed partial failed blocked : VerificationStatus

pub data PullRequestStatus : Type 0 where
  not_created created approved merged rejected : PullRequestStatus

pub record AcceptanceCriterion : Type 0 where
  pub id : ℕ
  pub description : String
  pub satisfied : Bool

pub record WorkItem : Type 0 where
  pub id : ℕ
  pub project_id : ℕ
  pub type : WorkItemType
  pub title : String
  pub description : String
  pub priority : Option Priority
  pub parent_id : Option ℕ
  pub assignee : Option ℕ
  pub acceptance_criteria : List AcceptanceCriterion
  pub requirement_refs : List ℕ
  pub external_refs : List ExternalReference
  pub human_work_status : HumanWorkStatus
  pub implementation_status : ImplementationStatus
  pub verification_status : VerificationStatus
  pub pull_request_status : PullRequestStatus

pub data VerificationVerdict : Type 0 where
  pass partial fail blocked : VerificationVerdict

-- The results of the single checks, which nothing reads, are left out.
pub record VerificationResult : Type 0 where
  pub id : ℕ
  pub execution_id : ℕ
  pub verdict : VerificationVerdict
  pub issues : List String

pub record Execution : Type 0 where
  pub id : ℕ
  pub workflow_id : ℕ
  pub work_item_id : ℕ
  pub executor_id : ℕ
  pub correlation_id : ℕ
  pub base_branch : Option String
  pub working_branch : Option String
  pub worktree_path : Option String
