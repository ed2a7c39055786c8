-- ===== src/Repositories.antt =====
-- brain/adapters/in_memory/base.py and brain/adapters/in_memory/repositories.py: keyed collections, and
-- the repositories of the state that wrap them. The lock of a collection is left out: each method is
-- one step.
pub mod Refinement
pub mod Relations
pub mod Catalog
pub mod Classification
mod Samples
use development_brain.Prelude.{
  ℕ, String, Bool, true, false, ◌&&◌, ◌||◌, Option, none, some, List, [], ◌∷◌, keep, any, ◌==◌,
  nat_eq, string_eq, if◌then◌else◌,
}
use development_brain.Prelude.Dict
use development_brain.Prelude.Dict.{Dict}
use development_brain.Domain.{
  ExternalReference, Project, Repository, WorkItem, Execution, VerificationResult,
}
use development_brain.Domain.Work.{
  Comment, Attachment, Actor, Decision, Evidence, Artifact, Document, DocumentVersion, DocumentNode,
}
use development_brain.Planning.{Requirement}

abbrev pub Collection : Type 0 → Type 0
Collection A = Dict ℕ A

module _ {A : Type 0} where
  unfoldable pub upsert : A → ℕ → Collection A → Collection A
  upsert item item_id items = Dict.insert items item_id item

  unfoldable pub get_item : ℕ → Collection A → Option A
  get_item item_id items = Dict.get items item_id

  unfoldable pub list_all : Collection A → List A
  list_all items = Dict.values items

  unfoldable pub delete_item : ℕ → Collection A → Collection A
  delete_item item_id items = Dict.remove items item_id

-- The operations that the repositories have in common, on the rows of one of them.
pub record Rows (A : Type 0) : Type 0 where
  pub create : A → Collection A → Collection A
  pub get : ℕ → Collection A → Option A
  pub all : Collection A → List A
  pub update : A → Collection A → Collection A
  pub delete : ℕ → Collection A → Collection A

-- Created and updated under the id of the record.
unfoldable pub rows_by : {A : Type 0} → (A → ℕ) → Rows A
rows_by id_of = record {
  create = λ a rows. upsert a (id_of a) rows;
  get = get_item;
  all = list_all;
  update = λ a rows. upsert a (id_of a) rows;
  delete = delete_item;
}

-- Of what a repository does not offer, its record makes no use: `delete` of executions, evidence,
-- artifacts, verification results, comments, attachments.
abbrev pub project_rows : Rows Project
project_rows = rows_by (λ p. p.id)

abbrev pub repository_rows : Rows Repository
repository_rows = rows_by (λ r. r.id)

abbrev pub actor_rows : Rows Actor
actor_rows = rows_by (λ a. a.id)

abbrev pub work_item_rows : Rows WorkItem
work_item_rows = rows_by (λ w. w.id)

abbrev pub requirement_rows : Rows Requirement
requirement_rows = rows_by (λ r. r.id)

abbrev pub document_rows : Rows Document
document_rows = rows_by (λ d. d.id)

abbrev pub version_rows : Rows DocumentVersion
version_rows = rows_by (λ v. v.id)

abbrev pub node_rows : Rows DocumentNode
node_rows = rows_by (λ n. n.id)

abbrev pub execution_rows : Rows Execution
execution_rows = rows_by (λ e. e.id)

abbrev pub decision_rows : Rows Decision
decision_rows = rows_by (λ d. d.id)

abbrev pub evidence_rows : Rows Evidence
evidence_rows = rows_by (λ e. e.id)

abbrev pub artifact_rows : Rows Artifact
artifact_rows = rows_by (λ a. a.id)

abbrev pub result_rows : Rows VerificationResult
result_rows = rows_by (λ r. r.id)

abbrev pub comment_rows : Rows Comment
comment_rows = rows_by (λ c. c.id)

abbrev pub attachment_rows : Rows Attachment
attachment_rows = rows_by (λ a. a.id)

-- An optional id is this one.
abbrev pub has_id : Option ℕ → ℕ → Bool
has_id none i = false
has_id (some j) i = j == i

abbrev pub has_text : Option String → String → Bool
has_text none t = false
has_text (some s) t = s == t

-- No type asked for, or this one.
abbrev pub of_type : Option String → Option String → Bool
of_type none type = true
of_type (some t) type = has_text type t

-- The reference is the provider's, with the id, and of the type if one is given.
unfoldable pub refers : (provider external_id : String) → Option String → ExternalReference → Bool
refers provider external_id external_type ref =
    ref.provider == provider
    && (ref.external_id == external_id && of_type external_type ref.external_type)

-- The first record with such a reference.
unfoldable pub first_with_ref :
    {A : Type 0} → (A → List ExternalReference) → (ExternalReference → Bool) → List A → Option A
first_with_ref refs_of test [] = none
first_with_ref refs_of test (a ∷ rest) =
    let later = first_with_ref refs_of test rest in if any test (refs_of a) then some a else later

unfoldable pub find_project :
    (provider external_id : String) → Option String → Collection Project → Option Project
find_project provider external_id external_type rows =
    first_with_ref (λ p. p.external_refs) (refers provider external_id external_type)
      (list_all rows)

unfoldable pub find_work_item :
    (provider external_id : String) → Option String → Collection WorkItem → Option WorkItem
find_work_item provider external_id external_type rows =
    first_with_ref (λ w. w.external_refs) (refers provider external_id external_type)
      (list_all rows)

unfoldable pub find_comment :
    (provider external_id : String) → Option String → Collection Comment → Option Comment
find_comment provider external_id external_type rows =
    first_with_ref (λ c. c.external_refs) (refers provider external_id external_type)
      (list_all rows)

unfoldable pub find_attachment :
    (provider external_id : String) → Option String → Collection Attachment → Option Attachment
find_attachment provider external_id external_type rows =
    first_with_ref (λ a. a.external_refs) (refers provider external_id external_type)
      (list_all rows)

unfoldable pub repositories_of_project : ℕ → Collection Repository → List Repository
repositories_of_project i rows = keep (λ r. r.project_id == i) (list_all rows)

unfoldable pub work_items_of_project : ℕ → Collection WorkItem → List WorkItem
work_items_of_project i rows = keep (λ w. w.project_id == i) (list_all rows)

unfoldable pub children_of_work_item : ℕ → Collection WorkItem → List WorkItem
children_of_work_item i rows = keep (λ w. has_id w.parent_id i) (list_all rows)

unfoldable pub requirements_of_project : ℕ → Collection Requirement → List Requirement
requirements_of_project i rows = keep (λ r. r.project_id == i) (list_all rows)

unfoldable pub documents_of_project : ℕ → Collection Document → List Document
documents_of_project i rows = keep (λ d. d.project_id == i) (list_all rows)

unfoldable pub first_from : (project_id : ℕ) (uri : String) → List Document → Option Document
first_from i uri [] = none
first_from i uri (d ∷ ds) =
    let later = first_from i uri ds in
    if d.project_id == i && d.source.uri == uri then some d else later

unfoldable pub find_by_source :
    (project_id : ℕ) (uri : String) → Collection Document → Option Document
find_by_source i uri rows = first_from i uri (list_all rows)

unfoldable pub versions_of : ℕ → Collection DocumentVersion → List DocumentVersion
versions_of i rows = keep (λ v. v.document_id == i) (list_all rows)

unfoldable pub nodes_of : ℕ → Collection DocumentNode → List DocumentNode
nodes_of i rows = keep (λ n. n.version_id == i) (list_all rows)

unfoldable pub executions_of_work_item : ℕ → Collection Execution → List Execution
executions_of_work_item i rows = keep (λ e. e.work_item_id == i) (list_all rows)

unfoldable pub decisions_of_project : ℕ → Collection Decision → List Decision
decisions_of_project i rows = keep (λ d. d.project_id == i) (list_all rows)

unfoldable pub evidence_of_execution : ℕ → Collection Evidence → List Evidence
evidence_of_execution i rows = keep (λ e. e.execution_id == i) (list_all rows)

unfoldable pub artifacts_of_project : ℕ → Collection Artifact → List Artifact
artifacts_of_project i rows = keep (λ a. a.project_id == i) (list_all rows)

unfoldable pub results_of_execution : ℕ → Collection VerificationResult → List VerificationResult
results_of_execution i rows = keep (λ r. r.execution_id == i) (list_all rows)

unfoldable pub comments_of_work_item : ℕ → Collection Comment → List Comment
comments_of_work_item i rows = keep (λ c. c.work_item_id == i) (list_all rows)

unfoldable pub attachments_of_work_item : ℕ → Collection Attachment → List Attachment
attachments_of_work_item i rows = keep (λ a. a.work_item_id == i) (list_all rows)
