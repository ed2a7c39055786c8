-- ===== src/Planning.antt =====
-- brain/application/planning.py with brain/domain/planning.py, brain/domain/requirements.py and
-- brain/adapters/in_memory/planning.py: requirements, plans and their repository. The search by the
-- regular expression of ambiguous words is a parameter. Generated ids come from a supply, by their
-- number. A message that a list collects is a value of a data type; acceptance criteria are their
-- descriptions; a risk is counted in tenths. Times are left out.
pub mod Keywords
pub mod Service
pub mod Coverage
pub mod Duplicates
mod Samples
use development_brain.Prelude.{
  ℕ, zero, suc, ◌+◌, ◌<◌, Bool, true, false, not, ◌&&◌, ◌||◌, Option, none, some, List, [], ◌∷◌,
  ◌++◌, map, keep, any, contains, length, unique, ltb, ◌==◌, nat_eq, list_eq, if◌then◌else◌,
}
use development_brain.Prelude.Dict
use development_brain.Prelude.Dict.{Dict}
use development_brain.Prelude.Text.{Text, codes, lower, contains_text, strip, sort_texts}
use development_brain.Domain.{Priority}

pub record Requirement : Type 0 where
  pub id : ℕ
  pub project_id : ℕ
  pub key : Option Text
  pub title : Text
  pub description : Text
  pub priority : Option Priority
  pub acceptance_criteria : List Text

pub data RequirementClarity : Type 0 where
  clear ambiguous missing_info : RequirementClarity

pub data ImplementationStatus : Type 0 where
  not_implemented partially_implemented implemented : ImplementationStatus
  implemented_but_unverified incorrect unknown : ImplementationStatus

pub data PlanItemType : Type 0 where
  feature story task : PlanItemType

pub data PlanStatus : Type 0 where
  proposed validated rejected : PlanStatus

-- The messages of an assessment: ambiguous wording with the words, too terse, no criteria, no title;
-- the assumed description and the assumed priority.
pub data Remark : Type 0 where
  ambiguous_wording : List Text → Remark
  too_terse no_criteria no_title : Remark
  description_assumed priority_assumed : Remark

pub record AmbiguityAssessment : Type 0 where
  pub requirement_id : ℕ
  pub clarity : RequirementClarity
  pub reasons : List Remark
  pub missing_information : List Remark
  pub assumptions : List Remark
  pub risk : ℕ

pub data ItemEvidence : Type 0 where
  found_symbols : List Text → ItemEvidence
  related_tests : ItemEvidence

pub record PlanItem : Type 0 where
  pub id : ℕ
  pub project_id : ℕ
  pub item_type : PlanItemType
  pub title : Text
  pub description : Text
  pub requirement_refs : List ℕ
  pub parent_id : Option ℕ
  pub dependency_ids : List ℕ
  pub acceptance_criteria : List Text
  pub implementation_status : ImplementationStatus
  pub evidence : List ItemEvidence
  pub sort_order : ℕ

-- Whose note names the type and the title of the item.
pub record PlanEvidence : Type 0 where
  pub plan_id : ℕ
  pub source_requirement_id : ℕ
  pub item_type : PlanItemType
  pub item_title : Text

pub data PlanError : Type 0 where
  not_covered : List ℕ → PlanError
  without_criteria missing_dependency duplicate_title : Text → PlanError

pub record Plan : Type 0 where
  pub id : ℕ
  pub project_id : ℕ
  pub title : Text
  pub status : PlanStatus
  pub items : List PlanItem
  pub assessments : List AmbiguityAssessment
  pub evidence : List PlanEvidence
  pub validation_errors : List PlanError

abbrev pub Plans : Type 0
Plans = Dict ℕ Plan

unfoldable pub save_plan : Plan → Plans → Plans
save_plan plan plans = Dict.insert plans plan.id plan

unfoldable pub get_plan : ℕ → Plans → Option Plan
get_plan i plans = Dict.get plans i

unfoldable pub list_plans_for_project : ℕ → Plans → List Plan
list_plans_for_project i plans = keep (λ p. p.project_id == i) (Dict.values plans)

unfoldable pub delete_plan : ℕ → Plans → Plans
delete_plan i plans = Dict.remove plans i

abbrev pub is_nil {ℓ} : {A : Type ℓ} → List A → Bool
is_nil [] = true
is_nil (x ∷ xs) = false

abbrev pub is_given {ℓ} : {A : Type ℓ} → Option A → Bool
is_given none = false
is_given (some a) = true

abbrev pub list_if {ℓ} : {A : Type ℓ} → Bool → A → List A
list_if true a = a ∷ []
list_if false a = []
