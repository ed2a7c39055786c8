-- ===== src/Planning/Service.antt =====
-- brain/application/planning.py: from requirements to a validated plan.
use development_brain.Prelude.{
  ℕ, ◌+◌, Bool, true, false, not, Option, none, some, List, [], ◌∷◌, ◌++◌, map, keep, any, contains,
  length, unique, ltb, ◌==◌, nat_eq, list_eq, if◌then◌else◌,
}
use development_brain.Prelude.Dict
use development_brain.Prelude.Dict.{Dict}
use development_brain.Prelude.Text.{Text, codes, lower, contains_text, strip, sort_texts}
use development_brain.Planning.{
  Requirement, RequirementClarity, ImplementationStatus, PlanItemType, PlanStatus, Remark,
  AmbiguityAssessment, ItemEvidence, PlanItem, PlanEvidence, PlanError, Plan, Plans, save_plan,
  is_nil, is_given, list_if,
}
use development_brain.Planning.Keywords.{keywords_of}

unfoldable pub clarity_of : (missing reasons : Bool) → RequirementClarity
clarity_of true reasons = RequirementClarity.missing_info
clarity_of false true = RequirementClarity.ambiguous
clarity_of false false = RequirementClarity.clear

-- In tenths.
unfoldable pub risk_of : RequirementClarity → ℕ
risk_of RequirementClarity.clear = 2
risk_of RequirementClarity.ambiguous = 6
risk_of RequirementClarity.missing_info = 8

unfoldable pub assumptions_for : Requirement → List Remark
assumptions_for r =
    list_if (is_nil r.description) Remark.description_assumed
    ++ list_if (not (is_given r.priority)) Remark.priority_assumed

unfoldable pub assess_one : (Text → List Text) → Requirement → AmbiguityAssessment
assess_one find_ambiguous r =
    let text = r.title ++ (32 ∷ r.description) in
    let words = find_ambiguous text in
    let reasons =
      list_if (not (is_nil words)) (Remark.ambiguous_wording (sort_texts (unique words))) in
    let missing =
      list_if (ltb (length (strip text)) 20) Remark.too_terse
      ++ (list_if (is_nil r.acceptance_criteria) Remark.no_criteria
          ++ list_if (is_nil (strip r.title)) Remark.no_title) in
    let clarity = clarity_of (not (is_nil missing)) (not (is_nil reasons)) in
    record {
      requirement_id = r.id;
      clarity = clarity;
      reasons = reasons;
      missing_information = missing;
      assumptions = assumptions_for r;
      risk = risk_of clarity;
    }

unfoldable pub assess : (Text → List Text) → List Requirement → List AmbiguityAssessment
assess find_ambiguous [] = []
assess find_ambiguous (r ∷ rs) = assess_one find_ambiguous r ∷ assess find_ambiguous rs

unfoldable pub feature_title : Requirement → Text
feature_title r = elim (r.key) [
  | none ↦ r.title
  | some k ↦ if is_nil k then r.title else k ++ (codes ": " ++ r.title)
]

unfoldable pub item_for :
    (id project_id : ℕ) → PlanItemType → Text → Requirement → Option ℕ → ℕ → PlanItem
item_for id project_id item_type title r parent order = record {
  id = id;
  project_id = project_id;
  item_type = item_type;
  title = title;
  description = r.description;
  requirement_refs = r.id ∷ [];
  parent_id = parent;
  dependency_ids = [];
  acceptance_criteria = r.acceptance_criteria;
  implementation_status = ImplementationStatus.unknown;
  evidence = [];
  sort_order = order;
}

abbrev pub is_wanted : Option (List ℕ) → ℕ → Bool
is_wanted none i = true
is_wanted (some ids) i = contains ids i

-- `order` is the sort order of the last item; the supply's next id has the same number.
unfoldable pub decompose :
    (uuid : ℕ → ℕ) (project_id : ℕ) → Option (List ℕ) → ℕ → List Requirement → List PlanItem
decompose uuid p wanted order [] = []
decompose uuid p wanted order (r ∷ rs) =
    let skipped = decompose uuid p wanted order rs in
    let rest = decompose uuid p wanted (order + 3) rs in
    if is_wanted wanted r.id
    then item_for (uuid order) p PlanItemType.feature (feature_title r) r none (order + 1)
      ∷ item_for (uuid (order + 1)) p PlanItemType.story (codes "Implement: " ++ r.title) r
          (some (uuid order)) (order + 2)
      ∷ item_for (uuid (order + 2)) p PlanItemType.task (codes "Task for " ++ r.title) r
          (some (uuid (order + 1))) (order + 3)
      ∷ rest
    else skipped

-- Of the code graph, what the service reads: the symbols' names, and for each relation whether it
-- is TESTS and its two paths.
pub record CodeGraph : Type 0 where
  pub symbols : List Text
  pub relations : List (Bool × Text × Option Text)

-- `relation.target_path or relation.source_path`
abbrev pub target_or : Option Text → Text → Text
target_or none source = source
target_or (some []) source = source
target_or (some (c ∷ cs)) source = c ∷ cs

unfoldable pub test_paths : List (Bool × Text × Option Text) → List Text
test_paths [] = []
test_paths ((is_test, source, target) ∷ rs) =
    let rest = test_paths rs in if is_test then target_or target source ∷ rest else rest

unfoldable pub status_from : (has_tests matched : Bool) → ImplementationStatus
status_from false false = ImplementationStatus.not_implemented
status_from true true = ImplementationStatus.implemented_but_unverified
status_from false true = ImplementationStatus.partially_implemented
status_from true false = ImplementationStatus.unknown

unfoldable pub analyze_one : CodeGraph → PlanItem → PlanItem
analyze_one graph item =
    let words = keywords_of item.title item.description in
    let matched = keep (λ k. contains (map lower graph.symbols) k) words in
    let has_tests =
      any (λ path. any (λ k. contains_text k path) words) (test_paths graph.relations) in
    record item {
      evidence =
          list_if (not (is_nil matched)) (ItemEvidence.found_symbols matched)
          ++ list_if has_tests ItemEvidence.related_tests;
      implementation_status = status_from has_tests (not (is_nil matched));
    }

unfoldable pub analyze_existing : CodeGraph → List PlanItem → List PlanItem
analyze_existing graph [] = []
analyze_existing graph (i ∷ is) = analyze_one graph i ∷ analyze_existing graph is

-- A task that is implemented.
unfoldable pub is_done : PlanItemType → ImplementationStatus → Bool
is_done PlanItemType.task ImplementationStatus.implemented = true
is_done _ _ = false

unfoldable pub reconcile : List PlanItem → List PlanItem
reconcile items = keep (λ i. not (is_done i.item_type i.implementation_status)) items

unfoldable pub evidence_of : ℕ → PlanItem → List ℕ → List PlanEvidence
evidence_of plan_id item [] = []
evidence_of plan_id item (r ∷ rs) =
    record {
      plan_id = plan_id;
      source_requirement_id = r;
      item_type = item.item_type;
      item_title = item.title;
    }
    ∷ evidence_of plan_id item rs

unfoldable pub build_evidence : ℕ → List PlanItem → List PlanEvidence
build_evidence plan_id [] = []
build_evidence plan_id (i ∷ is) =
    evidence_of plan_id i i.requirement_refs ++ build_evidence plan_id is

unfoldable pub covered : List PlanItem → List ℕ
covered [] = []
covered (i ∷ is) = i.requirement_refs ++ covered is

unfoldable pub required : List AmbiguityAssessment → List ℕ
required [] = []
required (a ∷ as') = a.requirement_id ∷ required as'

-- `required - covered`; the message sorts it, which nothing reads.
unfoldable pub uncovered : List AmbiguityAssessment → List PlanItem → List ℕ
uncovered assessments items = keep (λ r. not (contains (covered items) r)) (required assessments)

unfoldable pub ids_of : List PlanItem → List ℕ
ids_of [] = []
ids_of (i ∷ is) = i.id ∷ ids_of is

unfoldable pub item_errors : List ℕ → List PlanItem → List PlanError
item_errors ids [] = []
item_errors ids (i ∷ is) =
    list_if (is_nil i.acceptance_criteria) (PlanError.without_criteria i.title)
    ++ (list_if (not (is_nil (keep (λ d. not (contains ids d)) i.dependency_ids)))
          (PlanError.missing_dependency i.title)
        ++ item_errors ids is)

unfoldable pub titles : List PlanItem → List Text
titles [] = []
titles (i ∷ is) = i.title ∷ titles is

abbrev pub seen_before : Option ℕ → ℕ
seen_before none = 0
seen_before (some n) = n

-- `seen_titles[title] = seen_titles.get(title, 0) + 1` for each title.
unfoldable pub count_titles : List Text → Dict Text ℕ → Dict Text ℕ
count_titles [] seen = seen
count_titles (t ∷ ts) seen =
    count_titles ts (Dict.insert seen t (seen_before (Dict.get seen t) + 1))

unfoldable pub repeated : Dict Text ℕ → List PlanError
repeated [] = []
repeated ((t, n) ∷ seen) = list_if (ltb 1 n) (PlanError.duplicate_title t) ++ repeated seen

unfoldable pub validate : List AmbiguityAssessment → List PlanItem → List PlanError
validate assessments items =
    let missing = uncovered assessments items in
    list_if (not (is_nil missing)) (PlanError.not_covered missing)
    ++ (item_errors (ids_of items) items ++ repeated (count_titles (titles items) []))

abbrev pub status_of : List PlanError → PlanStatus
status_of [] = PlanStatus.validated
status_of (e ∷ es) = PlanStatus.proposed

abbrev pub analyzed : Option CodeGraph → List PlanItem → List PlanItem
analyzed none items = items
analyzed (some graph) items = analyze_existing graph items

-- The graph is given when a repository and a revision are. The plan's id follows those of the items.
unfoldable pub build_plan :
    (find_ambiguous : Text → List Text) (uuid : ℕ → ℕ) (plan_id project_id : ℕ) (title : Text)
    → List Requirement
    → Option CodeGraph
    → (persist : Bool) → Plans
    → Plan × Plans
build_plan find_ambiguous uuid plan_id project_id title requirements graph persist plans =
    let own = keep (λ r. r.project_id == project_id) requirements in
    let assessments = assess find_ambiguous own in
    let items = reconcile (analyzed graph (decompose uuid project_id none 0 own)) in
    let errors = validate assessments items in
    let plan : Plan = record {
      id = plan_id;
      project_id = project_id;
      title = title;
      status = status_of errors;
      items = items;
      assessments = assessments;
      evidence = build_evidence plan_id items;
      validation_errors = errors;
    } in
    (plan, if persist then save_plan plan plans else plans)
