-- ===== src/Context.antt =====
-- brain/domain/context.py, brain/adapters/in_memory/context.py and the ranker, the allocator and
-- `_build_capsule` of brain/application/context_engine.py: what goes into a bounded context. Scores
-- are counted in thousandths, and weights in hundredths of the budget. Budgets are not negative.
-- Metadata, times, versions and the links to executions, which nothing reads, are left out, and so is
-- the count by categories that `_build_capsule` does not use.
pub mod Tokens
pub mod Texts
pub mod Gathering
pub mod Allocation
pub mod Budget
mod Samples
use development_brain.Prelude.{
  ℕ, ◌+◌, ◌-◌, ◌*◌, String, Bool, true, false, not, ◌&&◌, ◌||◌, Option, none, some, List, [], ◌∷◌,
  ◌++◌, map, keep, any, length, ltb, leb, ◌==◌, nat_eq, Eq, eq_of_discrete, if◌then◌else◌,
}
use Prim.Native.Nat.{◌/◌}
use development_brain.Prelude.Dict
use development_brain.Prelude.Dict.{Dict}
use development_brain.Prelude.Text.{Text}

pub data ContextType : Type 0 where
  planning coding verification : ContextType

pub data ContextCategory : Type 0 where
  task requirements architecture source_code tests history instructions : ContextCategory

unfoldable pub ContextCategory-discrete : Discrete ContextCategory
ContextCategory-discrete = hlevel

instance abbrev pub category_eq : Eq ContextCategory
category_eq = eq_of_discrete ContextCategory-discrete

pub data RetrievalSource : Type 0 where
  work_item requirement knowledge_graph code_graph semantic_search lexical_search : RetrievalSource
  git_history verification_feedback : RetrievalSource

pub record ContextRequest : Type 0 where
  pub work_item_id : ℕ
  pub project_id : Option ℕ
  pub repository_id : Option ℕ
  pub revision : Option Text
  pub context_type : ContextType
  pub preferred_token_budget : ℕ
  pub max_total_tokens : ℕ
  pub include_history : Bool
  pub include_verification_feedback : Bool

pub record ContextCandidate : Type 0 where
  pub entity_id : ℕ
  pub entity_type : Text
  pub content : Text
  pub reason : Text
  pub retrieval_source : RetrievalSource
  pub relevance_score : ℕ
  pub trust_score : ℕ
  pub freshness : ℕ
  pub token_estimate : ℕ
  pub category : ContextCategory

pub record BudgetAllocation : Type 0 where
  pub category : ContextCategory
  pub allocated_tokens : ℕ
  pub used_tokens : ℕ

unfoldable pub remaining : BudgetAllocation → ℕ
remaining a = a.allocated_tokens - a.used_tokens

pub record ContextCapsule : Type 0 where
  pub id : ℕ
  pub work_item_id : ℕ
  pub context_type : ContextType
  pub request : ContextRequest
  pub repository_id : Option ℕ
  pub revision : Option Text
  pub candidates : List ContextCandidate
  pub allocations : List BudgetAllocation
  pub total_tokens : ℕ
  pub model_budget_tokens : ℕ

unfoldable pub is_within_budget : ContextCapsule → Bool
is_within_budget c = leb c.total_tokens c.model_budget_tokens

abbrev pub Capsules : Type 0
Capsules = Dict ℕ ContextCapsule

unfoldable pub save_capsule : ContextCapsule → Capsules → Capsules
save_capsule c capsules = Dict.insert capsules c.id c

unfoldable pub get_capsule : ℕ → Capsules → Option ContextCapsule
get_capsule i capsules = Dict.get capsules i

unfoldable pub list_capsules_for_work_item : ℕ → Capsules → List ContextCapsule
list_capsules_for_work_item i capsules = keep (λ c. c.work_item_id == i) (Dict.values capsules)

unfoldable pub delete_capsule : ℕ → Capsules → Capsules
delete_capsule i capsules = Dict.remove capsules i

-- The key of the first candidate is at most that of the second. Fewer tokens are the greater key.
unfoldable pub ranks_below : ContextCandidate → ContextCandidate → Bool
ranks_below c d =
    ltb c.relevance_score d.relevance_score
    || (c.relevance_score == d.relevance_score
        && (ltb c.trust_score d.trust_score
            || (c.trust_score == d.trust_score
                && (ltb c.freshness d.freshness
                    || (c.freshness == d.freshness && leb d.token_estimate c.token_estimate)))))

insert_ranked : ContextCandidate → List ContextCandidate → List ContextCandidate
insert_ranked c [] = c ∷ []
insert_ranked c (d ∷ ds) =
    let later = d ∷ insert_ranked c ds in if ranks_below d c then c ∷ d ∷ ds else later

-- The greatest key first; candidates of one key stay in their order.
unfoldable pub rank : List ContextCandidate → List ContextCandidate
unfolding insert_ranked
rank [] = []
rank (c ∷ cs) = insert_ranked c (rank cs)

abbrev pub default_weights : List (ContextCategory × ℕ)
default_weights =
    (ContextCategory.task, 15)
    ∷ (ContextCategory.requirements, 15)
    ∷ (ContextCategory.architecture, 15)
    ∷ (ContextCategory.source_code, 30)
    ∷ (ContextCategory.tests, 10)
    ∷ (ContextCategory.history, 5)
    ∷ (ContextCategory.instructions, 10)
    ∷ []

unfoldable pub allocate_from :
    (total_budget : ℕ) → List ContextCandidate → List (ContextCategory × ℕ) → List BudgetAllocation
allocate_from total candidates [] = []
allocate_from total candidates ((category, weight) ∷ weights) =
    let rest = allocate_from total candidates weights in
    let allocation : BudgetAllocation = record {
      category = category;
      allocated_tokens = (total * weight) / 100;
      used_tokens = 0;
    } in
    if any (λ c. c.category == category) candidates then allocation ∷ rest else rest

unfoldable pub allocate : (total_budget : ℕ) → List ContextCandidate → List BudgetAllocation
unfolding allocate_from
allocate total candidates = allocate_from total candidates default_weights

-- The first allocation of the category.
unfoldable pub allocation_for : ContextCategory → List BudgetAllocation → Option BudgetAllocation
allocation_for category [] = none
allocation_for category (a ∷ as') =
    let later = allocation_for category as' in if a.category == category then some a else later

unfoldable pub is_exhausted : ContextCategory → List BudgetAllocation → Bool
unfolding allocation_for remaining
is_exhausted category allocations = elim (allocation_for category allocations) [
  | none ↦ false
  | some a ↦ leb (remaining a) 0
]

-- The tokens go to the first allocation of the category, if there is one.
unfoldable pub charge : ContextCategory → ℕ → List BudgetAllocation → List BudgetAllocation
charge category n [] = []
charge category n (a ∷ as') =
    let later = a ∷ charge category n as' in
    if a.category == category then (record a { used_tokens = a.used_tokens + n }) ∷ as' else later

pub record Filling : Type 0 where
  pub included : List ContextCandidate
  pub total : ℕ
  pub allocations : List BudgetAllocation

module _ (estimate : Text → ℕ) (model_budget : ℕ) where
  unfoldable pub take_in : ContextCandidate → Filling → Filling
  take_in c s =
      let n = estimate c.content in
      record {
        included = s.included ++ (record c { token_estimate = n } ∷ []);
        total = s.total + n;
        allocations = charge c.category n s.allocations;
      }

  -- The loop over the ranked candidates.
  unfoldable pub fill : List ContextCandidate → Filling → Filling
  unfolding take_in
  fill [] s = s
  fill (c ∷ cs) s =
      let skipped = fill cs s in
      let taken = fill cs (take_in c s) in
      if is_exhausted c.category s.allocations
      then skipped
      else if ltb model_budget (s.total + estimate c.content)
      then s
      else taken

unfoldable pub build_capsule :
    (estimate : Text → ℕ) (id : ℕ)
    → ContextRequest
    → (ranked : List ContextCandidate) → List BudgetAllocation
    → ContextCapsule
unfolding fill
build_capsule estimate id request ranked allocations =
    let s =
      fill estimate request.max_total_tokens ranked
        (record { included = []; total = 0; allocations = allocations }) in
    record {
      id = id;
      work_item_id = request.work_item_id;
      context_type = request.context_type;
      request = request;
      repository_id = request.repository_id;
      revision = request.revision;
      candidates = s.included;
      allocations = s.allocations;
      total_tokens = s.total;
      model_budget_tokens = request.max_total_tokens;
    }

pub record BuildResult : Type 0 where
  pub capsule : ContextCapsule
  pub candidates_gathered : ℕ
  pub candidates_included : ℕ

-- `build` on what was gathered; `persist` says whether the capsule is saved.
unfoldable pub build_from :
    (estimate : Text → ℕ) (id : ℕ)
    → ContextRequest
    → (persist : Bool) → List ContextCandidate
    → Capsules
    → BuildResult × Capsules
unfolding rank allocate build_capsule save_capsule
build_from estimate id request persist candidates capsules =
    let ranked = rank candidates in
    let allocations = allocate request.preferred_token_budget ranked in
    let capsule = build_capsule estimate id request ranked allocations in
    let result : BuildResult = record {
      capsule = capsule;
      candidates_gathered = length candidates;
      candidates_included = length capsule.candidates;
    } in
    (result, if persist then save_capsule capsule capsules else capsules)
