-- ===== src/Context/Samples.antt =====
-- A task, a symbol and an execution of the past, in a budget that the last one would exceed.
use development_brain.Prelude.{
  ℕ, ◌≤◌, ◌≡◌, String, true, false, none, some, List, [], ◌∷◌, All, arith,
}
use development_brain.Prelude.Dict
use development_brain.Prelude.Text.{Text, codes, lower, is_space}
use development_brain.Context.{
  ContextType, ContextCategory, RetrievalSource, ContextRequest, ContextCandidate, rank, build_from,
}
use development_brain.Context.Tokens.{estimate, split_words, ratio_of}
use development_brain.Context.Allocation.{tokens, IsAccounted}
use development_brain.Context.Budget.{Picks, build_from-bounded}

abbrev request : ContextRequest
request = record {
  work_item_id = 1;
  project_id = some 1;
  repository_id = none;
  revision = none;
  context_type = ContextType.coding;
  preferred_token_budget = 100;
  max_total_tokens = 5;
  include_history = true;
  include_verification_feedback = false;
}

abbrev candidate : String → ContextCategory → ℕ → ContextCandidate
candidate content category relevance = record {
  entity_id = 1;
  entity_type = codes "WorkItem";
  content = codes content;
  reason = [];
  retrieval_source = RetrievalSource.work_item;
  relevance_score = relevance;
  trust_score = 500;
  freshness = 500;
  token_estimate = 0;
  category = category;
}

abbrev candidates : List ContextCandidate
candidates =
    candidate "an execution" ContextCategory.history 500
    ∷ candidate "a task" ContextCategory.task 1000
    ∷ candidate "a symbol" ContextCategory.source_code 900
    ∷ []

abbrev default_estimate : Text → ℕ
default_estimate text = estimate text (codes "default")

estimates : All (λ c. default_estimate c.content ≤ 4) candidates
unfolding estimate split_words ratio_of lower is_space Dict.get
estimates = omega arith

build_from-bounded_example :
    let capsule = (build_from default_estimate 7 request true candidates []).0.capsule in
    Picks default_estimate (rank candidates) capsule.candidates
    × (capsule.total_tokens ≡ tokens capsule.candidates)
    × (capsule.total_tokens ≤ 5)
    × All (IsAccounted 4 capsule.candidates) capsule.allocations
build_from-bounded_example =
    build_from-bounded default_estimate 7 request true candidates [] 4 estimates
