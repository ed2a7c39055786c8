-- ===== src/Context/Gathering.antt =====
-- `build` and `_gather_candidates` of brain/application/context_engine.py, over the repositories in memory,
-- the code graph and the knowledge graph. How ids, values and enumerations are written out, the
-- texts of executions and of their results, and hybrid retrieval are parameters.
use development_brain.Prelude.{
  ℕ, String, Bool, ◌||◌, Option, none, some, List, [], ◌∷◌, ◌++◌, map, keep, ◌==◌, nat_eq, list_eq,
  string_eq, if◌then◌else◌,
}
use development_brain.Prelude.Dict
use development_brain.Prelude.Object.{Object}
use development_brain.Prelude.Text.{Text, codes}
use development_brain.Domain.{WorkItem, Execution, VerificationResult}
use development_brain.Planning.{Requirement}
use development_brain.Repositories.{
  Collection, get_item, executions_of_work_item, results_of_execution,
}
use development_brain.CodeGraph.{Symbol, SymbolKind, CodeGraph, list_symbols, is_test_file}
use development_brain.Impact.{analyze}
use development_brain.KnowledgeGraph.{
  GraphLabel, label_eq, GraphEntity, KnowledgeGraph, find_entities,
}
use development_brain.Context.{
  ContextCategory, RetrievalSource, ContextRequest, ContextCandidate, Capsules, BuildResult,
  build_from,
}
use development_brain.Context.Texts.{
  join, work_item_text, requirement_text, symbol_text, symbol_reason, symbol_score,
  category_for_entity_type,
}

-- A result of hybrid retrieval.
pub record RetrievalCandidate : Type 0 where
  pub entity_id : ℕ
  pub entity_type : Text
  pub text : Text
  pub reason : Text
  pub retrieval_source : Text
  pub relevance_score : ℕ
  pub trust_score : ℕ

-- The fields of the candidates of one source.
abbrev candidate :
    ℕ
    → (entity_type content reason : Text) → RetrievalSource
    → (relevance trust : ℕ) → ContextCategory
    → ContextCandidate
candidate entity_id entity_type content reason source relevance trust category = record {
  entity_id = entity_id;
  entity_type = entity_type;
  content = content;
  reason = reason;
  retrieval_source = source;
  relevance_score = relevance;
  trust_score = trust;
  freshness = 500;
  token_estimate = 0;
  category = category;
}

unfoldable pub hit_candidate : RetrievalCandidate → ContextCandidate
unfolding category_for_entity_type
hit_candidate hit =
    candidate hit.entity_id hit.entity_type hit.text hit.reason
      (if hit.retrieval_source == codes "semantic"
        then RetrievalSource.semantic_search
        else RetrievalSource.lexical_search)
      hit.relevance_score hit.trust_score (category_for_entity_type hit.entity_type)

unfoldable pub symbol_candidate :
    (query_text : Text) (related_files : List Text) → Symbol → ContextCandidate
unfolding symbol_text symbol_reason symbol_score
symbol_candidate query files s =
    candidate s.id (codes "Symbol") (symbol_text s) (symbol_reason s files)
      RetrievalSource.code_graph (symbol_score s query) 800
      (if is_test_file s.path then ContextCategory.tests else ContextCategory.source_code)

unfoldable pub requirement_candidates : Collection Requirement → List ℕ → List ContextCandidate
unfolding requirement_text
requirement_candidates rows [] = []
requirement_candidates rows (i ∷ is) =
    let rest = requirement_candidates rows is in
    elim (get_item i rows) [
      | none ↦ rest
      | some r ↦
          candidate r.id (codes "Requirement") (requirement_text r)
            (codes "requirement referenced by task") RetrievalSource.requirement 950 900
            ContextCategory.requirements
          ∷ rest
    ]

unfoldable pub is_near : GraphEntity → Bool
is_near e =
    e.label == GraphLabel.decision
    || (e.label == GraphLabel.requirement || e.label == GraphLabel.component)

-- What the engine is built with.
pub record Sources : Type 0 where
  pub requirements : Collection Requirement
  pub executions : Collection Execution
  pub verification_results : Collection VerificationResult
  pub code_graph : CodeGraph
  pub knowledge_graph : KnowledgeGraph
  pub capsules : Capsules

module _ (show_id : ℕ → Text) (kind_value : SymbolKind → Text) (label_value : GraphLabel → Text)
    (is_set : Object → Bool) (show : Object → Text) (execution_text : Execution → Text)
    (result_text : VerificationResult → Text)
    (retrieve : (query : Text)
      → (project_id : ℕ) → Option ℕ
      → Option Text
      → List RetrievalCandidate) where
  unfoldable pub property_parts : GraphEntity → List String → List Text
  property_parts e [] = []
  property_parts e (k ∷ ks) =
      let rest = property_parts e ks in
      elim (Dict.get e.properties k) [
        | none ↦ rest
        | some v ↦ if is_set v then show v ∷ rest else rest
      ]

  unfoldable pub entity_text : GraphEntity → Text
  unfolding property_parts join
  entity_text e =
      join (32 ∷ []) (label_value e.label ∷ property_parts e ("name" ∷ "path" ∷ "title" ∷ []))

  unfoldable pub code_candidates :
      ContextRequest → (query_text : Text) → CodeGraph → List ContextCandidate
  unfolding symbol_candidate
  code_candidates request query graph = elim request.repository_id [
    | none ↦ []
    | some repository ↦ elim request.revision [
      | none ↦ []
      | some revision ↦
          let impact = analyze show_id kind_value repository revision [] graph in
          map (symbol_candidate query impact.related_files) (list_symbols repository revision graph)
    ]
  ]

  unfoldable pub result_candidates :
      Sources → (with_feedback : Bool) → Execution → List ContextCandidate
  result_candidates sources with_feedback e =
      if with_feedback
      then map
          (λ r.
            candidate r.id (codes "VerificationResult") (result_text r)
              (codes "verification feedback") RetrievalSource.verification_feedback 600 900
              ContextCategory.tests)
          (results_of_execution e.id sources.verification_results)
      else []

  unfoldable pub history_candidates :
      ContextRequest → Sources → List Execution → List ContextCandidate
  unfolding result_candidates
  history_candidates request sources [] = []
  history_candidates request sources (e ∷ es) =
      candidate e.id (codes "Execution") (execution_text e) (codes "previous execution history")
        RetrievalSource.git_history 500 700 ContextCategory.history
      ∷ (result_candidates sources request.include_verification_feedback e
          ++ history_candidates request sources es)

  unfoldable pub gather_candidates :
      ContextRequest → Option WorkItem → Sources → List ContextCandidate
  unfolding work_item_text requirement_candidates hit_candidate code_candidates history_candidates
      entity_text is_near
  gather_candidates request work_item sources =
      let query = work_item_text show_id work_item request.work_item_id in
      let primary =
        candidate request.work_item_id (codes "WorkItem") query (codes "primary task")
          RetrievalSource.work_item 1000 1000 ContextCategory.task in
      let required : List ContextCandidate = elim work_item [
        | none ↦ []
        | some w ↦ requirement_candidates sources.requirements w.requirement_refs
      ] in
      let found : List ContextCandidate = elim request.project_id [
        | none ↦ []
        | some p ↦ map hit_candidate (retrieve query p request.repository_id request.revision)
      ] in
      let past =
        if request.include_history
        then history_candidates request sources
            (executions_of_work_item request.work_item_id sources.executions)
        else [] in
      let near : List ContextCandidate = elim request.project_id [
        | none ↦ []
        | some p ↦
            map
              (λ e.
                candidate e.id (label_value e.label) (entity_text e)
                  (codes "knowledge graph entity") RetrievalSource.knowledge_graph 500 600
                  ContextCategory.architecture)
              (keep is_near (find_entities sources.knowledge_graph none (some p) none))
      ] in
      primary
      ∷ (required
          ++ (found ++ (code_candidates request query sources.code_graph ++ (past ++ near))))

  -- `id` is that of the new capsule.
  unfoldable pub build :
      (estimate : Text → ℕ) (id : ℕ)
      → ContextRequest
      → (persist : Bool) → Collection WorkItem
      → Sources
      → BuildResult × Sources
  unfolding gather_candidates
  build estimate id request persist work_items sources =
      let work_item = get_item request.work_item_id work_items in
      let candidates = gather_candidates request work_item sources in
      let (result, capsules) = build_from estimate id request persist candidates sources.capsules in
      (result, record sources { capsules = capsules })
