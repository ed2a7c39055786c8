-- ===== src/Context/Texts.antt =====
-- What the candidates of brain/application/context_engine.py say, and how well a symbol fits.
use development_brain.Prelude.{
  ℕ, Bool, false, ◌||◌, Option, none, some, List, [], ◌∷◌, ◌++◌, map, keep, any, contains, length,
  ltb, ◌==◌, nat_eq, list_eq, string_eq, if◌then◌else◌,
}
use development_brain.Prelude.Text.{Text, codes, lower, contains_text, strip}
use development_brain.Domain.{WorkItem}
use development_brain.Planning.{Requirement}
use development_brain.CodeGraph.{Symbol}
use development_brain.KnowledgeGraph.{label_eq}
use development_brain.Context.{ContextCategory}
use development_brain.Context.Tokens.{split_words}

-- `sep.join(texts)`
unfoldable pub join : Text → List Text → Text
join sep [] = []
join sep (t ∷ []) = t
join sep (t ∷ u ∷ ts) = t ++ (sep ++ join sep (u ∷ ts))

unfoldable pub concepts : Text → List Text
concepts text = keep (λ word. ltb 2 (length word)) (split_words (lower text))

unfoldable pub work_item_text : (show_id : ℕ → Text) → Option WorkItem → ℕ → Text
work_item_text show_id none i = codes "work item " ++ show_id i
work_item_text show_id (some w) i = strip (codes w.title ++ (10 ∷ codes w.description))

unfoldable pub requirement_text : Requirement → Text
requirement_text r =
    let k : Text = elim r.key [ none ↦ [] | some k ↦ k ] in
    strip (k ++ (codes ": " ++ (r.title ++ (10 ∷ r.description))))

abbrev part : Option Text → List Text
part none = []
part (some []) = []
part (some (c ∷ cs)) = (c ∷ cs) ∷ []

abbrev parameter_part : List Text → List Text
parameter_part [] = []
parameter_part (p ∷ ps) = (codes "(" ++ (join (codes ", ") (p ∷ ps) ++ codes ")")) ∷ []

unfoldable pub symbol_text : Symbol → Text
unfolding join
symbol_text s = join (32 ∷ []) (
    s.qualified_name
    ∷ (parameter_part s.parameters
        ++ (map (λ t. codes " -> " ++ t) (part s.return_annotation) ++ part s.docstring)))

unfoldable pub symbol_reason : Symbol → (related_files : List Text) → Text
symbol_reason s files =
    if contains files s.path
    then codes "contains primary impacted symbol"
    else codes "symbol in repository at revision"

unfoldable pub documents_concept : Option Text → Text → Bool
unfolding concepts
documents_concept none query = false
documents_concept (some doc) query = any (λ word. contains_text word (lower doc)) (concepts query)

unfoldable pub symbol_score : Symbol → (query_text : Text) → ℕ
unfolding documents_concept
symbol_score s query =
    let lowered = lower query in
    if contains_text (lower s.name) lowered || contains_text (lower s.qualified_name) lowered
    then 900
    else if documents_concept s.docstring query
    then 600
    else 300

unfoldable pub category_for_entity_type : Text → ContextCategory
category_for_entity_type entity_type =
    let lowered = lower entity_type in
    if lowered == codes "documentnode"
    then ContextCategory.architecture
    else if lowered == codes "requirement"
    then ContextCategory.requirements
    else if lowered == codes "decision"
    then ContextCategory.architecture
    else ContextCategory.source_code
