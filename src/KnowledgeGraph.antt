-- ===== src/KnowledgeGraph.antt =====
-- brain/ports/knowledge_graph.py, brain/domain/graph_schema.py and
-- brain/adapters/in_memory/knowledge_graph.py: entities and typed relations, and the breadth-first
-- search over them. The provenance of a node or an edge, and the properties of an edge, which nothing
-- reads, are left out. Python leaves the order of a set open, so that the traversal of the set of a
-- list's items is a parameter.
pub mod Search
pub mod Links
pub mod Reachability
mod Samples
use development_brain.Prelude.{
  ℕ, zero, suc, String, Bool, true, false, not, ◌&&◌, ◌||◌, Option, none, some, List, [], ◌∷◌, ◌++◌,
  map, keep, contains, ◌==◌, nat_eq, string_eq, option_eq, Eq, eq_of_discrete, if◌then◌else◌,
}
use development_brain.Prelude.Dict
use development_brain.Prelude.Dict.{Dict}
use development_brain.Prelude.Object.{Object}

pub data GraphLabel : Type 0 where
  project requirement work_item decision system component interface : GraphLabel
  resource repository file symbol test document document_node execution : GraphLabel
  artifact evidence actor comment attachment : GraphLabel

unfoldable pub GraphLabel-discrete : Discrete GraphLabel
GraphLabel-discrete = hlevel

instance abbrev pub label_eq : Eq GraphLabel
label_eq = eq_of_discrete GraphLabel-discrete

pub data RelationType : Type 0 where
  part_of depends_on implements modifies constrains calls imports : RelationType
  reads writes provides consumes tests validates verified_by references : RelationType
  derived_from supersedes assigned_to produced_by service_calls : RelationType
  query_accesses publishes_to consumes_from parent_of blocks relates_to : RelationType
  precedes follows has_comment comment_on authored has_attachment : RelationType

unfoldable pub RelationType-discrete : Discrete RelationType
RelationType-discrete = hlevel

instance abbrev pub relation_type_eq : Eq RelationType
relation_type_eq = eq_of_discrete RelationType-discrete

pub record GraphEntity : Type 0 where
  pub id : ℕ
  pub label : GraphLabel
  pub project_id : Option ℕ
  pub properties : Dict String Object
  pub revision : Option String

pub record GraphRelation : Type 0 where
  pub subject_id : ℕ
  pub relation_type : RelationType
  pub object_id : ℕ
  pub revision : Option String

pub record KnowledgeGraph : Type 0 where
  pub entities : Dict ℕ GraphEntity
  pub relations_out : Dict ℕ (List GraphRelation)
  pub relations_in : Dict ℕ (List GraphRelation)

abbrev pub empty_graph : KnowledgeGraph
empty_graph = record { entities = []; relations_out = []; relations_in = [] }

unfoldable pub upsert_entities : List GraphEntity → KnowledgeGraph → KnowledgeGraph
upsert_entities [] g = g
upsert_entities (e ∷ es) g =
    upsert_entities es (record g { entities = Dict.insert g.entities e.id e })

-- The relations under a key, none if the key is not there.
unfoldable pub relations_at : Dict ℕ (List GraphRelation) → ℕ → List GraphRelation
relations_at d i = elim (Dict.get d i) [ none ↦ [] | some rs ↦ rs ]

-- `d.setdefault(i, []).append(r)`
unfoldable pub append_relation :
    Dict ℕ (List GraphRelation) → ℕ → GraphRelation → Dict ℕ (List GraphRelation)
unfolding relations_at
append_relation d i r = Dict.insert d i (relations_at d i ++ (r ∷ []))

unfoldable pub upsert_relations : List GraphRelation → KnowledgeGraph → KnowledgeGraph
upsert_relations [] g = g
upsert_relations (r ∷ rs) g = upsert_relations rs (record g {
  relations_out = append_relation g.relations_out r.subject_id r;
  relations_in = append_relation g.relations_in r.object_id r;
})

pub data Direction : Type 0 where
  forward reverse both : Direction

-- No value is asked for, or this one.
abbrev pub asked : {A : Type 0} ⦃e : Eq A⦄ → Option A → Option A → Bool
asked none a = true
asked (some b) a = a == some b

-- The relation is of the types and the revision that are asked for.
unfoldable pub admits : Option (List RelationType) → Option String → GraphRelation → Bool
admits none revision r = asked revision r.revision
admits (some types) revision r = contains types r.relation_type && asked revision r.revision

-- The other ends of the admitted relations at an entity.
unfoldable pub neighbors :
    KnowledgeGraph → Direction → Option (List RelationType) → Option String → ℕ → List ℕ
unfolding relations_at
neighbors g direction types revision i =
    let outwards =
      map (λ r. r.object_id) (keep (admits types revision) (relations_at g.relations_out i)) in
    let inwards =
      map (λ r. r.subject_id) (keep (admits types revision) (relations_at g.relations_in i)) in
    elim direction [ forward ↦ outwards | reverse ↦ inwards | both ↦ outwards ++ inwards ]

-- The neighbours of a frontier that were not reached, as often as they are met.
unfoldable pub next_frontier : (ℕ → List ℕ) → List ℕ → List ℕ → List ℕ
next_frontier around reached [] = []
next_frontier around reached (i ∷ frontier) =
    keep (λ j. not (contains reached j)) (around i) ++ next_frontier around reached frontier

-- What is reached from the frontier in as many rounds as are left.
unfoldable pub search_levels : (ℕ → List ℕ) → ℕ → List ℕ → List ℕ → List ℕ
search_levels around zero reached frontier = reached ++ frontier
search_levels around (suc depth) reached [] = reached
search_levels around (suc depth) reached (i ∷ frontier) =
    let reached' = reached ++ (i ∷ frontier) in
    search_levels around depth reached' (next_frontier around reached' (i ∷ frontier))

-- The entities under those of the ids that are stored.
unfoldable pub fetch : Dict ℕ GraphEntity → List ℕ → List GraphEntity
fetch d [] = []
fetch d (i ∷ is) = let rest = fetch d is in elim (Dict.get d i) [ none ↦ rest | some e ↦ e ∷ rest ]

module _ (each : List ℕ → List ℕ) (g : KnowledgeGraph) where
  unfoldable pub bfs :
      (start_ids : List ℕ)
      → Option (List RelationType)
      → (depth : ℕ) → Direction
      → (revision : Option String) → List GraphEntity
  bfs start_ids types depth direction revision =
      fetch g.entities
        (each (search_levels (neighbors g direction types revision) depth [] start_ids))

  unfoldable pub traverse :
      (start_ids : List ℕ)
      → List RelationType
      → (depth : ℕ) → (revision : Option String) → List GraphEntity
  unfolding bfs
  traverse start_ids types depth revision =
      bfs start_ids (some types) depth Direction.forward revision

  unfoldable pub traverse_reverse :
      (start_ids : List ℕ)
      → List RelationType
      → (depth : ℕ) → (revision : Option String) → List GraphEntity
  unfolding bfs
  traverse_reverse start_ids types depth revision =
      bfs start_ids (some types) depth Direction.reverse revision

  unfoldable pub neighborhood :
      (start_ids : List ℕ)
      → Option (List RelationType)
      → Direction
      → (revision : Option String) → List GraphEntity
  unfolding bfs
  neighborhood start_ids types direction revision = bfs start_ids types 1 direction revision

unfoldable pub find_entities :
    KnowledgeGraph
    → Option GraphLabel
    → (project_id : Option ℕ) → (revision : Option String) → List GraphEntity
find_entities g label project_id revision =
    keep
      (λ e.
        asked label (some e.label) && (asked project_id e.project_id && asked revision e.revision))
      (Dict.values g.entities)

-- The two have one key in a search for relations.
unfoldable pub same_edge : GraphRelation → GraphRelation → Bool
same_edge r s =
    r.subject_id == s.subject_id
    && (r.relation_type == s.relation_type && r.object_id == s.object_id)

abbrev seen_edge : GraphRelation → List GraphRelation → Bool
seen_edge r [] = false
seen_edge r (s ∷ rest) = same_edge r s || seen_edge r rest

-- The relations of one key once, those that are in `seen` left out.
first_edges : List GraphRelation → List GraphRelation → List GraphRelation
first_edges seen [] = []
first_edges seen (r ∷ rs) =
    let old = first_edges seen rs in
    let new = r ∷ first_edges (r ∷ seen) rs in if seen_edge r seen then old else new

concat : List (List GraphRelation) → List GraphRelation
concat [] = []
concat (rs ∷ rest) = rs ++ concat rest

unfoldable pub find_relations :
    KnowledgeGraph
    → Option RelationType
    → (subject_id object_id : Option ℕ) → (revision : Option String) → List GraphRelation
unfolding first_edges concat
find_relations g type subject_id object_id revision = first_edges [] (
    keep
      (λ r.
        asked type (some r.relation_type)
        && (asked subject_id (some r.subject_id)
            && (asked object_id (some r.object_id) && asked revision r.revision)))
      (concat (Dict.values g.relations_out)))
