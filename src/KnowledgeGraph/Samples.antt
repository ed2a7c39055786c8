-- ===== src/KnowledgeGraph/Samples.antt =====
-- A project with a work item and its child, and a work item of which nothing is said.
use development_brain.Prelude.{
  ◌≡◌, ◌↔◌, ℕ, Option, none, some, List, [], ◌∷◌, any, unique, contains-unique, true, ◌==◌, nat_eq,
}
use development_brain.KnowledgeGraph.{
  GraphEntity, GraphRelation, GraphLabel, RelationType, Direction, bfs,
}
use development_brain.KnowledgeGraph.Search.{Within}
use development_brain.KnowledgeGraph.Links.{joined}
use development_brain.KnowledgeGraph.Reachability.{built, bfs-Within}

abbrev node : ℕ → GraphLabel → GraphEntity
node i label = record {
  id = i;
  label = label;
  project_id = some 1;
  properties = [];
  revision = none;
}

abbrev edge : ℕ → RelationType → ℕ → GraphRelation
edge i type j = record { subject_id = i; relation_type = type; object_id = j; revision = none }

abbrev nodes : List GraphEntity
nodes =
    node 1 GraphLabel.project
    ∷ node 2 GraphLabel.work_item
    ∷ node 3 GraphLabel.work_item
    ∷ node 4 GraphLabel.work_item
    ∷ []

abbrev edges : List GraphRelation
edges =
    edge 2 RelationType.part_of 1
    ∷ edge 3 RelationType.parent_of 2
    ∷ edge 1 RelationType.depends_on 3
    ∷ edge 3 RelationType.parent_of 2
    ∷ []

-- From the child, two steps along `parent_of` and `part_of`.
abbrev steps : Option (List RelationType)
steps = some (RelationType.parent_of ∷ RelationType.part_of ∷ [])

bfs-Within_example :
    (any (λ e. e.id == 1) (bfs unique (built nodes edges) (3 ∷ []) steps 2 Direction.forward none)
      ≡ true)
    ↔ ((any (λ e. e.id == 1) nodes ≡ true)
        × Within (joined edges Direction.forward steps none) 2 (3 ∷ []) 1)
bfs-Within_example =
    bfs-Within unique contains-unique nodes edges (3 ∷ []) steps 2 Direction.forward none 1
