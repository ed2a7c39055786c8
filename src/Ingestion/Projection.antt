-- ===== src/Ingestion/Projection.antt =====
-- The projection of projects and work items into the graph, by
-- brain/application/openproject_ingestion.py.
use development_brain.Prelude.{ℕ, String, Option, none, some, List, [], ◌∷◌, ◌++◌}
use development_brain.Prelude.Dict.{Dict}
use development_brain.Prelude.Object.{Object}
use development_brain.Domain.{Project, WorkItem}
use development_brain.Domain.Work.{WorkItemRelation}
use development_brain.Repositories.{project_rows}
use development_brain.Repositories.Relations.{relations_of_work_item}
use development_brain.KnowledgeGraph.{GraphLabel, RelationType, GraphEntity, GraphRelation}
use development_brain.Ingestion.{Store, Deps}
use development_brain.Ingestion.Effects.{M, ◌>>=◌, ◌>>◌, asks, pure, guarded, on_graph}
use development_brain.Ingestion.Records.{map_graph_relation}

unfoldable pub entity : ℕ → GraphLabel → Option ℕ → Dict String Object → GraphEntity
entity id label project_id properties = record {
  id = id;
  label = label;
  project_id = project_id;
  properties = properties;
  revision = none;
}

unfoldable pub edge : ℕ → RelationType → ℕ → GraphRelation
edge subject type object = record {
  subject_id = subject;
  relation_type = type;
  object_id = object;
  revision = none;
}

unfoldable pub project_entity : Project → GraphEntity
unfolding entity
project_entity p = entity p.id GraphLabel.project (some p.id) (("name", Object.str p.name) ∷ [])

unfoldable pub related_edges : List WorkItemRelation → List GraphRelation
unfolding edge
related_edges [] = []
related_edges (r ∷ rs) =
    let rest = related_edges rs in
    elim (map_graph_relation r.relation_type) [
      | none ↦ rest
      | some type ↦ edge r.source_work_item_id type r.target_work_item_id ∷ rest
    ]

module _ {G B : Type 0} (deps : Deps G B) where
  unfoldable pub upsert_project_node : Project → M (Store G B) Unit
  unfolding project_entity edge
  upsert_project_node p =
      on_graph (deps.upsert_entities (project_entity p ∷ []))
      >> elim p.parent_id as (λ _. M (Store G B) Unit) [
        | none ↦ pure tt
        | some parent ↦
            on_graph (deps.upsert_relations (edge parent RelationType.parent_of p.id ∷ []))
      ]

  unfoldable pub subgraph_entities : WorkItem → Option Project → List GraphEntity
  unfolding project_entity entity
  subgraph_entities w project =
      let of_project : List GraphEntity = elim project [
        | none ↦ []
        | some p ↦ project_entity p ∷ []
      ] in
      let of_assignee : List GraphEntity = elim w.assignee [
        | none ↦ []
        | some a ↦
            entity a GraphLabel.actor (some w.project_id) (("actor_type", Object.str "human") ∷ [])
            ∷ []
      ] in
      entity w.id GraphLabel.work_item (some w.project_id) (
        ("title", Object.str w.title)
        ∷ ("type", Object.str (deps.type_value w.type))
        ∷ ("human_work_status", Object.str (deps.status_value w.human_work_status))
        ∷ [])
      ∷ (of_project ++ of_assignee)

  unfoldable pub subgraph_relations : WorkItem → List WorkItemRelation → List GraphRelation
  unfolding related_edges edge
  subgraph_relations w relations =
      let of_parent : List GraphRelation = elim w.parent_id [
        | none ↦ []
        | some p ↦ edge w.id RelationType.parent_of p ∷ []
      ] in
      let of_assignee : List GraphRelation = elim w.assignee [
        | none ↦ []
        | some a ↦ edge w.id RelationType.assigned_to a ∷ []
      ] in
      edge w.id RelationType.part_of w.project_id
      ∷ (of_parent ++ (related_edges relations ++ of_assignee))

  unfoldable pub project_subgraph_inner : WorkItem → M (Store G B) Unit
  unfolding subgraph_entities subgraph_relations
  project_subgraph_inner w = do
    project ← asks (λ s. project_rows.get w.project_id s.projects)
    relations ← asks (λ s. relations_of_work_item w.id s.relations)
    on_graph (deps.upsert_entities (subgraph_entities w project))
    on_graph (deps.upsert_relations (subgraph_relations w relations))

  -- Best effort: what the graph raises is logged.
  unfoldable pub project_subgraph : WorkItem → M (Store G B) Unit
  unfolding project_subgraph_inner
  project_subgraph w = guarded (project_subgraph_inner w)
