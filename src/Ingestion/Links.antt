-- ===== src/Ingestion/Links.antt =====
-- Parents and relations of work items, by brain/application/openproject_ingestion.py.
use Prim.Native.String
use development_brain.Prelude.{
  ℕ, ◌+◌, String, ◌&&◌, ◌||◌, Option, none, some, List, [], ◌∷◌, ◌==◌, string_eq, nat_eq,
  if◌then◌else◌,
}
use development_brain.Prelude.Object.{Object}
use development_brain.Prelude.Text.{codes}
use development_brain.Domain.{WorkItem}
use development_brain.Domain.Work.{WorkItemRelation, WorkItemRelationType}
use development_brain.Repositories.{Collection}
use development_brain.Repositories.Relations.{create_relation}
use development_brain.Sync.Pull.{Snapshot}
use development_brain.Ingestion.{Store, Deps}
use development_brain.Ingestion.Effects.{M, ◌>>=◌, ◌>>◌, asks, modify, pure, fresh}
use development_brain.Ingestion.WorkItems.{update_work_item, find_package}
use development_brain.Ingestion.Records.{
  truthy, raw_get, get_or_get, is_null, openproject_ref, map_relation_type,
}

-- The work item with the parent, if the provider names one that is known and another.
unfoldable pub with_parent : WorkItem → Option WorkItem → Option WorkItem
with_parent w none = none
with_parent w (some parent) =
    if parent.id == w.id then none else some (record w { parent_id = some parent.id })

-- The id of the parent; 0 is none.
unfoldable pub parent_number : Option ℕ → Option ℕ
parent_number none = none
parent_number (some i) = if i == 0 then none else some i

module _ {G B : Type 0} (deps : Deps G B) where
  unfoldable pub resolve_parent : WorkItem → Snapshot → M (Store G B) WorkItem
  unfolding parent_number with_parent
  resolve_parent w s = elim (parent_number s.parent_id) as (λ _. M (Store G B) WorkItem) [
    | none ↦ pure w
    | some i ↦
        asks (λ st. with_parent w (find_package (deps.show (Object.int i)) st.work_items))
        >>= λ changed. elim changed as (λ _. M (Store G B) WorkItem) [
          | none ↦ pure w
          | some w' ↦ update_work_item w' >> pure w'
        ]
  ]

  -- The ends of a relation that the provider lists with the work item, if both are known and differ.
  unfoldable pub relation_ends :
      (external_id : String) → WorkItem → Object → Collection WorkItem → Option (ℕ × ℕ)
  unfolding get_or_get find_package
  relation_ends external_id w raw rows =
      let source = get_or_get "source_id" "from" raw in
      let target = deps.show (get_or_get "target_id" "to" raw) in
      let from_source : Option ℕ =
        if is_null source || deps.show source == external_id
        then some w.id
        else elim (find_package (deps.show source) rows) [ none ↦ none | some v ↦ some v.id ] in
      elim from_source [
        | none ↦ none
        | some i ↦ elim (find_package target rows) [
          | none ↦ none
          | some v ↦ if v.id == i then none else some (i, v.id)
        ]
      ]

  unfoldable pub relation_type_of : Object → Option WorkItemRelationType
  unfolding get_or_get truthy
  relation_type_of raw =
      let target = get_or_get "target_id" "to" raw in
      let type = get_or_get "relation_type" "type" raw in
      if truthy target && truthy type then map_relation_type (codes (deps.show type)) else none

  unfoldable pub new_relation :
      (id source target : ℕ) → WorkItemRelationType → Object → WorkItemRelation
  unfolding raw_get truthy openproject_ref
  new_relation id source target type raw =
      let given = raw_get "id" raw in
      let named =
        String.◌++◌ (deps.show_id source)
          (String.◌++◌ ":" (deps.show (get_or_get "target_id" "to" raw))) in
      record {
        id = id;
        source_work_item_id = source;
        target_work_item_id = target;
        relation_type = type;
        external_refs =
            openproject_ref (if truthy given then deps.show given else named) "relation" ∷ [];
      }

  unfoldable pub add_relation : WorkItemRelationType → Object → ℕ × ℕ → M (Store G B) Unit
  unfolding new_relation
  add_relation type raw (source, target) = fresh >>= λ id. modify (λ st. record st {
    relations = (create_relation (new_relation id source target type raw) st.relations).1;
  })

  -- The number of the relations that were created, or found.
  unfoldable pub resolve_relations :
      WorkItem → (external_id : String) → List Object → (ingested : ℕ) → M (Store G B) ℕ
  unfolding relation_type_of relation_ends add_relation
  resolve_relations w external_id [] ingested = pure ingested
  resolve_relations w external_id (raw ∷ rest) ingested =
      elim (relation_type_of raw) as (λ _. M (Store G B) ℕ) [
        | none ↦ resolve_relations w external_id rest ingested
        | some type ↦ asks (λ st. relation_ends external_id w raw st.work_items) >>= λ ends.
            elim ends as (λ _. M (Store G B) ℕ) [
              | none ↦ resolve_relations w external_id rest ingested
              | some pair ↦
                  add_relation type raw pair >> resolve_relations w external_id rest (ingested + 1)
            ]
      ]
