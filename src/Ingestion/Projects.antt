-- ===== src/Ingestion/Projects.antt =====
-- Projects, by `upsert_project` of brain/application/openproject_ingestion.py.
use Prim.Native.String
use development_brain.Prelude.{
  ℕ, String, Bool, ◌&&◌, Option, none, some, [], ◌∷◌, ◌++◌, any, ◌==◌, nat_eq, string_eq, option_eq,
  if◌then◌else◌,
}
use development_brain.Domain.{Project, ProjectStatus, ExternalReference}
use development_brain.Repositories.{Collection, project_rows}
use development_brain.Ingestion.{Store, Deps}
use development_brain.Ingestion.Effects.{M, ◌>>=◌, ◌>>◌, asks, modify, pure, fresh}
use development_brain.Ingestion.Records.{text_or, optional_text, openproject_ref}
use development_brain.Ingestion.Projection.{upsert_project_node}
use development_brain.Ingestion.WorkItems.{find_provider_project}

-- What a project is ingested from. The empty text is no parent.
pub record ProjectCall : Type 0 where
  pub external_id : String
  pub name : String
  pub description : String
  pub parent_external_id : String
  pub project_id : Option ℕ

-- The project of the id, or else the one with the reference.
unfoldable pub existing_project : ProjectCall → Collection Project → Option Project
unfolding find_provider_project
existing_project call rows =
    let by_ref = find_provider_project call.external_id rows in
    elim call.project_id [
      | none ↦ by_ref
      | some i ↦ elim (project_rows.get i rows) [ none ↦ by_ref | some p ↦ some p ]
    ]

unfoldable pub parent_of_call : ProjectCall → Collection Project → Option ℕ
unfolding find_provider_project
parent_of_call call rows =
    if call.parent_external_id == ""
    then none
    else elim (find_provider_project call.parent_external_id rows) [
      | none ↦ none
      | some p ↦ some p.id
    ]

unfoldable pub new_project : (id : ℕ) → ProjectCall → (parent_id : Option ℕ) → Project
unfolding text_or optional_text openproject_ref
new_project id call parent_id = record {
  id = id;
  name = text_or call.name (String.◌++◌ "OpenProject " call.external_id);
  description = optional_text call.description;
  status = ProjectStatus.planned;
  parent_id = parent_id;
  repositories = [];
  external_refs = openproject_ref call.external_id "project" ∷ [];
}

unfoldable pub equal_refs : ExternalReference → ExternalReference → Bool
equal_refs a b =
    a.provider == b.provider
    && (a.external_id == b.external_id
        && (a.external_type == b.external_type && (a.url == b.url && a.namespace == b.namespace)))

abbrev has_ref : ExternalReference → Project → Bool
has_ref ref p = any (equal_refs ref) p.external_refs

unfoldable pub updated_project : ProjectCall → (parent_id : Option ℕ) → Project → Project
unfolding text_or optional_text openproject_ref equal_refs
updated_project call parent_id p =
    let ref = openproject_ref call.external_id "project" in
    record p {
      name = text_or call.name p.name;
      description = if call.description == "" then p.description else some call.description;
      parent_id = elim parent_id [ none ↦ p.parent_id | some i ↦ some i ];
      external_refs = if has_ref ref p then p.external_refs else p.external_refs ++ (ref ∷ []);
    }

-- The fields that an update may change are as they were.
unfoldable pub same_project : ProjectCall → (updated p : Project) → Bool
unfolding equal_refs openproject_ref
same_project call updated p =
    updated.name == p.name
    && (updated.description == p.description
        && (updated.parent_id == p.parent_id
            && has_ref (openproject_ref call.external_id "project") p))

module _ {G B : Type 0} (deps : Deps G B) where
  abbrev with_node : Project → M (Store G B) Project
  with_node p = upsert_project_node deps p >> pure p

  unfoldable pub create_project : ProjectCall → (parent_id : Option ℕ) → M (Store G B) Project
  unfolding new_project
  create_project call parent_id = fresh >>= λ id.
      modify (λ s. record s {
        projects = project_rows.create (new_project id call parent_id) s.projects;
      })
      >> with_node (new_project id call parent_id)

  unfoldable pub update_project :
      ProjectCall → (parent_id : Option ℕ) → Project → M (Store G B) Project
  unfolding updated_project same_project
  update_project call parent_id p =
      let updated = updated_project call parent_id p in
      let written : M (Store G B) Project =
        modify (λ s. record s { projects = project_rows.update updated s.projects })
        >> with_node updated in
      if same_project call updated p then with_node p else written

  unfoldable pub upsert_project : ProjectCall → M (Store G B) Project
  unfolding existing_project parent_of_call create_project update_project
  upsert_project call = do
    existing ← asks (λ s. existing_project call s.projects)
    parent ← asks (λ s. parent_of_call call s.projects)
    elim existing as (λ _. M (Store G B) Project) [
      | none ↦ create_project call parent
      | some p ↦ update_project call parent p
    ]
