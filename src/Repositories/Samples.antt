-- ===== src/Repositories/Samples.antt =====
-- Two relations of work items, a project that is renamed, a watermark and two snapshots.
use development_brain.Prelude.{
  ℕ, String, nat_eq, any, ◌≡◌, refl, true, none, some, List, [], ◌∷◌, keep, string_eq,
  if◌then◌else◌,
}
use development_brain.Prelude.Dict
use development_brain.Domain.{Project, ProjectStatus}
use development_brain.Domain.Work.{WorkItemRelationType, WorkItemRelation, ProviderSyncWatermark}
use development_brain.Repositories.{Collection, get_item, list_all, rows_by}
use development_brain.Prelude.Text.{codes, lower, starts_with}
use development_brain.Verification.Paths.{
  normalize, split, same, last_part, ends_with, is_test_directory, is_test_path,
}
use development_brain.Repositories.Classification.{
  classify_file, category_of, is_manifest, is_deployment, is_test, is_documentation, one_of,
  ends_with_any, by_suffix, is_test_like, classify_file-is_test_path,
}
use development_brain.Repositories.Refinement.{Change, run_changes, replay, get-run_changes}
use development_brain.Repositories.Relations.{
  no_repeats, create_relation, create_relation-no_repeats, get_or_create_watermark, save_watermark,
  marks, get_or_create_watermark-save,
}
use development_brain.Repositories.Catalog.{
  FileCategory, RepositorySnapshot, save_snapshot, get_snapshot, taken_at, save_snapshot-replaces,
}

abbrev shop : Project
shop = record {
  id = 4;
  name = "Shop";
  description = none;
  status = ProjectStatus.active;
  parent_id = none;
  repositories = [];
  external_refs = [];
}

abbrev project_id : Project → ℕ
project_id p = p.id

abbrev changes : List (Change Project)
changes =
    Change.creating shop
    ∷ Change.updating (record shop { name = "Store" })
    ∷ Change.creating (record shop { id = 5 })
    ∷ Change.deleting 4
    ∷ []

get-run_changes_example :
    (λ i. get_item i (run_changes (rows_by project_id) changes []))
    ≡ replay project_id changes (λ i. get_item i [])
get-run_changes_example = get-run_changes project_id changes []

abbrev blocks : WorkItemRelation
blocks = record {
  id = 1;
  source_work_item_id = 10;
  target_work_item_id = 11;
  relation_type = WorkItemRelationType.blocks;
  external_refs = [];
}

-- The same relation again, under a new id.
abbrev repeated : WorkItemRelation
repeated = record blocks { id = 2 }

abbrev relations : Collection WorkItemRelation
relations = (1, blocks) ∷ []

is_new : Dict.get relations 2 ≡ none
unfolding Dict.get
is_new = refl

no_repeats-relations : no_repeats (list_all relations) ≡ true
unfolding no_repeats list_all Dict.values any
no_repeats-relations = refl

create_relation-no_repeats_example :
    (no_repeats (list_all (create_relation repeated relations).1) ≡ true)
    × (create_relation repeated (create_relation repeated relations).1
        ≡ create_relation repeated relations)
create_relation-no_repeats_example =
    create_relation-no_repeats repeated relations is_new no_repeats-relations

abbrev pulled : ProviderSyncWatermark
pulled = record {
  provider = "openproject";
  sync_key = "project-4";
  last_synced_at = some 100;
  last_external_id = none;
  bootstrap_completed_at = none;
}

get_or_create_watermark-save_example :
    ((get_or_create_watermark "openproject" "project-4" (save_watermark pulled [])).0 ≡ (
      if marks "openproject" "project-4" pulled
      then pulled
      else (get_or_create_watermark "openproject" "project-4" []).0))
    × ((get_or_create_watermark "openproject" "project-4"
          (get_or_create_watermark "gitlab" "all" []).1).0
        ≡ (get_or_create_watermark "openproject" "project-4" []).0)
get_or_create_watermark-save_example =
    get_or_create_watermark-save "openproject" "project-4" "gitlab" "all" pulled []

abbrev snapshot : RepositorySnapshot
snapshot = record {
  id = 1;
  repository_id = 3;
  revision = "a1";
  captured_at = 50;
  tree = [];
  languages = [];
  manifest_files = [];
  dockerfiles = [];
  compose_files = [];
  ci_configuration = [];
  documentation_roots = [];
  test_roots = [];
}

abbrev rescanned : RepositorySnapshot
rescanned = record snapshot { id = 2; captured_at = 60; languages = "python" ∷ [] }

save_snapshot-replaces_example :
    (keep (taken_at 3 "a1") (save_snapshot rescanned (snapshot ∷ [])) ≡ rescanned ∷ [])
    × ((i : ℕ) (r : String)
        → get_snapshot i r (save_snapshot rescanned (snapshot ∷ []))
          ≡ (if taken_at i r rescanned then some rescanned else get_snapshot i r (snapshot ∷ [])))
save_snapshot-replaces_example = save_snapshot-replaces rescanned (snapshot ∷ [])

-- The names are compared in lower case, and the lists have this one with a capital.
gemfile : classify_file (codes "Gemfile") ≡ FileCategory.unknown
unfolding classify_file normalize split last_part lower category_of is_manifest is_deployment
    is_test is_documentation one_of any same ends_with starts_with ends_with_any by_suffix
gemfile = refl

jenkinsfile : classify_file (codes "Jenkinsfile") ≡ FileCategory.unknown
unfolding classify_file normalize split last_part lower category_of is_manifest is_deployment
    is_test is_documentation one_of any same ends_with starts_with ends_with_any by_suffix
jenkinsfile = refl

a_test_path : is_test_path "src/test_login.py" ≡ true
unfolding is_test_path normalize split last_part lower is_test_directory any same ends_with
    starts_with
a_test_path = refl

classify_file-is_test_path_example : is_test_like (classify_file (codes "src/test_login.py")) ≡ true
classify_file-is_test_path_example = classify_file-is_test_path "src/test_login.py" a_test_path
