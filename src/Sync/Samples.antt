-- ===== src/Sync/Samples.antt =====
-- Three changes, pulled two at a time, and a provider that fails.
use development_brain.Prelude.{
  ℕ, suc, ◌*◌, ◌-◌, ◌≡◌, refl, String, true, false, none, some, List, [], ◌∷◌, take, drop, ◌&&◌,
  if◌then◌else◌,
}
use development_brain.Prelude.Text.{codes, contains_text, lower, starts_with}
use development_brain.Errors.{Result, ok, err}
use development_brain.Domain.{
  ExternalReference, Project, ProjectStatus, WorkItem, WorkItemType, HumanWorkStatus,
  ImplementationStatus, VerificationStatus, PullRequestStatus,
}
use development_brain.Repositories.Relations.{
  fresh_watermark, find_watermark, save_watermark, get_or_create_watermark,
}
use development_brain.Sync.{get_mapping}
use development_brain.Sync.Publishing.{
  Provider, SyncRows, synced, publish_work_item, publish_work_item-mapped,
}
use development_brain.Sync.Pull.{
  Snapshot, Service, PullSyncResult, PullState, pull_pages, since, after_listing,
  is_missing_provider_project, provider_project_ref, first_ref,
}
use development_brain.Sync.ProjectPull.{sync_project, after_pages}
use development_brain.Sync.Watermark.{cursor, cursor_after, sync_project-cursor}

abbrev snapshot : String → Snapshot
snapshot external_id = record {
  external_id = external_id;
  summary = "";
  description = "";
  type = "task";
  priority = "";
  state = "in progress";
  closed = false;
  project_id = none;
  project_name = none;
  assignee_id = none;
  assignee_name = none;
  parent_id = none;
  attachments = [];
  relations = [];
  activities_url = none;
  created_at = none;
  updated_at = none;
}

abbrev changed : List Snapshot
changed = snapshot "1" ∷ snapshot "2" ∷ snapshot "3" ∷ []

-- The world counts what was taken in.
abbrev service : Service ℕ
service = record {
  list_changed_work_packages =
      λ since offset n project w. (ok (take n (drop (offset - 1) changed)), w);
  get_work_package_snapshot = λ external_id w. (ok none, w);
  ingest_work_item_snapshot = λ s source i w. (ok true, suc w);
  work_items = λ w. [];
  page_size = 2;
  since_days = 1;
  sweep_limit = 20;
}

abbrev broken : Service ℕ
broken = record service {
  list_changed_work_packages = λ since offset n project w.
      (err (record { type_name = codes "RuntimeError"; text = codes "no answer" }), w);
}

abbrev idle : PullState ℕ
idle = record { world = 0; conflicts = []; watermarks = [] }

-- A provider that takes the offset for the number of a page, and has one page of two.
abbrev by_number : ℕ → List Snapshot
by_number offset = take 2 (drop (2 * (offset - 1)) (snapshot "1" ∷ snapshot "2" ∷ []))

abbrev numbered : Service ℕ
numbered = record service {
  list_changed_work_packages = λ since offset n project w. (ok (by_number offset), w);
}

abbrev openproject : ExternalReference
openproject = record {
  provider = "openproject";
  external_id = "12";
  external_type = some "project";
  url = none;
  namespace = none;
}

abbrev shop : Project
shop = record {
  id = 7;
  name = "Shop";
  description = none;
  status = ProjectStatus.active;
  parent_id = none;
  repositories = [];
  external_refs = openproject ∷ [];
}

has_ref : provider_project_ref shop ≡ some openproject
unfolding provider_project_ref first_ref
has_ref = refl

abbrev asked : PullState ℕ
asked = record {
  world = 0;
  conflicts = [];
  watermarks =
      record {
        provider = "openproject";
        sync_key = "work_items:12";
        last_synced_at = none;
        last_external_id = none;
        bootstrap_completed_at = none;
      }
      ∷ [];
}

abbrev no_answer : Result PullSyncResult
no_answer = err (record { type_name = codes "RuntimeError"; text = codes "no answer" })

broken_run : sync_project broken 4 100 200 shop idle ≡ some (no_answer, asked)
unfolding sync_project provider_project_ref first_ref get_or_create_watermark find_watermark
    fresh_watermark save_watermark since pull_pages after_listing is_missing_provider_project
    contains_text lower starts_with after_pages
broken_run = refl

sync_project-cursor_example :
    cursor openproject asked.watermarks
    ≡ cursor_after no_answer 200 (cursor openproject idle.watermarks)
sync_project-cursor_example =
    sync_project-cursor broken 200 openproject 4 100 shop idle asked no_answer has_ref broken_run

abbrev item : WorkItem
item = record {
  id = 1;
  project_id = 7;
  type = WorkItemType.task;
  title = "button";
  description = "";
  priority = none;
  parent_id = none;
  assignee = none;
  acceptance_criteria = [];
  requirement_refs = [];
  external_refs = [];
  human_work_status = HumanWorkStatus.new;
  implementation_status = ImplementationStatus.not_started;
  verification_status = VerificationStatus.not_verified;
  pull_request_status = PullRequestStatus.not_created;
}

-- The bus of this provider raises.
abbrev taking : Provider ℕ
taking = record {
  name = "openproject";
  fetch_work_item = λ ref w. (ok item, w);
  publish_work_item = λ i w. (ok openproject, suc w);
  publish_event = λ i source w. (err (record { type_name = codes "RuntimeError"; text = [] }), w);
}

abbrev no_rows : SyncRows ℕ
no_rows = record { world = 0; mappings = []; conflicts = [] }

publish_work_item-mapped_example :
    get_mapping 1 "openproject" (publish_work_item taking 100 item no_rows).1.mappings ≡ (
      if true && true
      then some (synced 1 "openproject" "12" 100)
      else get_mapping 1 "openproject" [])
publish_work_item-mapped_example =
    publish_work_item-mapped taking 100 item no_rows openproject 1 "openproject" refl
