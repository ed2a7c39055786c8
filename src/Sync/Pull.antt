-- ===== src/Sync/Pull.antt =====
-- brain/application/work_management_sync.py, the service that pulls what changed at the provider, and
-- the snapshot of brain/application/openproject_parser.py. The provider and the ingestion are what
-- the service is built with: they act on a world W, in which the work items stand, and may raise.
-- Times are seconds; `now` and `later` are the clock's before and after the pull.
use development_brain.Prelude.{
  ℕ, zero, suc, ◌+◌, ◌-◌, ◌*◌, String, Bool, true, false, not, ◌&&◌, ◌||◌, Option, none, some, List,
  [], ◌∷◌, ◌++◌, any, length, ltb, ◌==◌, nat_eq, string_eq, if◌then◌else◌,
}
use development_brain.Prelude.Object.{Object}
use development_brain.Prelude.Text.{Text, codes, decimal, contains_text, lower}
use development_brain.Errors.{PyException, Result, ok, err}
use development_brain.Domain.{
  ExternalReference, Project, WorkItem, HumanWorkStatus, VerificationStatus,
}
use development_brain.Domain.Work.{ProviderSyncWatermark}
use development_brain.Repositories.{Collection, find_work_item}
use development_brain.Repositories.Relations.{Watermarks}
use development_brain.Sync.{SyncConflict, save_conflict, list_conflicts}
use development_brain.Sync.Mapping.{map_human_work_status}

pub record Snapshot : Type 0 where
  pub external_id : String
  pub summary : String
  pub description : String
  pub type : String
  pub priority : String
  pub state : String
  pub closed : Bool
  pub project_id : Option String
  pub project_name : Option String
  pub assignee_id : Option String
  pub assignee_name : Option String
  pub parent_id : Option ℕ
  pub attachments : List Object
  pub relations : List Object
  pub activities_url : Option String
  pub created_at : Option String
  pub updated_at : Option String

pub record Service (W : Type 0) : Type 0 where
  pub list_changed_work_packages :
      (since offset page_size : ℕ) (project_external_id : String) → W → Result (List Snapshot) × W
  pub get_work_package_snapshot : String → W → Result (Option Snapshot) × W
  -- Whether the ingestion of a snapshot created a work item.
  pub ingest_work_item_snapshot :
      Snapshot → (source : String) (project_id : ℕ) → W → Result Bool × W
  pub work_items : W → Collection WorkItem
  pub page_size : ℕ
  pub since_days : ℕ
  pub sweep_limit : ℕ

pub data PullStatus : Type 0 where
  fine no_provider_ref provider_project_missing : PullStatus

pub record PullSyncResult : Type 0 where
  pub project_id : Option ℕ
  pub status : PullStatus
  pub items_pulled : ℕ
  pub items_created : ℕ
  pub items_swept : ℕ
  pub conflicts_detected : ℕ
  pub pages_fetched : ℕ
  pub details : List Text

pub record PullState (W : Type 0) : Type 0 where
  pub world : W
  pub conflicts : List SyncConflict
  pub watermarks : Watermarks

-- The result so far, and the ids that were seen.
pub record Pulled : Type 0 where
  pub result : PullSyncResult
  pub seen : List String

abbrev pub is_type : String → Option String → Bool
is_type t none = false
is_type t (some u) = u == t

unfoldable pub first_ref :
    (external_type : String) → List ExternalReference → Option ExternalReference
first_ref t [] = none
first_ref t (ref ∷ refs) =
    let later = first_ref t refs in
    if ref.provider == "openproject" && is_type t ref.external_type then some ref else later

unfoldable pub provider_project_ref : Project → Option ExternalReference
provider_project_ref p = first_ref "project" p.external_refs

unfoldable pub work_item_provider_ref : WorkItem → Option ExternalReference
work_item_provider_ref w = first_ref "work_package" w.external_refs

unfoldable pub is_missing_provider_project : PyException → Bool
is_missing_provider_project exc =
    contains_text (codes "Project filter has invalid values") exc.text
    || (contains_text (codes "InvalidQuery") exc.text
        && contains_text (codes "project") (lower exc.text))

abbrev pub is_over : HumanWorkStatus → Bool
is_over HumanWorkStatus.finished = true
is_over HumanWorkStatus.cancelled = true
is_over _ = false

abbrev pub is_passed : VerificationStatus → Bool
is_passed VerificationStatus.passed = true
is_passed _ = false

-- The same disagreement, still open.
abbrev pub open_conflict : (state : String) → SyncConflict → Bool
open_conflict state c =
    c.provider_field == "status" && (c.provider_value == state && not c.resolved)

abbrev pub count_snapshot : Snapshot → (created : Bool) (conflicts : ℕ) → Pulled → Pulled
count_snapshot s created conflicts p =
    let r = p.result in
    record {
      result = record r {
        items_created = r.items_created + (if created then 1 else 0);
        conflicts_detected = r.conflicts_detected + conflicts;
      };
      seen = p.seen ++ (s.external_id ∷ []);
    }

abbrev pub missing_project : String → Pulled → Pulled
missing_project external_id p =
    let r = p.result in
    record p {
      result = record r {
        status = PullStatus.provider_project_missing;
        details =
            r.details
            ++ ((codes "provider project "
                  ++ (codes external_id ++ codes " does not exist or is not accessible"))
                ∷ []);
      };
    }

abbrev pub count_page : (offset : ℕ) → List Snapshot → Pulled → Pulled
count_page offset page p =
    let r = p.result in
    record p {
      result = record r {
        items_pulled = r.items_pulled + length page;
        details =
            r.details
            ++ ((codes "page "
                  ++ (decimal offset
                      ++ (codes ": " ++ (decimal (length page) ++ codes " work packages"))))
                ∷ []);
      };
    }

abbrev pub fetched : Pulled → Pulled
fetched p =
    let r = p.result in record p { result = record r { pages_fetched = r.pages_fetched + 1 } }

module _ {W : Type 0} (service : Service W) where
  unfoldable pub since : (now : ℕ) → ProviderSyncWatermark → ℕ
  since now w = elim w.last_synced_at [
    | some t ↦ t
    | none ↦ elim w.bootstrap_completed_at [
      | some t ↦ t - 5
      | none ↦ now - 86400 * service.since_days
    ]
  ]

  unfoldable pub record_status_conflict : (now : ℕ) → Snapshot → PullState W → ℕ × PullState W
  record_status_conflict now s st =
      elim (find_work_item "openproject" s.external_id (some "work_package")
        (service.work_items st.world)) [
          | none ↦ (0, st)
          | some w ↦
              let conflict : SyncConflict = record {
                work_item_id = w.id;
                provider = "openproject";
                external_id = s.external_id;
                provider_field = "status";
                provider_value = s.state;
                brain_value = "verification_pending";
                detected_at = now;
                resolved = false;
              } in
              if not (is_over (map_human_work_status (codes s.state)))
                || (is_passed w.verification_status
                    || any (open_conflict s.state) (list_conflicts w.id st.conflicts))
              then (0, st)
              else (1, record st { conflicts = save_conflict conflict st.conflicts })
        ]

  -- The snapshots of one page.
  unfoldable pub pull_page :
      (now project_id : ℕ) → List Snapshot → Pulled → PullState W → Result Pulled × PullState W
  pull_page now i [] p st = (ok p, st)
  pull_page now i (s ∷ page) p st =
      let (ingested, w) = service.ingest_work_item_snapshot s "pull" i st.world in
      elim ingested [
        | ok created ↦
            let (conflicts, st') = record_status_conflict now s (record st { world = w }) in
            pull_page now i page (count_snapshot s created conflicts p) st'
        | err exc ↦ (err exc, record st { world = w })
      ]

  abbrev pub Run : Type 0
  Run = Option (Result Pulled × PullState W)

  -- A page that is not full is the last one.
  unfoldable pub after_page :
      (offset : ℕ)
      → List Snapshot
      → (next : Pulled → PullState W → Run) → Result Pulled × PullState W
      → Run
  after_page offset page next (err exc, st) = some (err exc, st)
  after_page offset page next (ok p, st) =
      let counted = count_page offset page p in
      if ltb (length page) service.page_size then some (ok counted, st) else next counted st

  unfoldable pub after_listing :
      (now project_id : ℕ) (external_id : String) (offset : ℕ) (next : Pulled → PullState W → Run)
      → Pulled
      → PullState W
      → Result (List Snapshot) × W
      → Run
  after_listing now i external_id offset next p st (err exc, w) =
      if is_missing_provider_project exc
      then some (ok (missing_project external_id p), record st { world = w })
      else some (err exc, record st { world = w })
  after_listing now i external_id offset next p st (ok page, w) =
      after_page offset page next (pull_page now i page (fetched p) (record st { world = w }))

  -- The loop over the pages, of which each takes one unit of fuel.
  unfoldable pub pull_pages :
      (fuel now since project_id : ℕ) (external_id : String) (offset : ℕ)
      → Pulled
      → PullState W
      → Run
  pull_pages zero now t i external_id offset p st = none
  pull_pages (suc fuel) now t i external_id offset p st =
      after_listing now i external_id offset
        (λ p' st'. pull_pages fuel now t i external_id (offset + service.page_size) p' st') p st
        (service.list_changed_work_packages t offset service.page_size external_id st.world)
