-- ===== src/Sync/ProjectPull.antt =====
-- brain/application/work_management_sync.py: the pull of one project, with the sweep of the work items
-- that the window of changes left out.
use Prim.Native.String
use development_brain.Prelude.{
  ℕ, ◌+◌, String, Option, none, some, List, [], ◌∷◌, ◌++◌, contains, leb, nat_eq, string_eq,
  if◌then◌else◌,
}
use development_brain.Prelude.Text.{codes, decimal}
use development_brain.Errors.{Result, ok, err}
use development_brain.Domain.{ExternalReference, Project, WorkItem}
use development_brain.Domain.Work.{ProviderSyncWatermark}
use development_brain.Repositories.{work_items_of_project}
use development_brain.Repositories.Relations.{save_watermark, get_or_create_watermark}
use development_brain.Sync.Pull.{
  Service, PullStatus, PullSyncResult, PullState, Pulled, provider_project_ref,
  work_item_provider_ref, since, pull_pages,
}

-- `seen[-1] if seen else before`
unfoldable pub last_seen : Option String → List String → Option String
last_seen before [] = before
last_seen before (s ∷ seen) = last_seen (some s) seen

abbrev pub started_pull : ℕ → PullStatus → Pulled
started_pull i status = record {
  result = record {
    project_id = some i;
    status = status;
    items_pulled = 0;
    items_created = 0;
    items_swept = 0;
    conflicts_detected = 0;
    pages_fetched = 0;
    details = [];
  };
  seen = [];
}

abbrev pub sync_key : ExternalReference → String
sync_key ref = String.◌++◌ "work_items:" ref.external_id

module _ {W : Type 0} (service : Service W) where
  -- The work items as they were when the sweep began.
  unfoldable pub sweep_items :
      (project_id : ℕ) (seen : List String)
      → List WorkItem
      → (swept : ℕ) → PullState W
      → Result ℕ × PullState W
  sweep_items i seen [] swept st = (ok swept, st)
  sweep_items i seen (item ∷ items) swept st =
      let passed_over = sweep_items i seen items swept st in
      if leb service.sweep_limit swept then (ok swept, st) else elim (work_item_provider_ref item) [
        | none ↦ passed_over
        | some ref ↦
            let (found, w) = service.get_work_package_snapshot ref.external_id st.world in
            let st' = record st { world = w } in
            let absent = sweep_items i seen items swept st' in
            if contains seen ref.external_id then passed_over else elim found [
              | err exc ↦ (err exc, st')
              | ok none ↦ absent
              | ok (some snapshot) ↦
                  let (ingested, w') =
                    service.ingest_work_item_snapshot snapshot "pull.sweep" i w in
                  let st'' = record st { world = w' } in
                  let more = sweep_items i seen items (swept + 1) st'' in
                  elim ingested [ ok b ↦ more | err exc ↦ (err exc, st'') ]
            ]
      ]

  unfoldable pub sweep_missing :
      (project_id : ℕ) (seen : List String) → PullState W → Result ℕ × PullState W
  sweep_missing i seen st =
      sweep_items i seen (work_items_of_project i (service.work_items st.world)) 0 st

  -- The first pull sweeps nothing.
  unfoldable pub sweep_after :
      (last_synced_at : Option ℕ) (project_id : ℕ) (seen : List String)
      → PullState W
      → Result ℕ × PullState W
  sweep_after none i seen st = (ok 0, st)
  sweep_after (some t) i seen st = sweep_missing i seen st

  -- When the batch was processed, the watermark advances.
  unfoldable pub advance_watermark :
      (later : ℕ)
      → ProviderSyncWatermark
      → Pulled
      → Result ℕ × PullState W
      → Result PullSyncResult × PullState W
  advance_watermark later watermark p (err exc, st) = (err exc, st)
  advance_watermark later watermark p (ok swept, st) =
      let r = p.result in
      let advanced = record watermark {
        last_synced_at = some later;
        last_external_id = last_seen watermark.last_external_id p.seen;
      } in
      (
        ok (record r {
          items_swept = swept;
          details =
              r.details
              ++ ((codes "watermark advanced; " ++ (decimal r.items_pulled ++ codes " pulled"))
                  ∷ []);
        }),
        record st { watermarks = save_watermark advanced st.watermarks },
      )

  -- What is left when the pages are done.
  unfoldable pub finish_pull :
      (later project_id : ℕ)
      → ProviderSyncWatermark
      → Pulled
      → PullState W
      → Result PullSyncResult × PullState W
  finish_pull later i watermark p st =
      advance_watermark later watermark p (sweep_after watermark.last_synced_at i p.seen st)

  unfoldable pub after_pages :
      (later project_id : ℕ)
      → ProviderSyncWatermark
      → Option (Result Pulled × PullState W)
      → Option (Result PullSyncResult × PullState W)
  after_pages later i watermark none = none
  after_pages later i watermark (some (err exc, st)) = some (err exc, st)
  after_pages later i watermark (some (ok pulled, st)) =
      some (finish_pull later i watermark pulled st)

  unfoldable pub sync_project :
      (fuel now later : ℕ) → Project → PullState W → Option (Result PullSyncResult × PullState W)
  sync_project fuel now later p st = elim (provider_project_ref p) [
    | none ↦ some (ok (started_pull p.id PullStatus.no_provider_ref).result, st)
    | some ref ↦
        let (watermark, rows) =
          get_or_create_watermark "openproject" (sync_key ref) st.watermarks in
        let st' = record st { watermarks = rows } in
        after_pages later p.id watermark (
          pull_pages service fuel now (since service now watermark) p.id ref.external_id 1
            (started_pull p.id PullStatus.fine) st')
  ]
