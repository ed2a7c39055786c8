-- ===== src/Sync/Watermark.antt =====
-- The watermark of a project under its pull.
use mathlib.Core.Path.{subst}
use development_brain.Prelude.{
  ℕ, zero, suc, ◌+◌, ◌≡◌, ◌∙◌, refl, ap, String, true, not, ◌||◌, Option, none, some, List, [], ◌∷◌,
  any, contains, leb, ltb, length, string_eq, nat_eq, Bool-cases, Option-cases, inl, inr,
}
use development_brain.Prelude.Text.{codes}
use development_brain.Errors.{Result, ok, err, Result-cases}
use development_brain.Domain.{ExternalReference, Project, WorkItem}
use development_brain.Domain.Work.{ProviderSyncWatermark}
use development_brain.Repositories.{find_work_item, work_items_of_project}
use development_brain.Repositories.Relations.{
  Watermarks, get_or_create_watermark, save_watermark, get_or_create_watermark-save,
  fresh_watermark, marks, get_or_create_watermark-marks,
}
use development_brain.Sync.{list_conflicts}
use development_brain.Sync.Mapping.{map_human_work_status}
use development_brain.Sync.Pull.{
  Snapshot, Service, PullStatus, PullSyncResult, PullState, Pulled, provider_project_ref,
  work_item_provider_ref, since, pull_page, pull_pages, after_page, after_listing,
  record_status_conflict, count_snapshot, count_page, fetched, is_over, is_passed, open_conflict,
  is_missing_provider_project,
}
use development_brain.Sync.ProjectPull.{
  started_pull, sweep_items, sweep_missing, finish_pull, sweep_after, advance_watermark,
  after_pages, last_seen, sync_project, sync_key,
}

-- What a run that ended left of the watermarks.
abbrev Keeps : {W : Type 0} → Watermarks → Option (Result Pulled × PullState W) → Type 0
Keeps rows none = Unit
Keeps rows (some (r, st)) = st.watermarks ≡ rows

module _ {W : Type 0} (service : Service W) where
  record_status_conflict-kept :
      (now : ℕ) (s : Snapshot) (st : PullState W)
      → (record_status_conflict service now s st).1.watermarks ≡ st.watermarks
  unfolding record_status_conflict
  record_status_conflict-kept now s st =
      elim (Option-cases (
        find_work_item "openproject" s.external_id (some "work_package")
          (service.work_items st.world))) [
            | inl h ↦ rw (record_status_conflict, h) refl
            | inr (w, h) ↦
                elim (Bool-cases (
                  not (is_over (map_human_work_status (codes s.state)))
                  || (is_passed w.verification_status
                      || any (open_conflict s.state) (list_conflicts w.id st.conflicts)))) [
                        | inl quiet ↦ rw (record_status_conflict, h, quiet) refl
                        | inr new ↦ rw (record_status_conflict, h, new) refl
                      ]
          ]

  pull_page-kept :
      (now i : ℕ) (page : List Snapshot) (p : Pulled) (st : PullState W)
      → (pull_page service now i page p st).1.watermarks ≡ st.watermarks
  unfolding pull_page
  pull_page-kept now i [] p st = refl
  pull_page-kept now i (s ∷ page) p st =
      let run = service.ingest_work_item_snapshot s "pull" i st.world in
      let next = record_status_conflict service now s (record st { world = run.1 }) in
      elim (Result-cases run.0) [
        | inl (b, h) ↦
            rw (pull_page, h)
              (pull_page-kept now i page (count_snapshot s b next.0 p) next.1
                ∙ record_status_conflict-kept now s (record st { world = run.1 }))
        | inr (exc, h) ↦ rw (pull_page, h) refl
      ]

  after_page-kept :
      (offset : ℕ) (page : List Snapshot)
      (next : Pulled → PullState W → Option (Result Pulled × PullState W)) (rows : Watermarks)
      (run : Result Pulled × PullState W)
      → ((p : Pulled) (st : PullState W) → st.watermarks ≡ rows → Keeps rows (next p st))
      → run.1.watermarks ≡ rows
      → Keeps rows (after_page service offset page next run)
  unfolding after_page
  after_page-kept offset page next rows (err exc, st) h k = k
  after_page-kept offset page next rows (ok p, st) h k =
      elim (Bool-cases (ltb (length page) service.page_size)) [
        | inl short ↦ rw (after_page, short) k
        | inr full ↦ rw (after_page, full) (h (count_page offset page p) st k)
      ]

  after_listing-kept :
      (now i : ℕ) (external_id : String) (offset : ℕ)
      (next : Pulled → PullState W → Option (Result Pulled × PullState W)) (rows : Watermarks)
      (p : Pulled) (st : PullState W) (run : Result (List Snapshot) × W)
      → ((q : Pulled) (s : PullState W) → s.watermarks ≡ rows → Keeps rows (next q s))
      → st.watermarks ≡ rows
      → Keeps rows (after_listing service now i external_id offset next p st run)
  unfolding after_listing
  after_listing-kept now i x offset next rows p st (err exc, w) h k =
      elim (Bool-cases (is_missing_provider_project exc)) [
        | inl missing ↦ rw (after_listing, missing) k
        | inr other ↦ rw (after_listing, other) k
      ]
  after_listing-kept now i x offset next rows p st (ok page, w) h k =
      let run = pull_page service now i page (fetched p) (record st { world = w }) in
      after_page-kept offset page next rows run h
        (pull_page-kept now i page (fetched p) (record st { world = w }) ∙ k)

  pull_pages-kept :
      (fuel now t i : ℕ) (external_id : String) (offset : ℕ) (rows : Watermarks) (p : Pulled)
      (st : PullState W)
      → st.watermarks ≡ rows
      → Keeps rows (pull_pages service fuel now t i external_id offset p st)
  unfolding pull_pages
  pull_pages-kept zero now t i x offset rows p st k = tt
  pull_pages-kept (suc fuel) now t i x offset rows p st k =
      let next = offset + service.page_size in
      after_listing-kept now i x offset (λ q s. pull_pages service fuel now t i x next q s) rows p
        st (service.list_changed_work_packages t offset service.page_size x st.world)
        (λ q s h. pull_pages-kept fuel now t i x next rows q s h) k

  sweep_items-kept :
      (i : ℕ) (seen : List String) (items : List WorkItem) (swept : ℕ) (st : PullState W)
      → (sweep_items service i seen items swept st).1.watermarks ≡ st.watermarks
  unfolding sweep_items
  sweep_items-kept i seen [] swept st = refl
  sweep_items-kept i seen (item ∷ items) swept st =
      elim (Bool-cases (leb service.sweep_limit swept)) [
        | inl over ↦ rw (sweep_items, over) refl
        | inr more ↦ elim (Option-cases (work_item_provider_ref item)) [
          | inl n ↦ rw (sweep_items, more, n) (sweep_items-kept i seen items swept st)
          | inr (ref, r) ↦
              let run = service.get_work_package_snapshot ref.external_id st.world in
              let st' = record st { world = run.1 } in
              elim (Bool-cases (contains seen ref.external_id)) [
                | inl known ↦
                    rw (sweep_items, more, r, known) (sweep_items-kept i seen items swept st)
                | inr new ↦ elim (Result-cases run.0) [
                  | inr (exc, e) ↦ rw (sweep_items, more, r, new, e) refl
                  | inl (found, e) ↦ elim (Option-cases found) [
                    | inl n ↦
                        rw (sweep_items, more, r, new, e, n)
                          (sweep_items-kept i seen items swept st')
                    | inr (snapshot, f) ↦
                        let taken =
                          service.ingest_work_item_snapshot snapshot "pull.sweep" i run.1 in
                        elim (Result-cases taken.0) [
                          | inl (b, g) ↦
                              rw (sweep_items, more, r, new, e, f, g)
                                (sweep_items-kept i seen items (swept + 1)
                                  (record st { world = taken.1 }))
                          | inr (exc, g) ↦ rw (sweep_items, more, r, new, e, f, g) refl
                        ]
                  ]
                ]
              ]
        ]
      ]

-- The cursor of a project's pull.
abbrev pub cursor : ExternalReference → Watermarks → Option ℕ
cursor ref rows = (get_or_create_watermark "openproject" (sync_key ref) rows).0.last_synced_at

-- Where it is to be when the pull has ended so.
abbrev pub cursor_after : Result PullSyncResult → (later : ℕ) → Option ℕ → Option ℕ
cursor_after (ok r) later before = some later
cursor_after (err exc) later before = before

cursor-save :
    (ref : ExternalReference) (v : ProviderSyncWatermark) (rows : Watermarks)
    → marks "openproject" (sync_key ref) v ≡ true
    → cursor ref (save_watermark v rows) ≡ v.last_synced_at
cursor-save ref v rows h =
    let key = sync_key ref in
    let read = (get_or_create_watermark-save "openproject" key "openproject" key v rows).0 in
    ap (λ w. w.last_synced_at) read ∙ rw h refl

cursor-known :
    (ref : ExternalReference) (rows : Watermarks)
    → cursor ref (get_or_create_watermark "openproject" (sync_key ref) rows).1 ≡ cursor ref rows
cursor-known ref rows =
    let key = sync_key ref in
    let w = fresh_watermark "openproject" key in
    ap (λ w. w.last_synced_at)
      (get_or_create_watermark-save "openproject" key "openproject" key w rows).1

module _ {W : Type 0} (service : Service W) (later : ℕ) (ref : ExternalReference) where
  -- The cursor is where the result says.
  abbrev Moves : Option ℕ → Option (Result PullSyncResult × PullState W) → Type 0
  Moves before none = Unit
  Moves before (some (result, st)) = cursor ref st.watermarks ≡ cursor_after result later before

  advance_watermark-Moves :
      (before : Option ℕ) (w : ProviderSyncWatermark) (p : Pulled) (run : Result ℕ × PullState W)
      → marks "openproject" (sync_key ref) w ≡ true
      → cursor ref run.1.watermarks ≡ before
      → Moves before (some (advance_watermark service later w p run))
  unfolding advance_watermark
  advance_watermark-Moves before w p (err exc, st) m k = k
  advance_watermark-Moves before w p (ok n, st) m k =
      cursor-save ref
        (record w {
          last_synced_at = some later;
          last_external_id = last_seen w.last_external_id p.seen;
        })
        st.watermarks m

  sweep_after-kept :
      (t : Option ℕ) (i : ℕ) (seen : List String) (st : PullState W)
      → (sweep_after service t i seen st).1.watermarks ≡ st.watermarks
  unfolding sweep_after sweep_missing
  sweep_after-kept none i seen st = refl
  sweep_after-kept (some t) i seen st =
      sweep_items-kept service i seen (work_items_of_project i (service.work_items st.world)) 0 st

  after_pages-Moves :
      (before : Option ℕ) (i : ℕ) (w : ProviderSyncWatermark) (rows : Watermarks)
      (run : Option (Result Pulled × PullState W))
      → marks "openproject" (sync_key ref) w ≡ true
      → cursor ref rows ≡ before
      → Keeps rows run
      → Moves before (after_pages service later i w run)
  unfolding after_pages finish_pull
  after_pages-Moves before i w rows none m k h = tt
  after_pages-Moves before i w rows (some (err exc, st)) m k h = ap (cursor ref) h ∙ k
  after_pages-Moves before i w rows (some (ok p, st)) m k h =
      advance_watermark-Moves before w p (sweep_after service w.last_synced_at i p.seen st) m
        (ap (cursor ref) (sweep_after-kept w.last_synced_at i p.seen st ∙ h) ∙ k)

  sync_project-Moves :
      (fuel now : ℕ) (p : Project) (st : PullState W)
      → provider_project_ref p ≡ some ref
      → Moves (cursor ref st.watermarks) (sync_project service fuel now later p st)
  unfolding sync_project
  sync_project-Moves fuel now p st h =
      let key = sync_key ref in
      let known = get_or_create_watermark "openproject" key st.watermarks in
      let st' = record st { watermarks = known.1 } in
      rw (sync_project, h)
        (after_pages-Moves (cursor ref st.watermarks) p.id known.0 known.1
          (pull_pages service fuel now (since service now known.0) p.id ref.external_id 1
            (started_pull p.id PullStatus.fine) st')
          (get_or_create_watermark-marks "openproject" key st.watermarks)
          (cursor-known ref st.watermarks)
          (pull_pages-kept service fuel now (since service now known.0) p.id ref.external_id 1
            known.1 (started_pull p.id PullStatus.fine) st' refl))

  -- A pull that returns leaves the cursor of its project at the time of its end, whether there were
  -- changes, there were none, or the project is gone at the provider; a pull that raises leaves it
  -- where it was, so the next one asks for the same changes again.
  pub sync_project-cursor :
      (fuel now : ℕ) (p : Project) (st st' : PullState W) (result : Result PullSyncResult)
      → provider_project_ref p ≡ some ref
      → sync_project service fuel now later p st ≡ some (result, st')
      → cursor ref st'.watermarks ≡ cursor_after result later (cursor ref st.watermarks)
  sync_project-cursor fuel now p st st' result h run =
      subst (Moves (cursor ref st.watermarks)) run (sync_project-Moves fuel now p st h)
