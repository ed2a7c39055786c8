-- ===== src/Sync/Pages.antt =====
-- The loop over the pages of changes, for a provider that gives each page again when it is asked again.
-- What an offset means to the provider is left open.
use development_brain.Prelude.{
  ℕ, zero, suc, ◌+◌, ◌<◌, ◌≤◌, ◌≡◌, String, Bool, Option, some, List, ◌++◌, map, length,
}
use development_brain.Errors.{Result, ok}
use development_brain.Sync.Pull.{Snapshot, Service, PullState, Pulled, pull_pages}

module _ {W : Type 0} (service : Service W) (now project_id : ℕ)
    (accepted : (s : Snapshot) (source : String) (w : W)
      → (b : Bool) × ((service.ingest_work_item_snapshot s source project_id w).0 ≡ ok b)) where
  abbrev ids : List Snapshot → List String
  ids page = map (λ s. s.external_id) page

  module _ (since : ℕ) (external_id : String) (page : (offset : ℕ) → List Snapshot)
      (listed : (offset : ℕ) (w : W)
        → service.list_changed_work_packages since offset service.page_size external_id w
          ≡ (ok (page offset), w)) where
    -- The k pages before the one that is not full are full, from an offset on.
    abbrev pub EndsAfter : (k offset : ℕ) → Type 0
    EndsAfter zero offset = length (page offset) < service.page_size
    EndsAfter (suc k) offset =
        (service.page_size ≤ length (page offset)) × EndsAfter k (offset + service.page_size)

    -- Those pages and the last one, in their order.
    abbrev pub pages_from : (k offset : ℕ) → List Snapshot
    pages_from zero offset = page offset
    pages_from (suc k) offset = page offset ++ pages_from k (offset + service.page_size)

    -- The loop returns, after it has taken in the snapshots.
    abbrev pub Reads : Pulled → Option (Result Pulled × PullState W) → List Snapshot → Type 0
    Reads p run rest =
        (p' : Pulled) × (st' : PullState W) × ((run ≡ some (ok p', st'))
          × ((p'.seen ≡ p.seen ++ ids rest)
              × (p'.result.items_pulled ≡ p.result.items_pulled + length rest)))

    abbrev pull_from :
        (fuel offset : ℕ) → Pulled → PullState W → Option (Result Pulled × PullState W)
    pull_from fuel offset p st =
        pull_pages service fuel now since project_id external_id offset p st
