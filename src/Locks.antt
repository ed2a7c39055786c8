-- ===== src/Locks.antt =====
-- brain/application/workspace_locks.py: one execution at a time holds the lock of a repository. The
-- protocol `WorkspaceLockStore` is here the store in memory; no method awaits anything between a
-- test and its write, so each call is one step. Times are natural numbers.
pub mod Exclusion
mod Samples
use development_brain.Prelude.{
  ℕ, String, Bool, true, false, not, Option, none, some, List, [], ◌∷◌, ◌==◌, nat_eq, if◌then◌else◌,
}
use development_brain.Prelude.Dict
use development_brain.Prelude.Dict.{Dict}

pub record WorkspaceLock : Type 0 where
  pub repository_id : ℕ
  pub owner_execution_id : ℕ
  pub branch_name : String
  pub acquired_at : ℕ

pub record InMemoryWorkspaceLockStore : Type 0 where
  pub locks : Dict ℕ WorkspaceLock

abbrev pub no_locks : InMemoryWorkspaceLockStore
no_locks = record { locks = [] }

unfoldable pub held_by : InMemoryWorkspaceLockStore → ℕ → Option WorkspaceLock
held_by store repository_id = Dict.get store.locks repository_id

unfoldable pub acquire :
    WorkspaceLock → InMemoryWorkspaceLockStore → Bool × InMemoryWorkspaceLockStore
acquire lock store = elim (Dict.get store.locks lock.repository_id) [
  | some held ↦ (false, store)
  | none ↦ (true, record store { locks = Dict.insert store.locks lock.repository_id lock })
]

unfoldable pub release :
    (repository_id owner_execution_id : ℕ)
    → InMemoryWorkspaceLockStore
    → Bool × InMemoryWorkspaceLockStore
release repository_id owner_execution_id store = elim (Dict.get store.locks repository_id) [
  | none ↦ (false, store)
  | some held ↦
      if not (held.owner_execution_id == owner_execution_id)
      then (false, store)
      else (true, record store { locks = Dict.remove store.locks repository_id })
]

-- The manager's `try_acquire`, at the time `now`. Its other methods are the store's.
unfoldable pub try_acquire :
    (repository_id execution_id : ℕ) (branch_name : String) (now : ℕ)
    → InMemoryWorkspaceLockStore
    → Option WorkspaceLock × InMemoryWorkspaceLockStore
try_acquire repository_id execution_id branch_name now store =
    let lock : WorkspaceLock = record {
      repository_id = repository_id;
      owner_execution_id = execution_id;
      branch_name = branch_name;
      acquired_at = now;
    } in
    let (acquired, store') = acquire lock store in (if acquired then some lock else none, store')
