-- ===== src/Locks/Exclusion.antt =====
-- The execution that holds a lock, through calls of others.
use development_brain.Prelude.{
  ℕ, ◌≡◌, String, Bool, true, false, ◌&&◌, none, some, List, [], ◌∷◌, ◌==◌, nat_eq, nat_beq_iff,
  arith, if◌then◌else◌,
}
use development_brain.Prelude.Dict.{get-insert, get-remove}
use development_brain.Locks.{
  WorkspaceLock, InMemoryWorkspaceLockStore, held_by, acquire, release, try_acquire,
}

-- A call of the manager.
pub data Call : Type 0 where
  acquiring : (repository_id execution_id : ℕ) → String → ℕ → Call
  releasing : (repository_id execution_id : ℕ) → Call

unfoldable pub after_call : Call → InMemoryWorkspaceLockStore → InMemoryWorkspaceLockStore
after_call (Call.acquiring r e branch now) store = (try_acquire r e branch now store).1
after_call (Call.releasing r e) store = (release r e store).1

unfoldable pub after_calls : List Call → InMemoryWorkspaceLockStore → InMemoryWorkspaceLockStore
after_calls [] store = store
after_calls (c ∷ cs) store = after_calls cs (after_call c store)

-- The call is execution `e`'s release of repository `r`.
unfoldable pub gives_up : (r e : ℕ) → Call → Bool
gives_up r e (Call.acquiring r' e' branch now) = false
gives_up r e (Call.releasing r' e') = r == r' && e == e'

unfoldable pub any_gives_up : (r e : ℕ) → List Call → Bool
any_gives_up r e [] = false
any_gives_up r e (c ∷ cs) = if gives_up r e c then true else any_gives_up r e cs

after_call-held :
    (r : ℕ) (lock : WorkspaceLock) (store : InMemoryWorkspaceLockStore) (c : Call)
    → held_by store r ≡ some lock
    → gives_up r lock.owner_execution_id c ≡ false
    → held_by (after_call c store) r ≡ some lock
unfolding after_call held_by acquire release try_acquire gives_up
after_call-held r lock store (Call.acquiring r' e branch now) held stays =
    let new : WorkspaceLock = record {
      repository_id = r';
      owner_execution_id = e;
      branch_name = branch;
      acquired_at = now;
    } in
    ground (arith, get-insert store.locks r' r new, nat_beq_iff r' r, held)
after_call-held r lock store (Call.releasing r' e) held stays = ground (
  arith,
  get-remove store.locks r' r,
  nat_beq_iff r' r,
  nat_beq_iff r r',
  nat_beq_iff lock.owner_execution_id e,
  held,
  stays,
)

after_calls-held :
    (r : ℕ) (lock : WorkspaceLock) (store : InMemoryWorkspaceLockStore) (cs : List Call)
    → held_by store r ≡ some lock
    → any_gives_up r lock.owner_execution_id cs ≡ false
    → held_by (after_calls cs store) r ≡ some lock
unfolding after_calls any_gives_up
after_calls-held r lock store [] held stays = held
after_calls-held r lock store (c ∷ cs) held stays =
    after_calls-held r lock (after_call c store) cs
      (after_call-held r lock store c held (ground arith)) (ground arith)

try_acquire-takes :
    (r e : ℕ) (branch : String) (now : ℕ) (store : InMemoryWorkspaceLockStore)
    (lock : WorkspaceLock)
    → (try_acquire r e branch now store).0 ≡ some lock
    → (held_by (try_acquire r e branch now store).1 r ≡ some lock) × (lock.owner_execution_id ≡ e)
unfolding try_acquire acquire held_by
try_acquire-takes r e branch now store lock got =
    let new : WorkspaceLock = record {
      repository_id = r;
      owner_execution_id = e;
      branch_name = branch;
      acquired_at = now;
    } in
    ground (arith, get-insert store.locks r r new, nat_beq_iff r r, got)

try_acquire-refuses :
    (r e : ℕ) (branch : String) (now : ℕ) (store : InMemoryWorkspaceLockStore)
    (lock : WorkspaceLock)
    → held_by store r ≡ some lock
    → (try_acquire r e branch now store).0 ≡ none
unfolding try_acquire acquire held_by
try_acquire-refuses r e branch now store lock held = ground (arith, held)

-- The lock that an execution acquired for a repository is still its own after any calls of the
-- manager that do not include its own release of that repository, and after them every attempt to
-- acquire the repository is refused.
pub try_acquire-held :
    (r e : ℕ) (branch : String) (now : ℕ) (store : InMemoryWorkspaceLockStore)
    (lock : WorkspaceLock) (cs : List Call) (e' : ℕ) (branch' : String) (now' : ℕ)
    → (try_acquire r e branch now store).0 ≡ some lock
    → any_gives_up r e cs ≡ false
    → let store' = after_calls cs (try_acquire r e branch now store).1 in
      (held_by store' r ≡ some lock) × ((try_acquire r e' branch' now' store').0 ≡ none)
try_acquire-held r e branch now store lock cs e' branch' now' got stays =
    let (held, owner) = try_acquire-takes r e branch now store lock got in
    let kept =
      after_calls-held r lock (try_acquire r e branch now store).1 cs held (rw owner stays) in
    (
      kept,
      try_acquire-refuses r e' branch' now' (after_calls cs (try_acquire r e branch now store).1)
          lock kept,
    )
