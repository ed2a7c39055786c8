-- ===== src/Repositories/Refinement.antt =====
-- What a client of a repository sees: a function from ids to records.
use development_brain.Prelude.{
  ℕ, ◌≡◌, refl, Option, none, some, List, [], ◌∷◌, ◌==◌, nat_eq, if◌then◌else◌,
}
use mathlib.Core.Path.{fun_ext}
use development_brain.Prelude.Dict.{get-insert, get-remove}
use development_brain.Repositories.{Collection, upsert, get_item, delete_item, Rows, rows_by}

-- A call that changes the rows.
pub data Change (A : Type 0) : Type 0 where
  creating updating : A → Change A
  deleting : ℕ → Change A

module _ {A : Type 0} (rows : Rows A) where
  unfoldable pub run_change : Change A → Collection A → Collection A
  run_change (creating a) s = rows.create a s
  run_change (updating a) s = rows.update a s
  run_change (deleting i) s = rows.delete i s

  unfoldable pub run_changes : List (Change A) → Collection A → Collection A
  run_changes [] s = s
  run_changes (c ∷ cs) s = run_changes cs (run_change c s)

module _ {A : Type 0} (id_of : A → ℕ) where
  -- The same change to the function.
  unfoldable pub replay_change : Change A → (ℕ → Option A) → ℕ → Option A
  replay_change (creating a) f i = if id_of a == i then some a else f i
  replay_change (updating a) f i = if id_of a == i then some a else f i
  replay_change (deleting j) f i = if j == i then none else f i

  unfoldable pub replay : List (Change A) → (ℕ → Option A) → ℕ → Option A
  replay [] f = f
  replay (c ∷ cs) f = replay cs (replay_change c f)

  get-run_change :
      (c : Change A) (s : Collection A)
      → (λ i. get_item i (run_change (rows_by id_of) c s)) ≡ replay_change c (λ i. get_item i s)
  unfolding run_change replay_change rows_by upsert get_item delete_item
  get-run_change (creating a) s = fun_ext λ i. get-insert s (id_of a) i a
  get-run_change (updating a) s = fun_ext λ i. get-insert s (id_of a) i a
  get-run_change (deleting j) s = fun_ext λ i. get-remove s j i

  -- Whatever is created, updated and deleted, a repository that keeps its records under their ids
  -- reads as the function that each call changes at one id and nowhere else.
  pub get-run_changes :
      (cs : List (Change A)) (s : Collection A)
      → (λ i. get_item i (run_changes (rows_by id_of) cs s)) ≡ replay cs (λ i. get_item i s)
  unfolding run_changes replay
  get-run_changes [] s = refl
  get-run_changes (c ∷ cs) s =
      rw⁻¹ (get-run_change c s) (get-run_changes cs (run_change (rows_by id_of) c s))
