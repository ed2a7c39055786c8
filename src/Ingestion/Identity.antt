-- ===== src/Ingestion/Identity.antt =====
-- A work item that carries the reference of a package, and the search for it.
use development_brain.Prelude.{
  ℕ, ◌≡◌, String, Bool, true, none, some, List, [], ◌∷◌, nat_eq, any, arith,
}
use development_brain.Prelude.Dict
use development_brain.Prelude.Dict.{Dict}
use development_brain.Domain.{WorkItem, ExternalReference}
use development_brain.Repositories.{
  Collection, work_item_rows, rows_by, upsert, list_all, first_with_ref, find_work_item, refers,
}
use development_brain.Ingestion.WorkItems.{find_package}

abbrev pub Carries : (external_id : String) → WorkItem → Type 0
Carries external_id w =
    any (refers "openproject" external_id (some "work_package")) w.external_refs ≡ true

-- A package with the id is among the work items.
abbrev pub Known : (external_id : String) → Collection WorkItem → Type 0
Known external_id rows = ¬ (find_package external_id rows ≡ none)

module _ (test : ExternalReference → Bool) where
  found_after_insert :
      (rows : Collection WorkItem) (i : ℕ) (w : WorkItem)
      → any test w.external_refs ≡ true
      → ¬ (first_with_ref (λ v. v.external_refs) test (Dict.values (Dict.insert rows i w)) ≡ none)
  unfolding first_with_ref Dict.values Dict.insert
  found_after_insert [] i w c e = ground (arith, c, e)
  found_after_insert ((j, v) ∷ rows) i w c e = ground (arith, c, e, found_after_insert rows i w c)

  found_carries :
      (ws : List WorkItem) (w : WorkItem)
      → first_with_ref (λ v. v.external_refs) test ws ≡ some w
      → any test w.external_refs ≡ true
  unfolding first_with_ref
  found_carries [] w e = ground (arith, e)
  found_carries (v ∷ ws) w e = ground (arith, e, found_carries ws w)

pub upsert-Known :
    (external_id : String) (rows : Collection WorkItem) (w : WorkItem)
    → Carries external_id w
    → Known external_id (work_item_rows.update w rows)
unfolding find_package find_work_item rows_by upsert list_all
upsert-Known external_id rows w c =
    found_after_insert (refers "openproject" external_id (some "work_package")) rows w.id w c

pub find_package-Carries :
    (external_id : String) (rows : Collection WorkItem) (w : WorkItem)
    → find_package external_id rows ≡ some w
    → Carries external_id w
unfolding find_package find_work_item list_all
find_package-Carries external_id rows w e =
    found_carries (refers "openproject" external_id (some "work_package")) (Dict.values rows) w e
