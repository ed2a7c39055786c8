-- ===== src/Provisioning/Outcomes.antt =====
-- What linking leaves in the store.
use mathlib.Core.Path.{subst}
use development_brain.Prelude.{
  ℕ, ◌≡◌, ◌∙◌, refl, sym, ap, true, some, List, [], ◌++◌, map, distinct, nat_eq, string_eq,
  option_eq, append-nil,
}
use development_brain.Prelude.Text.{Text}
use development_brain.Prelude.Merge.{pair_eq, unseen, by_loop, merge_by-merge_by}
use development_brain.Errors.{Result, ok}
use development_brain.Domain.{ExternalReference, Project}
use development_brain.Repositories.{get_item}
use development_brain.Provisioning.{
  ExternalProjects, ProvisioningResult, State, persist_refs, merge_refs, load_project,
  candidates_of, link_candidates, bootstrap, started,
}
use development_brain.Provisioning.Linking.{
  ref_key, wanted, linked, with_refs, persist-stored, linked-parts, linked-twice, new_refs-merged,
}

persist-none :
    {W : Type 0} (r : ProvisioningResult) (s : State W)
    → r.refs_added ≡ []
    → (persist_refs r s).1 ≡ s
unfolding persist_refs
persist-none r s h = rw h refl

persist-result :
    {W : Type 0} (r : ProvisioningResult) (s : State W) (q : Project)
    (added : List ExternalReference)
    → r.project ≡ q
    → r.refs_added ≡ added
    → merge_refs q.external_refs added ≡ q.external_refs
    → (added ≡ [] → get_item q.id s.rows ≡ some q)
    → ((persist_refs r s).0 ≡ r) × (get_item q.id (persist_refs r s).1.rows ≡ some q)
persist-result r s q added project new m h =
    let kept =
      persist-stored r.project r.refs_added r.details s (rw (project, new) m)
        (λ e. rw project (h (sym new ∙ e))) in
    (kept.0, subst (λ x. get_item x.id (persist_refs r s).1.rows ≡ some x) project kept.1)

linked-none :
    (p : Project) (external : ExternalProjects)
    → unseen ref_key (map ref_key p.external_refs) (wanted (candidates_of external)) ≡ []
    → linked p external ≡ p
linked-none p external e =
    let refs = wanted (candidates_of external) in
    ap (with_refs p) (
      by_loop ref_key p.external_refs refs
      ∙ (ap (λ xs. p.external_refs ++ xs) e ∙ append-nil p.external_refs))

-- A run that links or provisions: what it returns and what it leaves.
abbrev pub Run : Type 0 → Type 0
Run W = Result ProvisioningResult × State W

module _ {W : Type 0} (show_id : ℕ → Text) where
  bootstrap-found :
      (i : ℕ) (external : ExternalProjects) (s : State W) (p : Project)
      → get_item i s.rows ≡ some p
      → bootstrap show_id i external s ≡ (
          let run = persist_refs (link_candidates (candidates_of external) (started p)) s in
          (ok run.0, run.1))
  unfolding bootstrap load_project
  bootstrap-found i external s p h = rw (bootstrap, load_project, h) refl

  persist-linked :
      (external : ExternalProjects) (s : State W) (p : Project)
      → get_item p.id s.rows ≡ some p
      → let r = link_candidates (candidates_of external) (started p) in
        ((persist_refs r s).0 ≡ r)
        × (get_item p.id (persist_refs r s).1.rows ≡ some (linked p external))
  persist-linked external s p h =
      let added = unseen ref_key (map ref_key p.external_refs) (wanted (candidates_of external)) in
      let r = link_candidates (candidates_of external) (started p) in
      let parts = linked-parts p external in
      let project : r.project ≡ linked p external = ap (λ x. x.0) parts in
      let new : r.refs_added ≡ added = ap (λ x. x.1) parts in
      persist-result r s (linked p external) added project new (new_refs-merged p external)
        (λ e. subst (λ q. get_item q.id s.rows ≡ some q) (sym (linked-none p external e)) h)

  -- Linking a stored project to projects that exist succeeds; the project keeps its references in
  -- front, takes on each one that is asked for and new, and is stored so, with no reference twice when
  -- it had none twice. The same call again adds nothing and changes nothing.
  pub bootstrap-again :
      (i : ℕ) (external : ExternalProjects) (s : State W) (p : Project)
      → get_item i s.rows ≡ some p
      → p.id ≡ i
      → (get_item i (bootstrap show_id i external s).1.rows ≡ some (linked p external))
        × ((distinct (map ref_key p.external_refs) ≡ true
              → distinct (map ref_key (linked p external).external_refs) ≡ true)
            × ((bootstrap show_id i external (bootstrap show_id i external s).1).1
                ≡ (bootstrap show_id i external s).1))
  bootstrap-again i external s p h same =
      let h' : get_item p.id s.rows ≡ some p =
        subst (λ j. get_item j s.rows ≡ some p) (sym same) h in
      let r = link_candidates (candidates_of external) (started p) in
      let s' = (persist_refs r s).1 in
      let after : (bootstrap show_id i external s).1 ≡ s' =
        ap (λ x. x.1) (bootstrap-found i external s p h) in
      let stored : get_item i s'.rows ≡ some (linked p external) =
        subst (λ j. get_item j s'.rows ≡ some (linked p external)) same
          (persist-linked external s p h').1 in
      let again : (bootstrap show_id i external s').1 ≡ s' =
        ap (λ x. x.1) (bootstrap-found i external s' (linked p external) stored)
        ∙ persist-none (link_candidates (candidates_of external) (started (linked p external))) s'
            (ap (λ x. x.1) (linked-twice p external)) in
      let unique =
        (merge_by-merge_by ref_key p.external_refs (wanted (candidates_of external))).1.1 in
      rw after (stored, (unique, again))
