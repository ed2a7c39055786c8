-- ===== src/Provisioning/Linking.antt =====
-- The references of a project under linking and provisioning.
use development_brain.Prelude.{
  ◌≡◌, ◌∙◌, refl, sym, String, Option, none, some, List, [], ◌∷◌, ◌++◌, map, any, contains,
  append-nil, append_assoc, string_eq, option_eq, nat_eq, beq_refl, beq_sym, Bool-cases,
  Option-cases, inl, inr, if◌then◌else◌,
}
use mathlib.Core.Path.{subst}
use development_brain.Prelude.Text.{Text}
use development_brain.Prelude.Merge.{
  pair_eq, merge_by, unseen, by_loop, unseen-none, merge_by-covered, merged-Covers, Covers,
  merge_by-nil, merge_by-seen, merge_by-new, map_append,
}
use development_brain.Prelude.Dict.{get-insert}
use development_brain.Domain.{ExternalReference, Project}
use development_brain.Repositories.{get_item, upsert, rows_by}
use development_brain.Provisioning.{
  ExternalProjects, ProvisioningResult, State, same_ref, merge_refs, or_none, persist_refs,
  Candidate, candidates_of, ref_to, link_ref, link_candidates, started,
}

abbrev pub ref_key : ExternalReference → String × (Option String × String)
ref_key r = (r.provider, (r.external_type, r.external_id))

any-contains :
    (ref : ExternalReference) (rs : List ExternalReference)
    → any (same_ref ref) rs ≡ contains (map ref_key rs) (ref_key ref)
unfolding any contains same_ref
any-contains ref [] = refl
any-contains ref (r ∷ rs) = rw (beq_sym (ref_key ref) (ref_key r), any-contains ref rs) refl

pub merge_refs-eq :
    (merged refs : List ExternalReference) → merge_refs merged refs ≡ merge_by ref_key merged refs
unfolding merge_refs
merge_refs-eq merged [] = sym (merge_by-nil ref_key merged)
merge_refs-eq merged (ref ∷ refs) =
    elim (Bool-cases (contains (map ref_key merged) (ref_key ref))) [
      | inl h ↦
          rw (any-contains ref merged, h)
            (merge_refs-eq merged refs ∙ sym (merge_by-seen ref_key merged ref refs h))
      | inr h ↦
          rw (any-contains ref merged, h)
            (merge_refs-eq (merged ++ (ref ∷ [])) refs
              ∙ sym (merge_by-new ref_key merged ref refs h))
    ]

-- The references that are asked for.
unfoldable pub wanted : List Candidate → List ExternalReference
wanted [] = []
wanted ((provider, (external_id, external_type)) ∷ rest) = elim (or_none external_id) [
  | none ↦ wanted rest
  | some i ↦ ref_to provider i external_type ∷ wanted rest
]

-- A result but for its details.
abbrev pub linked_parts : ProvisioningResult → Project × List ExternalReference
linked_parts r = (r.project, r.refs_added)

abbrev pub with_refs : Project → List ExternalReference → Project
with_refs p refs = record p { external_refs = refs }

-- Each reference that the project has not is added to it and listed.
unfoldable pub link_all :
    List ExternalReference → Project × List ExternalReference → Project × List ExternalReference
link_all [] s = s
link_all (ref ∷ refs) (p, added) =
    let kept = link_all refs (p, added) in
    let grown = link_all refs (with_refs p (p.external_refs ++ (ref ∷ [])), added ++ (ref ∷ [])) in
    if contains (map ref_key p.external_refs) (ref_key ref) then kept else grown

link_ref-parts :
    (provider i external_type : String) (refs : List ExternalReference) (r : ProvisioningResult)
    → link_all refs (linked_parts (link_ref provider i external_type r))
      ≡ link_all (ref_to provider i external_type ∷ refs) (linked_parts r)
unfolding link_ref link_all
link_ref-parts provider i external_type refs r =
    let ref = ref_to provider i external_type in
    elim (Bool-cases (contains (map ref_key r.project.external_refs) (ref_key ref))) [
      | inl h ↦ rw (any-contains ref r.project.external_refs, h) refl
      | inr h ↦ rw (any-contains ref r.project.external_refs, h) refl
    ]

link_candidates-parts :
    (cs : List Candidate) (r : ProvisioningResult)
    → linked_parts (link_candidates cs r) ≡ link_all (wanted cs) (linked_parts r)
unfolding link_candidates wanted link_all
link_candidates-parts [] r = refl
link_candidates-parts ((provider, (external_id, external_type)) ∷ rest) r =
    elim (Option-cases (or_none external_id)) [
      | inl h ↦ rw (link_candidates, wanted, h) (link_candidates-parts rest r)
      | inr (i, h) ↦
          rw (link_candidates, wanted, h)
            (link_candidates-parts rest (link_ref provider i external_type r)
              ∙ link_ref-parts provider i external_type (wanted rest) r)
    ]

link_all-eq :
    (refs : List ExternalReference) (p : Project) (added : List ExternalReference)
    → link_all refs (p, added) ≡ (
      with_refs p (p.external_refs ++ unseen ref_key (map ref_key p.external_refs) refs),
      added ++ unseen ref_key (map ref_key p.external_refs) refs,
    )
unfolding link_all unseen
link_all-eq [] p added = rw (append-nil, append-nil) refl
link_all-eq (ref ∷ refs) p added =
    elim (Bool-cases (contains (map ref_key p.external_refs) (ref_key ref))) [
      | inl h ↦ rw h (link_all-eq refs p added)
      | inr h ↦
          let p' = with_refs p (p.external_refs ++ (ref ∷ [])) in
          let keys = map_append ref_key p.external_refs (ref ∷ []) in
          rw h (
            link_all-eq refs p' (added ++ (ref ∷ []))
            ∙ rw (keys, append_assoc p.external_refs (ref ∷ []) _, append_assoc added (ref ∷ []) _)
                refl)
    ]

-- Saving references that the project has already changes neither it nor its row.
pub persist-stored :
    {W : Type 0} (p : Project) (added : List ExternalReference) (details : List Text) (s : State W)
    → let r : ProvisioningResult = record { project = p; refs_added = added; details = details } in
      merge_refs p.external_refs added ≡ p.external_refs
      → (added ≡ [] → get_item p.id s.rows ≡ some p)
      → ((persist_refs r s).0 ≡ r) × (get_item p.id (persist_refs r s).1.rows ≡ some p)
unfolding persist_refs get_item upsert rows_by
persist-stored p [] details s m h = (refl, h refl)
persist-stored p (ref ∷ refs) details s m h =
    rw m (refl, get-insert s.rows p.id p.id p ∙ rw (beq_refl p.id) refl)

abbrev pub linked : Project → ExternalProjects → Project
linked p external = with_refs p (merge_by ref_key p.external_refs (wanted (candidates_of external)))

pub linked-parts :
    (p : Project) (external : ExternalProjects)
    → linked_parts (link_candidates (candidates_of external) (started p)) ≡ (
      linked p external,
      unseen ref_key (map ref_key p.external_refs) (wanted (candidates_of external)),
    )
linked-parts p external =
    let refs = wanted (candidates_of external) in
    link_candidates-parts (candidates_of external) (started p)
    ∙ (link_all-eq refs p [] ∙ rw (sym (by_loop ref_key p.external_refs refs)) refl)

-- Linking what is linked already changes nothing.
pub linked-twice :
    (p : Project) (external : ExternalProjects)
    → linked_parts (link_candidates (candidates_of external) (started (linked p external)))
      ≡ (linked p external, [])
linked-twice p external =
    let refs = wanted (candidates_of external) in
    let q = linked p external in
    let covers : Covers ref_key refs (map ref_key q.external_refs) =
      subst (λ xs. Covers ref_key refs (map ref_key xs))
        (sym (by_loop ref_key p.external_refs refs))
        (merged-Covers ref_key p.external_refs refs).1 in
    let same = merge_by-covered ref_key q.external_refs refs covers in
    let none_added = unseen-none ref_key (map ref_key q.external_refs) refs covers in
    linked-parts q external ∙ (λ i. (with_refs p (same i), none_added i))

pub new_refs-merged :
    (p : Project) (external : ExternalProjects)
    → let added = unseen ref_key (map ref_key p.external_refs) (wanted (candidates_of external)) in
      merge_refs (linked p external).external_refs added ≡ (linked p external).external_refs
new_refs-merged p external =
    let refs = wanted (candidates_of external) in
    let added = unseen ref_key (map ref_key p.external_refs) refs in
    let q = linked p external in
    let covers : Covers ref_key added (map ref_key q.external_refs) =
      subst (λ xs. Covers ref_key added (map ref_key xs))
        (sym (by_loop ref_key p.external_refs refs))
        (merged-Covers ref_key p.external_refs refs).0 in
    merge_refs-eq q.external_refs added ∙ merge_by-covered ref_key q.external_refs added covers
