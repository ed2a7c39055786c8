-- ===== src/Provisioning/Creating.antt =====
-- What provisioning leaves in the store and at the providers.
use mathlib.Core.Path.{subst}
use development_brain.Prelude.{
  ℕ, Bool, ◌≡◌, ◌∙◌, refl, sym, ap, String, Option, none, some, List, [], ◌∷◌, ◌++◌, length,
  length-append, ◌+◌, nat_eq, beq_refl, string_eq, option_eq, append-nil, append_assoc, inl, inr,
}
use development_brain.Prelude.Text.{Text, codes}
use development_brain.Prelude.Dict.{get-insert}
use development_brain.Prelude.Merge.{pair_eq, merge_by}
use development_brain.Errors.{ok, err, Result-cases}
use development_brain.Domain.{ExternalReference, Project}
use development_brain.Repositories.{get_item, upsert, rows_by}
use development_brain.Provisioning.{
  ProvisioningResult, State, Providers, persist_refs, merge_refs, load_project, started, provision,
  provide_all, try_provide, Call, called, space_name, or_none,
}
use development_brain.Provisioning.Linking.{ref_key, with_refs, merge_refs-eq}

-- The references that the calls return, one after another, and the world that they leave.
unfoldable pub created : {W : Type 0} → List (Option (Call W)) → W → List ExternalReference × W
created [] w = ([], w)
created (none ∷ calls) w = created calls w
created (some call ∷ calls) w =
    let (outcome, w') = call w in
    let (refs, w'') = created calls w' in
    elim outcome [ ok ref ↦ (ref ∷ refs, w'') | err exc ↦ (refs, w'') ]

-- What was created before a call, by it, and by those after it.
try_provide-created :
    {W : Type 0} (label : String) (c : Option (Call W)) (calls : List (Option (Call W)))
    (s : ProvisioningResult × W)
    → let t = try_provide label c s in
      (t.0.refs_added ++ (created calls t.1).0 ≡ s.0.refs_added ++ (created (c ∷ calls) s.1).0)
      × ((created calls t.1).1 ≡ (created (c ∷ calls) s.1).1)
unfolding try_provide created
try_provide-created label none calls (r, w) = (refl, refl)
try_provide-created label (some call) calls (r, w) = elim (Result-cases (call w).0) [
  | inl (ref, h) ↦ rw (try_provide, created, h) (append_assoc r.refs_added (ref ∷ []) _, refl)
  | inr (exc, h) ↦ rw (try_provide, created, h) (refl, refl)
]

persist-world :
    {W : Type 0} (r : ProvisioningResult) (s : State W) → (persist_refs r s).1.world ≡ s.world
unfolding persist_refs
persist-world r s =
    elim r.refs_added
      as (λ added. (persist_refs (record r { refs_added = added }) s).1.world ≡ s.world) [
        | [] ↦ refl
        | ref ∷ refs ↦ refl
      ]

-- Each provider leaves the project alone and one line behind, whatever it does.
try_provide-kept :
    {W : Type 0} (label : String) (c : Option (Call W)) (s : ProvisioningResult × W)
    → ((try_provide label c s).0.project ≡ s.0.project)
      × (length (try_provide label c s).0.details ≡ length s.0.details + 1)
unfolding try_provide
try_provide-kept label none (r, w) = (refl, length-append r.details _)
try_provide-kept label (some create) (r, w) = elim (Result-cases (create w).0) [
  | inl (ref, h) ↦ rw (try_provide, h) (refl, length-append r.details _)
  | inr (exc, h) ↦ rw (try_provide, h) (refl, length-append r.details _)
]

-- The row and the references after a result is saved.
persist-row :
    {W : Type 0} (p : Project) (added : List ExternalReference) (details : List Text) (s : State W)
    → let r : ProvisioningResult = record { project = p; refs_added = added; details = details } in
      get_item p.id s.rows ≡ some p
      → (get_item p.id (persist_refs r s).1.rows ≡ some (persist_refs r s).0.project)
        × ((persist_refs r s).0
            ≡ record r { project = with_refs p (merge_refs p.external_refs added) })
unfolding persist_refs get_item upsert rows_by merge_refs
persist-row p [] details s h = (h, refl)
persist-row p (ref ∷ refs) details s h =
    (get-insert s.rows p.id p.id _ ∙ rw (beq_refl p.id) refl, refl)

module _ {W : Type 0} (show_id : ℕ → Text) (is_alnum : ℕ → Bool) where
  provide_all-kept :
      (providers : Providers W) (p : Project) (w : W)
      → ((provide_all show_id is_alnum providers p w).0.project ≡ p)
        × (length (provide_all show_id is_alnum providers p w).0.details ≡ 3)
  unfolding provide_all
  provide_all-kept providers p w =
      let one =
        try_provide-kept "work management"
          (called (λ c. c p.name (or_none p.description)) providers.work_management)
          (started p, w) in
      let state1 =
        try_provide "work management"
          (called (λ c. c p.name (or_none p.description)) providers.work_management)
          (started p, w) in
      let two =
        try_provide-kept "source control"
          (called (λ c. c p.name (or_none p.description)) providers.source_control) state1 in
      let state2 =
        try_provide "source control"
          (called (λ c. c p.name (or_none p.description)) providers.source_control) state1 in
      let three =
        try_provide-kept "documentation"
          (called (λ c. c (space_name is_alnum (codes p.name))) providers.documentation) state2 in
      (three.0 ∙ (two.0 ∙ one.0), three.1 ∙ rw (two.1, one.1) refl)

  -- The calls of a provisioning, in their order.
  unfoldable pub calls_for : Providers W → Project → List (Option (Call W))
  calls_for providers p =
      let description = or_none p.description in
      called (λ create. create p.name description) providers.work_management
      ∷ called (λ create. create p.name description) providers.source_control
      ∷ called (λ create. create (space_name is_alnum (codes p.name))) providers.documentation
      ∷ []

  provide_all-created :
      (providers : Providers W) (p : Project) (w : W)
      → let run = provide_all show_id is_alnum providers p w in
        (run.0.refs_added ≡ (created (calls_for providers p) w).0)
        × (run.1 ≡ (created (calls_for providers p) w).1)
  unfolding provide_all calls_for created
  provide_all-created providers p w =
      let description = or_none p.description in
      let wm = called (λ c. c p.name description) providers.work_management in
      let sc = called (λ c. c p.name description) providers.source_control in
      let doc = called (λ c. c (space_name is_alnum (codes p.name))) providers.documentation in
      let s1 = try_provide "work management" wm (started p, w) in
      let s2 = try_provide "source control" sc s1 in
      let s3 = try_provide "documentation" doc s2 in
      let one = try_provide-created "work management" wm (sc ∷ doc ∷ []) (started p, w) in
      let two = try_provide-created "source control" sc (doc ∷ []) s1 in
      let three = try_provide-created "documentation" doc [] s2 in
      (sym (append-nil s3.0.refs_added) ∙ (three.0 ∙ (two.0 ∙ one.0)), three.1 ∙ (two.1 ∙ one.1))

  provision-found :
      (providers : Providers W) (i : ℕ) (s : State W) (p : Project)
      → get_item i s.rows ≡ some p
      → provision show_id is_alnum providers i s ≡ (
          let run = provide_all show_id is_alnum providers p s.world in
          let saved = persist_refs run.0 (record s { world = run.1 }) in (ok saved.0, saved.1))
  unfolding provision load_project
  provision-found providers i s p h = rw (provision, load_project, h) refl

  -- Whatever the providers raise, provisioning a stored project calls the configured ones in turn and
  -- returns a result with one line for each of the three and with the references that the calls
  -- created, in order; the project is stored with its own references in front and, of those that were
  -- created, each new one once.
  pub provision-stored :
      (providers : Providers W) (i : ℕ) (s : State W) (p : Project)
      → get_item i s.rows ≡ some p
      → p.id ≡ i
      → let run = provision show_id is_alnum providers i s in
        let (refs, w) = created (calls_for providers p) s.world in
        let stored = with_refs p (merge_by ref_key p.external_refs refs) in
        (get_item i run.1.rows ≡ some stored)
        × ((run.1.world ≡ w)
            × ((r : ProvisioningResult) × ((run.0 ≡ ok r)
                  × ((r.project ≡ stored) × ((r.refs_added ≡ refs) × (length r.details ≡ 3))))))
  provision-stored providers i s p h same =
      let run = provide_all show_id is_alnum providers p s.world in
      let t : State W = record s { world = run.1 } in
      let r = run.0 in
      let made = provide_all-created providers p s.world in
      let refs = (created (calls_for providers p) s.world).0 in
      let kept = provide_all-kept providers p s.world in
      let found : get_item r.project.id t.rows ≡ some r.project =
        subst (λ q. get_item q.id s.rows ≡ some q) (sym kept.0)
          (subst (λ j. get_item j s.rows ≡ some p) (sym same) h) in
      let row = persist-row r.project r.refs_added r.details t found in
      let saved = (persist_refs r t).0 in
      let eq = provision-found providers i s p h in
      let id_eq : r.project.id ≡ i = ap (λ q. q.id) kept.0 ∙ same in
      let project : saved.project ≡ with_refs p (merge_by ref_key p.external_refs refs) =
        ap (λ x. x.project) row.1
        ∙ (ap (λ q. with_refs q (merge_refs q.external_refs r.refs_added)) kept.0
            ∙ (ap (with_refs p) (merge_refs-eq p.external_refs r.refs_added)
                ∙ ap (λ x. with_refs p (merge_by ref_key p.external_refs x)) made.0)) in
      (
        ap (λ x. get_item i x.1.rows) eq
            ∙ (subst (λ j. get_item j (persist_refs r t).1.rows ≡ some saved.project) id_eq row.0
                ∙ ap some project),
        (
          ap (λ x. x.1.world) eq ∙ (persist-world r t ∙ made.1),
          (
            saved,
            (
              ap (λ x. x.0) eq,
              (
                project,
                (ap (λ x. x.refs_added) row.1 ∙ made.0, ap (λ x. length x.details) row.1 ∙ kept.1),
              ),
            ),
          ),
        ),
      )
