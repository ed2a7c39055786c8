-- ===== src/Ingestion/Reconciling.antt =====
-- The attachments of a snapshot that is taken in.
use development_brain.Prelude.{
  ℕ, ◌+◌, ◌<◌, ◌≡◌, refl, sym, ap, ◌∙◌, String, true, false, none, some, List, [], ◌∷◌, ◌==◌, ◌⊎◌,
  string_eq, nat_eq, any, arith, inl, inr,
}
use mathlib.Core.Path.{subst}
use development_brain.Prelude.Dict
use development_brain.Prelude.Object.{Object}
use development_brain.Prelude.Text.{Text, codes}
use development_brain.Errors.{Result, ok, err}
use development_brain.Domain.{Project, WorkItem}
use development_brain.Domain.Work.{Attachment}
use development_brain.Repositories.{Collection, attachment_rows, refers}
use development_brain.Ingestion.{Store, Deps, SourceArtifact}
use development_brain.Ingestion.Effects.{fresh, on_documents}
use development_brain.Ingestion.Records.{
  text_of_object, raw_get, is_text_attachment, openproject_ref,
}
use development_brain.Ingestion.Attachments.{
  store_content, ingest_content, ingest_attachment_content, update_existing, add_attachment,
  reconcile_attachment, reconcile_attachments, new_attachment, updated_attachment, same_attachment,
}
use development_brain.Ingestion.Triples.{
  Triple, Outcome-kept, bind-Triple, seq-Triple, pure-Triple, asks-Triple, modify-Triple,
  option-Triple, found-Triple, if-Triple, cases-Triple, weaken-Triple,
}
use development_brain.Ingestion.Attached.{
  test_of, found_in, Replaces, Holds, Holds-create, Holds-suc, Own-get_new, create-found_in,
  found_in-Replaces, get-create,
}
use development_brain.Ingestion.Frames.{Facts, On, upsert_attachment_edges-Keeps}

-- Y and x.
abbrev pub With : (String → Type 0) → String → String → Type 0
With Y x y = Y y ⊎ (x ≡ y)

-- A write of a, of which the text is x's, adds x to what is found.
create-Holds :
    (Y : String → Type 0) (x : String) (n : ℕ) (rows : Collection Attachment) (a : Attachment)
    → any (test_of x) a.external_refs ≡ true
    → Replaces n a rows
    → Holds Y n rows
    → Holds (With Y x) n (attachment_rows.create a rows)
create-Holds Y x n rows a c r h =
    let kept = Holds-create Y n rows a r h in
    (
      kept.0,
      λ y m. elim m [
        | inl old ↦ kept.1 y old
        | inr e ↦
            subst (λ z. ¬ (found_in z (attachment_rows.create a rows) ≡ none)) e
              (create-found_in x rows a c)
      ],
    )

module _ {G B : Type 0} (deps : Deps G B) where
  -- The ids of the attachments that a snapshot lists.
  abbrev pub Listed : List Object → String → Type 0
  Listed [] y = ⊥
  Listed (raw ∷ rest) y =
      let x = text_of_object deps.show (raw_get "id" raw) in
      (((x == "") ≡ false) × (x ≡ y)) ⊎ Listed rest y

  new_attachment-carries :
      (id : ℕ) (raw : Object) (w : WorkItem) (x : String)
      → any (test_of x) (new_attachment deps id raw w x).external_refs ≡ true
  unfolding new_attachment openproject_ref refers any
  new_attachment-carries id raw w x = ground (arith, string_eq.beq_iff x x)

  pub updated_attachment-same :
      (raw : Object) (a : Attachment)
      → ((updated_attachment deps raw a).id ≡ a.id)
        × (a.external_refs ≡ (updated_attachment deps raw a).external_refs)
  unfolding updated_attachment
  updated_attachment-same raw a = (refl, refl)

module _ {G B : Type 0} (deps : Deps G B)
    (H : Collection WorkItem → Collection Project → Type 0) where
  abbrev pub Held : (String → Type 0) → Facts B
  Held Y b ws ps = H ws ps × Holds Y b.1.1 b.1.0

  abbrev pub Base : Store G B → Type 0
  Base t = On (Held (λ y. ⊥)) t

  Held-Base : (Y : String → Type 0) (t : Store G B) → On (Held Y) t → Base t
  Held-Base Y t p = (p.0, (p.1.0, λ y m. absurd m))

  -- The attachment a is in the store.
  abbrev Inside : (String → Type 0) → Attachment → Facts B
  Inside Y a b ws ps = Held Y b ws ps × ((Dict.get b.1.0 a.id ≡ some a) × (a.id < b.1.1))

  store_content-Held :
      (Y : String → Type 0)
      (ingest : SourceArtifact → (project_id : ℕ) → G × B → Result Unit × (G × B)) (a : Attachment)
      (url : String) (project_id : ℕ) (r : Result Text)
      → Triple
          (On (Inside Y a))
          (store_content deps ingest a url project_id r)
          (λ _. On (Held Y))
          Base
  unfolding store_content on_documents
  store_content-Held Y ingest a url project_id (err exc) = pure-Triple _ (λ t p. p.0)
  store_content-Held Y ingest a url project_id (ok content) =
      seq-Triple {Q = On (Inside Y a)}
        (weaken-Triple (λ u t p. p) (λ t p. Held-Base Y t p.0)
          (record {
            run = λ t p.
                Outcome-kept (On (Inside Y a)) (ingest _ project_id (t.graph, t.event_bus)).0 _ p;
          }))
        (modify-Triple _ (λ t p. (
          p.0.0,
          Holds-create Y t.next_id t.attachments (record a { content_ingested = true })
              (
                p.1.1,
                λ e h.
                    let q : some a ≡ some e = sym p.1.0 ∙ h in
                    let same : a ≡ e = cc in ap (λ z. z.external_refs) (sym same),
              )
              p.0.1,
        )))

  ingest_attachment_content-Held :
      (Y : String → Type 0) (a : Attachment) (project_id : ℕ)
      → Triple
          (On (Inside Y a))
          (ingest_attachment_content deps a project_id)
          (λ _. On (Held Y))
          Base
  unfolding ingest_attachment_content ingest_content
  ingest_attachment_content-Held Y a project_id =
      option-Triple deps.content_fetcher (λ _. pure-Triple _ (λ t p. p.0))
        (λ fetch _.
          option-Triple deps.document_ingestion (λ _. pure-Triple _ (λ t p. p.0))
            (λ ingest _.
              option-Triple a.download_url (λ _. pure-Triple _ (λ t p. p.0))
                (λ url _.
                  if-Triple (is_text_attachment (codes a.content_type))
                    (record {
                      run = λ t p.
                          (store_content-Held Y ingest a url project_id (fetch url t.graph).0).run
                            (record t { graph = (fetch url t.graph).1 }) p;
                    })
                    (pure-Triple _ (λ t p. p.0)))))

  -- An attachment that is new.
  abbrev Unused : (String → Type 0) → ℕ → Facts B
  Unused Y id b ws ps = Held Y b ws ps × ((id < b.1.1) × (Dict.get b.1.0 id ≡ none))

  fresh-Unused : (Y : String → Type 0) → Triple (On (Held Y)) fresh (λ id. On (Unused Y id)) Base
  unfolding fresh
  fresh-Unused Y = record {
    run = λ t p. (
      (p.0, Holds-suc Y t.next_id t.attachments p.1),
      (omega arith, Own-get_new t.next_id t.attachments p.1.0.1),
    );
  }

  add_attachment-Held :
      (Y : String → Type 0) (raw : Object) (w : WorkItem) (x : String)
      → Triple (On (Held Y)) (add_attachment deps raw w x) (λ _. On (Held (With Y x))) Base
  unfolding add_attachment new_attachment
  add_attachment-Held Y raw w x = bind-Triple (fresh-Unused Y) (λ id.
      let a = new_attachment deps id raw w x in
      let c = new_attachment-carries deps id raw w x in
      seq-Triple {Q = On (Held (With Y x))}
        (seq-Triple {Q = On (Inside (With Y x) a)}
          (modify-Triple _ (λ t p. (
            (
              p.0.0,
              create-Holds Y x t.next_id t.attachments a c (p.1.0, λ e h. ground (arith, h, p.1.1))
                  p.0.1,
            ),
            (get-create t.attachments a, p.1.0),
          )))
          (ingest_attachment_content-Held (With Y x) a w.project_id))
        (weaken-Triple (λ u t p. p) (Held-Base (With Y x))
          (upsert_attachment_edges-Keeps deps (Held (With Y x)) a)))

  update_existing-Held :
      (Y : String → Type 0) (raw : Object) (x : String) (a : Attachment)
      → Triple
          (On (λ b ws ps. (found_in x b.1.0 ≡ some a) × Held Y b ws ps))
          (update_existing deps raw a)
          (λ _. On (Held (With Y x)))
          Base
  unfolding update_existing
  update_existing-Held Y raw x a =
      let same = updated_attachment-same deps raw a in
      let u = updated_attachment deps raw a in
      if-Triple (same_attachment u a)
        (pure-Triple _ (λ t p. (
          p.1.0,
          (
            p.1.1.0,
            λ y m. elim m [
              | inl old ↦ p.1.1.1 y old
              | inr e ↦
                  subst (λ z. ¬ (found_in z t.attachments ≡ none)) e (λ n. ground (arith, n, p.0))
            ],
          ),
        )))
        (modify-Triple _ (λ t p.
          let r = found_in-Replaces x t.next_id t.attachments a u p.1.1.0 p.0 same.0 same.1 in
          (p.1.0, create-Holds Y x t.next_id t.attachments u r.1 r.0 p.1.1)))

  reconcile_attachment-Held :
      (Y : String → Type 0) (raw : Object) (w : WorkItem) (x : String)
      → Triple (On (Held Y)) (reconcile_attachment deps raw w x) (λ _. On (Held (With Y x))) Base
  unfolding reconcile_attachment
  reconcile_attachment-Held Y raw w x =
      bind-Triple {Q = λ found. On (λ b ws ps. (found_in x b.1.0 ≡ found) × Held Y b ws ps)}
        (asks-Triple _ (λ t p. (refl, p)))
        (λ found.
          found-Triple (λ o. On (λ b ws ps. (found_in x b.1.0 ≡ o) × Held Y b ws ps)) found
            (record { run = λ t p. (add_attachment-Held Y raw w x).run t p.1 })
            (update_existing-Held Y raw x))

  -- After the attachments were reconciled, all that the snapshot lists are found.
  pub reconcile_attachments-Held :
      (Y : String → Type 0) (w : WorkItem) (raws : List Object) (n : ℕ)
      → Triple
          (On (Held Y))
          (reconcile_attachments deps w raws n)
          (λ _. On (Held (λ y. Y y ⊎ Listed deps raws y)))
          Base
  unfolding reconcile_attachments
  reconcile_attachments-Held Y w [] n =
      pure-Triple _
        (λ t p. (p.0, (p.1.0, λ y m. elim m [ inl old ↦ p.1.1 y old | inr b ↦ absurd b ])))
  reconcile_attachments-Held Y w (raw ∷ rest) n =
      let x = text_of_object deps.show (raw_get "id" raw) in
      cases-Triple (x == "")
        (λ e.
          weaken-Triple
            (λ k t p. (
              p.0,
              (
                p.1.0,
                λ y m. elim m [
                  | inl old ↦ p.1.1 y (inl old)
                  | inr listed ↦ elim listed [
                    | inl own ↦ ground (arith, own.0, e)
                    | inr later ↦ p.1.1 y (inr later)
                  ]
                ],
              ),
            ))
            (λ t p. p) (reconcile_attachments-Held Y w rest n))
        (λ e. seq-Triple (reconcile_attachment-Held Y raw w x) (
          weaken-Triple
            (λ k t p. (
              p.0,
              (
                p.1.0,
                λ y m. elim m [
                  | inl old ↦ p.1.1 y (inl (inl old))
                  | inr listed ↦ elim listed [
                    | inl own ↦ p.1.1 y (inl (inr own.1))
                    | inr later ↦ p.1.1 y (inr later)
                  ]
                ],
              ),
            ))
            (λ t p. p) (reconcile_attachments-Held (With Y x) w rest (n + 1))))
