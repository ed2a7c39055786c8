-- ===== src/Ingestion/Repeating.antt =====
-- The attachments of a snapshot that is taken in again.
use development_brain.Prelude.{
  ℕ, ◌+◌, ◌≡◌, refl, String, some, List, [], ◌∷◌, ◌==◌, string_eq, nat_eq, inl, inr,
}
use development_brain.Prelude.Object.{Object}
use development_brain.Domain.{Project, WorkItem}
use development_brain.Domain.Work.{Attachment}
use development_brain.Repositories.{Collection}
use development_brain.Ingestion.{Deps}
use development_brain.Ingestion.Records.{text_of_object, raw_get}
use development_brain.Ingestion.Attachments.{
  update_existing, reconcile_attachment, reconcile_attachments, updated_attachment, same_attachment,
}
use development_brain.Ingestion.Triples.{
  Triple, Keeps, bind-Triple, seq-Triple, pure-Triple, asks-Triple, modify-Triple, found-Triple,
  if-Triple, cases-Triple,
}
use development_brain.Ingestion.Attached.{found_in, Holds-create, found_in-Replaces}
use development_brain.Ingestion.Frames.{Facts, On}
use development_brain.Ingestion.Reconciling.{Listed, Held, updated_attachment-same}

-- The attachments of a snapshot that are found are not ingested again.
module _ {G B : Type 0} (deps : Deps G B) (bus : B) (Z : String → Type 0)
    (H : Collection WorkItem → Collection Project → Type 0) where
  abbrev pub Quiet : Facts B
  Quiet b ws ps = (b.0 ≡ bus) × Held deps H Z b ws ps

  update_existing-Quiet :
      (raw : Object) (x : String) (a : Attachment)
      → Triple
          (On (λ b ws ps. (found_in x b.1.0 ≡ some a) × Quiet b ws ps))
          (update_existing deps raw a)
          (λ _. On Quiet)
          (On Quiet)
  unfolding update_existing
  update_existing-Quiet raw x a =
      let same = updated_attachment-same deps raw a in
      let u = updated_attachment deps raw a in
      if-Triple (same_attachment u a) (pure-Triple _ (λ t p. p.1)) (
        modify-Triple _ (λ t p.
          let r = found_in-Replaces x t.next_id t.attachments a u p.1.1.1.0 p.0 same.0 same.1 in
          (p.1.0, (p.1.1.0, Holds-create Z t.next_id t.attachments u r.0 p.1.1.1))))

  reconcile_attachment-Quiet :
      (raw : Object) (w : WorkItem) (x : String)
      → Z x
      → Keeps (On Quiet) (reconcile_attachment deps raw w x)
  unfolding reconcile_attachment
  reconcile_attachment-Quiet raw w x z =
      bind-Triple {Q = λ found. On (λ b ws ps. (found_in x b.1.0 ≡ found) × Quiet b ws ps)}
        (asks-Triple _ (λ t p. (refl, p)))
        (λ found.
          found-Triple (λ o. On (λ b ws ps. (found_in x b.1.0 ≡ o) × Quiet b ws ps)) found
            (record { run = λ t p. absurd (p.1.1.1.1 x z p.0) }) (update_existing-Quiet raw x))

  pub reconcile_attachments-Quiet :
      (w : WorkItem) (raws : List Object) (n : ℕ)
      → ((y : String) → Listed deps raws y → Z y)
      → Keeps (On Quiet) (reconcile_attachments deps w raws n)
  unfolding reconcile_attachments
  reconcile_attachments-Quiet w [] n h = pure-Triple _ (λ t p. p)
  reconcile_attachments-Quiet w (raw ∷ rest) n h =
      let x = text_of_object deps.show (raw_get "id" raw) in
      cases-Triple (x == "") (λ e. reconcile_attachments-Quiet w rest n (λ y m. h y (inr m)))
        (λ e.
          seq-Triple (reconcile_attachment-Quiet raw w x (h x (inl (e, refl))))
            (reconcile_attachments-Quiet w rest (n + 1) (λ y m. h y (inr m))))
