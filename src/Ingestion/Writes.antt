-- ===== src/Ingestion/Writes.antt =====
-- The steps of the ingestion that write a work item, and its reference to its package.
use development_brain.Prelude.{
  ℕ, ◌≡◌, refl, String, Bool, true, false, Option, none, some, List, nat_eq, string_eq, any, arith,
}
use development_brain.Prelude.Object.{Object}
use development_brain.Domain.{Project, WorkItem}
use development_brain.Repositories.{Collection, work_item_rows, refers}
use development_brain.Sync.Pull.{Snapshot}
use development_brain.Ingestion.{Store, Deps, SemanticChange, OpenProjectIngestionResult}
use development_brain.Domain.Work.{Attachment}
use development_brain.Prelude.{◌+◌}
use development_brain.Ingestion.Attachments.{reconcile_attachments}
use development_brain.Ingestion.Effects.{◌>>◌, pure}
use development_brain.Ingestion.Records.{openproject_ref}
use development_brain.Ingestion.WorkItems.{
  update_work_item, find_package, new_work_item, create_work_item, find_or_create_work_item,
  applied, apply_snapshot,
}
use development_brain.Ingestion.Links.{with_parent, parent_number, resolve_parent}
use development_brain.Ingestion.Service.{ingest_item}
use development_brain.Ingestion.Triples.{
  Triple, bind-Triple, seq-Triple, pure-Triple, asks-Triple, modify-Triple, option-Triple,
  fact-Triple, found-Triple, weaken-Triple,
}
use development_brain.Ingestion.Frames.{
  Facts, Shared, On, fresh-Triple, project_subgraph-Keeps, resolve_relations-Keeps,
  resolve_assignee-Keeps,
}
use development_brain.Ingestion.Identity.{Carries, find_package-Carries}

new_work_item-Carries :
    (id project_id : ℕ) (s : Snapshot) → Carries s.external_id (new_work_item id project_id s)
unfolding new_work_item openproject_ref refers any
new_work_item-Carries id project_id s =
    ground (arith, string_eq.beq_iff s.external_id s.external_id)

with_parent-Carries :
    (x : String) (w v : WorkItem) (parent : Option WorkItem)
    → Carries x w
    → with_parent w parent ≡ some v
    → Carries x v
unfolding with_parent
with_parent-Carries x w v none c e = ground (arith, e)
with_parent-Carries x w v (some parent) c e = ground (arith, c, e)

module _ {G B : Type 0} (deps : Deps G B) (s : Snapshot) (I J : Facts B)
    (stable : (b : Shared B) (ws : Collection WorkItem) (ps : Collection Project) (w : WorkItem)
      → Carries s.external_id w
      → I b ws ps
      → I b (work_item_rows.update w ws) ps)
    (grows : (b : B) (fs : Collection Attachment) (n : ℕ) (ws : Collection WorkItem)
        (ps : Collection Project)
      → I (b, (fs, n)) ws ps
      → I (b, (fs, n + 1)) ws ps)
    (weaker : (b : Shared B) (ws : Collection WorkItem) (ps : Collection Project)
      → J b ws ps
      → I b ws ps)
    (attached : (w : WorkItem)
      → Triple (On I) (reconcile_attachments deps w s.attachments 0) (λ _. On J) (On I)) where
  -- A work item that carries the reference of the snapshot, in a store of which I is said.
  abbrev pub Placed : WorkItem → Store G B → Type 0
  Placed w t = Carries s.external_id w × On I t

  write-Triple :
      (w : WorkItem)
      → Carries s.external_id w
      → Triple (On I) (update_work_item w >> pure w) Placed (On I)
  write-Triple w c =
      seq-Triple
        (modify-Triple _
          (λ t p. stable (t.event_bus, (t.attachments, t.next_id)) t.work_items t.projects w c p))
        (pure-Triple _ (λ t p. (c, p)))

  apply_snapshot-Triple :
      (w : WorkItem)
      → Carries s.external_id w
      → Triple (On I) (apply_snapshot deps w s) Placed (On I)
  unfolding apply_snapshot applied
  apply_snapshot-Triple w c =
      bind-Triple (resolve_assignee-Keeps deps I s)
        (λ assignee. write-Triple (applied s assignee w) c)

  resolve_parent-Triple :
      (w : WorkItem)
      → Carries s.external_id w
      → Triple (On I) (resolve_parent deps w s) Placed (On I)
  unfolding resolve_parent
  resolve_parent-Triple w c =
      option-Triple (parent_number s.parent_id) (λ _. pure-Triple _ (λ t p. (c, p)))
        (λ i _.
          bind-Triple
            {Q = λ changed t.
              ((v : WorkItem) → changed ≡ some v → Carries s.external_id v) × On I t}
            (asks-Triple _ (λ t p. (
              (λ v e.
                  with_parent-Carries s.external_id w v
                    (find_package (deps.show (Object.int i)) t.work_items) c e),
              p,
            )))
            (λ changed. fact-Triple (λ h.
              option-Triple changed (λ _. pure-Triple _ (λ t p. (c, p)))
                (λ v e. write-Triple v (h v e)))))

  module _ (P : Facts B) (R : Bool → Type 0)
      (old : (b : Shared B) (ws : Collection WorkItem) (ps : Collection Project) (w : WorkItem)
        → P b ws ps
        → find_package s.external_id ws ≡ some w
        → R false × I b ws ps)
      (new : (b : Shared B) (ws : Collection WorkItem) (ps : Collection Project) (w : WorkItem)
        → P b ws ps
        → find_package s.external_id ws ≡ none
        → Carries s.external_id w
        → R true × I b (work_item_rows.create w ws) ps)
      (more : (b : B) (fs : Collection Attachment) (n : ℕ) (ws : Collection WorkItem)
          (ps : Collection Project)
        → P (b, (fs, n)) ws ps
        → P (b, (fs, n + 1)) ws ps) where
    -- The search, before what it found is used.
    abbrev Searched : Option WorkItem → Facts B
    Searched found b ws ps = (find_package s.external_id ws ≡ found) × P b ws ps

    abbrev Found : WorkItem × Bool → Store G B → Type 0
    Found r t = R r.1 × Placed r.0 t

    create_work_item-Triple :
        (now project_id : ℕ)
        → Triple
            (On (Searched none))
            (create_work_item deps now project_id s)
            (λ w t. R true × Placed w t)
            (On I)
    unfolding create_work_item
    create_work_item-Triple now project_id =
        bind-Triple
          (fresh-Triple (Searched none) (λ b fs n ws ps p. (p.0, more b fs n ws ps p.1)) _)
          (λ id.
            let w = new_work_item id project_id s in
            let c = new_work_item-Carries id project_id s in
            seq-Triple {Q = λ t. R true × On I t}
              (modify-Triple _ (λ t p.
                new (t.event_bus, (t.attachments, t.next_id)) t.work_items t.projects w p.1 p.0 c))
              (seq-Triple {Q = λ t. R true × On I t} (modify-Triple _ (λ t p. p))
                (pure-Triple w (λ t p. (p.0, (c, p.1))))))

    pub find_or_create_work_item-Triple :
        (now project_id : ℕ)
        → Triple (On P) (find_or_create_work_item deps now project_id s) Found (On I)
    unfolding find_or_create_work_item
    find_or_create_work_item-Triple now project_id =
        bind-Triple {Q = λ found. On (Searched found)} (asks-Triple _ (λ t p. (refl, p))) (λ found.
          found-Triple (λ o. On (Searched o)) found
            (bind-Triple (create_work_item-Triple now project_id) (λ w. pure-Triple _ (λ t p. p)))
            (λ w. pure-Triple _ (λ t p.
              let q =
                old (t.event_bus, (t.attachments, t.next_id)) t.work_items t.projects w p.1 p.0 in
              (q.0, (find_package-Carries s.external_id t.work_items w p.0, q.1)))))

    -- What is stored of a snapshot: its work item, and what is said of `created`.
    abbrev pub Stored : List SemanticChange → OpenProjectIngestionResult → Type 0
    Stored changes r =
        ((w : WorkItem) × (r.work_item ≡ some w)) × (R r.created × (r.changes ≡ changes))

    pub ingest_item-Triple :
        (now project_id : ℕ) (changes : List SemanticChange)
        → Triple
            (On P)
            (ingest_item deps now project_id s changes)
            (λ r t. Stored changes r × On J t)
            (On I)
    unfolding ingest_item
    ingest_item-Triple now project_id changes =
        bind-Triple (find_or_create_work_item-Triple now project_id) (λ (w, created).
          fact-Triple (λ c. fact-Triple (λ carries.
            bind-Triple (apply_snapshot-Triple w carries) (λ a. fact-Triple (λ carries'.
              bind-Triple (resolve_parent-Triple a carries') (λ placed. fact-Triple (λ _.
                bind-Triple
                  (resolve_relations-Keeps deps I grows placed s.external_id s.relations 0)
                  (λ relations. bind-Triple (attached placed) (λ attachments.
                    seq-Triple
                      (weaken-Triple (λ r t p. p)
                        (λ t p.
                          weaker (t.event_bus, (t.attachments, t.next_id)) t.work_items t.projects
                            p)
                        (project_subgraph-Keeps deps J placed))
                      (pure-Triple _ (λ t p. (((placed, refl), (c, refl)), p))))))))))))
