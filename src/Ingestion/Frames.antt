-- ===== src/Ingestion/Frames.antt =====
-- What is said of events, work items, projects and attachments, under the steps of the ingestion that
-- write other things, and of events under the writing of attachments.
use development_brain.Prelude.{ℕ, ◌+◌, ◌≡◌, some, String, List, [], ◌∷◌, ◌==◌, string_eq}
use development_brain.Prelude.Object.{Object}
use development_brain.Prelude.Text.{Text, codes}
use development_brain.Errors.{Result, ok, err}
use development_brain.Domain.{Project, WorkItem}
use development_brain.Domain.Work.{Attachment, WorkItemRelationType}
use development_brain.Repositories.{Collection}
use development_brain.Sync.Pull.{Snapshot}
use development_brain.Ingestion.{Store, Deps, SourceArtifact}
use development_brain.Ingestion.Effects.{on_graph, on_documents, fresh}
use development_brain.Ingestion.Records.{text_of, text_of_object, raw_get, is_text_attachment}
use development_brain.Ingestion.Projection.{project_subgraph, project_subgraph_inner}
use development_brain.Ingestion.Attachments.{
  store_content, ingest_content, ingest_attachment_content, create_attachment, update_existing,
  add_attachment, reconcile_attachment, reconcile_attachments, upsert_attachment_edges,
  new_attachment, updated_attachment, same_attachment,
}
use development_brain.Ingestion.WorkItems.{resolve_assignee, actor_of}
use development_brain.Ingestion.Links.{relation_type_of, add_relation, resolve_relations}
use development_brain.Ingestion.Triples.{
  Triple, Keeps, bind-Triple, seq-Triple, pure-Triple, asks-Triple, modify-Triple, option-Triple,
  if-Triple, guarded-Keeps, Outcome-kept,
}

-- The events, the attachments, and the next id.
abbrev pub Shared : Type 0 → Type 0
Shared B = B × (Collection Attachment × ℕ)

abbrev pub Facts : Type 0 → Type 1
Facts B = Shared B → Collection WorkItem → Collection Project → Type 0

-- What is said of the events, the attachments, the next id, the work items and the projects of a store.
abbrev pub On : {G B : Type 0} → Facts B → Store G B → Type 0
On I s = I (s.event_bus, (s.attachments, s.next_id)) s.work_items s.projects

module _ {G B : Type 0} (I : Facts B) where
  pub on_graph-Keeps : {A : Type 0} (call : G → Result A × G) → Keeps (On I) (on_graph call)
  unfolding on_graph
  on_graph-Keeps call = record { run = λ s p. Outcome-kept (On I) (call s.graph).0 _ p }

  -- A new id raises nothing.
  pub fresh-Triple :
      ((b : B) (fs : Collection Attachment) (n : ℕ) (ws : Collection WorkItem)
          (ps : Collection Project)
        → I (b, (fs, n)) ws ps
        → I (b, (fs, n + 1)) ws ps)
      → (E : Store G B → Type 0) → Triple (On {G = G} I) fresh (λ _. On I) E
  unfolding fresh
  fresh-Triple grows E = record {
    run = λ s p. grows s.event_bus s.attachments s.next_id s.work_items s.projects p;
  }

module _ {G B : Type 0} (deps : Deps G B) (I : Facts B) where
  project_subgraph_inner-Keeps : (w : WorkItem) → Keeps (On I) (project_subgraph_inner deps w)
  unfolding project_subgraph_inner
  project_subgraph_inner-Keeps w = bind-Triple (asks-Triple _ (λ s p. p)) (λ project.
      bind-Triple (asks-Triple _ (λ s p. p))
        (λ relations. seq-Triple (on_graph-Keeps I _) (on_graph-Keeps I _)))

  pub project_subgraph-Keeps : (w : WorkItem) → Keeps (On I) (project_subgraph deps w)
  unfolding project_subgraph
  project_subgraph-Keeps w = guarded-Keeps (project_subgraph_inner-Keeps w)

  actor_of-Keeps : (user : String) (s : Snapshot) → Keeps (On I) (actor_of deps user s)
  unfolding actor_of
  actor_of-Keeps user s = bind-Triple (asks-Triple _ (λ st p. p)) (λ known.
      option-Triple known
        (λ _. seq-Triple (modify-Triple _ (λ st p. p)) (pure-Triple _ (λ st p. p)))
        (λ a _. pure-Triple _ (λ st p. p)))

  pub resolve_assignee-Keeps : (s : Snapshot) → Keeps (On I) (resolve_assignee deps s)
  unfolding resolve_assignee
  resolve_assignee-Keeps s =
      if-Triple (text_of s.assignee_id == "") (pure-Triple _ (λ st p. p))
        (actor_of-Keeps (text_of s.assignee_id) s)

  pub upsert_attachment_edges-Keeps :
      (a : Attachment) → Keeps (On I) (upsert_attachment_edges deps a)
  unfolding upsert_attachment_edges
  upsert_attachment_edges-Keeps a =
      guarded-Keeps (seq-Triple (on_graph-Keeps I _) (on_graph-Keeps I _))

module _ {G B : Type 0} (deps : Deps G B) (I : Facts B)
    (grows : (b : B) (fs : Collection Attachment) (n : ℕ) (ws : Collection WorkItem)
        (ps : Collection Project)
      → I (b, (fs, n)) ws ps
      → I (b, (fs, n + 1)) ws ps) where
  add_relation-Keeps :
      (type : WorkItemRelationType) (raw : Object) (pair : ℕ × ℕ)
      → Keeps (On I) (add_relation deps type raw pair)
  unfolding add_relation
  add_relation-Keeps type raw (source, target) =
      bind-Triple (fresh-Triple I grows _) (λ id. modify-Triple _ (λ s p. p))

  pub resolve_relations-Keeps :
      (w : WorkItem) (external_id : String) (raws : List Object) (n : ℕ)
      → Keeps (On I) (resolve_relations deps w external_id raws n)
  unfolding resolve_relations
  resolve_relations-Keeps w external_id [] n = pure-Triple _ (λ s p. p)
  resolve_relations-Keeps w external_id (raw ∷ rest) n =
      option-Triple (relation_type_of deps raw) (λ _. resolve_relations-Keeps w external_id rest n)
        (λ type _. bind-Triple (asks-Triple _ (λ s p. p)) (λ ends.
          option-Triple ends (λ _. resolve_relations-Keeps w external_id rest n)
            (λ pair _.
              seq-Triple (add_relation-Keeps type raw pair)
                (resolve_relations-Keeps w external_id rest (n + 1)))))

-- The attachments, of which a document may be ingested, for a property of the events alone.
module _ {G B : Type 0} (deps : Deps G B) (P : B → Type 0)
    (kept : (ingest : SourceArtifact → (project_id : ℕ) → G × B → Result Unit × (G × B))
        (artifact : SourceArtifact) (i : ℕ) (g : G) (b : B)
      → deps.document_ingestion ≡ some ingest
      → P b
      → P (ingest artifact i (g, b)).1.1) where
  abbrev I : Facts B
  I b ws ps = P b.0

  create_attachment-Keeps : (a : Attachment) → Keeps (On I) (create_attachment deps a)
  create_attachment-Keeps a = modify-Triple _ (λ s p. p)

  update_existing-Keeps :
      (raw : Object) (a : Attachment) → Keeps (On I) (update_existing deps raw a)
  unfolding update_existing
  update_existing-Keeps raw a =
      if-Triple (same_attachment (updated_attachment deps raw a) a) (pure-Triple _ (λ s p. p))
        (create_attachment-Keeps (updated_attachment deps raw a))

  on_documents-Keeps :
      (ingest : SourceArtifact → (project_id : ℕ) → G × B → Result Unit × (G × B))
      (artifact : SourceArtifact) (i : ℕ)
      → deps.document_ingestion ≡ some ingest
      → Keeps (On I) (on_documents (ingest artifact i))
  unfolding on_documents
  on_documents-Keeps ingest artifact i e = record {
    run = λ s p.
        Outcome-kept (On I) (ingest artifact i (s.graph, s.event_bus)).0 _
          (kept ingest artifact i s.graph s.event_bus e p);
  }

  store_content-Keeps :
      (ingest : SourceArtifact → (project_id : ℕ) → G × B → Result Unit × (G × B))
      → (a : Attachment) (url : String) (project_id : ℕ) (r : Result Text)
      → deps.document_ingestion ≡ some ingest
      → Keeps (On I) (store_content deps ingest a url project_id r)
  unfolding store_content
  store_content-Keeps ingest a url project_id (err exc) e = pure-Triple _ (λ s p. p)
  store_content-Keeps ingest a url project_id (ok content) e =
      seq-Triple (on_documents-Keeps ingest _ project_id e) (create_attachment-Keeps _)

  ingest_content-Keeps :
      (fetch : (url : String) → G → Result Text × G)
      (ingest : SourceArtifact → (project_id : ℕ) → G × B → Result Unit × (G × B)) (a : Attachment)
      (url : String) (project_id : ℕ)
      → deps.document_ingestion ≡ some ingest
      → Keeps (On I) (ingest_content deps fetch ingest a url project_id)
  unfolding ingest_content
  ingest_content-Keeps fetch ingest a url project_id e = record {
    run = λ s p.
        (store_content-Keeps ingest a url project_id (fetch url s.graph).0 e).run
          (record s { graph = (fetch url s.graph).1 }) p;
  }

  ingest_attachment_content-Keeps :
      (a : Attachment) (project_id : ℕ) → Keeps (On I) (ingest_attachment_content deps a project_id)
  unfolding ingest_attachment_content
  ingest_attachment_content-Keeps a project_id =
      option-Triple deps.content_fetcher (λ _. pure-Triple _ (λ s p. p))
        (λ fetch _.
          option-Triple deps.document_ingestion (λ _. pure-Triple _ (λ s p. p))
            (λ ingest e.
              option-Triple a.download_url (λ _. pure-Triple _ (λ s p. p))
                (λ url _.
                  if-Triple (is_text_attachment (codes a.content_type))
                    (ingest_content-Keeps fetch ingest a url project_id e)
                    (pure-Triple _ (λ s p. p)))))

  add_attachment-Keeps :
      (raw : Object) (w : WorkItem) (external_id : String)
      → Keeps (On I) (add_attachment deps raw w external_id)
  unfolding add_attachment
  add_attachment-Keeps raw w external_id =
      bind-Triple (fresh-Triple I (λ b fs n ws ps p. p) _) (λ id.
        let a = new_attachment deps id raw w external_id in
        seq-Triple
          (seq-Triple (create_attachment-Keeps a) (ingest_attachment_content-Keeps a w.project_id))
          (upsert_attachment_edges-Keeps deps I a))

  reconcile_attachment-Keeps :
      (raw : Object) (w : WorkItem) (external_id : String)
      → Keeps (On I) (reconcile_attachment deps raw w external_id)
  unfolding reconcile_attachment
  reconcile_attachment-Keeps raw w external_id = bind-Triple (asks-Triple _ (λ s p. p)) (λ found.
      option-Triple found (λ _. add_attachment-Keeps raw w external_id)
        (λ a _. update_existing-Keeps raw a))

  pub reconcile_attachments-Keeps :
      (w : WorkItem) (raws : List Object) (n : ℕ)
      → Keeps (On I) (reconcile_attachments deps w raws n)
  unfolding reconcile_attachments
  reconcile_attachments-Keeps w [] n = pure-Triple _ (λ s p. p)
  reconcile_attachments-Keeps w (raw ∷ rest) n =
      let external_id = text_of_object deps.show (raw_get "id" raw) in
      if-Triple (external_id == "") (reconcile_attachments-Keeps w rest n) (
        seq-Triple (reconcile_attachment-Keeps raw w external_id)
          (reconcile_attachments-Keeps w rest (n + 1)))
