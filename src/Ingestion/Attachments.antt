-- ===== src/Ingestion/Attachments.antt =====
-- The attachments of a work item, by brain/application/openproject_ingestion.py.
use development_brain.Prelude.{
  ℕ, ◌+◌, String, Bool, true, false, ◌&&◌, Option, none, some, List, [], ◌∷◌, ◌==◌, string_eq,
  nat_eq, option_eq, if◌then◌else◌,
}
use Prim.Native.String
use development_brain.Prelude.Object.{Object}
use development_brain.Prelude.Text.{Text, codes}
use development_brain.Errors.{Result, ok, err}
use development_brain.Domain.{WorkItem}
use development_brain.Domain.Work.{Attachment}
use development_brain.Repositories.{attachment_rows, find_attachment}
use development_brain.KnowledgeGraph.{GraphLabel, RelationType}
use development_brain.Ingestion.{Store, Deps, SourceArtifact}
use development_brain.Ingestion.Effects.{
  M, ◌>>=◌, ◌>>◌, asks, modify, pure, guarded, fresh, on_graph, on_documents,
}
use development_brain.Ingestion.Records.{
  lookup, raw_get, text_or, optional_text, text_of_object, openproject_ref, is_text_attachment,
  as_int, number_of,
}
use development_brain.Ingestion.Projection.{entity, edge}

-- The fields that a reconciliation may change are as they were.
unfoldable pub same_attachment : Attachment → Attachment → Bool
same_attachment a b =
    a.file_name == b.file_name
    && (a.content_type == b.content_type
        && (a.file_size == b.file_size && a.download_url == b.download_url))

module _ {G B : Type 0} (deps : Deps G B) where
  abbrev pub create_attachment : Attachment → M (Store G B) Unit
  create_attachment a =
      modify (λ s. record s { attachments = attachment_rows.create a s.attachments })

  unfoldable pub upsert_attachment_edges : Attachment → M (Store G B) Unit
  unfolding entity edge
  upsert_attachment_edges a = guarded (
      on_graph (
        deps.upsert_entities (
          entity a.id GraphLabel.attachment none (
            ("file_name", Object.str a.file_name)
            ∷ ("content_type", Object.str a.content_type)
            ∷ [])
          ∷ []))
      >> on_graph
          (deps.upsert_relations (edge a.work_item_id RelationType.has_attachment a.id ∷ [])))

  -- A fetch that raises is logged; an ingestion that raises is not caught.
  unfoldable pub store_content :
      (ingest : SourceArtifact → (project_id : ℕ) → G × B → Result Unit × (G × B))
      → Attachment
      → (url : String) (project_id : ℕ) → Result Text
      → M (Store G B) Unit
  unfolding text_or
  store_content ingest a url project_id (err exc) = pure tt
  store_content ingest a url project_id (ok content) =
      on_documents (
        ingest
          (record {
            source_uri = url;
            provider = "openproject";
            mime_type = text_or a.content_type "text/plain";
            file_name = a.file_name;
            content = content;
          })
          project_id)
      >> create_attachment (record a { content_ingested = true })

  unfoldable pub ingest_content :
      (fetch : (url : String) → G → Result Text × G)
      → (ingest : SourceArtifact → (project_id : ℕ) → G × B → Result Unit × (G × B)) → Attachment
      → (url : String) (project_id : ℕ) → M (Store G B) Unit
  unfolding store_content
  ingest_content fetch ingest a url project_id s =
      let r = fetch url s.graph in
      store_content ingest a url project_id r.0 (record s { graph = r.1 })

  unfoldable pub ingest_attachment_content : Attachment → (project_id : ℕ) → M (Store G B) Unit
  unfolding ingest_content
  ingest_attachment_content a project_id = elim deps.content_fetcher as (λ _. M (Store G B) Unit) [
    | none ↦ pure tt
    | some fetch ↦ elim deps.document_ingestion as (λ _. M (Store G B) Unit) [
      | none ↦ pure tt
      | some ingest ↦ elim a.download_url as (λ _. M (Store G B) Unit) [
        | none ↦ pure tt
        | some url ↦
            if is_text_attachment (codes a.content_type)
            then ingest_content fetch ingest a url project_id
            else pure tt
      ]
    ]
  ]

  unfoldable pub updated_attachment : Object → Attachment → Attachment
  unfolding raw_get text_or text_of_object optional_text lookup number_of
  updated_attachment raw a =
      let size : Option ℕ = elim (lookup "file_size" raw) [
        | none ↦ a.file_size
        | some o ↦ number_of o
      ] in
      let url = text_of_object deps.show (raw_get "download_url" raw) in
      record a {
        file_name = text_or (text_of_object deps.show (raw_get "file_name" raw)) a.file_name;
        content_type =
            text_or (text_of_object deps.show (raw_get "content_type" raw)) a.content_type;
        file_size = size;
        download_url = if url == "" then a.download_url else some url;
      }

  unfoldable pub new_attachment : (id : ℕ) → Object → WorkItem → (external_id : String) → Attachment
  unfolding raw_get text_or text_of_object optional_text as_int openproject_ref
  new_attachment id raw w external_id = record {
    id = id;
    work_item_id = w.id;
    file_name =
        text_or (text_of_object deps.show (raw_get "file_name" raw))
          (String.◌++◌ "attachment-" external_id);
    content_type = text_of_object deps.show (raw_get "content_type" raw);
    file_size = as_int deps.show deps.parse_int (raw_get "file_size" raw);
    download_url = optional_text (text_of_object deps.show (raw_get "download_url" raw));
    content_ingested = false;
    external_refs = openproject_ref external_id "attachment" ∷ [];
  }

  unfoldable pub update_existing : Object → Attachment → M (Store G B) Unit
  unfolding updated_attachment same_attachment
  update_existing raw existing =
      let updated = updated_attachment raw existing in
      if same_attachment updated existing then pure tt else create_attachment updated

  unfoldable pub add_attachment : Object → WorkItem → (external_id : String) → M (Store G B) Unit
  unfolding new_attachment ingest_attachment_content upsert_attachment_edges
  add_attachment raw w external_id = fresh >>= λ id.
      let a = new_attachment id raw w external_id in
      (create_attachment a >> ingest_attachment_content a w.project_id) >> upsert_attachment_edges a

  unfoldable pub reconcile_attachment :
      Object → WorkItem → (external_id : String) → M (Store G B) Unit
  unfolding update_existing add_attachment
  reconcile_attachment raw w external_id =
      asks (λ s. find_attachment "openproject" external_id (some "attachment") s.attachments)
      >>= λ found. elim found as (λ _. M (Store G B) Unit) [
        | some existing ↦ update_existing raw existing
        | none ↦ add_attachment raw w external_id
      ]

  -- The number of the attachments with an id.
  unfoldable pub reconcile_attachments : WorkItem → List Object → (ingested : ℕ) → M (Store G B) ℕ
  unfolding reconcile_attachment text_of_object raw_get
  reconcile_attachments w [] ingested = pure ingested
  reconcile_attachments w (raw ∷ rest) ingested =
      let external_id = text_of_object deps.show (raw_get "id" raw) in
      let skipped = reconcile_attachments w rest ingested in
      let taken =
        reconcile_attachment raw w external_id >> reconcile_attachments w rest (ingested + 1) in
      if external_id == "" then skipped else taken
