-- ===== src/Ingestion/Comments.antt =====
-- Comments, by `ingest_comment` of brain/application/openproject_ingestion.py. The time of a comment is left out.
use development_brain.Prelude.{
  ℕ, zero, suc, String, Option, none, some, List, [], ◌∷◌, if◌then◌else◌,
}
use development_brain.Prelude.Object.{Object}
use development_brain.Domain.{ExternalReference}
use development_brain.Domain.Work.{Comment, CommentKind}
use development_brain.Repositories.{comment_rows, find_comment}
use development_brain.KnowledgeGraph.{GraphLabel, RelationType}
use development_brain.Ingestion.{IngestionMode, IngestionEvent, Store, Deps}
use development_brain.Ingestion.Effects.{
  M, ◌>>=◌, ◌>>◌, asks, modify, pure, guarded, fresh, on_graph, on_bus,
}
use development_brain.Ingestion.Records.{openproject_ref}
use development_brain.Ingestion.Projection.{entity, edge}
use development_brain.Ingestion.Service.{is_bootstrap}

-- What a comment is ingested from.
pub record CommentCall : Type 0 where
  pub work_item_id : Option ℕ
  pub external_id : String
  pub author_name : String
  pub text : String
  pub mode : IngestionMode
  pub source : String
  pub correlation_id : Option ℕ

-- `text[:n]`
unfoldable pub first_characters : ℕ → String → String
first_characters zero text = String.[]
first_characters (suc n) String.[] = String.[]
first_characters (suc n) (String.◌∷◌ c text) = String.◌∷◌ c (first_characters n text)

unfoldable pub comment_of :
    CommentCall → (id work_item_id : ℕ) → CommentKind → List ExternalReference → Comment
comment_of call id work_item_id kind external_refs = record {
  id = id;
  work_item_id = work_item_id;
  author_id = none;
  author_name = some call.author_name;
  text = call.text;
  kind = kind;
  external_refs = external_refs;
}

module _ {G B : Type 0} (deps : Deps G B) where
  unfoldable pub upsert_comment_edges : Comment → M (Store G B) Unit
  unfolding first_characters entity edge
  upsert_comment_edges c = guarded (
      on_graph (
        deps.upsert_entities (
          entity c.id GraphLabel.comment none
            (("text", Object.str (first_characters 500 c.text)) ∷ [])
          ∷ []))
      >> on_graph (deps.upsert_relations (edge c.id RelationType.comment_on c.work_item_id ∷ [])))

  -- The comment, if it belongs to a work item.
  unfoldable pub store_comment : CommentCall → M (Store G B) (Option Comment)
  unfolding comment_of upsert_comment_edges openproject_ref
  store_comment call = elim call.work_item_id as (λ _. M (Store G B) (Option Comment)) [
    | none ↦ pure none
    | some w ↦ fresh >>= λ id.
        let kind = if is_bootstrap call.mode then CommentKind.context else CommentKind.feedback in
        let refs = openproject_ref call.external_id "activity" ∷ [] in
        let c = comment_of call id w kind refs in
        modify (λ s. record s { comments = comment_rows.create c s.comments })
        >> (upsert_comment_edges c >> pure (some c))
  ]

  unfoldable pub publish_feedback : CommentCall → M (Store G B) Unit
  unfolding is_bootstrap
  publish_feedback call =
      if is_bootstrap call.mode
      then pure tt
      else on_bus (
          deps.publish (
            IngestionEvent.human_feedback_received call.work_item_id call.author_name
              call.external_id call.text call.source call.correlation_id))

  -- A comment of no work item is returned, and not stored.
  unfoldable pub unstored : CommentCall → M (Store G B) Comment
  unfolding comment_of
  unstored call = fresh >>= λ work_item_id.
      fresh >>= λ id. pure (comment_of call id work_item_id CommentKind.context [])

  unfoldable pub ingest_comment : CommentCall → M (Store G B) Comment
  unfolding store_comment publish_feedback unstored
  ingest_comment call =
      asks (λ s. find_comment "openproject" call.external_id (some "activity") s.comments)
      >>= λ existing. elim existing as (λ _. M (Store G B) Comment) [
        | some c ↦ pure c
        | none ↦ store_comment call >>= λ stored.
            publish_feedback call >> elim stored as (λ _. M (Store G B) Comment) [
              | some c ↦ pure c
              | none ↦ unstored call
            ]
      ]
