-- ===== src/Repositories/Relations.antt =====
-- The relations of work items, and the rows that are kept under other keys than an id: the watermarks,
-- the states of a bootstrap, the snapshots and the change sets of a repository.
use development_brain.Prelude.{
  ℕ, ◌≡◌, refl, String, Bool, true, not, ◌&&◌, ◌||◌, Option, none, some, List, [], ◌∷◌, ◌++◌, keep,
  any, ◌==◌, nat_eq, string_eq, eq_iff, arith, if◌then◌else◌, Bool-cases, Option-cases, inl, inr,
  beq_refl,
}
use mathlib.Core.Path.{subst}
use development_brain.Prelude.Dict
use development_brain.Prelude.Dict.{Dict, get-insert}
use development_brain.Prelude.Dict.Entries.{values-insert_new}
use development_brain.Domain.Work.{WorkItemRelation, relation_type_eq, ProviderSyncWatermark}
use development_brain.Repositories.{Collection, upsert, list_all, delete_item}

-- The two relate the same items in the same way.
unfoldable pub same_relation : WorkItemRelation → WorkItemRelation → Bool
same_relation r s =
    r.source_work_item_id == s.source_work_item_id
    && (r.target_work_item_id == s.target_work_item_id && r.relation_type == s.relation_type)

unfoldable pub find_same : WorkItemRelation → List WorkItemRelation → Option WorkItemRelation
find_same r [] = none
find_same r (s ∷ rest) = let later = find_same r rest in if same_relation s r then some s else later

unfoldable pub create_relation :
    WorkItemRelation → Collection WorkItemRelation → WorkItemRelation × Collection WorkItemRelation
create_relation r rows = elim (find_same r (list_all rows)) [
  | some existing ↦ (existing, rows)
  | none ↦ (r, upsert r r.id rows)
]

unfoldable pub relations_of_work_item : ℕ → Collection WorkItemRelation → List WorkItemRelation
relations_of_work_item i rows =
    keep (λ r. r.source_work_item_id == i || r.target_work_item_id == i) (list_all rows)

unfoldable pub delete_relation : ℕ → Collection WorkItemRelation → Collection WorkItemRelation
delete_relation i rows = delete_item i rows

-- No two rows relate the same items in the same way.
unfoldable pub no_repeats : List WorkItemRelation → Bool
no_repeats [] = true
no_repeats (r ∷ rs) = not (any (λ s. same_relation r s) rs) && no_repeats rs

any-snoc :
    (p : WorkItemRelation → Bool) (rs : List WorkItemRelation) (r : WorkItemRelation)
    → any p (rs ++ (r ∷ [])) ≡ (any p rs || p r)
unfolding any
any-snoc p [] r = ground arith
any-snoc p (s ∷ rs) r = ground (arith, any-snoc p rs r)

no_repeats-snoc :
    (r : WorkItemRelation) (rs : List WorkItemRelation)
    → no_repeats rs ≡ true
    → find_same r rs ≡ none
    → no_repeats (rs ++ (r ∷ [])) ≡ true
unfolding no_repeats find_same any
no_repeats-snoc r [] h n = refl
no_repeats-snoc r (s ∷ rs) h n =
    ground (arith, any-snoc (λ t. same_relation s t) rs r, no_repeats-snoc r rs)

same_relation_refl : (r : WorkItemRelation) → same_relation r r ≡ true
unfolding same_relation
same_relation_refl r =
    rw (beq_refl r.source_work_item_id, beq_refl r.target_work_item_id, beq_refl r.relation_type)
      refl

find_same-snoc :
    (r : WorkItemRelation) (rs : List WorkItemRelation)
    → find_same r rs ≡ none
    → find_same r (rs ++ (r ∷ [])) ≡ some r
unfolding find_same
find_same-snoc r [] n = rw (same_relation_refl r) refl
find_same-snoc r (s ∷ rs) n = ground (arith, find_same-snoc r rs)

upsert-new :
    (r : WorkItemRelation) (rows : Collection WorkItemRelation)
    → Dict.get rows r.id ≡ none
    → list_all (upsert r r.id rows) ≡ list_all rows ++ (r ∷ [])
unfolding upsert list_all
upsert-new r rows fresh = values-insert_new rows r.id r fresh

create_relation-found :
    (r s : WorkItemRelation) (rows : Collection WorkItemRelation)
    → find_same r (list_all rows) ≡ some s
    → create_relation r rows ≡ (s, rows)
unfolding create_relation
create_relation-found r s rows h = rw (create_relation, h) refl

create_relation-new :
    (r : WorkItemRelation) (rows : Collection WorkItemRelation)
    → find_same r (list_all rows) ≡ none
    → create_relation r rows ≡ (r, upsert r r.id rows)
unfolding create_relation
create_relation-new r rows h = rw (create_relation, h) refl

-- When the id of a relation is not in use, creating it keeps every pair of items related at most once
-- in each way, and creating it again returns what the first call returned and changes nothing.
pub create_relation-no_repeats :
    (r : WorkItemRelation) (rows : Collection WorkItemRelation)
    → Dict.get rows r.id ≡ none
    → no_repeats (list_all rows) ≡ true
    → (no_repeats (list_all (create_relation r rows).1) ≡ true)
      × (create_relation r (create_relation r rows).1 ≡ create_relation r rows)
create_relation-no_repeats r rows fresh h = elim (Option-cases (find_same r (list_all rows))) [
  | inl n ↦
      let last : list_all (upsert r r.id rows) ≡ list_all rows ++ (r ∷ []) =
        upsert-new r rows fresh in
      let found : find_same r (list_all (upsert r r.id rows)) ≡ some r =
        rw last (find_same-snoc r (list_all rows) n) in
      rw (create_relation-new r rows n, last, create_relation-found r r (upsert r r.id rows) found)
        (no_repeats-snoc r (list_all rows) h n, refl)
  | inr (s, f) ↦ rw (create_relation-found r s rows f, create_relation-found r s rows f) (h, refl)
]

abbrev pub Watermarks : Type 0
Watermarks = List ProviderSyncWatermark

unfoldable pub fresh_watermark : (provider sync_key : String) → ProviderSyncWatermark
fresh_watermark provider sync_key = record {
  provider = provider;
  sync_key = sync_key;
  last_synced_at = none;
  last_external_id = none;
  bootstrap_completed_at = none;
}

-- The watermark has this key.
abbrev pub marks : (provider sync_key : String) → ProviderSyncWatermark → Bool
marks provider sync_key w = w.provider == provider && w.sync_key == sync_key

-- The table is a dictionary by the two fields of a watermark that make its key.
unfoldable pub find_watermark :
    (provider sync_key : String) → Watermarks → Option ProviderSyncWatermark
find_watermark p k [] = none
find_watermark p k (w ∷ ws) =
    let later = find_watermark p k ws in if marks p k w then some w else later

unfoldable pub save_watermark : ProviderSyncWatermark → Watermarks → Watermarks
save_watermark v [] = v ∷ []
save_watermark v (w ∷ ws) =
    let later = w ∷ save_watermark v ws in if marks v.provider v.sync_key w then v ∷ ws else later

unfoldable pub get_or_create_watermark :
    (provider sync_key : String) → Watermarks → ProviderSyncWatermark × Watermarks
get_or_create_watermark p k ws = elim (find_watermark p k ws) [
  | some w ↦ (w, ws)
  | none ↦ (fresh_watermark p k, save_watermark (fresh_watermark p k) ws)
]

find-save :
    (p k : String) (v : ProviderSyncWatermark) (ws : Watermarks)
    → find_watermark p k (save_watermark v ws)
      ≡ (if marks p k v then some v else find_watermark p k ws)
unfolding find_watermark save_watermark
find-save p k v [] = refl
find-save p k v (w ∷ ws) = ground (
  arith,
  find-save p k v ws,
  eq_iff v.provider p,
  eq_iff v.sync_key k,
  eq_iff w.provider p,
  eq_iff w.sync_key k,
  eq_iff w.provider v.provider,
  eq_iff w.sync_key v.sync_key,
)

-- What is read under a key is the watermark that was last saved under it, or a fresh one; reading
-- makes the key known, and no other read sees the difference.
pub get_or_create_watermark-save :
    (p k p' k' : String) (v : ProviderSyncWatermark) (ws : Watermarks)
    → ((get_or_create_watermark p k (save_watermark v ws)).0
        ≡ (if marks p k v then v else (get_or_create_watermark p k ws).0))
      × ((get_or_create_watermark p k (get_or_create_watermark p' k' ws).1).0
          ≡ (get_or_create_watermark p k ws).0)
unfolding get_or_create_watermark fresh_watermark
get_or_create_watermark-save p k p' k' v ws = (
  ground (arith, find-save p k v ws),
  ground (
    arith,
    find-save p k (fresh_watermark p' k') ws,
    eq_iff p p',
    eq_iff k k',
    eq_iff p' p,
    eq_iff k' k,
  ),
)

-- If there is a watermark, it has this key.
abbrev Marked : (provider sync_key : String) → Option ProviderSyncWatermark → Type 0
Marked p k none = Unit
Marked p k (some w) = marks p k w ≡ true

find_watermark-Marked : (p k : String) (ws : Watermarks) → Marked p k (find_watermark p k ws)
unfolding find_watermark
find_watermark-Marked p k [] = tt
find_watermark-Marked p k (v ∷ ws) = elim (Bool-cases (marks p k v)) [
  | inl m ↦ rw (find_watermark, m) m
  | inr m ↦ rw (find_watermark, m) (find_watermark-Marked p k ws)
]

pub get_or_create_watermark-marks :
    (p k : String) (ws : Watermarks) → marks p k (get_or_create_watermark p k ws).0 ≡ true
unfolding get_or_create_watermark fresh_watermark
get_or_create_watermark-marks p k ws = elim (Option-cases (find_watermark p k ws)) [
  | inl n ↦ rw (get_or_create_watermark, n) (rw (beq_refl p, beq_refl k) refl)
  | inr (w, f) ↦
      let m : Marked p k (some w) = subst (Marked p k) f (find_watermark-Marked p k ws) in
      rw (get_or_create_watermark, f) m
]
