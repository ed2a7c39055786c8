-- ===== src/Sync/Publishing.antt =====
-- brain/application/work_management_sync.py: a provider's webhook, a single item fetched from the
-- provider, and an item published to it. The provider and the event bus act on a world W and
-- may raise; an envelope is here the work item it carries and its source.
use development_brain.Prelude.{
  ℕ, ◌≡◌, String, Bool, false, ◌||◌, ◌&&◌, Option, none, some, List, [], ◌∷◌, nat_eq, string_eq,
  ◌==◌, if◌then◌else◌, inl, inr,
}
use development_brain.Prelude.Merge.{pair_eq}
use development_brain.Prelude.Dict.{get-insert}
use development_brain.Errors.{Result, ok, err, Result-cases}
use development_brain.Domain.{ExternalReference, WorkItem, HumanWorkStatus}
use development_brain.Sync.{
  SyncState, IntegrationMapping, SyncConflict, Mappings, save_mapping, get_mapping, list_mappings,
  save_conflict,
}

pub record Provider (W : Type 0) : Type 0 where
  pub name : String
  pub fetch_work_item : ExternalReference → W → Result WorkItem × W
  pub publish_work_item : WorkItem → W → Result ExternalReference × W
  pub publish_event : WorkItem → (source : String) → W → Result Unit × W

pub record SyncRows (W : Type 0) : Type 0 where
  pub world : W
  pub mappings : Mappings
  pub conflicts : List SyncConflict

pub record WebhookNormalizationResult : Type 0 where
  pub work_item : WorkItem
  pub changed : Bool
  pub conflict : Option SyncConflict

pub record SyncResult : Type 0 where
  pub work_item_id : ℕ
  pub mappings : List IntegrationMapping
  pub conflicts : List SyncConflict

-- The values of the enumeration, as texts.
unfoldable pub status_value : HumanWorkStatus → String
status_value HumanWorkStatus.new = "new"
status_value HumanWorkStatus.in_progress = "in_progress"
status_value HumanWorkStatus.blocked = "blocked"
status_value HumanWorkStatus.finished = "done"
status_value HumanWorkStatus.cancelled = "cancelled"

abbrev pub bare_ref : (provider external_id : String) → Option String → ExternalReference
bare_ref provider external_id external_type = record {
  provider = provider;
  external_id = external_id;
  external_type = external_type;
  url = none;
  namespace = none;
}

abbrev pub synced : ℕ → (provider external_id : String) → (now : ℕ) → IntegrationMapping
synced i provider external_id now = record {
  work_item_id = i;
  provider = provider;
  external_id = external_id;
  sync_state = SyncState.synced;
  last_synced_at = some now;
  last_sync_error = none;
}

-- Which states of the provider disagree with a verification that is pending.
unfoldable pub status_conflicts :
    ℕ → (provider external_id : String) → (now : ℕ) → HumanWorkStatus → List SyncConflict
status_conflicts i provider external_id now status =
    let value = status_value status in
    let conflict : SyncConflict = record {
      work_item_id = i;
      provider = provider;
      external_id = external_id;
      provider_field = "status";
      provider_value = value;
      brain_value = "verification_pending";
      detected_at = now;
      resolved = false;
    } in
    if value == "done" || value == "closed" then conflict ∷ [] else []

unfoldable pub save_conflicts : List SyncConflict → List SyncConflict → List SyncConflict
save_conflicts [] rows = rows
save_conflicts (c ∷ cs) rows = save_conflicts cs (save_conflict c rows)

-- The mappings of the item, of which one is made if there is none.
unfoldable pub mapped : IntegrationMapping → Mappings → List IntegrationMapping × Mappings
mapped m rows = elim (list_mappings m.work_item_id rows) [
  | [] ↦ (m ∷ [], save_mapping m rows)
  | x ∷ xs ↦ (x ∷ xs, rows)
]

module _ {W : Type 0} (provider : Provider W) where
  -- `raw_given` says whether the payload has fields.
  unfoldable pub normalize_webhook :
      (external_id : String) (raw_given : Bool)
      → SyncRows W
      → Result WebhookNormalizationResult × SyncRows W
  normalize_webhook external_id raw_given s =
      let (fetched, w) =
        provider.fetch_work_item (bare_ref provider.name external_id (some "work_package"))
          s.world in
      elim fetched [
        | err exc ↦ (err exc, record s { world = w })
        | ok item ↦ (
          ok (record { work_item = item; changed = raw_given; conflict = none }),
          record s { world = w },
        )
      ]

  unfoldable pub sync_from_provider :
      (now work_item_id : ℕ) (external_id : String) → SyncRows W → Result SyncResult × SyncRows W
  sync_from_provider now i external_id s =
      let (fetched, w) =
        provider.fetch_work_item (bare_ref provider.name external_id none) s.world in
      elim fetched [
        | err exc ↦ (err exc, record s { world = w })
        | ok item ↦
            let (mappings, rows) = mapped (synced i provider.name external_id now) s.mappings in
            let conflicts =
              status_conflicts i provider.name external_id now item.human_work_status in
            (
              ok (record { work_item_id = i; mappings = mappings; conflicts = conflicts }),
              record {
                world = w;
                mappings = rows;
                conflicts = save_conflicts conflicts s.conflicts;
              },
            )
      ]

  -- The mapping is saved before the event goes out, and stays when the bus raises.
  unfoldable pub publish_work_item :
      (now : ℕ) → WorkItem → SyncRows W → Result IntegrationMapping × SyncRows W
  publish_work_item now item s =
      let (published, w) = provider.publish_work_item item s.world in
      elim published [
        | err exc ↦ (err exc, record s { world = w })
        | ok ref ↦
            let m = synced item.id ref.provider ref.external_id now in
            let (sent, w') = provider.publish_event item provider.name w in
            let s' : SyncRows W = record s { world = w'; mappings = save_mapping m s.mappings } in
            elim sent [ err exc ↦ (err exc, s') | ok u ↦ (ok m, s') ]
      ]

-- When the provider takes an item, its mapping to what the provider answered is found under the item
-- and that provider, even when the event cannot be sent, and all other mappings are found as before.
pub publish_work_item-mapped :
    {W : Type 0} (provider : Provider W) (now : ℕ) (item : WorkItem) (s : SyncRows W)
    (ref : ExternalReference) (i : ℕ) (name : String)
    → (provider.publish_work_item item s.world).0 ≡ ok ref
    → get_mapping i name (publish_work_item provider now item s).1.mappings ≡ (
        if item.id == i && ref.provider == name
        then some (synced item.id ref.provider ref.external_id now)
        else get_mapping i name s.mappings)
unfolding publish_work_item save_mapping get_mapping
publish_work_item-mapped provider now item s ref i name h =
    let w = (provider.publish_work_item item s.world).1 in
    let m = synced item.id ref.provider ref.external_id now in
    let read = get-insert s.mappings (item.id, ref.provider) (i, name) m in
    elim (Result-cases (provider.publish_event item provider.name w).0) [
      | inl (u, e) ↦ rw (publish_work_item, h, e) read
      | inr (exc, e) ↦ rw (publish_work_item, h, e) read
    ]
