-- ===== src/Sync.antt =====
-- brain/domain/work_management.py and brain/adapters/in_memory/work_management.py: the mappings of work
-- items to a provider's, and the disagreements with it. A mapping's key is a text of the two
-- parts, in which the id has no colon; the pair of them serves as well. Ids of rows are left out.
pub mod Mapping
pub mod Publishing
pub mod Pull
pub mod ProjectPull
pub mod Pages
pub mod Watermark
mod Samples
use development_brain.Prelude.{
  ℕ, String, Bool, true, false, Option, none, some, List, [], ◌∷◌, ◌++◌, keep, nat_eq, string_eq,
  ◌==◌,
}
use development_brain.Prelude.Merge.{pair_eq}
use development_brain.Prelude.Dict
use development_brain.Prelude.Dict.{Dict}

pub data SyncState : Type 0 where
  pending synced conflict error : SyncState

pub record IntegrationMapping : Type 0 where
  pub work_item_id : ℕ
  pub provider : String
  pub external_id : String
  pub sync_state : SyncState
  pub last_synced_at : Option ℕ
  pub last_sync_error : Option String

pub record SyncConflict : Type 0 where
  pub work_item_id : ℕ
  pub provider : String
  pub external_id : String
  pub provider_field : String
  pub provider_value : String
  pub brain_value : String
  pub detected_at : ℕ
  pub resolved : Bool

abbrev pub Mappings : Type 0
Mappings = Dict (ℕ × String) IntegrationMapping

unfoldable pub save_mapping : IntegrationMapping → Mappings → Mappings
save_mapping m rows = Dict.insert rows (m.work_item_id, m.provider) m

unfoldable pub get_mapping :
    (work_item_id : ℕ) (provider : String) → Mappings → Option IntegrationMapping
get_mapping i p rows = Dict.get rows (i, p)

unfoldable pub list_mappings : ℕ → Mappings → List IntegrationMapping
list_mappings i rows = keep (λ m. m.work_item_id == i) (Dict.values rows)

unfoldable pub save_conflict : SyncConflict → List SyncConflict → List SyncConflict
save_conflict c rows = rows ++ (c ∷ [])

unfoldable pub list_conflicts : ℕ → List SyncConflict → List SyncConflict
list_conflicts i rows = keep (λ c. c.work_item_id == i) rows
