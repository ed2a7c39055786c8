-- ===== src/Ingestion/WorkItems.antt =====
-- Projects and assignees of work items, by
-- brain/application/openproject_ingestion.py. A snapshot's item is found by its reference, or created.
use Prim.Native.String
use development_brain.Prelude.{
  ℕ, String, Bool, true, false, Option, none, some, List, [], ◌∷◌, ◌==◌, string_eq, nat_eq,
  if◌then◌else◌,
}
use development_brain.Prelude.Text.{codes}
use development_brain.Domain.{
  Project, WorkItem, WorkItemType, HumanWorkStatus, ImplementationStatus, VerificationStatus,
  PullRequestStatus,
}
use development_brain.Domain.Work.{Actor, ActorType}
use development_brain.Repositories.{
  Collection, project_rows, work_item_rows, actor_rows, find_project, find_work_item,
}
use development_brain.Sync.{SyncState, IntegrationMapping, save_mapping}
use development_brain.Sync.Mapping.{map_work_item_type, map_human_work_status, map_priority}
use development_brain.Sync.Pull.{Snapshot}
use development_brain.Ingestion.{Store, Deps}
use development_brain.Ingestion.Effects.{M, ◌>>=◌, ◌>>◌, asks, modify, pure, fresh}
use development_brain.Ingestion.Records.{text_or, text_of, openproject_ref}

-- The ids of the projects, in their order.
unfoldable pub first_id : List Project → Option ℕ
first_id [] = none
first_id (p ∷ ps) = some p.id

unfoldable pub find_package : (external_id : String) → Collection WorkItem → Option WorkItem
find_package external_id rows = find_work_item "openproject" external_id (some "work_package") rows

unfoldable pub find_provider_project : (external_id : String) → Collection Project → Option Project
find_provider_project external_id rows =
    find_project "openproject" external_id (some "project") rows

-- The project of a snapshot: the one that is asked for, the provider's, or the first.
unfoldable pub project_of : Snapshot → (project_id : Option ℕ) → Collection Project → Option ℕ
unfolding find_provider_project first_id text_of
project_of s (some i) rows = elim (project_rows.get i rows) [ none ↦ none | some _ ↦ some i ]
project_of s none rows =
    let external_id = text_of s.project_id in
    let any_project = first_id (project_rows.all rows) in
    if external_id == ""
    then any_project
    else elim (find_provider_project external_id rows) [ some p ↦ some p.id | none ↦ any_project ]

unfoldable pub new_work_item : (id project_id : ℕ) → Snapshot → WorkItem
unfolding text_or openproject_ref
new_work_item id project_id s = record {
  id = id;
  project_id = project_id;
  type = WorkItemType.task;
  title = text_or s.summary (String.◌++◌ "OpenProject " s.external_id);
  description = s.description;
  priority = none;
  parent_id = none;
  assignee = none;
  acceptance_criteria = [];
  requirement_refs = [];
  external_refs = openproject_ref s.external_id "work_package" ∷ [];
  human_work_status = HumanWorkStatus.new;
  implementation_status = ImplementationStatus.not_started;
  verification_status = VerificationStatus.not_verified;
  pull_request_status = PullRequestStatus.not_created;
}

unfoldable pub synced : (work_item_id now : ℕ) (external_id : String) → IntegrationMapping
synced work_item_id now external_id = record {
  work_item_id = work_item_id;
  provider = "openproject";
  external_id = external_id;
  sync_state = SyncState.synced;
  last_synced_at = some now;
  last_sync_error = none;
}

unfoldable pub new_actor : (id : ℕ) (user : String) → Snapshot → Actor
unfolding text_of text_or
new_actor id user s = record {
  id = id;
  actor_type = ActorType.human;
  display_name = text_or (text_of s.assignee_name) user;
  capabilities = [];
}

unfoldable pub applied : Snapshot → (assignee : Option ℕ) → WorkItem → WorkItem
unfolding text_or
applied s assignee w = record w {
  title = text_or s.summary w.title;
  description = text_or s.description w.description;
  type = map_work_item_type (codes s.type);
  human_work_status = map_human_work_status (codes s.state);
  priority = map_priority (codes s.priority);
  assignee = elim assignee [ none ↦ w.assignee | some a ↦ some a ];
}

abbrev pub update_work_item : {G B : Type 0} → WorkItem → M (Store G B) Unit
update_work_item w = modify (λ s. record s { work_items = work_item_rows.update w s.work_items })

module _ {G B : Type 0} (deps : Deps G B) where
  unfoldable pub create_work_item : (now project_id : ℕ) → Snapshot → M (Store G B) WorkItem
  unfolding new_work_item synced
  create_work_item now project_id s = do
    id ← fresh
    let w = new_work_item id project_id s
    modify (λ st. record st { work_items = work_item_rows.create w st.work_items })
    modify (λ st. record st {
      integrations = save_mapping (synced id now s.external_id) st.integrations;
    })
    pure w

  -- The work item, and whether it was created.
  unfoldable pub find_or_create_work_item :
      (now project_id : ℕ) → Snapshot → M (Store G B) (WorkItem × Bool)
  unfolding create_work_item
  find_or_create_work_item now project_id s =
      asks (λ st. find_package s.external_id st.work_items) >>= λ found.
      elim found as (λ _. M (Store G B) (WorkItem × Bool)) [
        | some w ↦ pure (w, false)
        | none ↦ create_work_item now project_id s >>= λ w. pure (w, true)
      ]

  -- The actor of the user, created if there is none.
  unfoldable pub actor_of : (user : String) → Snapshot → M (Store G B) (Option ℕ)
  unfolding new_actor
  actor_of user s = asks (λ st. actor_rows.get (deps.actor_id user) st.actors) >>= λ known.
      elim known as (λ _. M (Store G B) (Option ℕ)) [
        | some _ ↦ pure (some (deps.actor_id user))
        | none ↦
            modify (λ st. record st {
              actors = actor_rows.create (new_actor (deps.actor_id user) user s) st.actors;
            })
            >> pure (some (deps.actor_id user))
      ]

  unfoldable pub resolve_assignee : Snapshot → M (Store G B) (Option ℕ)
  unfolding text_of actor_of
  resolve_assignee s =
      if text_of s.assignee_id == "" then pure none else actor_of (text_of s.assignee_id) s

  unfoldable pub apply_snapshot : WorkItem → Snapshot → M (Store G B) WorkItem
  unfolding resolve_assignee applied
  apply_snapshot w s = resolve_assignee s >>= λ assignee.
      update_work_item (applied s assignee w) >> pure (applied s assignee w)
