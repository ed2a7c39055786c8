-- ===== src/PullRequests.antt =====
-- brain/application/pull_request_service.py: pull requests that verification and policy let through,
-- and what follows from a merge. The provider, the event bus and the projection of observations act on
-- the world of the observations' journal and may raise; an event is its type with its payload. The
-- texts of ids are `show_id`.
pub mod Gate
mod Samples
use Prim.Native.String
use development_brain.Prelude.{
  ℕ, String, Bool, true, false, not, ◌&&◌, ◌||◌, Option, none, some, List, [], ◌∷◌, ◌++◌, any,
  contains, Eq, eq_of_discrete, nat_eq, string_eq, ◌==◌, if◌then◌else◌,
}
use development_brain.Prelude.Object.{Object, Fields}
use development_brain.Errors.{Result, ok, err}
use development_brain.Commands.{CommandEnvelope, CommandType, TriggerType}
use development_brain.Queue.{InMemoryCommandQueue, enqueue}
use development_brain.Domain.{
  ExternalReference, Execution, WorkItem, Repository, VerificationResult, VerificationVerdict,
}
use development_brain.Policies.{ApprovalType, PolicySet, PolicyEvaluation, evaluate}
use development_brain.Policies
use development_brain.Observations.{
  Observation, ObservationType, Finding, Journal, EventBus, create,
}
use development_brain.Repositories.{
  Collection, get_item, results_of_execution, repositories_of_project,
}

pub record PullRequestServiceResult : Type 0 where
  pub created : Bool
  pub external_ref : Option ExternalReference
  pub observation_id : Option ℕ
  pub reasons : List String

pub data PullRequestEvent : Type 0 where
  pull_request_created :
      (project_id correlation_id : ℕ)
      → ExternalReference
      → (execution_id work_item_id : ℕ) → PullRequestEvent
  pull_request_merged : ExternalReference → PullRequestEvent
  repository_revision_changed : (correlation_id : ℕ) → ExternalReference → PullRequestEvent

unfoldable pub ApprovalType-discrete : Discrete ApprovalType
ApprovalType-discrete = hlevel

instance abbrev pub approval_eq : Eq ApprovalType
approval_eq = eq_of_discrete ApprovalType-discrete

pub record Container (W : Type 0) : Type 0 where
  pub pull_requests :
      Option
        (Repository → (source target title description : String) → W → Result ExternalReference × W)
  pub executions : Collection Execution
  pub work_items : Collection WorkItem
  pub verification_results : Collection VerificationResult
  pub repositories : Collection Repository
  pub search : String → String → Bool
  pub policy_set : PolicySet
  pub publish : PullRequestEvent → W → Result Unit × W
  pub observation_bus : EventBus W
  pub project_observation : Observation → ExternalReference → W → Result Unit × W

abbrev pub refused : List String → PullRequestServiceResult
refused reasons = record {
  created = false;
  external_ref = none;
  observation_id = none;
  reasons = reasons;
}

abbrev pub is_pass : VerificationVerdict → Bool
is_pass VerificationVerdict.pass = true
is_pass _ = false

abbrev pub is_task : Option String → Bool
is_task none = false
is_task (some t) = t == "task" || (t == "work_item" || t == "issue")

unfoldable pub first_task : List ExternalReference → Option ExternalReference
first_task [] = none
first_task (ref ∷ refs) =
    let later = first_task refs in if is_task ref.external_type then some ref else later

unfoldable pub work_management_target : WorkItem → Option ExternalReference
work_management_target w = first_task w.external_refs

abbrev pub branch_of : (ℕ → String) → Execution → String
branch_of show_id e = elim e.working_branch as (λ _. String) [
  | none ↦ String.◌++◌ "brain/" (show_id e.id)
  | some b ↦ if b == "" then String.◌++◌ "brain/" (show_id e.id) else b
]

module _ {W : Type 0} (container : Container W) where
  unfoldable pub verification_passed : ℕ → Bool
  verification_passed i =
      any (λ r. is_pass r.verdict) (results_of_execution i container.verification_results)

  unfoldable pub policy_permits : WorkItem → Bool
  policy_permits w =
      let item : Policies.WorkItem = record { title = w.title; description = w.description } in
      let e = evaluate container.search container.policy_set (some item) "" "" in
      e.allowed && not (contains e.required_approvals ApprovalType.pr)

  -- Best effort: what the projection raises is logged.
  unfoldable pub project_to_task : Observation → WorkItem → Journal W → Journal W
  project_to_task o w j = elim (work_management_target w) [
    | none ↦ j
    | some target ↦ record j { world = (container.project_observation o target j.world).1 }
  ]

  unfoldable pub reasons_against : ℕ → WorkItem → List String
  reasons_against i w =
      (if verification_passed i then [] else "verification verdict is not PASS" ∷ [])
      ++ (if policy_permits w then [] else "policy does not permit pull request creation" ∷ [])

module _ {W : Type 0} (show_id : ℕ → String) (id now : ℕ) (container : Container W) where
  abbrev pub pr_finding : Execution → WorkItem → ExternalReference → Finding
  pr_finding e w ref = record {
    project_id = w.project_id;
    work_item_id = some w.id;
    execution_id = some e.id;
    requirement_id = none;
    repository_id = none;
    context_capsule_id = none;
    verification_id = none;
    artifact_id = none;
    evidence_id = none;
    decision_id = none;
    repository_revision = none;
    evidence_refs = [];
    observation_type = ObservationType.verification_pass;
    title = "Pull request created";
    body =
        String.◌++◌ "Verification passed. Merge Request !"
          (String.◌++◌ ref.external_id " was created.");
    source = "brain";
    dedup_key = some (String.◌++◌ "pr-created:" (show_id e.id));
  }

  -- The observation of a pull request, and its projection.
  unfoldable pub journal_created :
      Execution
      → WorkItem
      → ExternalReference
      → Journal W
      → Result PullRequestServiceResult × Journal W
  journal_created e w ref j =
      let (observed, j') = create container.observation_bus id now (pr_finding e w ref) j in
      elim observed [
        | err exc ↦ (err exc, j')
        | ok o ↦ (
          ok (record {
            created = true;
            external_ref = some ref;
            observation_id = some o.id;
            reasons = "verification passed; policy permitted" ∷ [];
          }),
          project_to_task container o w j',
        )
      ]

  -- The provider's answer, the event, and the observation.
  unfoldable pub after_request :
      Execution
      → WorkItem
      → Result ExternalReference × Journal W
      → Result PullRequestServiceResult × Journal W
  after_request e w (err exc, j) = (err exc, j)
  after_request e w (ok ref, j) =
      let event =
        PullRequestEvent.pull_request_created w.project_id e.correlation_id ref e.id w.id in
      let (sent, world) = container.publish event j.world in
      let j' = record j { world = world } in
      elim sent [ err exc ↦ (err exc, j') | ok u ↦ journal_created e w ref j' ]

  unfoldable pub create_pull_request :
      (execution_id work_item_id : ℕ) → Journal W → Result PullRequestServiceResult × Journal W
  create_pull_request execution_id work_item_id j = elim container.pull_requests [
    | none ↦ (ok (refused ("no pull request provider configured" ∷ [])), j)
    | some port ↦ elim (get_item execution_id container.executions) [
      | none ↦ (ok (refused ("execution not found" ∷ [])), j)
      | some e ↦ elim (get_item work_item_id container.work_items) [
        | none ↦ (ok (refused ("work item not found" ∷ [])), j)
        | some w ↦ elim (reasons_against container execution_id w) [
          | r ∷ rs ↦ (ok (refused (r ∷ rs)), j)
          | [] ↦ elim (repositories_of_project w.project_id container.repositories) [
            | [] ↦ (ok (refused ("no repository for the work item" ∷ [])), j)
            | repository ∷ _ ↦
                let (answer, world) =
                  port repository (branch_of show_id e) repository.default_branch w.title
                    w.description j.world in
                after_request e w (answer, record j { world = world })
          ]
        ]
      ]
    ]
  ]

abbrev optional : Option String → Object
optional none = Object.null
optional (some t) = Object.str t

-- `ref.model_dump(mode="json")`
unfoldable pub model_dump : ExternalReference → Object
model_dump ref = Object.dict (
    Fields.field "provider" (Object.str ref.provider) (
      Fields.field "external_id" (Object.str ref.external_id) (
        Fields.field "external_type" (optional ref.external_type) (
          Fields.field "url" (optional ref.url)
            (Fields.field "namespace" (optional ref.namespace) Fields.end)))))

module _ {W : Type 0} (publish : PullRequestEvent → W → Result Unit × W) where
  unfoldable pub handle_merge : ExternalReference → W → Result PullRequestEvent × W
  handle_merge ref w =
      let merged = PullRequestEvent.pull_request_merged ref in
      let (sent, w') = publish merged w in
      elim sent [ err exc ↦ (err exc, w') | ok u ↦ (ok merged, w') ]

  -- The command's ids and time, and the id of the repository in its payload, are new.
  unfoldable pub reingestion :
      (show_id : ℕ → String) (command_id repository_id correlation_id now : ℕ)
      → ExternalReference
      → CommandEnvelope
  reingestion show_id command_id repository_id correlation_id now ref = record {
    command_id = command_id;
    command_type = CommandType.sync_repository;
    project_id = none;
    requested_at = now;
    requested_by = none;
    trigger_type = TriggerType.internal;
    correlation_id = correlation_id;
    payload =
        Fields.field "repository_id" (Object.str (show_id repository_id))
          (Fields.field "external_ref" (model_dump ref) Fields.end);
  }

  unfoldable pub apply_merge_consequences :
      ExternalReference
      → (correlation_id : ℕ) → CommandEnvelope
      → InMemoryCommandQueue
      → W
      → Result PullRequestEvent × (InMemoryCommandQueue × W)
  apply_merge_consequences ref correlation_id command queue w =
      let changed = PullRequestEvent.repository_revision_changed correlation_id ref in
      let (sent, w') = publish changed w in
      elim sent [
        | err exc ↦ (err exc, (queue, w'))
        | ok u ↦ (ok changed, (enqueue queue command, w'))
      ]
