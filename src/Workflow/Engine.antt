-- ===== src/Workflow/Engine.antt =====
-- brain/application/workflow_engine.py over brain/adapters/in_memory/workflow.py. The executor, its
-- registry and `uuid.uuid4` are parameters, and act on a world of their own. The repository of
-- checkpoints keeps the object that the loop goes on changing; no exception falls between a change
-- and the next save, so a copy of the state serves as well.

pub mod Termination
pub mod Resumption
pub mod Completion
mod Samples
use development_brain.Prelude.{
  ℕ, zero, suc, ◌+◌, ◌≡◌, Bool, true, false, ◌&&◌, ◌||◌, Option, none, some, List, [], ◌∷◌, ◌++◌,
  leb, ltb, nat_eq, if◌then◌else◌,
}
use development_brain.Prelude.Dict
use development_brain.Prelude.Dict.{Dict}
use development_brain.Prelude.Text.{Text, codes, contains_text}
use development_brain.Errors.{PyException, Result, ok, err}
use development_brain.Workflow.{
  WorkflowStage, WorkflowStatus, ApprovalState, RetryPolicyType, WorkflowState, WorkflowGraph,
  next_stages,
}

pub data ExecutionStatus : Type 0 where
  requested started running completed failed cancelled blocked : ExecutionStatus

-- Of an execution's result, what the engine reads.
pub record ExecutionResult : Type 0 where
  pub execution_id : ℕ
  pub status : ExecutionStatus

-- An absent repository or revision is sent as the empty text.
pub record ExecutionRequest : Type 0 where
  pub execution_id : ℕ
  pub workflow_id : ℕ
  pub work_item_id : ℕ
  pub repository_ref : Option ℕ
  pub base_revision : Text

-- The ports behind the engine: `select` says whether there is an executor. `uuid_text` is `str` of
-- a UUID.
pub record Services (W : Type 0) : Type 0 where
  pub select : W → Bool × W
  pub uuid4 : W → ℕ × W
  pub uuid_text : ℕ → Text
  pub execute : ExecutionRequest → W → Result ExecutionResult × W

pub record RetryDecision : Type 0 where
  pub retryable : Bool
  pub policy : Option RetryPolicyType

abbrev pub text_or_empty : Option Text → Text
text_or_empty none = []
text_or_empty (some t) = t

-- `state.last_error` is truthy: there is an error, and it is not the empty text.
unfoldable pub has_error : Option Text → Bool
has_error none = false
has_error (some []) = false
has_error (some (c ∷ cs)) = true

unfoldable pub retry_decision : Option Text → RetryDecision
unfolding has_error
retry_decision last_error =
    if has_error last_error && contains_text (codes "verification") (text_or_empty last_error)
    then record { retryable = true; policy = some RetryPolicyType.verification_failure }
    else if has_error last_error && contains_text (codes "tool") (text_or_empty last_error)
    then record { retryable = true; policy = some RetryPolicyType.transient_tool_failure }
    else record { retryable = false; policy = none }

-- `result.status.value in {"completed", "passed"}`; no status has the value "passed".
abbrev pub is_completed : ExecutionStatus → Bool
is_completed ExecutionStatus.completed = true
is_completed _ = false

-- The next stage, the result of an execution if there was one, and the changed state.
pub record Advance : Type 0 where
  pub next_stage : Option WorkflowStage
  pub result : Option ExecutionResult
  pub state : WorkflowState

abbrev pub go_to : WorkflowStage → WorkflowState → Advance
go_to stage s = record { next_stage = some stage; result = none; state = s }

unfoldable pub decide_after_verify : WorkflowState → Advance
decide_after_verify s =
    if leb s.max_retries s.retry_count
    then go_to WorkflowStage.human (record s { status = WorkflowStatus.blocked })
    else if has_error s.last_error
    then go_to WorkflowStage.retry s
    else go_to WorkflowStage.create_pr s

unfoldable pub leave_retry : WorkflowState → Advance
leave_retry s =
    if (retry_decision s.last_error).retryable && ltb s.retry_count s.max_retries
    then go_to WorkflowStage.execute (record s { retry_count = s.retry_count + 1 })
    else go_to WorkflowStage.failed (record s { status = WorkflowStatus.failed })

-- What the execute stage makes of its result.
unfoldable pub after_execution : WorkflowState → ExecutionResult → Advance
after_execution s r = record {
  next_stage = some WorkflowStage.verify;
  result = some r;
  state = record s {
    current_execution_id = some r.execution_id;
    stage = WorkflowStage.verify;
    last_error = if is_completed r.status then none else s.last_error;
  };
}

pub record WorkflowOutcome : Type 0 where
  pub state : WorkflowState
  pub execution_result : Option ExecutionResult
  pub pr_external_id : Option Text

-- `out_of_fuel` is no outcome of the program.
pub data Resumed : Type 0 where
  finished : WorkflowOutcome → Resumed
  raised : PyException → Resumed
  out_of_fuel : Resumed

-- The checkpoints, and the world behind the ports.
pub record Store (W : Type 0) : Type 0 where
  pub checkpoints : Dict ℕ WorkflowState
  pub world : W

module _ {W : Type 0} where
  unfoldable pub save_checkpoint : WorkflowState → Store W → Store W
  save_checkpoint s store = record store {
    checkpoints = Dict.insert store.checkpoints s.workflow_id s;
  }

  unfoldable pub load_checkpoint : ℕ → Store W → Option WorkflowState
  load_checkpoint i store = Dict.get store.checkpoints i

  unfoldable pub delete_checkpoint : ℕ → Store W → Store W
  delete_checkpoint i store = record store { checkpoints = Dict.remove store.checkpoints i }

  unfoldable pub list_checkpoints : Store W → List WorkflowState
  list_checkpoints store = Dict.values store.checkpoints

module _ {W : Type 0} (services : Services W) where
  unfoldable pub execute_stage : WorkflowState → W → Result ExecutionResult × W
  execute_stage s w =
      let (available, w1) = services.select w in
      let (execution_id, w2) = services.uuid4 w1 in
      let (other_id, w3) = services.uuid4 w2 in
      let request : ℕ → ExecutionRequest = λ work_item_id. record {
        execution_id = execution_id;
        workflow_id = s.workflow_id;
        work_item_id = work_item_id;
        repository_ref = s.repository_id;
        base_revision = text_or_empty s.revision;
      } in
      if available
      then elim s.work_item_id [
        | none ↦ services.execute (request other_id) w3
        | some i ↦ services.execute (request i) w2
      ]
      else (
        err (record { type_name = codes "RuntimeError"; text = codes "no executor available" }),
        w1,
      )

  -- The stages that the engine treats by themselves; the others take the graph's first edge.
  unfoldable pub advance_from :
      WorkflowStage → WorkflowStage → WorkflowState → W → Result Advance × W
  advance_from WorkflowStage.execute first s w =
      let (result, w') = execute_stage s w in
      elim result [ ok r ↦ (ok (after_execution s r), w') | err exc ↦ (err exc, w') ]
  advance_from WorkflowStage.verify first s w = (ok (decide_after_verify s), w)
  advance_from WorkflowStage.retry first s w = (ok (leave_retry s), w)
  advance_from WorkflowStage.create_pr first s w = (ok (go_to WorkflowStage.update_brain s), w)
  advance_from _ first s w = (ok (go_to first s), w)

  unfoldable pub advance : WorkflowGraph → WorkflowState → W → Result Advance × W
  unfolding advance_from
  advance graph s w = elim (next_stages graph s.stage) [
    | [] ↦ (ok (record { next_stage = none; result = none; state = s }), w)
    | first ∷ _ ↦ advance_from s.stage first s w
  ]

-- One pass of the loop: it goes on, or it leaves with the state, or the exception passes through.
pub data Turn (W : Type 0) : Type 0 where
  again leave : WorkflowState → Option ExecutionResult → Store W → Turn W
  throw : PyException → Store W → Turn W

-- The status that the loop sets on the two last stages.
abbrev pub final_status : WorkflowStage → Option WorkflowStatus
final_status WorkflowStage.complete = some WorkflowStatus.completed
final_status WorkflowStage.failed = some WorkflowStatus.failed
final_status _ = none

abbrev pub or_else : Option ExecutionResult → Option ExecutionResult → Option ExecutionResult
or_else none previous = previous
or_else (some r) previous = some r

abbrev pub is_running : WorkflowStatus → Bool
is_running WorkflowStatus.running = true
is_running _ = false

abbrev pub is_create_pr : WorkflowStage → Bool
is_create_pr WorkflowStage.create_pr = true
is_create_pr _ = false

module _ {W : Type 0} where
  -- What the loop does after `_advance`, on the stage that it returned.
  unfoldable pub enter : WorkflowStage → WorkflowState → Option ExecutionResult → Store W → Turn W
  enter stage s0 result store =
      let s = record s0 { stage = stage } in
      let saved = save_checkpoint s store in
      elim (final_status stage) [
        | none ↦ Turn.again s result saved
        | some status ↦
            let last = record s { status = status } in
            Turn.leave last result (save_checkpoint last saved)
      ]

  unfoldable pub conclude : Advance → Option ExecutionResult → Store W → Turn W
  unfolding enter
  conclude a previous store = elim (a.next_stage) [
    | none ↦
        let s = record (a.state) { status = WorkflowStatus.completed } in
        Turn.leave s previous (save_checkpoint s store)
    | some stage ↦ enter stage a.state (or_else a.result previous) store
  ]

module _ {W : Type 0} (services : Services W) (graph : WorkflowGraph)
    (has_pull_requests : Bool) where
  unfoldable pub turn : WorkflowState → Option ExecutionResult → Store W → Turn W
  turn s previous store =
      let (result, world) = advance services graph s store.world in
      let store' = record store { world = world } in
      elim result [ ok a ↦ conclude a previous store' | err exc ↦ Turn.throw exc store' ]

  unfoldable pub outcome_of : WorkflowState → Option ExecutionResult → WorkflowOutcome
  outcome_of s result = record {
    state = s;
    execution_result = result;
    pr_external_id =
        if is_create_pr s.stage && has_pull_requests then some (codes "PR-created") else none;
  }

  -- `while state.status == RUNNING`, on fuel.
  unfoldable pub resume_loop :
      ℕ → WorkflowState → Option ExecutionResult → Store W → Resumed × Store W
  resume_loop zero s previous store = (Resumed.out_of_fuel, store)
  resume_loop (suc fuel) s previous store = elim (is_running s.status) [
    | false ↦ (Resumed.finished (outcome_of s previous), store)
    | true ↦ elim (turn s previous store) [
      | Turn.again s' result store' ↦ resume_loop fuel s' result store'
      | Turn.leave s' result store' ↦ (Resumed.finished (outcome_of s' result), store')
      | Turn.throw exc store' ↦ (Resumed.raised exc, store')
    ]
  ]

  unfoldable pub resume : ℕ → ℕ → Store W → Resumed × Store W
  resume fuel workflow_id store = elim (load_checkpoint workflow_id store) [
    | none ↦ (
      Resumed.raised (record {
        type_name = codes "ValueError";
        text = codes "no checkpoint for workflow " ++ services.uuid_text workflow_id;
      }),
      store,
    )
    | some s ↦ resume_loop fuel s none store
  ]

-- A new workflow, with the defaults of the state, and its first checkpoint.
unfoldable pub initial :
    (workflow_id project_id work_item_id repository_id : ℕ) (revision : Text) → WorkflowState
initial workflow_id project_id work_item_id repository_id revision = record {
  workflow_id = workflow_id;
  project_id = some project_id;
  work_item_id = some work_item_id;
  repository_id = some repository_id;
  revision = some revision;
  current_execution_id = none;
  current_context_capsule_id = none;
  stage = WorkflowStage.intake;
  status = WorkflowStatus.running;
  retry_count = 0;
  max_retries = 3;
  approval_state = ApprovalState.not_required;
  last_error = none;
  verification_id = none;
  waiting_for_human = false;
  correlation_id = none;
}

unfoldable pub start :
    {W : Type 0} (workflow_id project_id work_item_id repository_id : ℕ) (revision : Text)
    → Store W
    → WorkflowState × Store W
unfolding initial
start workflow_id project_id work_item_id repository_id revision store =
    let s = initial workflow_id project_id work_item_id repository_id revision in
    (s, save_checkpoint s store)
