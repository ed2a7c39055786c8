-- ===== src/Workflow/Engine/Resumption.antt =====
-- `resume` over the main engineering graph: where the loop ends, within the retry budget, and what
-- the checkpoint holds then.
use development_brain.Prelude.{ℕ, ◌≤◌, ◌<◌, ◌≡◌, Bool, Option, some, nat_eq}
use development_brain.Errors.{PyException}
use development_brain.Workflow.{WorkflowState, main_engineering_graph}
use development_brain.Workflow.Engine.{
  Services, WorkflowOutcome, ExecutionResult, Turn, Resumed, Store, resume_loop, load_checkpoint,
}
use development_brain.Workflow.Engine.Termination.{distance, Final, Stands}

-- The workflow is `i` with the retry budget `m`, and within it.
pub record Within (i m : ℕ) (s : WorkflowState) : Type 0 where
  pub same_id : s.workflow_id ≡ i
  pub same_budget : s.max_retries ≡ m
  pub in_budget : s.retry_count ≤ m

module _ {W : Type 0} where
  -- What one pass of the loop leaves: the state is saved, and is nearer to the end if the loop goes
  -- on, and final if it does not.
  data Turned (i m : ℕ) (d : ℕ) : Turn W → Type 0 where
    on :
        {s : WorkflowState} {r : Option ExecutionResult} {store : Store W}
        → Within i m s
        → Stands s.status s.stage
        → distance s.stage s.retry_count s.max_retries < d
        → load_checkpoint i store ≡ some s
        → Turned i m d (Turn.again s r store)
    off :
        {s : WorkflowState} {r : Option ExecutionResult} {store : Store W}
        → Within i m s
        → Final s.status s.stage
        → load_checkpoint i store ≡ some s
        → Turned i m d (Turn.leave s r store)
    away : {store : Store W} (exc : PyException) → Turned i m d (Turn.throw exc store)

-- How a resumption of workflow `i` with budget `m` ends: it is finished in a final status that fits
-- its stage, within the budget, with the checkpoint equal to the state returned, or an exception
-- went through.
pub data Concluded {W : Type 0} (i m : ℕ) : Resumed × Store W → Type 0 where
  finished :
      {o : WorkflowOutcome} {store : Store W}
      → Within i m o.state
      → Final o.state.status o.state.stage
      → load_checkpoint i store ≡ some o.state
      → Concluded i m (Resumed.finished o, store)
  raised : {store : Store W} (exc : PyException) → Concluded i m (Resumed.raised exc, store)

module _ {W : Type 0} (services : Services W) (has_pull_requests : Bool) where
  abbrev loop : ℕ → WorkflowState → Option ExecutionResult → Store W → Resumed × Store W
  loop = resume_loop services main_engineering_graph has_pull_requests
