-- ===== src/Workflow/Engine/Completion.antt =====
-- Where a workflow without a recorded error goes after an execution.
use development_brain.Prelude.{
  ℕ, suc, ◌-◌, ◌≤◌, ◌<◌, ◌≡◌, refl, ap, inl, inr, Bool, true, false, Option, none, some, arith,
  if◌then◌else◌, leb, Option-cases, beq_refl, nat_eq,
}
use development_brain.Prelude.Text.{Text}
use development_brain.Prelude.Dict.{get-insert}
use development_brain.Errors.{ok}
use development_brain.Workflow.{
  WorkflowStage, WorkflowStatus, WorkflowState, WorkflowStage-discrete, next_stages,
  main_engineering_graph,
}
use development_brain.Workflow.Engine.{
  start, initial, resume, go_to, Services, ExecutionRequest, ExecutionResult, Turn, Resumed, Store,
  advance, advance_from, execute_stage, after_execution, decide_after_verify, conclude, turn,
  resume_loop, has_error, is_completed, outcome_of, save_checkpoint, load_checkpoint,
}
use development_brain.Workflow.Engine.Termination.{at_stage}

-- The workflow is completed at the last stage.
abbrev pub IsCompleted : Resumed → Type 0
IsCompleted (Resumed.finished o) =
    (o.state.status ≡ WorkflowStatus.completed) × (o.state.stage ≡ WorkflowStage.complete)
IsCompleted _ = ⊥

-- No error is recorded, and a retry is left.
pub record IsClean (s : WorkflowState) : Type 0 where
  pub running : s.status ≡ WorkflowStatus.running
  pub no_error : has_error s.last_error ≡ false
  pub retries_left : s.retry_count < s.max_retries

-- One pass of the loop, all open.
engine : Unit {0}
unfolding resume_loop turn advance next_stages main_engineering_graph WorkflowStage-discrete
    conclude outcome_of
engine = tt

-- The error that is recorded once an execution has come back.
no_error_after :
    (completed : Bool) (last_error : Option Text)
    → has_error last_error ≡ false
    → has_error (if completed then none else last_error) ≡ false
unfolding has_error
no_error_after true last_error h = refl
no_error_after false last_error h = h

module _ {W : Type 0} (services : Services W) (has_pull_requests : Bool) where
  abbrev Completes : ℕ → WorkflowStage → Type 0
  Completes fuel stage =
      (s : WorkflowState) (previous : Option ExecutionResult) (store : Store W)
      → IsClean s
      → IsCompleted
          (resume_loop services main_engineering_graph has_pull_requests fuel (at_stage stage s)
            previous store).0

  from_update_brain : (fuel : ℕ) → Completes (suc fuel) WorkflowStage.update_brain
  unfolding engine
  from_update_brain fuel s previous store c = rw (c.running) (refl, refl)

  from_create_pr : (fuel : ℕ) → Completes (suc (suc fuel)) WorkflowStage.create_pr
  unfolding engine
  from_create_pr fuel s previous store c = rw (c.running) (refl, refl)

  -- One pass that goes on.
  forward :
      (fuel : ℕ) (s s' : WorkflowState) (previous r : Option ExecutionResult)
      → (store store' : Store W) → s.status ≡ WorkflowStatus.running
      → turn services main_engineering_graph has_pull_requests s previous store
        ≡ Turn.again s' r store'
      → IsCompleted
          (resume_loop services main_engineering_graph has_pull_requests fuel s' r store').0
      → IsCompleted
          (resume_loop services main_engineering_graph has_pull_requests
            (suc fuel)
            s
            previous
            store).0
  unfolding resume_loop
  forward fuel s s' previous r store store' run e h = rw (run, e, resume_loop) h

  decide_clean :
      (s : WorkflowState) → IsClean s → decide_after_verify s ≡ go_to WorkflowStage.create_pr s
  unfolding decide_after_verify
  decide_clean s c =
      let room : leb s.max_retries s.retry_count ≡ false = ground (arith, c.retries_left) in
      rw (room, c.no_error)

  from_verify : (fuel : ℕ) → Completes (suc (suc (suc fuel))) WorkflowStage.verify
  unfolding turn advance next_stages main_engineering_graph WorkflowStage-discrete conclude
  from_verify fuel s previous store c =
      let e =
        decide_clean (at_stage WorkflowStage.verify s)
          (record { running = c.running; no_error = c.no_error; retries_left = c.retries_left }) in
      let next = at_stage WorkflowStage.create_pr s in
      forward (suc (suc fuel)) (at_stage WorkflowStage.verify s) next previous previous store
        (save_checkpoint next store) c.running (ap (λ a. conclude a previous store) e)
        (from_create_pr fuel s previous _ c)

  -- There is an executor, and it returns.
  module _ (available : (w : W) → (services.select w).0 ≡ true)
      (returns : (request : ExecutionRequest) (w : W)
        → (r : ExecutionResult) × ((services.execute request w).0 ≡ ok r)) where
    executed :
        (s : WorkflowState) (w : W)
        → (r : ExecutionResult) × ((execute_stage services s w).0 ≡ ok r)
    unfolding execute_stage
    executed s w = elim (Option-cases s.work_item_id) [
      | inl missing ↦ rw (available w, missing) (returns _ _)
      | inr (i, known) ↦ rw (available w, known) (returns _ _)
    ]

    from_execute : (fuel : ℕ) → Completes (suc (suc (suc (suc fuel)))) WorkflowStage.execute
    unfolding turn advance advance_from next_stages main_engineering_graph WorkflowStage-discrete
        conclude after_execution
    from_execute fuel s previous store c =
        let (r, e) = executed (at_stage WorkflowStage.execute s) store.world in
        let done = record s {
          current_execution_id = some r.execution_id;
          last_error = if is_completed r.status then none else s.last_error;
        } in
        let next = at_stage WorkflowStage.verify done in
        let after =
          advance services main_engineering_graph (at_stage WorkflowStage.execute s) store.world in
        forward (suc (suc (suc fuel))) (at_stage WorkflowStage.execute s) next previous (some r)
          store (save_checkpoint next (record store { world = after.1 })) c.running (rw (e, turn))
          (from_verify fuel done (some r) _ (record {
            running = c.running;
            no_error = no_error_after (is_completed r.status) s.last_error c.no_error;
            retries_left = c.retries_left;
          }))

    -- If there is an executor and it returns, whatever the status of its results, a new workflow is
    -- completed at the stage `complete`: no verification is asked, and a failed execution does not
    -- hold the workflow back.
    pub clean_completes :
        (fuel workflow_id project_id work_item_id repository_id : ℕ) (revision : Text)
        → (store : Store W) → 8 ≤ fuel
        → let (s, store') =
            start workflow_id project_id work_item_id repository_id revision store in
          IsCompleted
            (resume services main_engineering_graph has_pull_requests fuel workflow_id store').0
    unfolding start resume save_checkpoint load_checkpoint initial has_error engine
    clean_completes fuel i p w r revision store enough =
        let extra = fuel - 8 in
        let split : fuel ≡ suc (suc (suc (suc (suc (suc (suc (suc extra))))))) = omega arith in
        rw (get-insert, beq_refl i, resume)
          (rw split (
            from_execute extra (initial i p w r revision) none _
              (record { running = refl; no_error = refl; retries_left = omega arith })))
