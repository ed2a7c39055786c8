-- ===== src/Workflow/Engine/Termination.antt =====
-- How far a workflow is from its end, and one advance over the main engineering graph.
use development_brain.Prelude.{
  ℕ, ◌+◌, ◌-◌, ◌*◌, ◌≤◌, ◌<◌, ◌≡◌, refl, ◌≢◌, inl, inr, Option, none, some, nat_eq, arith,
  Bool-cases, leb, ltb, ◌&&◌,
}
use development_brain.Errors.{PyException, Result, ok, err, Result-cases}
use development_brain.Workflow.{
  WorkflowStage, WorkflowStatus, WorkflowState, WorkflowStage-discrete, next_stages,
  main_engineering_graph,
}
use development_brain.Workflow.Engine.{
  Services, Advance, ExecutionResult, advance, advance_from, execute_stage, after_execution,
  decide_after_verify, leave_retry, has_error, retry_decision,
}

-- How far a stage is from the end of the graph, a retry left aside.
abbrev pub rank : WorkflowStage → ℕ
rank WorkflowStage.intake = 10
rank WorkflowStage.understand = 9
rank WorkflowStage.build_context = 8
rank WorkflowStage.route_executor = 7
rank WorkflowStage.execute = 6
rank WorkflowStage.verify = 5
rank WorkflowStage.retry = 4
rank WorkflowStage.create_pr = 3
rank WorkflowStage.update_brain = 2
rank _ = 1

-- Each retry that is left allows another round of three stages.
abbrev pub distance : WorkflowStage → ℕ → ℕ → ℕ
distance stage retry_count max_retries = rank stage + 3 * (max_retries - retry_count)

-- The statuses in which a workflow stands still, and the stage of each.
abbrev pub Final : WorkflowStatus → WorkflowStage → Type 0
Final WorkflowStatus.running stage = ⊥
Final WorkflowStatus.completed stage = stage ≡ WorkflowStage.complete
Final WorkflowStatus.failed stage = stage ≡ WorkflowStage.failed
Final WorkflowStatus.blocked stage = stage ≡ WorkflowStage.human

-- The status with which an advance enters a stage.
abbrev pub Entering : WorkflowStatus → WorkflowStage → Type 0
Entering WorkflowStatus.running stage = stage ≢ WorkflowStage.human
Entering WorkflowStatus.completed stage = ⊥
Entering WorkflowStatus.failed stage = stage ≡ WorkflowStage.failed
Entering WorkflowStatus.blocked stage = stage ≡ WorkflowStage.human

-- A running workflow stands at a stage with an edge, any other in its final stage.
abbrev pub Stands : WorkflowStatus → WorkflowStage → Type 0
Stands WorkflowStatus.running stage = 1 < rank stage
Stands status stage = Final status stage

-- One advance from `s` to `stage`, with the state `s'` but for its stage.
pub record Step (s : WorkflowState) (stage : WorkflowStage) (s' : WorkflowState) : Type 0 where
  pub same_id : s'.workflow_id ≡ s.workflow_id
  pub same_budget : s'.max_retries ≡ s.max_retries
  pub in_budget : s'.retry_count ≤ s'.max_retries
  pub entering : Entering s'.status stage
  pub nearer :
      distance stage s'.retry_count s'.max_retries < distance s.stage s.retry_count s.max_retries

pub data Advanced (s : WorkflowState) : Result Advance → Type 0 where
  to :
      {stage : WorkflowStage} {r : Option ExecutionResult} {s' : WorkflowState}
      → Step s stage s'
      → Advanced s (ok (record { next_stage = some stage; result = r; state = s' }))
  thrown : (exc : PyException) → Advanced s (err exc)

abbrev pub at_stage : WorkflowStage → WorkflowState → WorkflowState
at_stage stage s = record s { stage = stage }

module _ {W : Type 0} (services : Services W) (s : WorkflowState) (w : W)
    (le : s.retry_count ≤ s.max_retries) (run : s.status ≡ WorkflowStatus.running) where
  -- The state is unchanged.
  onward :
      (stage next : WorkflowStage)
      → next ≢ WorkflowStage.human
      → rank next < rank stage
      → Advanced
          (at_stage stage s)
          (ok (record { next_stage = some next; result = none; state = at_stage stage s }))
  onward stage next h lt = to (record {
    same_id = refl;
    same_budget = refl;
    in_budget = le;
    entering = rw run h;
    nearer = omega arith;
  })

  execute-Advanced :
      Advanced
        (at_stage WorkflowStage.execute s)
        (advance_from services WorkflowStage.execute WorkflowStage.verify
          (at_stage WorkflowStage.execute s)
          w).0
  unfolding after_execution advance_from
  execute-Advanced =
      elim (Result-cases (execute_stage services (at_stage WorkflowStage.execute s) w).0) [
        | inl (r, e) ↦
            rw (e, advance_from)
              (to (record {
                same_id = refl;
                same_budget = refl;
                in_budget = le;
                entering = rw run (λ h. cc);
                nearer = omega arith;
              }))
        | inr (exc, e) ↦ rw (e, advance_from) (thrown exc)
      ]

  decide-Advanced :
      Advanced
        (at_stage WorkflowStage.verify s)
        (ok (decide_after_verify (at_stage WorkflowStage.verify s)))
  unfolding decide_after_verify
  decide-Advanced = elim (Bool-cases (leb s.max_retries s.retry_count)) [
    | inl out ↦ rw out (
        to (record {
          same_id = refl;
          same_budget = refl;
          in_budget = le;
          entering = refl;
          nearer = omega arith;
        }))
    | inr more ↦ elim (Bool-cases (has_error s.last_error)) [
      | inl bad ↦
          rw (more, bad) (onward WorkflowStage.verify WorkflowStage.retry (λ h. cc) (omega arith))
      | inr good ↦
          rw (more, good)
            (onward WorkflowStage.verify WorkflowStage.create_pr (λ h. cc) (omega arith))
    ]
  ]

  retry-Advanced :
      Advanced (at_stage WorkflowStage.retry s) (ok (leave_retry (at_stage WorkflowStage.retry s)))
  unfolding leave_retry
  retry-Advanced =
      elim (Bool-cases
        ((retry_decision s.last_error).retryable && ltb s.retry_count s.max_retries)) [
          | inl again ↦
              let room : s.retry_count < s.max_retries = ground arith in
              rw again (
                to (record {
                  same_id = refl;
                  same_budget = refl;
                  in_budget = omega arith;
                  entering = rw run (λ h. cc);
                  nearer = omega arith;
                }))
          | inr over ↦ rw over (
              to (record {
                same_id = refl;
                same_budget = refl;
                in_budget = le;
                entering = refl;
                nearer = omega arith;
              }))
        ]

  pub advance-Advanced :
      (stage : WorkflowStage)
      → 1 < rank stage
      → Advanced (at_stage stage s) (advance services main_engineering_graph (at_stage stage s) w).0
  unfolding advance next_stages main_engineering_graph WorkflowStage-discrete
  advance-Advanced WorkflowStage.intake h =
      onward WorkflowStage.intake WorkflowStage.understand (λ e. cc) (omega arith)
  advance-Advanced WorkflowStage.understand h =
      onward WorkflowStage.understand WorkflowStage.build_context (λ e. cc) (omega arith)
  advance-Advanced WorkflowStage.build_context h =
      onward WorkflowStage.build_context WorkflowStage.route_executor (λ e. cc) (omega arith)
  advance-Advanced WorkflowStage.route_executor h =
      onward WorkflowStage.route_executor WorkflowStage.execute (λ e. cc) (omega arith)
  advance-Advanced WorkflowStage.execute h = execute-Advanced
  advance-Advanced WorkflowStage.verify h = decide-Advanced
  advance-Advanced WorkflowStage.retry h = retry-Advanced
  advance-Advanced WorkflowStage.create_pr h =
      onward WorkflowStage.create_pr WorkflowStage.update_brain (λ e. cc) (omega arith)
  advance-Advanced WorkflowStage.update_brain h =
      onward WorkflowStage.update_brain WorkflowStage.complete (λ e. cc) (omega arith)
  advance-Advanced WorkflowStage.human h = absurd (omega arith)
  advance-Advanced WorkflowStage.complete h = absurd (omega arith)
  advance-Advanced WorkflowStage.failed h = absurd (omega arith)
