-- ===== src/Policies/Approvals/Passing.antt =====
-- What a workflow requires after an approval was requested, and after a decision on it.
use development_brain.Prelude.{
  ℕ, ◌≡◌, refl, String, true, Option, none, some, List, [], ◌∷◌, ◌++◌, keep, arith, nat_eq,
  nat_beq_iff, if◌then◌else◌, beq_refl, sym,
}
use mathlib.Core.Path.{subst}
use development_brain.Prelude.Dict
use development_brain.Prelude.Dict.{Dict}
use development_brain.Prelude.Dict.Entries.{values-insert_new}
use development_brain.Workflow.{ApprovalState, WorkflowState}
use development_brain.Policies.{ApprovalType, ApprovalDecision}
use development_brain.Policies.Approvals.{
  Approval, Approvals, is_open, decision_is_pending, is_id, first_open, save_approval, get_approval,
  list_for_workflow, requires_approval, request_approval, decide, with_decision, apply_to_workflow,
}

insert-insert :
    (rows : Approvals) (i : ℕ) (a b : Approval)
    → Dict.insert (Dict.insert rows i a) i b ≡ Dict.insert rows i b
unfolding Dict.insert
insert-insert [] i a b = ground (arith, nat_beq_iff i i)
insert-insert ((j, c) ∷ rows) i a b = ground (arith, insert-insert rows i a b)

-- The first of two approvals that are required, if any.
abbrev pub first_of : Option ApprovalType → Option ApprovalType → Option ApprovalType
first_of none later = later
first_of (some t) later = some t

-- The state in which a decision leaves the approval of a workflow.
abbrev pub left_by : ApprovalDecision → ApprovalState
left_by ApprovalDecision.approved = ApprovalState.approved
left_by ApprovalDecision.rejected = ApprovalState.rejected
left_by ApprovalDecision.needs_changes = ApprovalState.pending
left_by ApprovalDecision.pending = ApprovalState.pending

first_open-last :
    (w : ℕ) (xs : List Approval) (a : Approval)
    → is_id w a.workflow_id ≡ true
    → first_open (keep (λ x. is_id w x.workflow_id) (xs ++ (a ∷ [])))
      ≡ first_of
          (first_open (keep (λ x. is_id w x.workflow_id) xs))
          (if is_open a then some a.approval_type else none)
unfolding first_open keep
first_open-last w [] a own = ground (arith, own)
first_open-last w (x ∷ xs) a own = ground (arith, own, first_open-last w xs a own)

requires_approval-saved :
    (state : WorkflowState) (rows : Approvals) (a : Approval)
    → is_id state.workflow_id a.workflow_id ≡ true
    → get_approval a.id rows ≡ none
    → requires_approval state (save_approval a rows)
      ≡ first_of (requires_approval state rows) (if is_open a then some a.approval_type else none)
unfolding requires_approval list_for_workflow save_approval get_approval
requires_approval-saved state rows a own fresh =
    rw (values-insert_new rows a.id a fresh)
      (first_open-last state.workflow_id (Dict.values rows) a own)

with_decision-left_by :
    (d : ApprovalDecision) (state : WorkflowState)
    → with_decision d (record state { approval_state = ApprovalState.pending })
      ≡ record state { approval_state = left_by d }
unfolding with_decision
with_decision-left_by ApprovalDecision.pending state = refl
with_decision-left_by ApprovalDecision.approved state = refl
with_decision-left_by ApprovalDecision.rejected state = refl
with_decision-left_by ApprovalDecision.needs_changes state = refl

-- A request under an id that is not in use is what the workflow requires, unless an approval that
-- was open before comes first. A decision on it that is not pending, be it approved, rejected or
-- needs_changes, closes it, and the workflow requires what it required before; after a decision that
-- is pending it stays open. The decision, applied to the workflow, sets the approval state to
-- approved, rejected, or pending for needs_changes and pending, and nothing else.
pub request-decide :
    (id now : ℕ) (state : WorkflowState) (t : ApprovalType) (by : Option ℕ) (rows : Approvals)
    (decided_by : ℕ) (d : ApprovalDecision) (reason : String)
    → get_approval id rows ≡ none
    → let (a, (state', rows')) = request_approval id now state t by rows in
      let (b, rows'') = decide a decided_by d reason rows' in
      (requires_approval state' rows' ≡ first_of (requires_approval state rows) (some t))
      × ((requires_approval state' rows''
            ≡ first_of
                (requires_approval state rows)
                (if decision_is_pending d then some t else none))
          × (apply_to_workflow b state' ≡ record state { approval_state = left_by d }))
unfolding request_approval decide apply_to_workflow save_approval is_open requires_approval
    list_for_workflow decision_is_pending
request-decide id now state t by rows decided_by d reason fresh =
    let (a, (state', rows')) = request_approval id now state t by rows in
    let (b, rows'') = decide a decided_by d reason rows' in
    let own : is_id state.workflow_id (some state.workflow_id) ≡ true =
      beq_refl state.workflow_id in
    (
      requires_approval-saved state rows a own fresh,
      (
        subst
            (λ r.
              requires_approval state r
              ≡ first_of (requires_approval state rows)
                  (if decision_is_pending d then some t else none))
            (sym (insert-insert rows id a b)) (requires_approval-saved state rows b own fresh),
        rw own (with_decision-left_by d state),
      ),
    )
