-- ===== src/Verification/Gate.antt =====
-- When the gate lets a pull request through.
use development_brain.Prelude.{
  ℕ, ◌≡◌, refl, String, Bool, true, false, not, ◌&&◌, Option, List, [], ◌∷◌, ◌++◌, keep, arith,
  if◌then◌else◌, ◌∙◌,
}
use development_brain.Verification.{
  CheckKind, VerificationStep, VerificationRun, Engine, exit_code_is_zero, is_fail, is_partial,
  is_empty, run_command_steps, missing_changes, violations, missing_tests, structural_step,
  architecture_step, test_relevance_step, verdict_of, aggregate_verdict, readiness_of, pr_readiness,
  all_steps, verify, VerificationVerdict, failed_steps, partial_steps, issues_of,
}

is_empty-keep-append {ℓ} :
    {A : Type ℓ} (p : A → Bool) (xs ys : List A)
    → is_empty (keep p (xs ++ ys)) ≡ (is_empty (keep p xs) && is_empty (keep p ys))
unfolding keep
is_empty-keep-append p [] ys = refl
is_empty-keep-append p (x ∷ xs) ys = ground (arith, is_empty-keep-append p xs ys)

allowed_by_tests :
    (f p : Bool) (criteria changed issues : List String)
    → (readiness_of
        (if not f
          then VerificationVerdict.fail
          else if is_empty changed
          then VerificationVerdict.fail
          else if not p
          then VerificationVerdict.partial
          else if is_empty criteria
          then VerificationVerdict.blocked
          else VerificationVerdict.pass)
        issues).pr_allowed
      ≡ (f && (not (is_empty changed) && (p && not (is_empty criteria))))
unfolding readiness_of
allowed_by_tests false p criteria changed issues = refl
allowed_by_tests true p criteria [] issues = refl
allowed_by_tests true false criteria (x ∷ xs) issues = refl
allowed_by_tests true true [] (x ∷ xs) issues = refl
allowed_by_tests true true (c ∷ cs) (x ∷ xs) issues = refl

-- The readiness of a run, from the tests that its verdict makes.
allowed :
    (run : VerificationRun) (criteria changed : List String)
    → (pr_readiness (aggregate_verdict run criteria changed)).pr_allowed ≡ (
        is_empty (failed_steps run.steps)
        && (not (is_empty changed)
            && (is_empty (partial_steps run.steps) && not (is_empty criteria))))
unfolding pr_readiness aggregate_verdict verdict_of
allowed run criteria changed =
    allowed_by_tests (is_empty (failed_steps run.steps)) (is_empty (partial_steps run.steps))
      criteria changed (issues_of run.steps criteria changed)

module _ {W : Type 0} (engine : Engine W) where
  -- Every command, run in its turn, exits with 0.
  pub all_succeed : List (CheckKind × String) → Option String → W → Bool
  all_succeed [] workspace w = true
  all_succeed ((kind, command) ∷ rest) workspace w =
      let (result, w') = engine.run command workspace w in
      exit_code_is_zero result.exit_code && all_succeed rest workspace w'

  no_failed_command :
      (commands : List (CheckKind × String)) (workspace : Option String) (w : W)
      → is_empty (keep (λ s. is_fail s.status) (run_command_steps engine commands workspace w).0)
        ≡ all_succeed commands workspace w
  unfolding run_command_steps all_succeed keep
  no_failed_command [] workspace w = refl
  no_failed_command ((kind, command) ∷ rest) workspace w =
      ground (arith, no_failed_command rest workspace (engine.run command workspace w).1)

  no_partial_command :
      (commands : List (CheckKind × String)) (workspace : Option String) (w : W)
      → is_empty (keep (λ s. is_partial s.status) (run_command_steps engine commands workspace w).0)
        ≡ true
  unfolding run_command_steps keep
  no_partial_command [] workspace w = refl
  no_partial_command ((kind, command) ∷ rest) workspace w =
      ground (arith, no_partial_command rest workspace (engine.run command workspace w).1)

  module _ (changed expected : List String) where
    checks : List VerificationStep
    checks =
        structural_step engine changed expected
        ∷ architecture_step engine changed
        ∷ test_relevance_step engine changed expected
        ∷ []

    failed_checks : is_empty (failed_steps checks) ≡ (
        is_empty (missing_changes engine changed expected)
        && is_empty (violations engine engine.architecture_rules changed))
    unfolding checks structural_step architecture_step test_relevance_step keep
    failed_checks = ground arith

    partial_checks :
        is_empty (partial_steps checks) ≡ is_empty (missing_tests engine changed expected)
    unfolding checks structural_step architecture_step test_relevance_step keep
    partial_checks = ground arith

    module _ (workspace : Option String) (w : W) where
      commands : List VerificationStep
      commands = (run_command_steps engine engine.project_commands workspace w).0

      failures : is_empty (failed_steps (all_steps engine changed expected workspace w).0) ≡ (
          all_succeed engine.project_commands workspace w
          && (is_empty (missing_changes engine changed expected)
              && is_empty (violations engine engine.architecture_rules changed)))
      unfolding all_steps commands checks
      failures =
          rw
            (
              is_empty-keep-append (λ s. is_fail s.status) commands checks,
              no_failed_command engine.project_commands workspace w,
              failed_checks,
            )
            refl

      partials :
          is_empty (partial_steps (all_steps engine changed expected workspace w).0)
          ≡ is_empty (missing_tests engine changed expected)
      unfolding all_steps commands checks
      partials =
          rw
            (
              is_empty-keep-append (λ s. is_partial s.status) commands checks,
              no_partial_command engine.project_commands workspace w,
              partial_checks,
            )
            refl

  -- A pull request is allowed exactly when every project command exits with 0, every expected file
  -- was changed, no changed file matches an architecture rule, every expected test was changed,
  -- some file was changed, and the work item has acceptance criteria.
  pub verify-allowed :
      (execution_id work_item_id : ℕ) (acceptance_criteria changed_files expected : List String)
      (workspace : Option String) (persist : Bool) (saved : List VerificationRun) (w : W)
      → (verify engine execution_id work_item_id acceptance_criteria changed_files expected
          workspace persist
          (saved, w)).0.1.pr_allowed
        ≡ (all_succeed engine.project_commands workspace w
            && (is_empty (missing_changes engine changed_files expected)
                && (is_empty (violations engine engine.architecture_rules changed_files)
                    && (is_empty (missing_tests engine changed_files expected)
                        && (not (is_empty changed_files) && not (is_empty acceptance_criteria))))))
  unfolding verify
  verify-allowed e i criteria changed expected workspace persist saved w =
      let steps = (all_steps engine changed expected workspace w).0 in
      allowed
        (record {
          execution_id = e;
          work_item_id = i;
          steps = steps;
          verdict = VerificationVerdict.pass;
          issues = [];
          feedback = [];
        })
        criteria changed
      ∙ ground (arith, failures changed expected workspace w, partials changed expected workspace w)
