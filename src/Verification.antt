-- ===== src/Verification.antt =====
-- brain/application/verification_engine.py and brain/domain/verification_plan.py: the checks of one
-- execution, the verdict over them and the gate for pull requests. The command runner and the search
-- by the regular expression of an architecture rule are parameters. Ids, times and the `detail` of a
-- step, which nothing here reads, are left out.
pub mod Gate
pub mod Paths
mod Samples
use Prim.Native.String.{◌++◌ as join_text}
use development_brain.Prelude.{
  ℕ, String, Bool, true, false, not, Option, none, some, List, [], ◌∷◌, ◌++◌, keep, contains, map,
  string_eq, sorted, if◌then◌else◌,
}
use Paths.{is_test_path}

pub data CheckKind : Type 0 where
  unit_tests integration_tests lint format type_check build : CheckKind
  structural architecture test_relevance : CheckKind

pub data CheckStatus : Type 0 where
  pending pass partial fail skipped blocked : CheckStatus

pub data VerificationVerdict : Type 0 where
  pass partial fail blocked : VerificationVerdict

pub record VerificationStep : Type 0 where
  pub kind : CheckKind
  pub name : String
  pub command : Option String
  pub status : CheckStatus
  pub output : String

pub record ArchitectureRule : Type 0 where
  pub name : String
  pub source_pattern : String
  pub target_pattern : String
  pub relation : String

pub record VerificationRun : Type 0 where
  pub execution_id : ℕ
  pub work_item_id : ℕ
  pub steps : List VerificationStep
  pub verdict : VerificationVerdict
  pub issues : List String
  pub feedback : List String

pub record PrReadiness : Type 0 where
  pub verdict : VerificationVerdict
  pub pr_allowed : Bool
  pub reasons : List String

-- The value under "exit_code" in a runner's result: absent, an integer (`exits 0` is success,
-- `signalled` a negative one), or something that `int(str(value))` does not read.
pub data ExitValue : Type 0 where
  absent unreadable : ExitValue
  exits signalled : ℕ → ExitValue

pub record CommandResult : Type 0 where
  pub exit_code : ExitValue
  pub output : String

-- `_exit_code(result) == 0`
unfoldable pub exit_code_is_zero : ExitValue → Bool
exit_code_is_zero ExitValue.absent = true
exit_code_is_zero ExitValue.unreadable = false
exit_code_is_zero (ExitValue.exits ℕ.zero) = true
exit_code_is_zero (ExitValue.exits (ℕ.suc n)) = false
exit_code_is_zero (ExitValue.signalled n) = false

-- What the engine is built from, and what it takes from elsewhere.
pub record Engine (W : Type 0) : Type 0 where
  pub run : String → Option String → W → CommandResult × W
  pub matches : String → String → Bool
  pub architecture_rules : List ArchitectureRule
  pub project_commands : List (CheckKind × String)

abbrev pub is_fail : CheckStatus → Bool
is_fail CheckStatus.fail = true
is_fail _ = false

abbrev pub is_partial : CheckStatus → Bool
is_partial CheckStatus.partial = true
is_partial _ = false

abbrev pub is_empty {ℓ} : {A : Type ℓ} → List A → Bool
is_empty [] = true
is_empty (x ∷ xs) = false

-- `kind.value`
unfoldable pub kind_value : CheckKind → String
kind_value CheckKind.unit_tests = "unit_tests"
kind_value CheckKind.integration_tests = "integration_tests"
kind_value CheckKind.lint = "lint"
kind_value CheckKind.format = "format"
kind_value CheckKind.type_check = "type_check"
kind_value CheckKind.build = "build"
kind_value CheckKind.structural = "structural"
kind_value CheckKind.architecture = "architecture"
kind_value CheckKind.test_relevance = "test_relevance"

-- `separator.join(texts)`
unfoldable pub joined : String → List String → String
joined separator [] = ""
joined separator (t ∷ []) = t
joined separator (t ∷ u ∷ us) = join_text t (join_text separator (joined separator (u ∷ us)))

-- f"{step.name}: {step.output}"
unfoldable pub described : VerificationStep → String
described step = join_text step.name (join_text ": " step.output)

-- f"{path}: {rule.name} ({rule.relation})"
unfoldable pub violation_text : ArchitectureRule → String → String
violation_text rule path =
    join_text path
      (join_text ": " (join_text rule.name (join_text " (" (join_text rule.relation ")"))))

unfoldable pub describe_all : List VerificationStep → List String
describe_all [] = []
describe_all (s ∷ ss) = described s ∷ describe_all ss

abbrev pub failed_steps : List VerificationStep → List VerificationStep
failed_steps steps = keep (λ s. is_fail s.status) steps

abbrev pub partial_steps : List VerificationStep → List VerificationStep
partial_steps steps = keep (λ s. is_partial s.status) steps

unfoldable pub verdict_of : List VerificationStep → List String → List String → VerificationVerdict
verdict_of steps acceptance_criteria changed_files =
    if not (is_empty (failed_steps steps))
    then VerificationVerdict.fail
    else if is_empty changed_files
    then VerificationVerdict.fail
    else if not (is_empty (partial_steps steps))
    then VerificationVerdict.partial
    else if is_empty acceptance_criteria
    then VerificationVerdict.blocked
    else VerificationVerdict.pass

unfoldable pub issues_of : List VerificationStep → List String → List String → List String
issues_of steps acceptance_criteria changed_files =
    describe_all (failed_steps steps)
    ++ (describe_all (partial_steps steps)
        ++ ((if is_empty changed_files then "no files changed by execution" ∷ [] else [])
            ++ (if is_empty acceptance_criteria
                then "work item has no acceptance criteria to verify" ∷ []
                else [])))

unfoldable pub aggregate_verdict : VerificationRun → List String → List String → VerificationRun
aggregate_verdict run acceptance_criteria changed_files = record run {
  issues = issues_of run.steps acceptance_criteria changed_files;
  verdict = verdict_of run.steps acceptance_criteria changed_files;
  feedback = describe_all (failed_steps run.steps ++ partial_steps run.steps);
}

unfoldable pub verdict_value : VerificationVerdict → String
verdict_value VerificationVerdict.pass = "pass"
verdict_value VerificationVerdict.partial = "partial"
verdict_value VerificationVerdict.fail = "fail"
verdict_value VerificationVerdict.blocked = "blocked"

unfoldable pub readiness_of : VerificationVerdict → List String → PrReadiness
readiness_of VerificationVerdict.pass issues = record {
  verdict = VerificationVerdict.pass;
  pr_allowed = true;
  reasons = "all verification checks passed" ∷ [];
}
readiness_of verdict issues = record {
  verdict = verdict;
  pr_allowed = false;
  reasons =
      if is_empty issues then join_text "verdict is " (verdict_value verdict) ∷ [] else issues;
}

unfoldable pub pr_readiness : VerificationRun → PrReadiness
pr_readiness run = readiness_of run.verdict run.issues

module _ {W : Type 0} (engine : Engine W) where
  unfoldable pub run_command_steps :
      List (CheckKind × String) → Option String → W → List VerificationStep × W
  run_command_steps [] workspace w = ([], w)
  run_command_steps ((kind, command) ∷ rest) workspace w =
      let (result, w') = engine.run command workspace w in
      let (steps, w'') = run_command_steps rest workspace w' in
      (
        record {
          kind = kind;
          name = kind_value kind;
          command = some command;
          status =
              if exit_code_is_zero result.exit_code then CheckStatus.pass else CheckStatus.fail;
          output = result.output;
        }
            ∷ steps,
        w'',
      )

  -- The expected files that were not changed.
  unfoldable pub missing_changes : List String → List String → List String
  missing_changes changed_files expected =
      sorted (keep (λ e. not (contains changed_files e)) expected)

  unfoldable pub structural_step : List String → List String → VerificationStep
  structural_step changed_files expected =
      let missing = missing_changes changed_files expected in
      record {
        kind = CheckKind.structural;
        name = "structural change analysis";
        command = none;
        status = if is_empty missing then CheckStatus.pass else CheckStatus.fail;
        output =
            if is_empty missing
            then ""
            else join_text "missing expected changes: " (joined ", " missing);
      }

  unfoldable pub violations : List ArchitectureRule → List String → List String
  violations [] changed_files = []
  violations (rule ∷ rules) changed_files =
      map (violation_text rule)
        (keep (λ path. engine.matches path rule.source_pattern) changed_files)
      ++ violations rules changed_files

  unfoldable pub architecture_step : List String → VerificationStep
  architecture_step changed_files =
      let found = violations engine.architecture_rules changed_files in
      record {
        kind = CheckKind.architecture;
        name = "architecture rule check";
        command = none;
        status = if is_empty found then CheckStatus.pass else CheckStatus.fail;
        output = if is_empty found then "" else joined "; " found;
      }

  -- The expected test files that were not changed.
  unfoldable pub missing_tests : List String → List String → List String
  missing_tests changed_files expected =
      sorted (
        keep (λ t. not (contains (keep is_test_path changed_files) t)) (keep is_test_path expected))

  unfoldable pub test_relevance_step : List String → List String → VerificationStep
  test_relevance_step changed_files expected =
      let missing = missing_tests changed_files expected in
      record {
        kind = CheckKind.test_relevance;
        name = "test relevance check";
        command = none;
        status = if is_empty missing then CheckStatus.pass else CheckStatus.partial;
        output =
            if is_empty missing
            then ""
            else join_text "relevant tests not touched: " (joined ", " missing);
      }

  -- The steps of the plan. `expected` are the related files of the impact analysis.
  unfoldable pub all_steps :
      List String → List String → Option String → W → List VerificationStep × W
  all_steps changed_files expected workspace w =
      let (steps, w') = run_command_steps engine.project_commands workspace w in
      (
        steps
            ++ (structural_step changed_files expected
                ∷ architecture_step changed_files
                ∷ test_relevance_step changed_files expected
                ∷ []),
        w',
      )

  unfoldable pub verify :
      (execution_id work_item_id : ℕ) (acceptance_criteria changed_files expected : List String)
      → Option String
      → (persist : Bool) → List VerificationRun × W
      → (VerificationRun × PrReadiness) × (List VerificationRun × W)
  verify execution_id work_item_id acceptance_criteria changed_files expected workspace persist
        (saved, w) =
      let (steps, w') = all_steps changed_files expected workspace w in
      let run =
        aggregate_verdict
          (record {
            execution_id = execution_id;
            work_item_id = work_item_id;
            steps = steps;
            verdict = VerificationVerdict.pass;
            issues = [];
            feedback = [];
          })
          acceptance_criteria changed_files in
      ((run, pr_readiness run), (if persist then saved ++ (run ∷ []) else saved, w'))
