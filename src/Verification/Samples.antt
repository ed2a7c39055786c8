-- ===== src/Verification/Samples.antt =====
-- A gate with one command, which passes, and one architecture rule.
use development_brain.Prelude.{
  ℕ, ◌≡◌, String, true, not, ◌&&◌, none, List, [], ◌∷◌, ◌==◌, string_eq,
}
use development_brain.Verification.{
  CheckKind, ExitValue, Engine, is_empty, missing_changes, missing_tests, violations, verify,
}
use development_brain.Verification.Gate.{all_succeed, verify-allowed}

abbrev engine : Engine ℕ
engine = record {
  run = λ command workspace n. (record { exit_code = ExitValue.exits 0; output = "ok" }, n);
  matches = λ path pattern. path == pattern;
  architecture_rules =
      record {
        name = "layers";
        source_pattern = "src/b.py";
        target_pattern = "src/a.py";
        relation = "MUST_NOT_DEPEND_ON";
      }
      ∷ [];
  project_commands = (CheckKind.unit_tests, "make test") ∷ [];
}

abbrev criteria : List String
criteria = "it works" ∷ []

abbrev changed : List String
changed = "src/a.py" ∷ "tests/test_a.py" ∷ []

abbrev expected : List String
expected = "src/a.py" ∷ []

verify-allowed_example :
    (verify engine 1 2 criteria changed expected none true ([], 0)).0.1.pr_allowed ≡ (
      all_succeed engine engine.project_commands none 0
      && (is_empty (missing_changes engine changed expected)
          && (is_empty (violations engine engine.architecture_rules changed)
              && (is_empty (missing_tests engine changed expected)
                  && (not (is_empty changed) && not (is_empty criteria))))))
verify-allowed_example = verify-allowed engine 1 2 criteria changed expected none true [] 0
