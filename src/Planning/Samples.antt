-- ===== src/Planning/Samples.antt =====
-- Two requirements, one of them without acceptance criteria, and one that nothing asks for.
use development_brain.Prelude.{
  ℕ, ◌+◌, ◌≡◌, ◌&&◌, keep, distinct, true, none, some, List, [], ◌∷◌, ◌==◌, nat_eq, list_eq,
}
use development_brain.Prelude.Text.{Text, codes}
use development_brain.Planning.{Requirement, is_nil}
use development_brain.Planning.Service.{
  CodeGraph, titles, decompose, reconcile, analyzed, build_plan,
}
use development_brain.Planning.Coverage.{
  reconcile-analyzed, criteria_given, build_plan-validated, parents_first, numbered_from,
  decompose-IsOrdered,
}

abbrev login : Requirement
login = record {
  id = 1;
  project_id = 7;
  key = some (codes "REQ-1");
  title = codes "login";
  description = codes "with a password";
  priority = none;
  acceptance_criteria = codes "it works" ∷ [];
}

abbrev logout : Requirement
logout = record login { id = 2; key = none; title = codes "logout"; acceptance_criteria = [] }

abbrev both : List Requirement
both = login ∷ logout ∷ []

abbrev uuid : ℕ → ℕ
uuid n = n + 100

abbrev no_words : Text → List Text
no_words t = []

abbrev graph : CodeGraph
graph = record {
  symbols = codes "Login" ∷ [];
  relations = (true, codes "tests/test_login.py", none) ∷ [];
}

reconcile-analyzed_example :
    reconcile (analyzed (some graph) (decompose uuid 7 none 0 both))
    ≡ analyzed (some graph) (decompose uuid 7 none 0 both)
reconcile-analyzed_example = reconcile-analyzed (some graph) uuid 7 0 none both

build_plan-validated_example :
    is_nil
      (build_plan no_words uuid 50 7 (codes "plan") both (some graph) true []).0.validation_errors
    ≡ (criteria_given (keep (λ r. r.project_id == 7) both)
        && distinct (titles (decompose uuid 7 none 0 (keep (λ r. r.project_id == 7) both))))
build_plan-validated_example =
    build_plan-validated no_words uuid 50 7 (codes "plan") both (some graph) true []

decompose-IsOrdered_example :
    (parents_first [] (decompose uuid 7 (some (2 ∷ [])) 0 both) ≡ true)
    × (numbered_from (0 + 1) (decompose uuid 7 (some (2 ∷ [])) 0 both) ≡ true)
decompose-IsOrdered_example = decompose-IsOrdered uuid 7 (some (2 ∷ [])) [] 0 both
