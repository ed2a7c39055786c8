-- ===== src/TestSelection.antt =====
-- `AdvancedTestSelector` and `_is_test_name` of brain/application/runtime.py, with the records of
-- brain/domain/runtime.py: the tests that a change calls for, by the call graph, by what ran and by
-- history. A score is counted in tenths. The fields of observations that the selector does not read
-- are left out. Python leaves the order of a set open, so that the
-- traversal of the set of a list's items is a parameter.
mod Extension
pub mod Membership
mod Samples
use development_brain.Prelude.{
  ℕ, ◌+◌, leb, Bool, true, false, not, ◌&&◌, ◌||◌, Option, none, some, List, [], ◌∷◌, ◌++◌, map,
  keep, any, contains, ◌==◌, nat_eq, list_eq, Eq, eq_of_discrete, if◌then◌else◌,
}
use development_brain.Prelude.Dict
use development_brain.Prelude.Dict.{Dict}
use development_brain.Prelude.Text.{Text, codes, starts_with}
use development_brain.CodeGraph.{
  Symbol, CodeRelation, CodeRelationType, code_relation_eq, last_segment,
}

pub data RuntimeEvidenceKind : Type 0 where
  trace coverage log_event service_call : RuntimeEvidenceKind
  database_access message_publish message_consume : RuntimeEvidenceKind

unfoldable pub RuntimeEvidenceKind-discrete : Discrete RuntimeEvidenceKind
RuntimeEvidenceKind-discrete = hlevel

instance abbrev pub evidence_kind_eq : Eq RuntimeEvidenceKind
evidence_kind_eq = eq_of_discrete RuntimeEvidenceKind-discrete

pub record RuntimeObservation : Type 0 where
  pub kind : RuntimeEvidenceKind
  pub source : Text
  pub symbols : List Text

pub record TargetedTest : Type 0 where
  pub test_name : Text
  pub path : Text
  pub reasons : List Text
  pub score : ℕ

pub record AdvancedTestSelection : Type 0 where
  pub selected_tests : List TargetedTest
  pub via_runtime_coverage : ℕ
  pub via_call_graph : ℕ
  pub via_changed_symbols : ℕ
  pub via_test_history : ℕ

unfoldable pub is_test_name : Text → Bool
is_test_name name =
    let last = last_segment name in
    starts_with last (codes "test_") || starts_with last (codes "Test")

unfoldable pub is_test_relation : CodeRelation → Bool
is_test_relation r =
    r.relation_type == CodeRelationType.tests && is_test_name r.source_identity.qualified_name

unfoldable pub or_empty : Option (List Text) → List Text
or_empty none = []
or_empty (some ts) = ts

unfoldable pub tests_by_symbol : Dict Text (List Text) → List CodeRelation → Dict Text (List Text)
unfolding is_test_relation or_empty
tests_by_symbol d [] = d
tests_by_symbol d (r ∷ rs) =
    tests_by_symbol
      (if is_test_relation r
        then Dict.insert d r.target_identity.qualified_name (
            or_empty (Dict.get d r.target_identity.qualified_name)
            ++ (r.source_identity.qualified_name ∷ []))
        else d)
      rs

unfoldable pub test_paths : Dict Text Text → List Symbol → Dict Text Text
test_paths d [] = d
test_paths d (s ∷ ss) =
    test_paths (if is_test_name s.qualified_name then Dict.insert d s.qualified_name s.path else d)
      ss

unfoldable pub path_of : Dict Text Text → Text → Text
path_of paths test = elim (Dict.get paths test) [ none ↦ [] | some p ↦ p ]

-- The tests selected so far, by their names.
abbrev pub Selected : Type 0
Selected = Dict Text TargetedTest

unfoldable pub fresh_test : Dict Text Text → Text → TargetedTest
unfolding path_of
fresh_test paths test = record {
  test_name = test;
  path = path_of paths test;
  reasons = [];
  score = 0;
}

unfoldable pub with_reason : Text → ℕ → TargetedTest → TargetedTest
with_reason reason points t = record t {
  reasons = t.reasons ++ (reason ∷ []);
  score = t.score + points;
}

-- The selection with the number of tests that this reason brought in.
unfoldable pub select_called : Dict Text Text → Text → List Text → Selected × ℕ → Selected × ℕ
unfolding fresh_test with_reason
select_called paths changed [] st = st
select_called paths changed (test ∷ more) (d, n) =
    let reason = codes "tests " ++ (changed ++ codes " via call graph") in
    select_called paths changed more (elim (Dict.get d test) [
      | none ↦ (Dict.insert d test (with_reason reason 5 (fresh_test paths test)), n + 1)
      | some t ↦ (Dict.insert d test (with_reason reason 5 t), n)
    ])

-- The loop over the changed symbols.
unfoldable pub select_changed :
    Dict Text Text → Dict Text (List Text) → List Text → Selected × ℕ → Selected × ℕ
unfolding or_empty
select_changed paths index [] st = st
select_changed paths index (changed ∷ rest) st =
    select_changed paths index rest
      (select_called paths changed (or_empty (Dict.get index changed)) st)

unfoldable pub covers_any : List Text → RuntimeObservation → Bool
covers_any changed o =
    o.kind == RuntimeEvidenceKind.coverage && any (λ s. contains changed s) o.symbols

-- The test with the reason of the runtime, and whether it is counted.
unfoldable pub exercised : TargetedTest → TargetedTest × Bool
unfolding with_reason
exercised t =
    if contains t.reasons (codes "runtime coverage")
    then (t, false)
    else (with_reason (codes "exercised changed symbols at runtime") 8 t, true)

-- The loop over the tests that cover a changed symbol.
unfoldable pub select_covered : Dict Text Text → List Text → Selected × ℕ → Selected × ℕ
unfolding fresh_test exercised
select_covered paths [] st = st
select_covered paths (test ∷ more) (d, n) =
    let t : TargetedTest = elim (Dict.get d test) [ none ↦ fresh_test paths test | some t ↦ t ] in
    let (t', counted) = exercised t in
    select_covered paths more (Dict.insert d test t', (if counted then n + 1 else n))

-- The loop over the history.
unfoldable pub select_history : Dict Text Text → List Text → Selected × ℕ → Selected × ℕ
unfolding path_of
select_history paths [] st = st
select_history paths (test ∷ more) (d, n) = select_history paths more (elim (Dict.get d test) [
  | none ↦ (
    Dict.insert d test (record {
      test_name = test;
      path = path_of paths test;
      reasons = codes "historical failure" ∷ [];
      score = 3;
    }),
    n + 1,
  )
  | some t ↦ (d, n)
])

insert_scored : TargetedTest → List TargetedTest → List TargetedTest
insert_scored t [] = t ∷ []
insert_scored t (u ∷ us) =
    let later = u ∷ insert_scored t us in if leb u.score t.score then t ∷ u ∷ us else later

-- By descending score; tests of one score stay in the order of their selection.
unfoldable pub by_score : List TargetedTest → List TargetedTest
unfolding insert_scored
by_score [] = []
by_score (t ∷ ts) = insert_scored t (by_score ts)

-- A selector whose traversal of a set is `each`, over the symbols, the relations and the observations
-- of the revision.
module _ (each : List Text → List Text) (symbols : List Symbol) (relations : List CodeRelation)
    (observations : List RuntimeObservation) where
  -- The selection after each loop.
  unfoldable pub called_tests : List Text → Selected × ℕ
  called_tests changed =
      select_changed (test_paths [] symbols) (tests_by_symbol [] relations) changed ([], 0)

  unfoldable pub covered_tests : List Text → List Text
  covered_tests changed = each (map (λ o. o.source) (keep (covers_any changed) observations))

  unfoldable pub select :
      (changed_symbols : List Text) → (test_history : Option (List Text)) → AdvancedTestSelection
  unfolding called_tests covered_tests or_empty
  select changed history =
      let paths = test_paths [] symbols in
      let (d1, via_call_graph) = called_tests changed in
      let (d2, via_runtime) = select_covered paths (covered_tests changed) (d1, 0) in
      let (d3, via_history) = select_history paths (each (or_empty history)) (d2, 0) in
      record {
        selected_tests = by_score (Dict.values d3);
        via_runtime_coverage = via_runtime;
        via_call_graph = via_call_graph;
        via_changed_symbols = 0;
        via_test_history = via_history;
      }
