-- ===== src/TestSelection/Samples.antt =====
-- A change of one symbol, with a test that calls it, a test that ran it and a test of the history.
use development_brain.Prelude.{
  ◌≡◌, String, none, ◌&&◌, ◌||◌, some, [], ◌∷◌, any, unique, contains, contains-unique, ◌==◌,
  nat_eq, list_eq,
}
use development_brain.Prelude.Text.{codes}
use development_brain.TestSelection.{
  RuntimeEvidenceKind, RuntimeObservation, covers_any, select, or_empty,
}
use development_brain.CodeGraph.{Symbol, SymbolIdentity, SymbolKind, CodeRelation, CodeRelationType}
use development_brain.TestSelection.Membership.{selected_names, tests_symbol, select-members}

abbrev identity : String → SymbolIdentity
identity name = record {
  repository_id = 1;
  revision = codes "r1";
  module_name = codes "m";
  qualified_name = codes name;
  kind = SymbolKind.function;
}

abbrev relation : CodeRelation
relation = record {
  id = 1;
  relation_type = CodeRelationType.tests;
  source_identity = identity "m.test_a";
  target_identity = identity "m.f";
  repository_id = 1;
  revision = codes "r1";
  source_path = codes "m.py";
  target_path = some (codes "m.py");
}

abbrev observation : RuntimeObservation
observation = record {
  kind = RuntimeEvidenceKind.coverage;
  source = codes "m.test_b";
  symbols = codes "m.f" ∷ [];
}

abbrev symbol : Symbol
symbol = record {
  id = 1;
  identity = identity "m.test_a";
  name = codes "test_a";
  path = codes "m.py";
  kind = SymbolKind.function;
  qualified_name = codes "m.test_a";
  parameters = [];
  return_annotation = none;
  docstring = none;
}

select-members_example :
    contains
      (selected_names (
        select unique
          (symbol ∷ [])
          (relation ∷ [])
          (observation ∷ [])
          (codes "m.f" ∷ [])
          (some (codes "m.test_c" ∷ []))))
      (codes "m.test_b")
    ≡ (any (λ c. tests_symbol (relation ∷ []) c (codes "m.test_b")) (codes "m.f" ∷ [])
        || (any
              (λ o. covers_any (codes "m.f" ∷ []) o && codes "m.test_b" == o.source)
              (observation ∷ [])
            || contains (or_empty (some (codes "m.test_c" ∷ []))) (codes "m.test_b")))
select-members_example =
    select-members unique contains-unique (symbol ∷ []) (relation ∷ []) (observation ∷ [])
      (codes "m.f" ∷ []) (some (codes "m.test_c" ∷ [])) (codes "m.test_b")
