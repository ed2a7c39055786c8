-- ===== src/CodeGraph.antt =====
-- brain/domain/code_intelligence.py and brain/adapters/in_memory/code_graph.py: the symbols of a
-- revision, their relations and their repository. Locations, decorators, hashes, confidence and
-- metadata, which nothing reads, are left out. How an id and a kind are written out are parameters.
use development_brain.Prelude.{
  ℕ, Bool, ◌&&◌, ◌||◌, Option, List, [], ◌∷◌, ◌++◌, keep, any, ◌==◌, nat_eq, list_eq, Eq,
  eq_of_discrete, if◌then◌else◌,
}
use development_brain.Prelude.Dict
use development_brain.Prelude.Dict.{Dict}
use development_brain.Prelude.Text.{Text, codes, starts_with}
use development_brain.Prelude.Merge.{pair_eq}
use development_brain.Verification.Paths.{normalize, split, last_part, ends_with, is_test_directory}

pub data SymbolKind : Type 0 where
  module_kind class_kind function method import_kind variable parameter : SymbolKind

pub record SymbolIdentity : Type 0 where
  pub repository_id : ℕ
  pub revision : Text
  pub module_name : Text
  pub qualified_name : Text
  pub kind : SymbolKind

pub record Symbol : Type 0 where
  pub id : ℕ
  pub identity : SymbolIdentity
  pub name : Text
  pub path : Text
  pub kind : SymbolKind
  pub qualified_name : Text
  pub parameters : List Text
  pub return_annotation : Option Text
  pub docstring : Option Text

pub data CodeRelationType : Type 0 where
  imports calls instantiates inherits implements : CodeRelationType
  overrides reads writes tests : CodeRelationType

unfoldable pub CodeRelationType-discrete : Discrete CodeRelationType
CodeRelationType-discrete = hlevel

instance abbrev pub code_relation_eq : Eq CodeRelationType
code_relation_eq = eq_of_discrete CodeRelationType-discrete

pub record CodeRelation : Type 0 where
  pub id : ℕ
  pub relation_type : CodeRelationType
  pub source_identity : SymbolIdentity
  pub target_identity : SymbolIdentity
  pub repository_id : ℕ
  pub revision : Text
  pub source_path : Text
  pub target_path : Option Text

pub record ParsedFile : Type 0 where
  pub path : Text
  pub repository_id : ℕ
  pub revision : Text
  pub symbols : List Symbol
  pub relations : List CodeRelation

-- What follows the last dot; `seen` is what followed the last one so far.
after_last_dot : Text → Text → Text
after_last_dot seen [] = seen
after_last_dot seen (c ∷ cs) =
    if c == 46 then after_last_dot [] cs else after_last_dot (seen ++ (c ∷ [])) cs

-- `name.rsplit(".", 1)[-1]`
unfoldable pub last_segment : Text → Text
unfolding after_last_dot
last_segment name = after_last_dot [] name

unfoldable pub is_test_file : Text → Bool
is_test_file path =
    let parts = split (normalize path) in
    let name = last_part parts in
    any is_test_directory parts
    || (starts_with name (codes "test_") || ends_with name (codes "_test.py"))

-- A key of the tables: repository, revision, and the key in the revision.
abbrev pub Key : Type 0
Key = ℕ × (Text × Text)

pub record CodeGraph : Type 0 where
  pub symbols : Dict Key Symbol
  pub relations : Dict Key CodeRelation
  pub files : Dict Key ParsedFile

-- The key is of the repository at the revision.
abbrev pub belongs : (repository_id : ℕ) (revision : Text) → Key → Bool
belongs repository_id revision (repo, (rev, _)) = repo == repository_id && rev == revision

unfoldable pub of_revision :
    {A : Type 0} → (repository_id : ℕ) (revision : Text) → Dict Key A → List A
of_revision i rev [] = []
of_revision i rev ((k, a) ∷ d) =
    let rest = of_revision i rev d in if belongs i rev k then a ∷ rest else rest

unfoldable pub without_revision :
    {A : Type 0} → (repository_id : ℕ) (revision : Text) → Dict Key A → Dict Key A
without_revision i rev [] = []
without_revision i rev ((k, a) ∷ d) =
    let rest = without_revision i rev d in if belongs i rev k then rest else (k, a) ∷ rest

module _ (show_id : ℕ → Text) (value_of : SymbolKind → Text) where
  unfoldable pub key : SymbolIdentity → Text
  key i =
      show_id i.repository_id
      ++ (58
          ∷ (i.revision
              ++ (58 ∷ (i.module_name ++ (58 ∷ (i.qualified_name ++ (58 ∷ value_of i.kind)))))))

  unfoldable pub save_symbols : List Symbol → CodeGraph → CodeGraph
  unfolding key
  save_symbols [] g = g
  save_symbols (s ∷ ss) g = save_symbols ss (record g {
    symbols =
        Dict.insert g.symbols (s.identity.repository_id, (s.identity.revision, key s.identity)) s;
  })

  unfoldable pub save_relations : List CodeRelation → CodeGraph → CodeGraph
  save_relations [] g = g
  save_relations (r ∷ rs) g = save_relations rs (record g {
    relations = Dict.insert g.relations (r.repository_id, (r.revision, show_id r.id)) r;
  })

  unfoldable pub save_parsed_file : ParsedFile → CodeGraph → CodeGraph
  unfolding save_symbols save_relations
  save_parsed_file parsed g =
      let g' = save_relations parsed.relations (save_symbols parsed.symbols g) in
      record g' {
        files = Dict.insert g'.files (parsed.repository_id, (parsed.revision, parsed.path)) parsed;
      }

unfoldable pub get_symbol :
    (repository_id : ℕ) (revision identity_key : Text) → CodeGraph → Option Symbol
get_symbol i rev k g = Dict.get g.symbols (i, (rev, k))

unfoldable pub list_symbols : (repository_id : ℕ) (revision : Text) → CodeGraph → List Symbol
list_symbols i rev g = of_revision i rev g.symbols

unfoldable pub list_relations :
    (repository_id : ℕ) (revision : Text) → CodeGraph → List CodeRelation
list_relations i rev g = of_revision i rev g.relations

unfoldable pub find_symbol :
    (repository_id : ℕ) (revision qualified_name : Text) → CodeGraph → List Symbol
unfolding list_symbols
find_symbol i rev name g = keep (λ s. s.qualified_name == name) (list_symbols i rev g)

unfoldable pub expire_revision : (repository_id : ℕ) (revision : Text) → CodeGraph → CodeGraph
expire_revision i rev g = record {
  symbols = without_revision i rev g.symbols;
  relations = without_revision i rev g.relations;
  files = without_revision i rev g.files;
}
