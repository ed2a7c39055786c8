-- ===== src/Impact.antt =====
-- brain/application/impact_analysis.py: what a change of some symbols touches. The score is counted in
-- hundredths, and its final rounding leaves whole hundredths as they are. A sorted set is the sorted
-- list of its items, each once.
use development_brain.Prelude.{
  ℕ, ◌+◌, ◌*◌, Bool, ◌&&◌, Option, none, some, List, [], ◌∷◌, ◌++◌, map, keep, any, contains,
  length, unique, leb, ◌==◌, nat_eq, list_eq, if◌then◌else◌,
}
use development_brain.Prelude.Text.{Text, codes, lower, contains_text, sort_texts}
use development_brain.Verification.Paths.{ends_with}
use development_brain.CodeGraph.{
  Symbol, SymbolKind, CodeRelation, CodeRelationType, CodeGraph, code_relation_eq, key,
  last_segment, is_test_file, list_symbols, list_relations,
}

pub record ImpactAnalysis : Type 0 where
  pub repository_id : ℕ
  pub revision : Text
  pub primary_symbols : List Symbol
  pub direct_dependents : List CodeRelation
  pub reverse_dependencies : List CodeRelation
  pub related_files : List Text
  pub related_tests : List Text
  pub interfaces : List Text
  pub configuration : List Text
  pub risk_score : ℕ

abbrev at_most : ℕ → ℕ → ℕ
at_most limit n = if leb limit n then limit else n

unfoldable pub risk_of :
    List Symbol → (reverse : List CodeRelation) → (related_files : List Text) → ℕ
risk_of [] reverse files = 0
risk_of (s ∷ symbols) reverse files =
    let is_core = λ (t : Symbol).
      any (λ token. contains_text token (lower t.identity.module_name))
        (codes "core" ∷ codes "service" ∷ codes "domain" ∷ codes "model" ∷ []) in
    at_most 100 (
      at_most 40 (length reverse * 10)
      + (at_most 30 (length files * 5) + (if any is_core (s ∷ symbols) then 15 else 0)))

-- The symbols that a target names: by their full names, or else by the last segments of them.
unfoldable pub matches : List Symbol → Text → List Symbol
matches symbols target =
    let exact = keep (λ s. s.qualified_name == target) symbols in
    elim exact [
      | [] ↦ keep (λ s. last_segment s.qualified_name == target) symbols
      | s ∷ more ↦ s ∷ more
    ]

unfoldable pub find_all : List Symbol → (target_symbols : List Text) → List Symbol
unfolding matches
find_all symbols [] = []
find_all symbols (target ∷ targets) = matches symbols target ++ find_all symbols targets

-- The path, if there is one that is not empty.
abbrev given : Option Text → List Text
given none = []
given (some []) = []
given (some (c ∷ cs)) = (c ∷ cs) ∷ []

abbrev non_empty : Text → List Text
non_empty path = given (some path)

unfoldable pub paths_of : List CodeRelation → List Text
paths_of [] = []
paths_of (r ∷ rs) = given r.target_path ++ (non_empty r.source_path ++ paths_of rs)

-- The files of relations `TESTS` that are among these.
unfoldable pub tested_files : List Text → List CodeRelation → List Text
tested_files files [] = []
tested_files files (r ∷ rs) =
    let rest = tested_files files rs in
    elim r.target_path [
      | none ↦ rest
      | some path ↦
          if r.relation_type == CodeRelationType.tests && contains files path
          then path ∷ rest
          else rest
    ]

unfoldable pub is_configuration : Text → Bool
is_configuration path =
    any (λ suffix. ends_with path suffix)
      (codes ".yaml"
        ∷ codes ".yml"
        ∷ codes ".toml"
        ∷ codes ".ini"
        ∷ codes ".cfg"
        ∷ codes ".env"
        ∷ [])

module _ (show_id : ℕ → Text) (value_of : SymbolKind → Text) where
  -- Each symbol once by its identity, where it is first.
  unfoldable pub once_by_key : (seen : List Text) → List Symbol → List Symbol
  once_by_key seen [] = []
  once_by_key seen (s ∷ symbols) =
      let k = key show_id value_of s.identity in
      let old = once_by_key seen symbols in
      let new = s ∷ once_by_key (k ∷ seen) symbols in if contains seen k then old else new

  unfoldable pub select_primary : List Symbol → (target_symbols : List Text) → List Symbol
  unfolding find_all once_by_key
  select_primary symbols targets = once_by_key [] (find_all symbols targets)

  unfoldable pub analyze :
      (repository_id : ℕ) (revision : Text)
      → (target_symbols : List Text) → CodeGraph
      → ImpactAnalysis
  unfolding select_primary paths_of tested_files is_configuration risk_of
  analyze repository_id revision targets graph =
      let symbols = list_symbols repository_id revision graph in
      let relations = list_relations repository_id revision graph in
      let primary = select_primary symbols targets in
      let primary_keys = map (λ s. key show_id value_of s.identity) primary in
      let is_call = λ (r : CodeRelation). r.relation_type == CodeRelationType.calls in
      let dependents =
        keep (λ r. is_call r && contains primary_keys (key show_id value_of r.target_identity))
          relations in
      let reverse =
        keep (λ r. is_call r && contains primary_keys (key show_id value_of r.source_identity))
          relations in
      let related_files =
        sort_texts (unique (paths_of (dependents ++ reverse) ++ map (λ s. s.path) primary)) in
      let related_tests =
        tested_files related_files relations ++ keep is_test_file (map (λ s. s.path) symbols) in
      record {
        repository_id = repository_id;
        revision = revision;
        primary_symbols = primary;
        direct_dependents = dependents;
        reverse_dependencies = reverse;
        related_files = related_files;
        related_tests = sort_texts (unique related_tests);
        interfaces = sort_texts (unique (map (λ r. r.target_identity.qualified_name) reverse));
        configuration = keep is_configuration related_files;
        risk_score = risk_of primary reverse related_files;
      }
