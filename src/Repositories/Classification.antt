-- ===== src/Repositories/Classification.antt =====
-- `classify_file` of brain/domain/repository_scan.py, on the texts of paths.
use development_brain.Prelude.{
  ◌≡◌, refl, String, Bool, true, false, ◌||◌, List, [], ◌∷◌, map, any, arith, if◌then◌else◌,
}
use development_brain.Prelude.Text.{Text, codes, lower, starts_with}
use development_brain.Verification.Paths.{
  normalize, split, same, last_part, ends_with, is_test_directory, is_test_path,
}
use development_brain.Repositories.Catalog.{FileCategory, ChangedFile}

-- The text is one of the names.
unfoldable pub one_of : List String → Text → Bool
one_of names t = any (λ (n : String). same t (codes n)) names

unfoldable pub ends_with_any : List String → Text → Bool
ends_with_any suffixes t = any (λ (s : String). ends_with t (codes s)) suffixes

abbrev pub manifest_names : List String
manifest_names =
    "pyproject.toml" ∷ "requirements.txt" ∷ "requirements-dev.txt" ∷ "setup.py" ∷ "setup.cfg"
    ∷ "package.json" ∷ "package-lock.json" ∷ "yarn.lock" ∷ "pnpm-lock.yaml" ∷ "go.mod" ∷ "go.sum"
    ∷ "Cargo.toml" ∷ "Cargo.lock" ∷ "Gemfile" ∷ "Gemfile.lock" ∷ "pom.xml" ∷ "build.gradle"
    ∷ "gradle.properties" ∷ "composer.json" ∷ "Dockerfile" ∷ []

abbrev pub deployment_names : List String
deployment_names =
    "docker-compose.yml" ∷ "docker-compose.yaml" ∷ "compose.yml" ∷ "compose.yaml"
    ∷ "docker-compose.override.yml" ∷ []

abbrev pub ci_names : List String
ci_names =
    ".gitlab-ci.yml" ∷ ".gitlab-ci.yaml" ∷ "Jenkinsfile" ∷ ".travis.yml" ∷ ".circleci/config.yml"
    ∷ "azure-pipelines.yml" ∷ []

abbrev pub doc_extensions : List String
doc_extensions = ".md" ∷ ".markdown" ∷ ".rst" ∷ ".adoc" ∷ ".txt" ∷ []

abbrev pub source_extensions : List String
source_extensions =
    ".py" ∷ ".js" ∷ ".ts" ∷ ".tsx" ∷ ".jsx" ∷ ".go" ∷ ".rs" ∷ ".java" ∷ ".kt" ∷ ".kts" ∷ ".c" ∷ ".h"
    ∷ ".cpp" ∷ ".hpp" ∷ ".cs" ∷ ".rb" ∷ ".php" ∷ ".swift" ∷ ".scala" ∷ ".sh" ∷ ".bash" ∷ ".sql" ∷ []

abbrev pub schema_extensions : List String
schema_extensions = ".sql" ∷ ".proto" ∷ ".graphql" ∷ []

abbrev pub config_extensions : List String
config_extensions = ".json" ∷ ".yaml" ∷ ".yml" ∷ ".toml" ∷ ".ini" ∷ ".cfg" ∷ ".conf" ∷ []

abbrev pub test_directories : List String
test_directories = "test" ∷ "tests" ∷ "spec" ∷ "specs" ∷ "__tests__" ∷ []

unfoldable pub is_test : (path : Text) (parts : List Text) → Bool
is_test path parts =
    let name = last_part (split path) in
    any (one_of test_directories) parts
    || (starts_with name (codes "test_")
        || (ends_with name (codes "_test.py") || ends_with name (codes "_test.go")))

unfoldable pub is_documentation : (path lower_name : Text) (parts : List Text) → Bool
is_documentation path lower_name parts =
    any (one_of ("docs" ∷ "doc" ∷ "documentation" ∷ [])) parts
    || (ends_with_any doc_extensions path
        || one_of ("readme" ∷ "readme.md" ∷ "changelog" ∷ "changelog.md" ∷ "contributing" ∷ [])
            lower_name)

unfoldable pub is_manifest : (lower_name : Text) → Bool
is_manifest lower_name = one_of manifest_names lower_name || ends_with lower_name (codes ".toml")

unfoldable pub is_deployment : (lower_name : Text) (parts : List Text) → Bool
is_deployment lower_name parts =
    one_of deployment_names lower_name
    || (one_of ci_names lower_name
        || (same lower_name (codes "dockerfile")
            || any (one_of (".github" ∷ ".gitlab" ∷ [])) parts))

-- The kinds that only the suffix decides.
unfoldable pub by_suffix : Text → FileCategory
by_suffix path =
    if ends_with_any schema_extensions path
    then FileCategory.schema
    else if ends_with_any source_extensions path
    then FileCategory.source
    else if ends_with_any config_extensions path
    then FileCategory.configuration
    else FileCategory.unknown

-- The first test that holds decides.
unfoldable pub category_of :
    (manifest deployment test documentation : Bool) → FileCategory → FileCategory
category_of manifest deployment test documentation other =
    if manifest
    then FileCategory.manifest
    else if deployment
    then FileCategory.deployment
    else if test
    then FileCategory.test
    else if documentation
    then FileCategory.documentation
    else other

unfoldable pub classify_file : Text → FileCategory
classify_file path =
    let normalized = normalize path in
    let name = lower (last_part (split normalized)) in
    let parts = map lower (split normalized) in
    category_of (is_manifest name) (is_deployment name parts) (is_test normalized parts)
      (is_documentation normalized name parts) (by_suffix normalized)

unfoldable pub classify_changed_files : List String → List ChangedFile
classify_changed_files [] = []
classify_changed_files (path ∷ paths) =
    let changed : ChangedFile = record {
      path = path;
      category = classify_file (codes path);
      change_type = "modified";
    } in
    changed ∷ classify_changed_files paths

-- A test, or a file of which the name or directory decides before.
unfoldable pub is_test_like : FileCategory → Bool
is_test_like FileCategory.manifest = true
is_test_like FileCategory.deployment = true
is_test_like FileCategory.test = true
is_test_like _ = false

any-directories :
    (parts : List Text)
    → any is_test_directory parts ≡ any (one_of test_directories) (map lower parts)
unfolding any is_test_directory one_of
any-directories [] = refl
any-directories (part ∷ parts) = ground (arith, any-directories parts)

-- What the verification of an execution counts as a test is classified as a test, unless its name is a
-- manifest's or its name or a directory is of deployment.
pub classify_file-is_test_path :
    (path : String) → is_test_path path ≡ true → is_test_like (classify_file (codes path)) ≡ true
unfolding is_test_path classify_file category_of is_test is_test_like
classify_file-is_test_path path h =
    ground (arith, h, any-directories (split (normalize (codes path))))
