-- ===== src/Repositories/Catalog.antt =====
-- The rows that are kept in plain lists or under two parts of a key: brain/domain/repository_scan.py's
-- snapshots and change sets, the states of a bootstrap, and the software catalogue of
-- brain/adapters/in_memory/repositories.py.
use development_brain.Prelude.{
  ℕ, ◌≡◌, ◌∙◌, refl, String, Bool, true, not, ◌&&◌, Option, none, some, List, [], ◌∷◌, ◌++◌, map,
  keep, keep-append, beq_refl, contains, ◌==◌, nat_eq, string_eq, eq_iff, nat_beq_iff, arith,
  if◌then◌else◌,
}
use development_brain.Domain.Work.{ProviderBootstrapState}
use development_brain.Domain.Software.{
  SoftwareDomain, System, SoftwareComponent, Interface, Resource,
}
use development_brain.Topology.{TopologyClaim, DependencyCandidate}
use development_brain.Repositories.{Collection, upsert, list_all}

pub data FileCategory : Type 0 where
  source test documentation manifest configuration deployment schema unknown : FileCategory

pub record RepositorySnapshot : Type 0 where
  pub id : ℕ
  pub repository_id : ℕ
  pub revision : String
  pub captured_at : ℕ
  pub tree : List String
  pub languages : List String
  pub manifest_files : List String
  pub dockerfiles : List String
  pub compose_files : List String
  pub ci_configuration : List String
  pub documentation_roots : List String
  pub test_roots : List String

pub record ChangedFile : Type 0 where
  pub path : String
  pub category : FileCategory
  pub change_type : String

pub record RepositoryChangeSet : Type 0 where
  pub id : ℕ
  pub repository_id : ℕ
  pub old_revision : Option String
  pub new_revision : String
  pub detected_at : ℕ
  pub files : List ChangedFile

-- The snapshot is the repository's at the revision.
abbrev pub taken_at : (repository_id : ℕ) (revision : String) → RepositorySnapshot → Bool
taken_at i r s = s.repository_id == i && s.revision == r

unfoldable pub save_snapshot :
    RepositorySnapshot → List RepositorySnapshot → List RepositorySnapshot
save_snapshot snapshot rows =
    keep (λ s. not (taken_at snapshot.repository_id snapshot.revision s)) rows ++ (snapshot ∷ [])

unfoldable pub get_snapshot :
    (repository_id : ℕ) (revision : String) → List RepositorySnapshot → Option RepositorySnapshot
get_snapshot i r [] = none
get_snapshot i r (s ∷ rows) =
    let later = get_snapshot i r rows in if taken_at i r s then some s else later

unfoldable pub list_snapshots : ℕ → List RepositorySnapshot → List RepositorySnapshot
list_snapshots i rows = keep (λ s. s.repository_id == i) rows

unfoldable pub save_change_set :
    RepositoryChangeSet → List RepositoryChangeSet → List RepositoryChangeSet
save_change_set c rows = rows ++ (c ∷ [])

unfoldable pub list_change_sets : ℕ → List RepositoryChangeSet → List RepositoryChangeSet
list_change_sets i rows = keep (λ c. c.repository_id == i) rows

unfoldable pub get_state :
    (project_id : ℕ) (provider : String)
    → List ProviderBootstrapState
    → Option ProviderBootstrapState
get_state i p [] = none
get_state i p (s ∷ rows) =
    let later = get_state i p rows in if s.project_id == i && s.provider == p then some s else later

unfoldable pub save_state :
    ProviderBootstrapState → List ProviderBootstrapState → List ProviderBootstrapState
save_state v [] = v ∷ []
save_state v (s ∷ rows) =
    let later = s ∷ save_state v rows in
    if s.project_id == v.project_id && s.provider == v.provider then v ∷ rows else later

pub record Catalog : Type 0 where
  pub domains : Collection SoftwareDomain
  pub systems : Collection System
  pub components : Collection SoftwareComponent
  pub interfaces : Collection Interface
  pub resources : Collection Resource
  pub claims : List TopologyClaim
  pub dependencies : List DependencyCandidate

unfoldable pub upsert_domain : SoftwareDomain → Catalog → Catalog
upsert_domain d c = record c { domains = upsert d d.id c.domains }

unfoldable pub upsert_system : System → Catalog → Catalog
upsert_system s c = record c { systems = upsert s s.id c.systems }

unfoldable pub upsert_component : SoftwareComponent → Catalog → Catalog
upsert_component s c = record c { components = upsert s s.id c.components }

unfoldable pub upsert_interface : Interface → Catalog → Catalog
upsert_interface i c = record c { interfaces = upsert i i.id c.interfaces }

unfoldable pub upsert_resource : Resource → Catalog → Catalog
upsert_resource r c = record c { resources = upsert r r.id c.resources }

unfoldable pub save_claims : List TopologyClaim → Catalog → Catalog
save_claims claims c = record c { claims = c.claims ++ claims }

unfoldable pub save_dependencies : List DependencyCandidate → Catalog → Catalog
save_dependencies ds c = record c { dependencies = c.dependencies ++ ds }

unfoldable pub list_claims : ℕ → Catalog → List TopologyClaim
list_claims i c = keep (λ t. t.repository_id == i) c.claims

unfoldable pub list_systems : ℕ → Catalog → List System
list_systems i c = keep (λ s. s.project_id == i) (list_all c.systems)

unfoldable pub list_components : ℕ → Catalog → List SoftwareComponent
list_components i c = keep (λ s. s.project_id == i) (list_all c.components)

unfoldable pub list_interfaces : ℕ → Catalog → List Interface
list_interfaces i c =
    let component_ids = map (λ s. s.id) (list_components i c) in
    keep (λ x. contains component_ids x.component_id) (list_all c.interfaces)

unfoldable pub list_resources : ℕ → Catalog → List Resource
list_resources i c = keep (λ r. r.project_id == i) (list_all c.resources)

-- The project is not looked at.
unfoldable pub list_dependencies :
    (project_id : ℕ) (component_name : String) → Catalog → List String
list_dependencies i name c = map (λ d. d.target) (keep (λ d. d.source == name) c.dependencies)

get_snapshot-save :
    (v : RepositorySnapshot) (i : ℕ) (r : String) (rows : List RepositorySnapshot)
    → get_snapshot i r (save_snapshot v rows)
      ≡ (if taken_at i r v then some v else get_snapshot i r rows)
unfolding get_snapshot save_snapshot keep
get_snapshot-save v i r [] = refl
get_snapshot-save v i r (s ∷ rows) = ground (
  arith,
  get_snapshot-save v i r rows,
  nat_beq_iff v.repository_id i,
  eq_iff v.revision r,
  nat_beq_iff s.repository_id i,
  eq_iff s.revision r,
  nat_beq_iff s.repository_id v.repository_id,
  eq_iff s.revision v.revision,
)

keep-others :
    (v : RepositorySnapshot) (rows : List RepositorySnapshot)
    → keep
        (taken_at v.repository_id v.revision)
        (keep (λ s. not (taken_at v.repository_id v.revision s)) rows)
      ≡ []
unfolding keep
keep-others v [] = refl
keep-others v (s ∷ rows) = ground (arith, keep-others v rows)

taken_at_self : (v : RepositorySnapshot) → taken_at v.repository_id v.revision v ≡ true
taken_at_self v = rw (beq_refl v.repository_id, beq_refl v.revision) refl

-- A snapshot replaces the one of its repository and revision, of which there is then no other; the
-- snapshots at every other repository or revision read as before.
pub save_snapshot-replaces :
    (v : RepositorySnapshot) (rows : List RepositorySnapshot)
    → (keep (taken_at v.repository_id v.revision) (save_snapshot v rows) ≡ v ∷ [])
      × ((i : ℕ) (r : String)
          → get_snapshot i r (save_snapshot v rows)
            ≡ (if taken_at i r v then some v else get_snapshot i r rows))
unfolding save_snapshot keep
save_snapshot-replaces v rows =
    let p = taken_at v.repository_id v.revision in
    (
      keep-append p (keep (λ s. not (p s)) rows) (v ∷ [])
          ∙ rw (keep-others v rows, taken_at_self v) refl,
      λ i r. get_snapshot-save v i r rows,
    )
