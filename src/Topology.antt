-- ===== src/Topology.antt =====
-- brain/domain/topology.py: what discovery finds in a repository, the combination of two discoveries,
-- and the claims that are reconciled. A set of keys that were seen is the list of them. Of a
-- provenance the origin and the confidence are kept, and the free metadata of a component is left
-- out; a score is in hundredths.
pub mod Claims
pub mod Merging
pub mod Strongest
pub mod Reconciling
mod Samples
use development_brain.Prelude.{
  ℕ, zero, suc, String, Bool, true, false, Option, none, some, List, [], ◌∷◌, ◌++◌, map, contains,
  ltb, Eq, eq_of_discrete, ◌==◌, nat_eq, string_eq, if◌then◌else◌, ◌&&◌, eq_iff, ◌≡◌, ◌↔◌, refl,
  arith,
}
use development_brain.Prelude.Dict
use development_brain.Prelude.Dict.{Dict}
use development_brain.Prelude.Merge.{pair_eq, merge_by}
use development_brain.Domain.Software.{ComponentType, InterfaceType, ResourceType}

pub data KnowledgeOrigin : Type 0 where
  declared observed discovered inferred : KnowledgeOrigin

pub data KnowledgeConfidence : Type 0 where
  very_low low medium high very_high : KnowledgeConfidence

unfoldable pub score : KnowledgeConfidence → ℕ
score KnowledgeConfidence.very_low = 10
score KnowledgeConfidence.low = 30
score KnowledgeConfidence.medium = 50
score KnowledgeConfidence.high = 80
score KnowledgeConfidence.very_high = 95

pub record KnowledgeEvidence : Type 0 where
  pub origin : KnowledgeOrigin
  pub confidence : KnowledgeConfidence

pub data CandidateKind : Type 0 where
  component interface resource dependency : CandidateKind

abbrev pub CandidateKind-discrete : Discrete CandidateKind
CandidateKind-discrete = hlevel

instance abbrev pub kind_eq : Eq CandidateKind
kind_eq = eq_of_discrete CandidateKind-discrete

pub record ComponentCandidate : Type 0 where
  pub name : String
  pub component_type : ComponentType
  pub repository_id : ℕ
  pub revision : String
  pub source_paths : List String
  pub provenance : KnowledgeEvidence

pub record InterfaceCandidate : Type 0 where
  pub name : String
  pub interface_type : InterfaceType
  pub component_name : String
  pub schema_ref : Option String
  pub repository_id : ℕ
  pub revision : String
  pub source_paths : List String
  pub provenance : KnowledgeEvidence

pub record ResourceCandidate : Type 0 where
  pub name : String
  pub resource_type : ResourceType
  pub repository_id : ℕ
  pub revision : String
  pub source_paths : List String
  pub provenance : KnowledgeEvidence

pub record DependencyCandidate : Type 0 where
  pub source : String
  pub target : String
  pub relation : String
  pub project_id : Option ℕ
  pub repository_id : ℕ
  pub revision : String
  pub source_paths : List String
  pub provenance : KnowledgeEvidence

pub record DiscoveredTopology : Type 0 where
  pub repository_id : ℕ
  pub revision : String
  pub components : List ComponentCandidate
  pub interfaces : List InterfaceCandidate
  pub resources : List ResourceCandidate
  pub dependencies : List DependencyCandidate

abbrev pub interface_key : InterfaceCandidate → String × String
interface_key i = (i.component_name, i.name)

abbrev pub dependency_key : DependencyCandidate → String × (String × String)
dependency_key d = (d.source, (d.relation, d.target))

unfoldable pub merge_components :
    (existing incoming : List ComponentCandidate) → List ComponentCandidate
merge_components existing incoming = merge_by (λ c. c.name) existing incoming

unfoldable pub merge_interfaces :
    (existing incoming : List InterfaceCandidate) → List InterfaceCandidate
merge_interfaces existing incoming = merge_by interface_key existing incoming

unfoldable pub merge_resources :
    (existing incoming : List ResourceCandidate) → List ResourceCandidate
merge_resources existing incoming = merge_by (λ r. r.name) existing incoming

unfoldable pub merge_dependencies :
    (existing incoming : List DependencyCandidate) → List DependencyCandidate
merge_dependencies existing incoming = merge_by dependency_key existing incoming

unfoldable pub merge : DiscoveredTopology → DiscoveredTopology → DiscoveredTopology
merge t other = record t {
  components = merge_components t.components other.components;
  interfaces = merge_interfaces t.interfaces other.interfaces;
  resources = merge_resources t.resources other.resources;
  dependencies = merge_dependencies t.dependencies other.dependencies;
}

pub record TopologyClaim : Type 0 where
  pub entity_kind : CandidateKind
  pub entity_name : String
  pub attribute : String
  pub value : String
  pub repository_id : ℕ
  pub revision : String
  pub origin : String
  pub confidence : KnowledgeConfidence

unfoldable pub sort_rank : TopologyClaim → ℕ
sort_rank c =
    if c.origin == "declared"
    then 0
    else if c.origin == "observed"
    then 1
    else if c.origin == "discovered"
    then 2
    else if c.origin == "inferred"
    then 3
    else 4

unfoldable pub beats : (candidate current : TopologyClaim) → Bool
beats candidate current =
    if sort_rank candidate == sort_rank current
    then ltb (score current.confidence) (score candidate.confidence)
    else ltb (sort_rank candidate) (sort_rank current)

abbrev pub ClaimKey : Type 0
ClaimKey = CandidateKind × String

abbrev pub claim_key : TopologyClaim → ClaimKey
claim_key c = (c.entity_kind, c.entity_name)

-- There is no current claim, or the new one beats it.
unfoldable pub takes_over : TopologyClaim → Option TopologyClaim → Bool
takes_over c none = true
takes_over c (some current) = beats c current

unfoldable pub reconcile_loop :
    List TopologyClaim
    → (winners : Dict ClaimKey String) (best : Dict ClaimKey TopologyClaim) → Dict ClaimKey String
reconcile_loop [] winners best = winners
reconcile_loop (c ∷ cs) winners best =
    let taken =
      reconcile_loop cs (Dict.insert winners (claim_key c) c.value)
        (Dict.insert best (claim_key c) c) in
    let left = reconcile_loop cs winners best in
    if takes_over c (Dict.get best (claim_key c)) then taken else left

unfoldable pub reconcile : List TopologyClaim → Dict ClaimKey String
reconcile claims = reconcile_loop claims [] []
