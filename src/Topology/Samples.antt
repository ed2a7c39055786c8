-- ===== src/Topology/Samples.antt =====
-- A component that a catalogue declares and discovery takes for something else.
use development_brain.Prelude.{string_eq, distinct, contains, ◌≡◌, refl, true, some, List, [], ◌∷◌}
use development_brain.Prelude.Dict
use development_brain.Prelude.Merge.{pair_eq}
use development_brain.Domain.Software.{ComponentType}
use development_brain.Topology.{
  KnowledgeOrigin, KnowledgeConfidence, CandidateKind, ComponentCandidate, DiscoveredTopology,
  TopologyClaim, merge, reconcile, reconcile_loop, takes_over, beats, sort_rank, score, kind_eq,
}
use development_brain.Topology.Claims.{component_claim}
use development_brain.Topology.Merging.{unique_identities, merge-unique_identities}
use development_brain.Topology.Reconciling.{reconcile-strongest, value_of}
use development_brain.Topology.Strongest.{strongest}

abbrev api : ComponentCandidate
api = record {
  name = "api";
  component_type = ComponentType.backend_service;
  repository_id = 1;
  revision = "a1";
  source_paths = [];
  provenance = record {
    origin = KnowledgeOrigin.discovered;
    confidence = KnowledgeConfidence.high;
  };
}

abbrev jobs : ComponentCandidate
jobs = record api { name = "jobs"; component_type = ComponentType.worker }

abbrev manifest : DiscoveredTopology
manifest = record {
  repository_id = 1;
  revision = "a1";
  components = api ∷ [];
  interfaces = [];
  resources = [];
  dependencies = [];
}

abbrev deployment : DiscoveredTopology
deployment = record manifest {
  components = jobs ∷ record api { component_type = ComponentType.library } ∷ [];
}

unique : unique_identities manifest ≡ true
unfolding unique_identities distinct contains
unique = refl

merge-unique_identities_example :
    (merge (merge manifest deployment) deployment ≡ merge manifest deployment)
    × (unique_identities (merge manifest deployment) ≡ true)
merge-unique_identities_example = merge-unique_identities manifest deployment unique

-- The catalogue's claim is weaker in confidence and stronger in origin.
abbrev two_claims : List TopologyClaim
two_claims =
    record (component_claim api) { origin = "discovered" }
    ∷ record (component_claim api) {
      value = "library";
      origin = "declared";
      confidence = KnowledgeConfidence.low;
    }
    ∷ []

reconcile-strongest_example :
    Dict.get (reconcile two_claims) (CandidateKind.component, "api")
    ≡ value_of (strongest (CandidateKind.component, "api") two_claims)
reconcile-strongest_example = reconcile-strongest two_claims (CandidateKind.component, "api")

the_declared_value_wins :
    Dict.get (reconcile two_claims) (CandidateKind.component, "api") ≡ some "library"
unfolding reconcile reconcile_loop takes_over beats sort_rank score Dict.get Dict.insert
    component_claim
the_declared_value_wins = refl
