-- ===== src/Topology/Claims.antt =====
-- brain/domain/topology.py and the enumerations of brain/domain/software_model.py and
-- brain/domain/knowledge.py: each candidate of a discovery becomes a claim.
use Prim.Native.String
use development_brain.Prelude.{String, List, map, ◌++◌}
use development_brain.Domain.Software.{ComponentType, InterfaceType, ResourceType}
use development_brain.Topology.{
  KnowledgeOrigin, CandidateKind, ComponentCandidate, InterfaceCandidate, ResourceCandidate,
  DiscoveredTopology, TopologyClaim,
}

unfoldable pub origin_value : KnowledgeOrigin → String
origin_value KnowledgeOrigin.declared = "declared"
origin_value KnowledgeOrigin.observed = "observed"
origin_value KnowledgeOrigin.discovered = "discovered"
origin_value KnowledgeOrigin.inferred = "inferred"

unfoldable pub component_value : ComponentType → String
component_value ComponentType.backend_service = "backend_service"
component_value ComponentType.frontend_application = "frontend_application"
component_value ComponentType.library = "library"
component_value ComponentType.worker = "worker"
component_value ComponentType.cli = "cli"
component_value ComponentType.data_pipeline = "data_pipeline"
component_value ComponentType.embedded_firmware = "embedded_firmware"
component_value ComponentType.infrastructure_module = "infrastructure_module"

unfoldable pub interface_value : InterfaceType → String
interface_value InterfaceType.rest = "rest"
interface_value InterfaceType.graphql = "graphql"
interface_value InterfaceType.grpc = "grpc"
interface_value InterfaceType.message_topic = "message_topic"
interface_value InterfaceType.python_public = "python_public"
interface_value InterfaceType.database_contract = "database_contract"
interface_value InterfaceType.cli = "cli"

unfoldable pub resource_value : ResourceType → String
resource_value ResourceType.postgresql = "postgresql"
resource_value ResourceType.redis = "redis"
resource_value ResourceType.kafka = "kafka"
resource_value ResourceType.s3 = "s3"
resource_value ResourceType.minio = "minio"
resource_value ResourceType.kubernetes = "kubernetes"
resource_value ResourceType.filesystem = "filesystem"
resource_value ResourceType.message_broker = "message_broker"
resource_value ResourceType.external_service = "external_service"

unfoldable pub component_claim : ComponentCandidate → TopologyClaim
component_claim c = record {
  entity_kind = CandidateKind.component;
  entity_name = c.name;
  attribute = "component_type";
  value = component_value c.component_type;
  repository_id = c.repository_id;
  revision = c.revision;
  origin = origin_value c.provenance.origin;
  confidence = c.provenance.confidence;
}

unfoldable pub interface_claim : InterfaceCandidate → TopologyClaim
interface_claim i = record {
  entity_kind = CandidateKind.interface;
  entity_name = String.◌++◌ i.component_name (String.◌++◌ ":" i.name);
  attribute = "interface_type";
  value = interface_value i.interface_type;
  repository_id = i.repository_id;
  revision = i.revision;
  origin = origin_value i.provenance.origin;
  confidence = i.provenance.confidence;
}

unfoldable pub resource_claim : ResourceCandidate → TopologyClaim
resource_claim r = record {
  entity_kind = CandidateKind.resource;
  entity_name = r.name;
  attribute = "resource_type";
  value = resource_value r.resource_type;
  repository_id = r.repository_id;
  revision = r.revision;
  origin = origin_value r.provenance.origin;
  confidence = r.provenance.confidence;
}

unfoldable pub claims : DiscoveredTopology → List TopologyClaim
claims t =
    map component_claim t.components
    ++ (map interface_claim t.interfaces ++ map resource_claim t.resources)
