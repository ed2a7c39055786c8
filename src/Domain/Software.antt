-- ===== src/Domain/Software.antt =====
-- The software catalogue: brain/domain/software_model.py.
use development_brain.Prelude.{ℕ, String, Option, List}
use development_brain.Domain.{ExternalReference}

pub record SoftwareDomain : Type 0 where
  pub id : ℕ
  pub project_id : ℕ
  pub name : String
  pub description : Option String
  pub system_ids : List ℕ
  pub external_refs : List ExternalReference

pub record System : Type 0 where
  pub id : ℕ
  pub project_id : ℕ
  pub domain_id : Option ℕ
  pub name : String
  pub description : Option String
  pub component_ids : List ℕ
  pub external_refs : List ExternalReference

pub data ComponentType : Type 0 where
  backend_service frontend_application library worker cli : ComponentType
  data_pipeline embedded_firmware infrastructure_module : ComponentType

pub record SoftwareComponent : Type 0 where
  pub id : ℕ
  pub project_id : ℕ
  pub name : String
  pub component_type : ComponentType
  pub repository_ids : List ℕ
  pub owner : Option ℕ
  pub lifecycle : Option String
  pub external_refs : List ExternalReference

pub data InterfaceType : Type 0 where
  rest graphql grpc message_topic python_public database_contract cli : InterfaceType

pub record Interface : Type 0 where
  pub id : ℕ
  pub component_id : ℕ
  pub type : InterfaceType
  pub name : String
  pub schema_ref : Option String
  pub external_refs : List ExternalReference

pub data ResourceType : Type 0 where
  postgresql redis kafka s3 minio kubernetes filesystem message_broker : ResourceType
  external_service : ResourceType

pub record Resource : Type 0 where
  pub id : ℕ
  pub project_id : ℕ
  pub name : String
  pub resource_type : ResourceType
  pub external_refs : List ExternalReference
