-- ===== src/Management/Model.antt =====
-- graph/model/models_gen.go: the types of the management API.
use uplink_relay.Common.{String, Option, List}

-- `invalid` is a text that names no operation type.
pub data OperationType : Type 0 where
  schema : OperationType
  entitlement : OperationType
  persisted_query_manifest : OperationType
  invalid : String → OperationType

pub record PersistedQueryManifest : Type 0 where
  pub id : String
  pub hash : String
  pub persisted_query_chunks : List String

pub record Schema : Type 0 where
  pub id : String
  pub hash : String
  pub schema : String

pub record Supergraph : Type 0 where
  pub graph_ref : String
  pub current_schema : Option Schema
  pub persisted_query_manifest : Option PersistedQueryManifest
  pub pinned_launch_id : Option String
  pub pinned_persisted_query_manifest_id : Option String

pub record Configuration : Type 0 where
  pub supergraphs : List Supergraph
  pub url : String
