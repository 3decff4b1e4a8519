-- ===== src/Wire.antt =====
-- The structures that the program sends and receives as JSON. A path such as data.routerConfig is
-- one field here, and a delay, a float64 in the source, is a whole number of seconds.
use uplink_relay.Common.{ℕ, String, List, Option, Time}

-- A value of type interface{} in the variables of a request.
pub data Value : Type 0 where
  null : Value
  text : String → Value
  other : String → Value

abbrev pub Variables : Type 0
Variables = List (String × Value)

-- internal/util/request.go
pub record UplinkRelayRequest : Type 0 where
  pub query : String
  pub variables : Variables
  pub operation_name : String

-- schema/schema.go
pub record UplinkRouterConfig : Type 0 where
  pub typename : String
  pub id : String
  pub supergraph_sdl : String
  pub min_delay_seconds : ℕ

pub record UplinkSupergraphSdlResponse : Type 0 where
  pub router_config : UplinkRouterConfig

-- entitlements/entitlements.go
pub record Jwt : Type 0 where
  pub jwt : String

pub record UplinkRouterEntitlements : Type 0 where
  pub id : String
  pub typename : String
  pub min_delay_seconds : ℕ
  pub entitlement : Option Jwt

pub record UplinkLicenseResponse : Type 0 where
  pub router_entitlements : UplinkRouterEntitlements

-- persisted_queries/persisted_queries.go
pub record UplinkPersistedQueryChunk : Type 0 where
  pub id : String
  pub urls : List String

pub record UplinkPersistedQueryPersistedQueries : Type 0 where
  pub id : String
  pub typename : String
  pub min_delay_seconds : ℕ
  pub chunks : List UplinkPersistedQueryChunk

pub record UplinkPersistedQueryResponse : Type 0 where
  pub persisted_queries : UplinkPersistedQueryPersistedQueries

-- pinning/schema.go: `graph` is none for a null graph
pub record LaunchQueryResult : Type 0 where
  pub typename : String
  pub core_document : String
  pub error_messages : List String

pub record LaunchQueryVariantLaunch : Type 0 where
  pub id : String
  pub completed_at : String
  pub result : LaunchQueryResult

pub record LaunchQueryResponse : Type 0 where
  pub graph : Option LaunchQueryVariantLaunch

-- pinning/persisted_queries.go: the pointers are none when the JSON has no such field
pub record PersistedQueryQueryManifestChunks : Type 0 where
  pub id : String
  pub json : String

pub record PersistedQueryQueryNode : Type 0 where
  pub id : String
  pub manifest_chunks : Option (List PersistedQueryQueryManifestChunks)

pub record PersistedQueryQueryVariant : Type 0 where
  pub typename : String
  pub persisted_query_query_list : Option (List PersistedQueryQueryNode)
  pub message : String

pub record PersistedQueryQueryResponse : Type 0 where
  pub variant : PersistedQueryQueryVariant

-- pinning/pinning.go
pub record PinningApiRequest : Type 0 where
  pub query : String
  pub variables : Variables
  pub operation_name : String

-- webhooks/webhooks.go
pub record WebhookData : Type 0 where
  pub event_type : String
  pub event_id : String
  pub changes : List String
  pub schema_url : String
  pub schema_url_expires_at : Time
  pub graph_id : String
  pub variant_id : String
  pub timestamp : Time
