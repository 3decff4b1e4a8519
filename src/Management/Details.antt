-- ===== src/Management/Details.antt =====
-- graph/config.go: GetConfigDetails.
use uplink_relay.Common.{
  ℕ, suc, String, Option, none, some, List, [], ◌∷◌, Time, ◌==◌, if◌then◌else◌,
}
use uplink_relay.Cache.{Cache}
use uplink_relay.Cache.Keys.{make_cache_key, default_cache_key, artifact_variables}
use uplink_relay.Cache.Newest.{is_blank}
use uplink_relay.Config.{SupergraphConfig}
use uplink_relay.Externals.{Externals}
use uplink_relay.Management.Model.{PersistedQueryManifest, Schema, Supergraph, Configuration}
use uplink_relay.PersistedQueries.Keys.{make_persisted_query_cache_key}
use uplink_relay.Pinning.Names.{supergraph_pinned, persisted_queries_pinned}
use uplink_relay.Server.{Server}
use uplink_relay.Uplink.{supergraph_query, persisted_queries_query}
use uplink_relay.Wire.{UplinkPersistedQueryChunk}

-- What one supergraph adds: nothing (continue), an entry, or the end with a nil result.
pub data Row (A : Type 0) : Type 0 where
  skipped : Row A
  shown : A → Row A
  stopped : Row A

-- string(content)
unfoldable pub string_of : Option String → String
string_of none = ""
string_of (some s) = s

abbrev pub set_text : String → Option String
set_text s = if s == "" then none else some s

module _ {C : Type 0} (x : Externals) (cache : Cache C) (now : Time) (c : C) where
  unfoldable pub schema_key : SupergraphConfig → String
  schema_key g =
      if g.launch_id == ""
      then default_cache_key x g.graph_ref supergraph_query
      else make_cache_key x g.graph_ref supergraph_pinned []

  -- The current schema; an entry that does not decode is logged and shown as none.
  unfoldable pub current_schema : SupergraphConfig → Row (Option Schema)
  unfolding schema_key string_of
  current_schema g = elim (cache.get now (schema_key g) c) [
    | none ↦ shown none
    | some entry ↦ elim (x.item.unmarshal entry) [
      | none ↦ shown none
      | some item ↦
          if is_blank item.content
          then skipped
          else shown
              (some (record { id = item.id; hash = item.hash; schema = string_of item.content }))
    ]
  ]

  -- The chunks that the cache holds, from an index on, but for those that a reader breaks off; none
  -- if a chunk has no reader.
  unfoldable pub chunk_texts : ℕ → List UplinkPersistedQueryChunk → Option (List String)
  chunk_texts index [] = some []
  chunk_texts index (chunk ∷ chunks) =
      let rest = chunk_texts (suc index) chunks in
      elim (cache.get now (make_persisted_query_cache_key chunk.id (x.itoa index)) c) [
        | none ↦ rest
        | some bytes ↦ elim (x.inflate bytes) [
          | none ↦ none
          | some inflated ↦ elim rest [
            | none ↦ none
            | some texts ↦ some (if inflated.complete then inflated.content ∷ texts else texts)
          ]
        ]
      ]

  unfoldable pub manifest_key : SupergraphConfig → String
  manifest_key g =
      if g.persisted_query_version == ""
      then make_cache_key x g.graph_ref persisted_queries_query
          (artifact_variables g.graph_ref "" ∷ [])
      else make_cache_key x g.graph_ref persisted_queries_pinned []

  unfoldable pub current_manifest : SupergraphConfig → Row (Option PersistedQueryManifest)
  unfolding manifest_key chunk_texts string_of
  current_manifest g = elim (cache.get now (manifest_key g) c) [
    | none ↦ shown none
    | some entry ↦ elim (x.item.unmarshal entry) [
      | none ↦ stopped
      | some item ↦ elim (x.pq_response.unmarshal (string_of item.content)) [
        | none ↦ stopped
        | some response ↦ elim (chunk_texts 0 response.persisted_queries.chunks) [
          | none ↦ stopped
          | some texts ↦
              shown
                (some (record { id = item.id; hash = item.hash; persisted_query_chunks = texts }))
        ]
      ]
    ]
  ]

  unfoldable pub supergraph_row : SupergraphConfig → Row Supergraph
  unfolding current_schema current_manifest
  supergraph_row g = elim (current_schema g) [
    | skipped ↦ skipped
    | stopped ↦ stopped
    | shown schema ↦ elim (current_manifest g) [
      | skipped ↦ skipped
      | stopped ↦ stopped
      | shown manifest ↦ shown (record {
        graph_ref = g.graph_ref;
        current_schema = schema;
        persisted_query_manifest = manifest;
        pinned_launch_id = set_text g.launch_id;
        pinned_persisted_query_manifest_id = set_text g.persisted_query_version;
      })
    ]
  ]

  unfoldable pub supergraph_rows : List SupergraphConfig → Option (List Supergraph)
  unfolding supergraph_row
  supergraph_rows [] = some []
  supergraph_rows (g ∷ graphs) =
      let rest = supergraph_rows graphs in
      elim (supergraph_row g) [
        | stopped ↦ none
        | skipped ↦ rest
        | shown row ↦ elim rest [ none ↦ none | some rows ↦ some (row ∷ rows) ]
      ]

module _ {C : Type 0} (x : Externals) (cache : Cache C) (now : Time) where
  unfoldable pub get_config_details : Server C → Option Configuration
  unfolding supergraph_rows
  get_config_details s = elim (supergraph_rows x cache now s.cache s.config.supergraphs) [
    | none ↦ none
    | some rows ↦ some (record { supergraphs = rows; url = s.config.relay.public_url })
  ]
