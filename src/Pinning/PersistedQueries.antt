-- ===== src/Pinning/PersistedQueries.antt =====
-- pinning/persisted_queries.go
use uplink_relay.Queries.{builds_query_text}
use uplink_relay.Common.{
  ℕ, suc, String, List, [], ◌∷◌, map, Time, ◌==◌, if◌then◌else◌, negsuc, Act, Result, ok, err,
  failed, library, pure, raise, try, lift, deref, result, ◌>>=◌, ◌>>◌, ◌<>◌,
}
use uplink_relay.Cache.{Cache}
use uplink_relay.Cache.Keys.{make_cache_key}
use uplink_relay.Config.{Config, SupergraphConfig}
use uplink_relay.Externals.{Externals}
use uplink_relay.PersistedQueries.Keys.{make_persisted_query_cache_key}
use uplink_relay.Pinning.Entry.{insert_pinned_cache_entry}
use uplink_relay.Pinning.Names.{persisted_queries_pinned, default_headers, find_api_key}
use uplink_relay.Server.{Server, on_cache, with_config}
use uplink_relay.Wire.{
  PersistedQueryQueryManifestChunks, PersistedQueryQueryNode, PinningApiRequest,
  UplinkPersistedQueryChunk, UplinkPersistedQueryResponse, text,
}

abbrev pq_request : String → PinningApiRequest
pq_request graph_ref = record {
  query = builds_query_text;
  variables = ("ref", text graph_ref) ∷ [];
  operation_name = "UplinkRelay_PinPersistedQueries";
}

unfoldable pub find_matching_node :
    List PersistedQueryQueryNode → String → Result PersistedQueryQueryNode
find_matching_node [] version =
    err (failed "failed to find matching edge for persisted query version")
find_matching_node (node ∷ edges) version =
    if node.id == version then ok node else find_matching_node edges version

-- The nodes of the answer; a persistedQueryList that is null is dereferenced.
unfoldable pub fetch_builds : Externals → Config → String → Result (List PersistedQueryQueryNode)
unfolding find_api_key
fetch_builds x config graph_ref = result (do
  api_key ← lift (find_api_key config graph_ref)
  request_body ← try (x.api_request.marshal (pq_request graph_ref)) (library "json.Marshal")
  if x.accepts_url config.uplink.studio_api_url
      then (do
        resp ←
            try (x.post config.uplink.studio_api_url (default_headers api_key) request_body)
              (library "http.Client.Do")
        response ← try (x.pq_query_response.unmarshal resp.body) (library "json.Unmarshal")
        if response.variant.typename == "GraphVariant"
            then deref response.variant.persisted_query_query_list
            else raise (failed response.variant.message))
      else raise (library "http.NewRequest"))

-- The supergraphs with the persisted query version of one graph_ref set.
unfoldable pub set_persisted_query_version :
    String → String → List SupergraphConfig → List SupergraphConfig
set_persisted_query_version graph_ref version supergraphs =
    map
      (λ s. if s.graph_ref == graph_ref then record s { persisted_query_version = version } else s)
      supergraphs

-- The URL at which the relay serves a chunk: `base` is the public URL joined with
-- /persisted-queries.
unfoldable pub pinned_chunk_url : Externals → String → String → ℕ → String
pinned_chunk_url x base id index = x.add_query_index (x.join_path base ("/" <> id)) (x.itoa index)

module _ {C : Type 0} (x : Externals) (cache : Cache C) where
  unfoldable pub cache_chunks_from :
      Time
      → String
      → ℕ
      → List PersistedQueryQueryManifestChunks
      → Act C (List UplinkPersistedQueryChunk)
  unfolding pinned_chunk_url
  cache_chunks_from now base index [] = pure []
  cache_chunks_from now base index (chunk ∷ chunks) =
      let rest = cache_chunks_from now base (suc index) chunks in
      (do
        cache.set now (make_persisted_query_cache_key chunk.id (x.itoa index))
            (x.deflate chunk.json) (negsuc 0)
        later ← rest
        pure (record { id = chunk.id; urls = pinned_chunk_url x base chunk.id index ∷ [] } ∷ later))

  -- `url.Parse` is a test here: its value is used through `join_path` only.
  unfoldable pub cache_pinned_chunks :
      Config → Time → PersistedQueryQueryNode → Act C (List UplinkPersistedQueryChunk)
  unfolding cache_chunks_from
  cache_pinned_chunks config now node =
      if config.relay.public_url == "" then raise (failed "public URL not set") else (do
        _ ← try (x.parsers.parse_url config.relay.public_url) (library "url.Parse")
        chunks ← deref node.manifest_chunks
        cache_chunks_from now (x.join_path config.relay.public_url "/persisted-queries") 0 chunks)

  unfoldable pub pin_persisted_queries : Time → String → String → Act (Server C) (Unit {0})
  unfolding fetch_builds find_matching_node cache_pinned_chunks set_persisted_query_version
  pin_persisted_queries now graph_ref version = with_config λ config. do
    nodes ← lift (fetch_builds x config graph_ref)
    node ← lift (find_matching_node nodes version)
    if config.cache.enabled
        then (do
          chunks ← on_cache (cache_pinned_chunks config now node)
          let fake_response : UplinkPersistedQueryResponse = record {
            persisted_queries = record {
              id = node.id;
              typename = "PersistedQueriesResult";
              min_delay_seconds = 60;
              chunks = chunks;
            };
          }
          value ← try (x.pq_response.marshal fake_response) (library "json.Marshal")
          on_cache (
              insert_pinned_cache_entry x cache now
                (make_cache_key x graph_ref persisted_queries_pinned []) value node.id now))
        else pure tt
    λ s'. (
      ok tt,
      record s' {
        config = record s'.config {
          supergraphs = set_persisted_query_version graph_ref version s'.config.supergraphs;
        };
      },
    )
