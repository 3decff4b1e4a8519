-- ===== src/PersistedQueries/Caching.antt =====
-- FetchPQManifest of persisted_queries/persisted_queries.go and what the cache has after it.
use uplink_relay.Common.{
  String, ◌≡◌, refl, Bool, true, if◌then◌else◌, some, List, Time, ok, pair_eq,
}
use uplink_relay.Cache.{Cache}
use uplink_relay.Cache.Keeping.{Keeps}
use uplink_relay.Cache.Keys.{default_cache_key}
use uplink_relay.Config.{SupergraphConfig, find_supergraph_config_from_graph_ref}
use uplink_relay.Externals.{Externals}
use uplink_relay.PersistedQueries.{
  manifest_request, manifest_item, cache_persisted_query_chunk_data, fetch_pq_manifest,
}
use uplink_relay.Server.{Server}
use uplink_relay.Uplink.{persisted_queries_query}
use uplink_relay.UplinkRequest.{uplink_request}
use uplink_relay.Wire.{UplinkPersistedQueryResponse, UplinkPersistedQueryChunk}

-- What FetchPQManifest needs to store a manifest: a configured supergraph without a pinned version,
-- an uplink that answers with a manifest, chunks that can be cached, and texts of the manifest with
-- their URLs and of its entry.
pub record Manifested {C : Type 0} (x : Externals) (cache : Cache C) (now : Time)
    (graph_ref if_after_id : String) (s : Server C) : Type 0 where
  pub supergraph : SupergraphConfig
  pub found : find_supergraph_config_from_graph_ref graph_ref s.config ≡ ok supergraph
  pub not_pinned : supergraph.persisted_query_version ≡ ""
  pub body : String
  pub answered :
      uplink_request x s.config
        (manifest_request x cache supergraph.apollo_key graph_ref if_after_id)
      ≡ ok body
  pub response : UplinkPersistedQueryResponse
  pub decoded : x.pq_response.unmarshal body ≡ some response
  pub enabled : s.config.cache.enabled ≡ true
  pub chunks : List UplinkPersistedQueryChunk
  pub with_chunks : C
  pub cached :
      cache_persisted_query_chunk_data x cache s.config now response.persisted_queries.chunks
        s.cache
      ≡ (ok chunks, with_chunks)
  pub manifest : String
  pub marshalled :
      x.pq_response.marshal
        (record { persisted_queries = record response.persisted_queries { chunks = chunks } })
      ≡ some manifest
  pub entry : String
  pub filed :
      x.item.marshal
        (manifest_item x now manifest response.persisted_queries.id s.config.cache.duration)
      ≡ some entry

if_true :
    {A : Type 0} (b : Bool) (first second : A) → b ≡ true → (if b then first else second) ≡ first
if_true b first second on = rw on refl

module _ {C : Type 0} (x : Externals) (cache : Cache C) {now later : Time}
    (graph_ref if_after_id : String) (s : Server C)
    (keeps : Keeps cache now later s.config.cache.duration) where
  -- For a cache that keeps what it is given until a later time: FetchPQManifest that gets a
  -- manifest whose chunks can be cached, for a configured supergraph without a pinned version and
  -- with the cache on, succeeds, leaves the configuration alone, and its entry is found at the later
  -- time under the key of the requests without an ifAfterId.
  pub fetch_pq_manifest-caches :
      (m : Manifested x cache now graph_ref if_after_id s)
      → (c' : C) × (fetch_pq_manifest x cache now graph_ref if_after_id s
          ≡ (ok tt, record s { cache = c' }))
        × (cache.get later (default_cache_key x graph_ref persisted_queries_query) c'
            ≡ some m.entry)
  unfolding fetch_pq_manifest
  fetch_pq_manifest-caches m =
      let key = default_cache_key x graph_ref persisted_queries_query in
      let after = (cache.set now key m.entry s.config.cache.duration m.with_chunks).1 in
      let stored : cache.set now key m.entry s.config.cache.duration m.with_chunks
          ≡ (ok tt, after) =
        pair_eq _ (ok tt) (keeps.set_ok key m.entry m.with_chunks) in
      (
        (cache.set now key m.entry s.config.cache.duration m.with_chunks).1,
        rw (m.found, m.not_pinned, m.answered, m.decoded)
            (rw (if_true _ _ _ m.enabled) (rw (m.cached, m.marshalled, m.filed, stored) refl)),
        keeps.get-set key m.entry m.with_chunks,
      )
