-- ===== src/System/PinnedManifests.antt =====
-- A manifest that the management API pins in the running program, over the in-memory cache.
use uplink_relay.Common.{
  String, ◌≡◌, ◌≢◌, refl, ◌∙◌, true, false, some, List, ◌∷◌, All, negsuc, Time, ok, ◌==◌, eq_iff,
  eq_refl, arith, inr,
}
use uplink_relay.Cache.{CacheItem}
use uplink_relay.Cache.Memory.{Items, MemoryCache, memory_cache}
use uplink_relay.Cache.Memory.Eviction.{Visits}
use uplink_relay.Config.{SupergraphConfig, find_supergraph_config_from_graph_ref}
use uplink_relay.Externals.{Externals, RoundTrips}
use uplink_relay.GraphRef.{parse_graph_ref}
use uplink_relay.Management.{pin_persisted_query_manifest}
use uplink_relay.Pinning.Entry.{insert_pinned_cache_entry, pinned_item, handle_pinned_entry}
use uplink_relay.Pinning.Names.{operation_mapping}
use uplink_relay.Pinning.PersistedQueries.{
  fetch_builds, find_matching_node, cache_pinned_chunks, pin_persisted_queries,
}
use uplink_relay.System.{Event, Running, run, handle, manifest_pinned}
use uplink_relay.System.Invariants.{IsTraffic, run-traffic}
use uplink_relay.System.Items.{
  HoldsItem, key, set-HoldsItem, HoldsItem-closed, handle_pinned_entry-HoldsItem,
}
use uplink_relay.System.Keys.{GivesDigits}
use uplink_relay.Uplink.{persisted_queries_query}
use uplink_relay.Wire.{PersistedQueryQueryNode, UplinkPersistedQueryChunk}

-- What PinPersistedQueries needs of the Studio API to pin a version: a build with that ID, whose
-- chunks can be cached, and texts of the manifest and of its item. Another version is pinned before.
pub record Built (x : Externals) (order : Items → Items) (now : Time) (id graph_ref : String)
    (r : Running MemoryCache) : Type 0 where
  pub supergraph : SupergraphConfig
  pub found : find_supergraph_config_from_graph_ref graph_ref r.server.config ≡ ok supergraph
  pub fresh : supergraph.persisted_query_version ≢ id
  pub nodes : List PersistedQueryQueryNode
  pub fetched : fetch_builds x r.server.config graph_ref ≡ ok nodes
  pub node : PersistedQueryQueryNode
  pub matching : find_matching_node nodes id ≡ ok node
  pub chunks : List UplinkPersistedQueryChunk
  pub with_chunks : MemoryCache
  pub chunked :
      cache_pinned_chunks x (memory_cache order) r.server.config now node r.server.cache
      ≡ (ok chunks, with_chunks)
  pub manifest : String
  pub written :
      x.pq_response.marshal (record {
        persisted_queries = record {
          id = node.id;
          typename = "PersistedQueriesResult";
          min_delay_seconds = 60;
          chunks = chunks;
        };
      })
      ≡ some manifest
  pub entry : String
  pub marshalled : x.item.marshal (pinned_item x now manifest node.id now) ≡ some entry

module _ (x : Externals) (order : Items → Items)
    (visits : (items : Items) → Visits (order items) items) (digits : GivesDigits x)
    (trips : RoundTrips x.item) (id graph_ref graph_id variant_id : String)
    (parsed : parse_graph_ref graph_ref ≡ ok (graph_id, variant_id)) where
  abbrev manifest_key : String
  manifest_key =
      key x order visits digits trips persisted_queries_query graph_ref (inr (inr refl)) graph_id
        variant_id parsed

  -- The item of a build.
  abbrev pub pinned_manifest :
      (now : Time) (r : Running MemoryCache) → Built x order now id graph_ref r → CacheItem
  pinned_manifest now r b = pinned_item x now b.manifest b.node.id now

  manifest_pinned-HoldsItem :
      (Fits : CacheItem → Type 0) (now : Time) (r : Running MemoryCache)
      → r.server.config.cache.enabled ≡ true
      → (b : Built x order now id graph_ref r) → Fits (pinned_manifest now r b)
      → HoldsItem x Fits manifest_key
          (handle x (memory_cache order) (manifest_pinned now id graph_ref) r).server.cache
  unfolding handle pin_persisted_query_manifest pin_persisted_queries insert_pinned_cache_entry
      operation_mapping
  manifest_pinned-HoldsItem Fits now r enabled b fits =
      let other : (b.supergraph.persisted_query_version == id) ≡ false =
        ground (arith, eq_iff b.supergraph.persisted_query_version id, b.fresh) in
      let stored =
        set-HoldsItem x order visits digits trips persisted_queries_query graph_ref (inr (inr refl))
          graph_id variant_id parsed Fits now manifest_key b.entry (negsuc 0) b.with_chunks
          (pinned_manifest now r b) (eq_refl _) refl b.marshalled fits in
      let done : (handle x (memory_cache order) (manifest_pinned now id graph_ref) r).server.cache
          ≡ ((memory_cache order).set now manifest_key b.entry (negsuc 0) b.with_chunks).1 =
        ground (
          arith, b.found, other, b.fetched, b.matching, enabled, b.chunked, b.written, b.marshalled,
        ) in
      rw done stored

  -- Over the in-memory cache with the cache on, for a graph_ref that parses, a JSON codec as
  -- documented, hashes and indices made of digits, and a map that is visited by its entries: after
  -- pinPersistedQueryManifest of a build that the Studio API lists, whose chunks can be cached,
  -- whose manifest and item can be marshalled and whose version was not pinned before, followed by
  -- any requests to the relay and webhooks in any order, HandlePinnedEntry gives the manifest of
  -- that build to a PersistedQueriesManifestQuery without an ifAfterId, at every time.
  pub run-pinned_manifest :
      (now : Time) (events : List Event) (r : Running MemoryCache)
      → r.server.config.cache.enabled ≡ true
      → (b : Built x order now id graph_ref r) → All IsTraffic events
      → (later : Time)
      → handle_pinned_entry x
          (memory_cache order)
          later
          (run x (memory_cache order) (manifest_pinned now id graph_ref ∷ events) r).server.cache
          graph_id
          variant_id
          persisted_queries_query
          ""
        ≡ ok (some (pinned_manifest now r b))
  unfolding run
  run-pinned_manifest now events r enabled b calls later =
      let Same : CacheItem → Type 0 = λ item. item ≡ pinned_manifest now r b in
      let held =
        run-traffic x (memory_cache order) (HoldsItem x Same manifest_key)
          (HoldsItem-closed x order visits digits trips persisted_queries_query graph_ref
            (inr (inr refl)) graph_id variant_id parsed false Same
            (λ h. absurd (ground (arith, h))))
          events _ calls (manifest_pinned-HoldsItem Same now r enabled b refl) in
      let (item, same, served) =
        handle_pinned_entry-HoldsItem x order visits digits trips persisted_queries_query graph_ref
          (inr (inr refl)) graph_id variant_id parsed Same later _ held in
      served ∙ rw same refl
