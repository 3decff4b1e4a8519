-- ===== src/Cache/Writes.antt =====
-- What the program writes into its cache: the keys, values and durations that it gives to Set.
use uplink_relay.Common.{
  ℕ, Bool, true, String, ◌≡◌, ◌⊎◌, some, [], ◌∷◌, List, ℤ, negsuc, Time, ok, arith, Preserves,
}
use uplink_relay.Cache.{Cache, CacheItem}
use uplink_relay.Cache.Keys.{make_cache_key, default_cache_key, artifact_variables}
use uplink_relay.Cache.Newest.{update_newest}
use uplink_relay.Config.{Config}
use uplink_relay.Entitlements.{license_item}
use uplink_relay.Externals.{Externals, HttpResponse}
use uplink_relay.PersistedQueries.{manifest_item}
use uplink_relay.PersistedQueries.Keys.{make_persisted_query_cache_key}
use uplink_relay.Pinning.Entry.{pinned_item}
use uplink_relay.Pinning.Launch.{fetch_launch}
use uplink_relay.Pinning.Names.{supergraph_pinned, license_pinned, persisted_queries_pinned}
use uplink_relay.Pinning.PersistedQueries.{fetch_builds, find_matching_node}
use uplink_relay.Schema.{schema_item}
use uplink_relay.Uplink.{supergraph_query, license_query, persisted_queries_query}
use uplink_relay.Wire.{
  Variables, LaunchQueryVariantLaunch, PersistedQueryQueryNode, UplinkPersistedQueryResponse,
}

-- What a pin stores under which key: the document of a launch that the Studio API gave, a manifest
-- of a build that it listed, or a license.
pub data IsPin (x : Externals) (now : Time) (key : String) (item : CacheItem) : Type 0 where
  launched :
      (config : Config) (launch_id graph_ref : String) (launch : LaunchQueryVariantLaunch)
      (completed : Time)
      → fetch_launch x config launch_id graph_ref ≡ ok launch
      → x.parse_time launch.completed_at ≡ some completed
      → key ≡ make_cache_key x graph_ref supergraph_pinned []
      → item ≡ pinned_item x now launch.result.core_document launch.id completed
      → IsPin x now key item
  built :
      (config : Config) (version graph_ref manifest : String) (nodes : List PersistedQueryQueryNode)
      (node : PersistedQueryQueryNode)
      → fetch_builds x config graph_ref ≡ ok nodes
      → find_matching_node nodes version ≡ ok node
      → key ≡ make_cache_key x graph_ref persisted_queries_pinned []
      → item ≡ pinned_item x now manifest node.id now
      → IsPin x now key item
  licensed :
      (graph_ref license : String) (modified_time : Time)
      → key ≡ make_cache_key x graph_ref license_pinned []
      → item ≡ pinned_item x now license (x.format_time modified_time) modified_time
      → IsPin x now key item

-- How long an artifact is filed: for the time of its item, or without end as the newest one.
abbrev pub Filed : (duration ends : ℤ) → Type 0
Filed duration ends = (duration ≡ ends) ⊎ (duration ≡ negsuc 0)

-- The item of a schema, a license or a manifest under a key of its operation and of variables; a
-- polled manifest as it came; the schema that a webhook names; a compressed chunk of persisted
-- queries; and, in the calls that pin, a pinned item, which has no end.
pub data IsWrite (x : Externals) (pins : Bool) (now : Time) (key value : String) (duration : ℤ)
    : Type 0 where
  schema_filed :
      (graph_ref if_after_id schema : String) (id : Time) (ends : ℤ)
      → key
        ≡ make_cache_key x graph_ref supergraph_query
            (artifact_variables graph_ref if_after_id ∷ [])
      → x.item.marshal (schema_item x now schema id ends) ≡ some value
      → Filed duration ends
      → IsWrite x pins now key value duration
  license_filed :
      (graph_ref if_after_id jwt : String) (id : Time)
      → key
        ≡ make_cache_key x graph_ref license_query (artifact_variables graph_ref if_after_id ∷ [])
      → x.item.marshal (license_item x now jwt id) ≡ some value
      → IsWrite x pins now key value duration
  manifest_filed :
      (graph_ref manifest id : String) (v : Variables) (ends : ℤ)
      → key ≡ make_cache_key x graph_ref persisted_queries_query (v ∷ [])
      → x.item.marshal (manifest_item x now manifest id ends) ≡ some value
      → Filed duration ends
      → IsWrite x pins now key value duration
  polled :
      (graph_ref : String) (response : UplinkPersistedQueryResponse)
      → key ≡ default_cache_key x graph_ref persisted_queries_query
      → x.pq_response.marshal response ≡ some value
      → IsWrite x pins now key value duration
  hooked :
      (graph_ref url : String) (resp : HttpResponse)
      → key ≡ make_cache_key x graph_ref supergraph_query []
      → x.get url ≡ some resp
      → value ≡ resp.body
      → IsWrite x pins now key value duration
  chunk :
      (id content : String) (index : ℕ)
      → key ≡ make_persisted_query_cache_key id (x.itoa index)
      → value ≡ x.deflate content
      → IsWrite x pins now key value duration
  pinned :
      (item : CacheItem)
      → IsPin x now key item
      → x.item.marshal item ≡ some value
      → duration ≡ negsuc 0
      → pins ≡ true
      → IsWrite x pins now key value duration

-- A predicate on the cache that every such write keeps.
abbrev pub IsClosed : {C : Type 0} → Externals → Bool → Cache C → (C → Type 0) → Type 0
IsClosed x pins cache P =
    (now : Time) (key value : String) (d : ℤ)
    → IsWrite x pins now key value d
    → Preserves P (cache.set now key value d)

-- UpdateNewest, if the write of the item keeps the predicate.
pub update_newest-Preserves :
    {C : Type 0} (x : Externals) (cache : Cache C) {P : C → Type 0} (now : Time)
    (graph_ref operation_name : String) (item : CacheItem)
    → ((entry : String)
        → x.item.marshal item ≡ some entry
        → Preserves P
            (cache.set now (default_cache_key x graph_ref operation_name) entry (negsuc 0)))
    → Preserves P (update_newest x cache now graph_ref operation_name item)
unfolding update_newest
update_newest-Preserves x cache {P} now graph_ref operation_name item files = record {
  at = λ c h.
      let key = default_cache_key x graph_ref operation_name in
      let stored : (entry : String)
          → x.item.marshal item ≡ some entry
          → P (cache.set now key entry (negsuc 0) c).1 =
        λ entry marshalled. (files entry marshalled).at c h in
      grind (arith, stored);
}
