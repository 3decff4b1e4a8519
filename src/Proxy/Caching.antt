-- ===== src/Proxy/Caching.antt =====
-- How RelayHandler of proxy/proxy.go looks an accepted request up: under the key of its artifact.
use uplink_relay.Common.{
  String, ◌≡◌, refl, ◌∙◌, Result-cases, true, false, none, some, [], ◌∷◌, Time, ok, arith, lookup,
  inl, inr,
}
use uplink_relay.Cache.{Cache, CacheItem}
use uplink_relay.Cache.Contents.{make_cache_key_ext}
use uplink_relay.Cache.Keys.{make_cache_key, artifact_variables}
use uplink_relay.Config.{Config, SupergraphConfig, find_supergraph_config_from_graph_ref}
use uplink_relay.Config.Lookup.{find_supergraph_config-returns}
use uplink_relay.Externals.{Externals, PrintsByKey}
use uplink_relay.GraphRef.{parse_graph_ref}
use uplink_relay.Proxy.{
  Relay, replying, relay_handler, relay_cached, relay_uncached, relay_miss, cleaned, is_pinned,
}
use uplink_relay.Proxy.Hit.{handle_cache_hit}
use uplink_relay.Wire.{UplinkRelayRequest, text}

-- An operation that the configuration pins for no supergraph with the graph_ref.
abbrev pub IsUnpinned : Config → String → String → Type 0
IsUnpinned config operation_name graph_ref =
    (g : SupergraphConfig)
    → find_supergraph_config_from_graph_ref graph_ref config ≡ ok g
    → is_pinned operation_name g ≡ false

-- A request that the relay accepts, for an operation, a graph_ref and an ifAfterId: beside the API
-- key it has no other variables.
pub record Accepted (x : Externals) (body operation_name graph_ref if_after_id : String)
    : Type 0 where
  pub request : UplinkRelayRequest
  pub decoded : x.request.unmarshal body ≡ some request
  pub operation : request.operation_name ≡ operation_name
  pub graph : lookup "graph_ref" request.variables ≡ some (text graph_ref)
  pub variables :
      (k : String)
      → lookup k (cleaned request).variables ≡ lookup k (artifact_variables graph_ref if_after_id)
  pub graph_id : String
  pub variant_id : String
  pub parsed : parse_graph_ref graph_ref ≡ ok (graph_id, variant_id)

module _ {C : Type 0} (x : Externals) (cache : Cache C) (config : Config)
    (body operation_name graph_ref if_after_id : String) (prints : PrintsByKey x)
    (enabled : config.cache.enabled ≡ true)
    (a : Accepted x body operation_name graph_ref if_after_id) where
  abbrev pub key : String
  key = make_cache_key x graph_ref operation_name (artifact_variables graph_ref if_after_id ∷ [])

  -- The handler looks an accepted request up under the key of its artifact.
  pub relay_handler-cached :
      (now : Time) (s : Relay C)
      → relay_handler x cache config now body s
        ≡ relay_cached x cache config now body graph_ref
            (cleaned a.request)
            (a.graph_id, a.variant_id)
            s
  unfolding relay_handler
  relay_handler-cached now s = ground (arith, a.decoded, a.graph, a.parsed)

  pub key-cleaned :
      make_cache_key x graph_ref
        (cleaned a.request).operation_name
        ((cleaned a.request).variables ∷ [])
      ≡ key
  unfolding cleaned
  key-cleaned =
      rw a.operation (make_cache_key_ext x graph_ref operation_name _ _ prints a.variables)

  pub after_id-cleaned : lookup "ifAfterId" (cleaned a.request).variables ≡ some (text if_after_id)
  after_id-cleaned = a.variables "ifAfterId" ∙ (unfold lookup in refl)

  pub graph-cleaned : lookup "graph_ref" (cleaned a.request).variables ≡ some (text graph_ref)
  graph-cleaned = a.variables "graph_ref" ∙ (unfold lookup in refl)

  pub operation-cleaned : (cleaned a.request).operation_name ≡ operation_name
  unfolding cleaned
  operation-cleaned = a.operation

  -- With the cache on and texts of maps as documented: an accepted request whose entry is in the
  -- cache and decodes is answered from it, and nothing changes.
  pub relay_handler-hit :
      (now : Time) (s : Relay C) (entry : String) (item : CacheItem)
      → cache.get now key s.cache ≡ some entry
      → x.item.unmarshal entry ≡ some item
      → relay_handler x cache config now body s
        ≡ replying (handle_cache_hit x now config.cache.duration key (some item) if_after_id) s
  unfolding relay_cached
  relay_handler-hit now s entry item found decoded =
      ground (arith, relay_handler-cached now s, key-cleaned, after_id-cleaned)

  -- With the cache on and texts of maps as documented: an accepted request that the cache does not
  -- have goes to the uplinks, under the key of its artifact, unless that is pinned.
  pub relay_handler-miss :
      (now : Time) (s : Relay C)
      → cache.get now key s.cache ≡ none
      → IsUnpinned config operation_name graph_ref
      → relay_handler x cache config now body s
        ≡ relay_miss x cache config now body key (cleaned a.request) s
  unfolding relay_cached relay_uncached
  relay_handler-miss now s missing unpinned =
      elim (Result-cases (find_supergraph_config_from_graph_ref graph_ref config)) [
        | inl (g, found) ↦
            ground
              (arith, relay_handler-cached now s, key-cleaned, operation-cleaned, unpinned g found)
        | inr (inl (e, missing_graph)) ↦ ground (arith, relay_handler-cached now s, key-cleaned)
        | inr (inr crashed) ↦ absurd (find_supergraph_config-returns graph_ref config crashed)
      ]
