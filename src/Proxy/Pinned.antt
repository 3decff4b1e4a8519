-- ===== src/Proxy/Pinned.antt =====
-- The relay handler of proxy/proxy.go for an operation whose artifact the configuration pins.
use uplink_relay.Common.{String, ◌≡◌, refl, ◌∙◌, true, none, some, ok, Time, lookup}
use uplink_relay.Cache.{Cache, CacheItem}
use uplink_relay.Cache.Contents.{contains-make_cache_key}
use uplink_relay.Cache.Keys.{artifact_variables}
use uplink_relay.Config.{Config, SupergraphConfig, find_supergraph_config_from_graph_ref}
use uplink_relay.Externals.{Externals, PrintsByKey}
use uplink_relay.Pinning.Entry.{handle_pinned_entry}
use uplink_relay.Proxy.{
  Relay, reply, replying, relay_handler, relay_cached, relay_uncached, relay_pinned, is_pinned,
  cleaned,
}
use uplink_relay.Proxy.Caching.{
  Accepted, key, relay_handler-cached, key-cleaned, after_id-cleaned, operation-cleaned,
}
use uplink_relay.Proxy.Hit.{handle_cache_hit, send, supergraph_hit}
use uplink_relay.Uplink.{supergraph_query}
use uplink_relay.Wire.{UplinkRelayRequest, text}

module _ {C : Type 0} (x : Externals) (cache : Cache C) (config : Config)
    (body graph_ref if_after_id : String) (prints : PrintsByKey x)
    (enabled : config.cache.enabled ≡ true)
    (a : Accepted x body supergraph_query graph_ref if_after_id) where
  relay_uncached-pinned :
      (now : Time) (s : Relay C) (g : SupergraphConfig) (item : CacheItem) (cache_key : String)
      (request : UplinkRelayRequest)
      → request.operation_name ≡ supergraph_query
      → lookup "ifAfterId" request.variables ≡ some (text if_after_id)
      → find_supergraph_config_from_graph_ref graph_ref config ≡ ok g
      → is_pinned supergraph_query g ≡ true
      → handle_pinned_entry x cache now s.cache a.graph_id a.variant_id supergraph_query if_after_id
        ≡ ok (some item)
      → relay_uncached x cache config now body cache_key graph_ref request
          (a.graph_id, a.variant_id)
          s
        ≡ replying
            (handle_cache_hit x now config.cache.duration cache_key (some item) if_after_id)
            s
  unfolding relay_uncached relay_pinned
  relay_uncached-pinned now s g item cache_key request operation after_id found pinned entry =
      let searched : is_pinned request.operation_name g ≡ true = rw operation pinned in
      let served : handle_pinned_entry x cache now s.cache a.graph_id a.variant_id
            request.operation_name if_after_id
          ≡ ok (some item) =
        rw operation entry in
      rw (relay_uncached, found, searched, after_id, relay_pinned, served) refl

  -- With the cache on and texts of maps as documented: an accepted SupergraphSdlQuery that misses
  -- the cache, for a supergraph with a launch ID and a pinned entry, is answered with the pinned
  -- item; no uplink is asked, and nothing changes.
  pub relay_handler-pinned :
      (now : Time) (s : Relay C) (g : SupergraphConfig) (item : CacheItem)
      → cache.get now
          (key x cache config body supergraph_query graph_ref if_after_id prints enabled a)
          s.cache
        ≡ none
      → find_supergraph_config_from_graph_ref graph_ref config ≡ ok g
      → is_pinned supergraph_query g ≡ true
      → handle_pinned_entry x cache now s.cache a.graph_id a.variant_id supergraph_query if_after_id
        ≡ ok (some item)
      → relay_handler x cache config now body s
        ≡ reply
            (send (x.supergraph_response.marshal (supergraph_hit x now config.cache.duration item)))
            s
  unfolding relay_cached handle_cache_hit
  relay_handler-pinned now s g item missing found pinned entry =
      let cached =
        relay_handler-cached x cache config body supergraph_query graph_ref if_after_id prints
          enabled a now s in
      let keyed =
        key-cleaned x cache config body supergraph_query graph_ref if_after_id prints enabled a in
      let after_id =
        after_id-cleaned x cache config body supergraph_query graph_ref if_after_id prints enabled
          a in
      let operation =
        operation-cleaned x cache config body supergraph_query graph_ref if_after_id prints enabled
          a in
      let is_supergraph =
        contains-make_cache_key x graph_ref supergraph_query a.graph_id a.variant_id a.parsed
          (artifact_variables graph_ref if_after_id) in
      let uncached =
        relay_uncached-pinned now s g item
          (key x cache config body supergraph_query graph_ref if_after_id prints enabled a)
          (cleaned a.request) operation after_id found pinned entry in
      let answered = rw (handle_cache_hit, is_supergraph) at uncached in
      cached ∙ rw (relay_cached, keyed, enabled, missing, keyed) answered
