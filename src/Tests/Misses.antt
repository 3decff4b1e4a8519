-- ===== src/Tests/Misses.antt =====
-- The theorems on a miss and a later hit, for a license and a manifest of the supergraph g@v.
use uplink_relay.Common.{◌≡◌, refl, none, [], ◌∷◌, pos, lookup, arith, add, seconds, String}
use uplink_relay.Cache.Keeping.{Keeps, memory_cache-Keeps}
use uplink_relay.Cache.{expiration_time}
use uplink_relay.Cache.Keys.{hash_string, default_cache_key}
use uplink_relay.Cache.Memory.{MemoryCache, get, new_memory_cache}
use uplink_relay.Config.{find_supergraph_config_from_graph_ref}
use uplink_relay.Entitlements.{license_item}
use uplink_relay.Externals.{proxied}
use uplink_relay.PersistedQueries.{manifest_item, cache_persisted_query_chunk_data}
use uplink_relay.Proxy.{Relay, relay_handler, reply, is_pinned}
use uplink_relay.Proxy.Caching.{IsUnpinned}
use uplink_relay.Proxy.Hit.{send, license_hit, pq_hit}
use uplink_relay.Proxy.LicenseCaching.{IsLicense, relay_handler-license}
use uplink_relay.Proxy.ManifestCaching.{IsManifest, relay_handler-manifest}
use uplink_relay.Proxy.Response.{response_body, with_body}
use uplink_relay.Proxy.SupergraphCaching.{Answers}
use uplink_relay.Tests.Licenses.{licensed_item, licensing, accepted_license, no_supergraph, idle}
use uplink_relay.Tests.Manifests.{
  plain, by_id-RoundTrips, stored_item, listing, accepted_listing, listing_key, named,
}
use uplink_relay.Tests.Memory.{one_minute}
use uplink_relay.Tests.World.{
  world-PrintsByKey, json_of-RoundTrips, config, graph, empty, memory, answer, license_response,
}
use uplink_relay.Uplink.{license_query, persisted_queries_query, next, new_round_robin_selector}

missing : (key : String) → get 1000 key empty ≡ none
unfolding get lookup new_memory_cache
missing key = refl

license-Answers : Answers licensing config "{}" idle answer
unfolding next new_round_robin_selector
license-Answers = record {
  retries = 1;
  retry_count = refl;
  url = "http://u";
  chosen = refl;
  parsed = λ h. cc;
  exchange = refl;
}

license : IsLicense licensing 1000 answer
unfolding license_item response_body hash_string
license = record {
  json = "{}";
  read = refl;
  is_json = refl;
  response = license_response;
  decoded = refl;
  id = 5;
  dated = refl;
  entry = "item";
  marshalled = refl;
}

no_offline_license : IsUnpinned config license_query "g@v"
unfolding is_pinned find_supergraph_config_from_graph_ref
no_offline_license g found = let same : graph ≡ g = cc in rw (← same) refl

relay_handler-license_example :
    (s' : Relay MemoryCache) × (relay_handler licensing memory config 1000 "{}" idle
      ≡ reply (proxied (with_body answer "{}") ∷ []) s')
    × (relay_handler licensing memory config 2000 "{}" s'
        ≡ reply
            (send (
              licensing.license_response.marshal
                (license_hit licensing (license_item licensing 1000 "jwt" 5))))
            s')
unfolding license default_cache_key
relay_handler-license_example =
    relay_handler-license licensing memory config "{}" "g@v" "" (json_of-RoundTrips licensed_item)
      (world-PrintsByKey license_query licensed_item) refl accepted_license one_minute idle answer
      license (missing _) no_supergraph no_offline_license license-Answers

manifest-Answers : Answers listing config "{}" idle answer
unfolding next new_round_robin_selector
manifest-Answers = record {
  retries = 1;
  retry_count = refl;
  url = "http://u";
  chosen = refl;
  parsed = λ h. cc;
  exchange = refl;
}

manifest : IsManifest listing memory config 1000 answer empty
unfolding manifest_item response_body hash_string cache_persisted_query_chunk_data expiration_time
    add seconds
manifest = record {
  json = "{}";
  read = refl;
  is_json = refl;
  response = plain "{}";
  decoded = refl;
  chunks = [];
  with_chunks = empty;
  chunked = refl;
  manifest = "{}";
  marshalled = refl;
  named = named;
  entry = "item";
  filed = refl;
}

no_version : IsUnpinned config persisted_queries_query "g@v"
unfolding is_pinned find_supergraph_config_from_graph_ref
no_version g found = let same : graph ≡ g = cc in rw (← same) refl

at_once : Keeps memory 1000 1000 (pos 60)
at_once =
    memory_cache-Keeps (λ items. items) 1000 1000 60 (omega arith) (λ h. ground (arith, h))
      (omega arith)

relay_handler-manifest_example :
    (s' : Relay MemoryCache) × (relay_handler listing memory config 1000 "{}" idle
      ≡ reply (proxied (record answer { body = "{}"; content_length = "2" }) ∷ []) s')
    × (relay_handler listing memory config 2000 "{}" s'
        ≡ reply (send (listing.pq_response.marshal (pq_hit listing (plain "{}") ""))) s')
unfolding manifest
relay_handler-manifest_example =
    relay_handler-manifest listing memory config "{}" "g@v" (json_of-RoundTrips stored_item)
      by_id-RoundTrips (λ u v h. refl) refl accepted_listing one_minute at_once idle answer manifest
      (missing _) listing_key.0 listing_key.1 no_version manifest-Answers
