-- ===== src/Tests/Licenses.antt =====
-- The theorems on licenses and polled manifests, at the supergraph g@v.
use uplink_relay.Common.{
  ◌≡◌, refl, none, true, some, ok, contains, starts_with, false, lookup, without, split, [], ◌∷◌,
}
use uplink_relay.Cache.{CacheItem}
use uplink_relay.Cache.Keys.{hash_string, default_cache_key, make_cache_key, make_cache_prefix}
use uplink_relay.Cache.Memory.{MemoryCache}
use uplink_relay.Config.{find_supergraph_config_from_graph_ref}
use uplink_relay.Entitlements.{license_item, fetch_router_license}
use uplink_relay.Entitlements.Caching.{Licensed}
use uplink_relay.Externals.{Externals}
use uplink_relay.GraphRef.{parse_graph_ref}
use uplink_relay.Proxy.{Relay, relay_handler, reply, cleaned}
use uplink_relay.Proxy.Caching.{Accepted}
use uplink_relay.Proxy.Hit.{send, license_hit}
use uplink_relay.Polling.{poll_persisted_queries, poll_pq_manifest}
use uplink_relay.Server.{Server}
use uplink_relay.Wire.{UplinkPersistedQueryResponse}
use uplink_relay.Proxy.Polled.{Polled, unchanged, poll_persisted_queries-relay_handler}
use uplink_relay.Proxy.Variables.{default_if_after_id}
use uplink_relay.Proxy.Warming.{fetch_router_license-relay_handler}
use uplink_relay.Tests.Memory.{one_minute, parsed}
use uplink_relay.Tests.Services.{server}
use uplink_relay.Tests.World.{
  world, world-PrintsByKey, json_of-RoundTrips, body_of, config, empty, graph, memory,
  license_response,
}
use uplink_relay.Uplink.{
  supergraph_query, license_query, persisted_queries_query, next, new_round_robin_selector,
}
use uplink_relay.UplinkRequest.{uplink_request, uplink_url, response_bytes}

-- The item of the license fetched at 1000 ns.
abbrev pub licensed_item : CacheItem
licensed_item = record {
  content = some "jwt";
  expiration = 5;
  hash = "jwt";
  last_modified = 1000;
  id = "today";
}

abbrev pub licensing : Externals
licensing = world license_query licensed_item

licensed : Licensed licensing 1000 "g@v" server
unfolding find_supergraph_config_from_graph_ref uplink_request uplink_url response_bytes next
    new_round_robin_selector license_item hash_string
licensed = record {
  supergraph = graph;
  found = refl;
  online = refl;
  body = "{}";
  answered = refl;
  response = license_response;
  decoded = refl;
  expiration = 5;
  dated = refl;
  enabled = refl;
  license = record { jwt = "jwt" };
  entitled = refl;
  entry = "item";
  marshalled = refl;
}

pub accepted_license : Accepted licensing "{}" license_query "g@v" ""
unfolding cleaned default_if_after_id lookup without
accepted_license = record {
  request = body_of license_query;
  decoded = refl;
  operation = refl;
  graph = refl;
  variables = λ k. refl;
  graph_id = "g";
  variant_id = "v";
  parsed = parsed;
}

abbrev pub idle : Relay MemoryCache
idle = record { cache = empty; selector = new_round_robin_selector ("http://u" ∷ []) }

pub no_supergraph :
    contains (default_cache_key licensing "g@v" license_query) supergraph_query ≡ false
unfolding contains starts_with make_cache_key make_cache_prefix hash_string parse_graph_ref split
    default_cache_key
no_supergraph = refl

fetch_router_license-relay_handler_example :
    (c' : MemoryCache) × (fetch_router_license licensing memory 1000 "g@v" server
      ≡ (ok tt, record server { cache = c' }))
    × (relay_handler licensing memory config 2000 "{}" (record idle { cache = c' })
        ≡ reply
            (send (
              licensing.license_response.marshal
                (license_hit licensing (license_item licensing 1000 "jwt" 5))))
            (record idle { cache = c' }))
unfolding licensed
fetch_router_license-relay_handler_example =
    fetch_router_license-relay_handler licensing memory "g@v" "{}" server
      (json_of-RoundTrips licensed_item) (world-PrintsByKey license_query licensed_item)
      accepted_license one_minute idle licensed no_supergraph

-- A decoder that reads every text as an item without content.
abbrev nothing_item : CacheItem
nothing_item = record licensed_item { content = none; id = "" }

abbrev lenient : Externals
lenient = record (world persisted_queries_query licensed_item) {
  item = record { marshal = λ item. some "{}"; unmarshal = λ s. some nothing_item };
}

abbrev polling : Server MemoryCache
polling = record {
  cache = empty;
  config = record config { polling = record config.polling { persisted_queries = some true } };
}

abbrev polled_response : UplinkPersistedQueryResponse
polled_response = record {
  persisted_queries = record {
    id = "p:1";
    typename = "PersistedQueriesResult";
    min_delay_seconds = 60;
    chunks = [];
  };
}

polled_manifest : Polled lenient graph polling
unfolding poll_pq_manifest uplink_url
polled_manifest = record {
  enabled = refl;
  on = refl;
  not_pinned = refl;
  response = polled_response;
  answered = refl;
  manifest = "{}";
  marshalled = refl;
  item = nothing_item;
  decoded = refl;
  blank = refl;
}

accepted_manifest : Accepted lenient "{}" persisted_queries_query "g@v" ""
unfolding cleaned default_if_after_id lookup without
accepted_manifest = record {
  request = body_of persisted_queries_query;
  decoded = refl;
  operation = refl;
  graph = refl;
  variables = λ k. refl;
  graph_id = "g";
  variant_id = "v";
  parsed = parsed;
}

manifest_key :
    (contains (default_cache_key lenient "g@v" persisted_queries_query) supergraph_query ≡ false)
    × (contains (default_cache_key lenient "g@v" persisted_queries_query) license_query ≡ false)
unfolding contains starts_with make_cache_key make_cache_prefix hash_string parse_graph_ref split
    default_cache_key
manifest_key = (refl, refl)

poll_persisted_queries-relay_handler_example :
    (c' : MemoryCache) × (poll_persisted_queries lenient memory 1000 graph polling
      ≡ (ok tt, record polling { cache = c' }))
    × (relay_handler lenient memory polling.config 2000 "{}" (record idle { cache = c' })
        ≡ reply
            (send (lenient.pq_response.marshal (unchanged nothing_item)))
            (record idle { cache = c' }))
unfolding polled_manifest
poll_persisted_queries-relay_handler_example =
    poll_persisted_queries-relay_handler lenient memory graph "{}" polling (λ u v h. refl)
      accepted_manifest one_minute idle polled_manifest manifest_key.0 manifest_key.1
