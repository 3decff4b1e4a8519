-- ===== src/Tests/Manifests.antt =====
-- The theorem on fetched manifests, at the supergraph g@v and a codec of manifests without chunks.
use uplink_relay.Common.{
  ◌+◌, ◌*◌, second, String, ◌≡◌, ◌≢◌, refl, ap, sym, Bool, true, false, ◌&&◌, none, some, List, [],
  ◌∷◌, eqb, ok, ◌==◌, eq_iff, arith, if◌then◌else◌, contains, starts_with, lookup, without, split,
  add, seconds,
}
use uplink_relay.Cache.{CacheItem, expiration_time}
use uplink_relay.Cache.Keys.{hash_string, default_cache_key, make_cache_key, make_cache_prefix}
use uplink_relay.Cache.Memory.{MemoryCache}
use uplink_relay.Config.{find_supergraph_config_from_graph_ref}
use uplink_relay.Externals.{Externals, Json, RoundTrips}
use uplink_relay.GraphRef.{parse_graph_ref}
use uplink_relay.PersistedQueries.{
  fetch_pq_manifest, manifest_item, cache_persisted_query_chunk_data,
}
use uplink_relay.PersistedQueries.Caching.{Manifested}
use uplink_relay.Proxy.{Relay, relay_handler, reply, cleaned}
use uplink_relay.Proxy.Caching.{Accepted}
use uplink_relay.Proxy.Hit.{send, pq_hit}
use uplink_relay.Proxy.Manifests.{fetch_pq_manifest-relay_handler}
use uplink_relay.Proxy.Variables.{default_if_after_id}
use uplink_relay.Tests.Memory.{one_minute, parsed}
use uplink_relay.Tests.Services.{server}
use uplink_relay.Tests.World.{world, json_of-RoundTrips, body_of, config, empty, graph, memory}
use uplink_relay.Uplink.{
  supergraph_query, license_query, persisted_queries_query, next, new_round_robin_selector,
}
use uplink_relay.UplinkRequest.{uplink_request, uplink_url, response_bytes}
use uplink_relay.Wire.{UplinkPersistedQueryResponse, UplinkPersistedQueryChunk}

abbrev no_chunk : List UplinkPersistedQueryChunk → Bool
no_chunk [] = true
no_chunk (_ ∷ _) = false

abbrev pub plain : String → UplinkPersistedQueryResponse
plain id = record {
  persisted_queries = record {
    id = id;
    typename = "PersistedQueriesResult";
    min_delay_seconds = 60;
    chunks = [];
  };
}

abbrev is_plain : UplinkPersistedQueryResponse → Bool
is_plain r =
    r.persisted_queries.typename == "PersistedQueriesResult"
    && eqb r.persisted_queries.min_delay_seconds 60
    && no_chunk r.persisted_queries.chunks

-- A codec that writes a manifest without chunks as its ID.
abbrev by_id : Json UplinkPersistedQueryResponse
by_id = record {
  marshal = λ r. if is_plain r then some r.persisted_queries.id else none;
  unmarshal = λ s. some (plain s);
}

no_chunk-eq : (chunks : List UplinkPersistedQueryChunk) → no_chunk chunks ≡ true → chunks ≡ []
no_chunk-eq [] h = refl
no_chunk-eq (_ ∷ _) h = cc

pub by_id-RoundTrips : RoundTrips by_id
by_id-RoundTrips r s h =
    let typename : r.persisted_queries.typename ≡ "PersistedQueriesResult" =
      ground (arith, h, eq_iff r.persisted_queries.typename "PersistedQueriesResult") in
    let delay : r.persisted_queries.min_delay_seconds ≡ 60 = ground (arith, h) in
    let chunks : r.persisted_queries.chunks ≡ [] =
      no_chunk-eq r.persisted_queries.chunks (ground (arith, h)) in
    let id : r.persisted_queries.id ≡ s = ground (arith, h) in
    ap some (
      sym (λ i. record {
        persisted_queries = record {
          id = id i;
          typename = typename i;
          min_delay_seconds = delay i;
          chunks = chunks i;
        };
      }))

-- The item of the manifest fetched at 1000 ns.
abbrev pub stored_item : CacheItem
stored_item = record {
  content = some "{}";
  expiration = 1000 + 60 * second;
  hash = "{}";
  last_modified = 1000;
  id = "{}";
}

abbrev pub listing : Externals
listing = record (world persisted_queries_query stored_item) { pq_response = by_id }

manifested : Manifested listing memory 1000 "g@v" "" server
unfolding find_supergraph_config_from_graph_ref uplink_request uplink_url response_bytes next
    new_round_robin_selector manifest_item hash_string cache_persisted_query_chunk_data
    expiration_time add seconds
manifested = record {
  supergraph = graph;
  found = refl;
  not_pinned = refl;
  body = "{}";
  answered = refl;
  response = plain "{}";
  decoded = refl;
  enabled = refl;
  chunks = [];
  with_chunks = empty;
  cached = refl;
  manifest = "{}";
  marshalled = refl;
  entry = "item";
  filed = refl;
}

pub accepted_listing : Accepted listing "{}" persisted_queries_query "g@v" ""
unfolding cleaned default_if_after_id lookup without
accepted_listing = record {
  request = body_of persisted_queries_query;
  decoded = refl;
  operation = refl;
  graph = refl;
  variables = λ k. refl;
  graph_id = "g";
  variant_id = "v";
  parsed = parsed;
}

abbrev idle_relay : Relay MemoryCache
idle_relay = record { cache = empty; selector = new_round_robin_selector ("http://u" ∷ []) }

pub listing_key :
    (contains (default_cache_key listing "g@v" persisted_queries_query) supergraph_query ≡ false)
    × (contains (default_cache_key listing "g@v" persisted_queries_query) license_query ≡ false)
unfolding contains starts_with make_cache_key make_cache_prefix hash_string parse_graph_ref split
    default_cache_key
listing_key = (refl, refl)

pub named : ◌≢◌ {A = String} "{}" ""
named h = cc

fetch_pq_manifest-relay_handler_example :
    (c' : MemoryCache) × (fetch_pq_manifest listing memory 1000 "g@v" "" server
      ≡ (ok tt, record server { cache = c' }))
    × (relay_handler listing memory config 2000 "{}" (record idle_relay { cache = c' })
        ≡ reply
            (send (listing.pq_response.marshal (pq_hit listing (plain "{}") "")))
            (record idle_relay { cache = c' }))
unfolding manifested
fetch_pq_manifest-relay_handler_example =
    fetch_pq_manifest-relay_handler listing memory "g@v" "{}" server
      (json_of-RoundTrips stored_item) by_id-RoundTrips (λ u v h. refl) accepted_listing one_minute
      idle_relay "" manifested named listing_key.0 listing_key.1
