-- ===== src/Tests/Relay.antt =====
-- The theorems on the relay handler, at a request for the supergraph g@v.
use uplink_relay.Common.{
  ◌+◌, ◌*◌, String, ◌≡◌, refl, false, none, some, [], ◌∷◌, pos, ok, lookup, without, second, add,
  seconds,
}
use uplink_relay.Cache.{CacheItem, expiration_time}
use uplink_relay.Cache.Keys.{hash_string, make_cache_key, artifact_variables}
use uplink_relay.Cache.Memory.{MemoryCache, get, set, new_memory_cache}
use uplink_relay.Config.{Config, find_supergraph_config_from_graph_ref}
use uplink_relay.Externals.{Externals, proxied}
use uplink_relay.Proxy.{Relay, reply, relay_handler, cleaned, is_pinned}
use uplink_relay.Proxy.Caching.{Accepted, IsUnpinned}
use uplink_relay.Proxy.Hit.{send, supergraph_hit}
use uplink_relay.Proxy.Response.{with_body, response_body}
use uplink_relay.Proxy.SupergraphCaching.{Answers, IsSupergraph, relay_handler-supergraph}
use uplink_relay.Proxy.Variables.{default_if_after_id}
use uplink_relay.Proxy.Warming.{fetch_schema-relay_handler}
use uplink_relay.Schema.{schema_item, fetch_schema}
use uplink_relay.Schema.Caching.{Fetched}
use uplink_relay.Server.{Server}
use uplink_relay.Tests.Memory.{one_minute, parsed}
use uplink_relay.Tests.World.{
  world, world-PrintsByKey, json_of-RoundTrips, body_of, config, graph, memory, empty, answer, sdl,
  sdl_response,
}
use uplink_relay.Uplink.{new_round_robin_selector, next, supergraph_query}
use uplink_relay.UplinkRequest.{uplink_request, uplink_url, response_bytes}

-- The item of the supergraph fetched at 1000 ns.
abbrev pub fetched : CacheItem
fetched = record {
  content = some sdl;
  expiration = 1000 + 60 * second;
  hash = sdl;
  last_modified = 1000;
  id = "today";
}

abbrev pub here : Externals
here = world supergraph_query fetched

abbrev start : Relay MemoryCache
start = record { cache = empty; selector = new_round_robin_selector ("http://u" ∷ []) }

pub accepted : Accepted here "{}" supergraph_query "g@v" ""
unfolding cleaned default_if_after_id lookup without
accepted = record {
  request = body_of supergraph_query;
  decoded = refl;
  operation = refl;
  graph = refl;
  variables = λ k. refl;
  graph_id = "g";
  variant_id = "v";
  parsed = parsed;
}

answers : Answers here config "{}" start answer
unfolding next new_round_robin_selector
answers = record {
  retries = 1;
  retry_count = refl;
  url = "http://u";
  chosen = refl;
  parsed = λ h. cc;
  exchange = refl;
}

supergraph : IsSupergraph here config 1000 answer
unfolding schema_item response_body expiration_time hash_string add seconds
supergraph = record {
  json = "{}";
  read = refl;
  is_json = refl;
  response = sdl_response;
  decoded = refl;
  id = 5;
  dated = refl;
  entry = "item";
  marshalled = refl;
}

missing : (key : String) → get 1000 key empty ≡ none
unfolding get lookup new_memory_cache
missing key = refl

not_pinned : IsUnpinned config supergraph_query "g@v"
unfolding is_pinned find_supergraph_config_from_graph_ref
not_pinned g found = let same : graph ≡ g = cc in rw (← same) refl

abbrev key : String
key = make_cache_key here "g@v" supergraph_query (artifact_variables "g@v" "" ∷ [])

relay_handler-supergraph_example :
    (s' : Relay MemoryCache) × (relay_handler here memory config 1000 "{}" start
      ≡ reply (proxied (with_body answer "{}") ∷ []) s')
    × (relay_handler here memory config 2000 "{}" s'
        ≡ reply
            (send (
              here.supergraph_response.marshal
                (supergraph_hit here 2000 (pos 60) (schema_item here 1000 sdl 5 (pos 60)))))
            s')
unfolding supergraph
relay_handler-supergraph_example =
    relay_handler-supergraph here memory config "{}" "g@v" "" (json_of-RoundTrips fetched)
      (world-PrintsByKey supergraph_query fetched) refl accepted one_minute start answer supergraph
      (missing key) not_pinned answers

abbrev server : Server MemoryCache
server = record { cache = empty; config = config }

fetched_schema : Fetched here 1000 "g@v" server
unfolding find_supergraph_config_from_graph_ref uplink_request uplink_url response_bytes next
    new_round_robin_selector schema_item expiration_time hash_string add seconds
fetched_schema = record {
  supergraph = graph;
  found = refl;
  not_pinned = refl;
  body = "{}";
  answered = refl;
  response = sdl_response;
  decoded = refl;
  id = 5;
  dated = refl;
  enabled = refl;
  entry = "item";
  marshalled = refl;
}

fetch_schema-relay_handler_example :
    (c' : MemoryCache) × (fetch_schema here memory 1000 "g@v" server
      ≡ (ok tt, record server { cache = c' }))
    × (relay_handler here memory config 2000 "{}" (record start { cache = c' })
        ≡ reply
            (send (
              here.supergraph_response.marshal
                (supergraph_hit here 2000 (pos 60) (schema_item here 1000 sdl 5 (pos 60)))))
            (record start { cache = c' }))
unfolding fetched_schema
fetch_schema-relay_handler_example =
    fetch_schema-relay_handler here memory "g@v" "{}" server (json_of-RoundTrips fetched)
      (world-PrintsByKey supergraph_query fetched) accepted one_minute start fetched_schema

abbrev warm : Relay MemoryCache
warm = record start { cache = set [] 1000 key "item" (pos 60) empty }

warm_entry : get 2000 key warm.cache ≡ some "item"
unfolding new_memory_cache
warm_entry = one_minute.get-set key "item" empty

abbrev off : Config
off = record config { cache = record config.cache { enabled = false } }
