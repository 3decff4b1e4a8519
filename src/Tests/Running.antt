-- ===== src/Tests/Running.antt =====
-- The theorems on the running program, at the supergraph g@v.
use uplink_relay.Common.{
  lookup, insert, contains, starts_with, without, pos, String, none, ◌≡◌, ◌≢◌, refl, some, [], ◌∷◌,
  ok, arith, split, List, eq_iff,
}
use uplink_relay.Cache.{CacheItem, indefinite_timestamp, expiration_time}
use uplink_relay.Cache.Keys.{hash_string}
use uplink_relay.Cache.Memory.{MemoryCache, memory_cache}
use uplink_relay.Config.{find_supergraph_config_from_graph_ref}
use uplink_relay.Externals.{Externals}
use uplink_relay.GraphRef.{parse_graph_ref}
use uplink_relay.Management.Model.{schema}
use uplink_relay.Pinning.Entry.{pinned_item, handle_pinned_entry}
use uplink_relay.Pinning.Launch.{fetch_launch}
use uplink_relay.Pinning.Names.{find_api_key}
use uplink_relay.Pinning.Serving.{Launched}
use uplink_relay.System.{Event, Running, run, relayed, hooked, polled, updated, schema_pinned}
use uplink_relay.System.Configuration.{run-without_pins, without_pins}
use uplink_relay.System.Keys.{GivesDigits, IsDigits, is_digit}
use uplink_relay.System.Pinned.{IsLaunchItem, run-pinned, run-pinned_traffic}
use uplink_relay.Tests.Memory.{parsed}
use uplink_relay.Tests.Services.{server}
use uplink_relay.Cache.Keys.{make_cache_key, artifact_variables}
use uplink_relay.Cache.Memory.{get, set, make_room, new_memory_cache, new_item}
use uplink_relay.Cache.Keys.{make_cache_prefix}
use uplink_relay.Management.{pin_schema}
use uplink_relay.Pinning.Launch.{pin_launch_id}
use uplink_relay.Pinning.Entry.{insert_pinned_cache_entry}
use uplink_relay.Pinning.Names.{operation_mapping}
use uplink_relay.Proxy.Hit.{handle_cache_hit}
use uplink_relay.Proxy.{relay_handler, reply, cleaned}
use uplink_relay.Proxy.Caching.{Accepted}
use uplink_relay.Proxy.Hit.{send, supergraph_hit}
use uplink_relay.Proxy.Variables.{default_if_after_id}
use uplink_relay.System.Serving.{endpoint, run-relay_handler}
use uplink_relay.Tests.World.{body_of}
use uplink_relay.Tests.Visits.{distinct, distinct-Visits}
use uplink_relay.Tests.World.{world, json_of-RoundTrips, config, graph, sdl, launch}
use uplink_relay.Uplink.{new_round_robin_selector, supergraph_query}

-- The pinned supergraph, where each hash is 0.
abbrev pub item : CacheItem
item = record {
  content = some sdl;
  expiration = indefinite_timestamp;
  hash = "0";
  last_modified = 5;
  id = "l1";
}

abbrev pub hexadecimal : Externals
hexadecimal = record (world supergraph_query item) { sha256_hex = λ s. "0"; itoa = λ n. "1" }

hexadecimal-GivesDigits : GivesDigits hexadecimal
unfolding IsDigits is_digit
hexadecimal-GivesDigits = record { hashes = λ s. (refl, tt); numbers = λ n. (refl, tt) }

abbrev running : Running MemoryCache
running = record { server = server; selector = new_round_robin_selector ("http://u" ∷ []) }

unfoldable pub launched : Launched hexadecimal 1000 "l1" "g@v" server
unfolding find_supergraph_config_from_graph_ref fetch_launch find_api_key parse_graph_ref split
    pinned_item expiration_time hash_string
launched = record {
  launch = launch;
  fetched = refl;
  completed = 5;
  dated = refl;
  entry = "item";
  marshalled = refl;
  supergraph = graph;
  found = refl;
}

-- Requests to the relay and to the webhook.
abbrev traffic : List Event
traffic = relayed 1100 "{}" ∷ hooked 1200 "sha256=mac" "{}" ∷ relayed 1300 "{}" ∷ []

abbrev calls : List Event
calls = polled 1400 ∷ updated 1500 (schema ∷ []) "g@v" ∷ traffic

pub fresh : graph.launch_id ≢ "l1"
fresh same = ground (arith, eq_iff graph.launch_id "l1")

run-pinned_example :
    (i : CacheItem) × IsLaunchItem hexadecimal distinct distinct-Visits hexadecimal-GivesDigits
      (json_of-RoundTrips item)
      "l1"
      "g@v"
      "g"
      "v"
      parsed
      i
    × (handle_pinned_entry hexadecimal
          (memory_cache distinct)
          2000
          (run hexadecimal
            (memory_cache distinct)
            (schema_pinned 1000 "l1" "g@v" ∷ calls)
            running).server.cache
          "g"
          "v"
          supergraph_query
          ""
        ≡ ok (some i))
unfolding launched
run-pinned_example =
    run-pinned hexadecimal distinct distinct-Visits hexadecimal-GivesDigits
      (json_of-RoundTrips item) "l1" "g@v" "g" "v" parsed 1000 calls running refl launched fresh
      (tt, (tt, (tt, (tt, (tt, tt))))) 2000

run-pinned_traffic_example :
    handle_pinned_entry hexadecimal
      (memory_cache distinct)
      2000
      (run hexadecimal
        (memory_cache distinct)
        (schema_pinned 1000 "l1" "g@v" ∷ traffic)
        running).server.cache
      "g"
      "v"
      supergraph_query
      ""
    ≡ ok (some item)
unfolding pinned_item expiration_time hash_string launched
run-pinned_traffic_example =
    run-pinned_traffic hexadecimal distinct distinct-Visits hexadecimal-GivesDigits
      (json_of-RoundTrips item) "l1" "g@v" "g" "v" parsed 1000 traffic running refl launched fresh
      (tt, (tt, (tt, tt))) 2000

run-without_pins_example :
    without_pins
      (run hexadecimal
        (memory_cache distinct)
        (schema_pinned 1000 "l1" "g@v" ∷ calls)
        running).server.config
    ≡ without_pins config
run-without_pins_example =
    run-without_pins hexadecimal (memory_cache distinct) (schema_pinned 1000 "l1" "g@v" ∷ calls)
      running

-- One request to the relay.
abbrev request : List Event
request = relayed 1100 "{}" ∷ []

not_cached :
    get 2000
      (make_cache_key hexadecimal "g@v" supergraph_query (artifact_variables "g@v" "" ∷ []))
      (run hexadecimal
        (memory_cache distinct)
        (schema_pinned 1000 "l1" "g@v" ∷ request)
        running).server.cache
    ≡ none
unfolding run distinct get set make_room new_memory_cache new_item without lookup insert
    make_cache_key make_cache_prefix parse_graph_ref split hash_string
    find_supergraph_config_from_graph_ref fetch_launch find_api_key pin_schema pin_launch_id
    insert_pinned_cache_entry pinned_item expiration_time relay_handler handle_pinned_entry
    operation_mapping handle_cache_hit contains starts_with default_if_after_id
not_cached = refl

accepted : Accepted hexadecimal "{}" supergraph_query "g@v" ""
unfolding cleaned default_if_after_id lookup without
accepted = record {
  request = body_of supergraph_query;
  decoded = refl;
  operation = refl;
  graph = refl;
  variables = λ k. refl;
  graph_id = "g";
  variant_id = "v";
  parsed = parsed;
}

launch_named : ◌≢◌ {A = String} "l1" ""
launch_named h = cc

abbrev served : Running MemoryCache
served = run hexadecimal (memory_cache distinct) (schema_pinned 1000 "l1" "g@v" ∷ request) running

run-relay_handler_example :
    relay_handler hexadecimal
      (memory_cache distinct)
      served.server.config
      2000
      "{}"
      (endpoint served)
    ≡ reply
        (send
          (hexadecimal.supergraph_response.marshal (supergraph_hit hexadecimal 2000 (pos 60) item)))
        (endpoint served)
unfolding launched accepted pinned_item expiration_time hash_string
run-relay_handler_example =
    run-relay_handler hexadecimal distinct distinct-Visits hexadecimal-GivesDigits
      (json_of-RoundTrips item) (λ u v h. refl) "l1" "g@v" "{}" accepted 1000 request running refl
      launched fresh launch_named (tt, tt) 2000 not_cached
