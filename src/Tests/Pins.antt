-- ===== src/Tests/Pins.antt =====
-- The theorem on a pinned manifest, at the supergraph g@v and a build of one chunk.
use uplink_relay.Common.{some, ◌≡◌, ◌≢◌, refl, [], ◌∷◌, ok, arith, split, eq_iff, List, negsuc}
use uplink_relay.Cache.{CacheItem, indefinite_timestamp, expiration_time}
use uplink_relay.Cache.Keys.{hash_string}
use uplink_relay.Cache.Memory.{
  MemoryCache, memory_cache, set, make_room, new_memory_cache, new_item,
}
use uplink_relay.Config.{Config, find_supergraph_config_from_graph_ref}
use uplink_relay.Externals.{Externals}
use uplink_relay.GraphRef.{parse_graph_ref}
use uplink_relay.PersistedQueries.Keys.{make_persisted_query_cache_key}
use uplink_relay.Pinning.Entry.{handle_pinned_entry, pinned_item}
use uplink_relay.Pinning.Names.{find_api_key}
use uplink_relay.Pinning.PersistedQueries.{fetch_builds, find_matching_node, cache_pinned_chunks}
use uplink_relay.System.{Event, Running, run, relayed, hooked, manifest_pinned}
use uplink_relay.System.Keys.{GivesDigits, IsDigits, is_digit}
use uplink_relay.System.PinnedManifests.{Built, run-pinned_manifest}
use uplink_relay.Tests.Memory.{parsed}
use uplink_relay.Tests.Visits.{distinct, distinct-Visits}
use uplink_relay.Tests.World.{world, constant, json_of-RoundTrips, config, graph, empty}
use uplink_relay.Uplink.{new_round_robin_selector, persisted_queries_query}
use uplink_relay.Wire.{PersistedQueryQueryNode}

abbrev item : CacheItem
item = record {
  content = some "{}";
  expiration = indefinite_timestamp;
  hash = "0";
  last_modified = 1000;
  id = "b1";
}

abbrev build : PersistedQueryQueryNode
build = record { id = "b1"; manifest_chunks = some (record { id = "c"; json = "[]" } ∷ []) }

-- The Studio API lists one build.
abbrev listed : Externals
listed = record (world persisted_queries_query item) {
  sha256_hex = λ s. "0";
  itoa = λ n. "1";
  pq_query_response = constant (record {
    variant = record {
      typename = "GraphVariant";
      persisted_query_query_list = some (build ∷ []);
      message = "";
    };
  });
}

listed-GivesDigits : GivesDigits listed
unfolding IsDigits is_digit
listed-GivesDigits = record { hashes = λ s. (refl, tt); numbers = λ n. (refl, tt) }

abbrev public_config : Config
public_config = record config { relay = record config.relay { public_url = "http://r" } }

abbrev running : Running MemoryCache
running = record {
  server = record { cache = empty; config = public_config };
  selector = new_round_robin_selector ("http://u" ∷ []);
}

fresh : graph.persisted_query_version ≢ "b1"
fresh same = ground (arith, eq_iff graph.persisted_query_version "b1")

unfoldable built : Built listed distinct 1000 "b1" "g@v" running
unfolding find_supergraph_config_from_graph_ref fetch_builds find_matching_node find_api_key
    parse_graph_ref split pinned_item expiration_time hash_string cache_pinned_chunks
    make_persisted_query_cache_key set make_room new_memory_cache new_item distinct
built = record {
  supergraph = graph;
  found = refl;
  fresh = fresh;
  nodes = build ∷ [];
  fetched = refl;
  node = build;
  matching = refl;
  chunks = record { id = "c"; urls = "http://r" ∷ [] } ∷ [];
  with_chunks =
      ((memory_cache distinct).set 1000 (make_persisted_query_cache_key "c" "1") "[]" (negsuc 0)
        empty).1;
  chunked = refl;
  manifest = "{}";
  written = refl;
  entry = "item";
  marshalled = refl;
}

-- Requests to the relay and to the webhook.
abbrev traffic : List Event
traffic = relayed 1100 "{}" ∷ hooked 1200 "sha256=mac" "{}" ∷ []

run-pinned_manifest_example :
    handle_pinned_entry listed
      (memory_cache distinct)
      2000
      (run listed
        (memory_cache distinct)
        (manifest_pinned 1000 "b1" "g@v" ∷ traffic)
        running).server.cache
      "g"
      "v"
      persisted_queries_query
      ""
    ≡ ok (some item)
unfolding pinned_item expiration_time hash_string built
run-pinned_manifest_example =
    run-pinned_manifest listed distinct distinct-Visits listed-GivesDigits (json_of-RoundTrips item)
      "b1" "g@v" "g" "v" parsed 1000 traffic running refl built (tt, (tt, tt)) 2000
