-- ===== src/Tests/Services.antt =====
-- The theorems on pinning, retries, and what the proxy passes on.
use uplink_relay.Common.{
  String, ◌≡◌, ◌≢◌, refl, ap, Result, none, some, [], ◌∷◌, pos, ok, Time, split, before,
  if◌then◌else◌,
}
use uplink_relay.Cache.{CacheItem, expiration_time, indefinite_timestamp}
use uplink_relay.Cache.Keeping.{memory_cache-Keeps_pinned}
use uplink_relay.Cache.Keys.{hash_string}
use uplink_relay.Cache.Memory.{MemoryCache}
use uplink_relay.Config.{find_supergraph_config_from_graph_ref}
use uplink_relay.Externals.{Externals, proxied, HttpResponse}
use uplink_relay.GraphRef.{parse_graph_ref}
use uplink_relay.Pinning.Entry.{pinned_item, handle_pinned_entry}
use uplink_relay.Pinning.Launch.{fetch_launch, pin_launch_id}
use uplink_relay.Pinning.Names.{find_api_key}
use uplink_relay.Pinning.Serving.{Launched, pin_launch_id-handle_pinned_entry}
use uplink_relay.Proxy.{Relay, relay_miss}
use uplink_relay.Proxy.Response.{with_body, drained, modify_proxied_response, response_body}
use uplink_relay.Proxy.Retries.{unavailable, relay_miss-late_success}
use uplink_relay.Proxy.Transparency.{is_restored, modify_proxied_response-Passed}
use uplink_relay.Proxy.Versions.{Versioned}
use uplink_relay.Server.{Server}
use uplink_relay.Tests.Memory.{parsed}
use uplink_relay.Tests.World.{
  world, json_of-RoundTrips, body_of, config, graph, memory, empty, answer, sdl, launch,
}
use uplink_relay.Uplink.{new_round_robin_selector, next, supergraph_query}

-- The pinned supergraph, from a launch that completed at 5 ns.
abbrev pub pinned : CacheItem
pinned = record {
  content = some sdl;
  expiration = indefinite_timestamp;
  hash = sdl;
  last_modified = 5;
  id = "l1";
}

abbrev pub there : Externals
there = world supergraph_query pinned

abbrev pub server : Server MemoryCache
server = record { cache = empty; config = config }

launched : Launched there 1000 "l1" "g@v" server
unfolding find_supergraph_config_from_graph_ref fetch_launch find_api_key parse_graph_ref split
    pinned_item expiration_time hash_string
launched = record {
  launch = launch;
  fetched = refl;
  completed = 5;
  dated = refl;
  entry = "item";
  marshalled = refl;
  supergraph = graph;
  found = refl;
}

pin_launch_id-handle_pinned_entry_example :
    (s' : Server MemoryCache) × (pin_launch_id there memory 1000 "l1" "g@v" server ≡ (ok tt, s'))
    × (find_supergraph_config_from_graph_ref "g@v" s'.config
        ≡ ok (record graph { launch_id = "l1" }))
    × (handle_pinned_entry there memory 2000 s'.cache "g" "v" supergraph_query ""
        ≡ ok (some (pinned_item there 1000 sdl "l1" 5)))
    × ((if_after_id : String) (time : Time)
        → if_after_id ≢ ""
        → there.parse_after_id if_after_id ≡ some time
        → handle_pinned_entry there memory 2000 s'.cache "g" "v" supergraph_query if_after_id
          ≡ ok (
              some (
                if before time 5
                then pinned_item there 1000 sdl "l1" 5
                else record (pinned_item there 1000 sdl "l1" 5) { content = none })))
unfolding launched
pin_launch_id-handle_pinned_entry_example =
    pin_launch_id-handle_pinned_entry there memory "l1" "g@v" "g" "v" server
      (json_of-RoundTrips pinned) refl parsed (memory_cache-Keeps_pinned (λ items. items) 1000 2000)
      launched

-- A selector whose first URL does not parse.
abbrev flaky : Relay MemoryCache
flaky = record { cache = empty; selector = new_round_robin_selector ("bad" ∷ "http://u" ∷ []) }

abbrev broken : Relay MemoryCache
broken = record { cache = empty; selector = new_round_robin_selector ("bad" ∷ []) }

first_bad : (next broken.selector).0 ≡ ok "bad"
unfolding next new_round_robin_selector
first_bad = refl

second_bad : (next (next broken.selector).1).0 ≡ ok "bad"
unfolding next new_round_robin_selector
second_bad = refl

flaky_first : (next flaky.selector).0 ≡ ok "bad"
unfolding next new_round_robin_selector
flaky_first = refl

flaky_second : (next (next flaky.selector).1).0 ≡ ok "http://u"
unfolding next new_round_robin_selector
flaky_second = refl

other_modified :
    modify_proxied_response there memory config 1000 "k" (body_of "Other") answer empty
    ≡ (ok answer, empty)
unfolding modify_proxied_response response_body
other_modified = refl

relay_miss-late_success_example :
    (relay_miss there memory config 1000 "{}" "k" (body_of "Other") flaky).writes
    ≡ unavailable ∷ proxied answer ∷ []
relay_miss-late_success_example =
    relay_miss-late_success there memory config 1000 "{}" "k" (body_of "Other") 0 flaky "bad"
      "http://u" answer answer empty refl flaky_first refl flaky_second (λ h. cc) refl
      other_modified

other_ok :
    (modify_proxied_response there memory config 1000 "k" (body_of "Other") answer empty).0
    ≡ ok answer
other_ok = ap (λ (p : Result HttpResponse × MemoryCache). p.0) other_modified

read_answer : response_body there answer ≡ some "{}"
unfolding response_body
read_answer = refl

modify_proxied_response-Passed_example : answer ≡ (
    if is_restored there memory config 1000 "Other" "{}"
    then with_body answer "{}"
    else drained answer)
modify_proxied_response-Passed_example =
    modify_proxied_response-Passed there memory config 1000 "k" "{}" (body_of "Other") answer answer
      empty (λ h. cc) read_answer other_ok

version_one : Versioned there "p:1" "p" (pos 1)
version_one = record {
  version = "1";
  joined = refl;
  one_part = (λ h. cc, tt);
  no_more = (λ h. cc, tt);
  numeric = refl;
}
