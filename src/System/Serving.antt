-- ===== src/System/Serving.antt =====
-- What the relay handler of proxy/proxy.go answers with in the running program, after a pin.
use uplink_relay.Common.{
  String, ◌≡◌, ◌≢◌, refl, ◌∙◌, true, false, none, List, [], ◌∷◌, All, Time, ◌==◌, eq_iff, eq_refl,
  arith,
}
use uplink_relay.Cache.{Cache}
use uplink_relay.Cache.Keys.{make_cache_key, artifact_variables}
use uplink_relay.Cache.Memory.{Items, MemoryCache, memory_cache, get}
use uplink_relay.Cache.Memory.Eviction.{Visits}
use uplink_relay.Config.{Config}
use uplink_relay.Externals.{Externals, RoundTrips, PrintsByKey}
use uplink_relay.Management.{pin_schema}
use uplink_relay.Pinning.Entry.{insert_pinned_cache_entry}
use uplink_relay.Pinning.Launch.{pin_launch_id, set_launch_id}
use uplink_relay.Pinning.Serving.{Launched, set_launch_id_lem}
use uplink_relay.Proxy.{Relay, reply, relay_handler, is_pinned}
use uplink_relay.Proxy.Caching.{Accepted}
use uplink_relay.Proxy.Hit.{send, supergraph_hit}
use uplink_relay.Proxy.Pinned.{relay_handler-pinned}
use uplink_relay.System.{
  Event, Running, run, handle, relayed, hooked, polled, updated, schema_pinned, manifest_pinned,
  deleted,
}
use uplink_relay.System.Invariants.{IsTraffic}
use uplink_relay.System.Keys.{GivesDigits}
use uplink_relay.System.Pinned.{pinned_launch, run-pinned_traffic}
use uplink_relay.Uplink.{supergraph_query}

-- Requests and webhooks leave the configuration as it is.
run-traffic_config :
    {C : Type 0} (x : Externals) (cache : Cache C) (events : List Event) (r : Running C)
    → All IsTraffic events
    → (run x cache events r).server.config ≡ r.server.config
unfolding run handle
run-traffic_config x cache [] r calls = refl
run-traffic_config x cache (relayed now body ∷ events) r (_, later) =
    run-traffic_config x cache events (handle x cache (relayed now body) r) later
run-traffic_config x cache (hooked now header body ∷ events) r (_, later) =
    run-traffic_config x cache events (handle x cache (hooked now header body) r) later
run-traffic_config x cache (polled now ∷ events) r (never, _) = elim never [ ]
run-traffic_config x cache (updated now operations graph ∷ events) r (never, _) = elim never [ ]
run-traffic_config x cache (schema_pinned now launch graph ∷ events) r (never, _) = elim never [ ]
run-traffic_config x cache (manifest_pinned now id graph ∷ events) r (never, _) = elim never [ ]
run-traffic_config x cache (deleted now operations graph ∷ events) r (never, _) = elim never [ ]

-- The relay endpoint of the running program.
abbrev pub endpoint : {C : Type 0} → Running C → Relay C
endpoint r = record { cache = r.server.cache; selector = r.selector }

module _ (x : Externals) (order : Items → Items)
    (visits : (items : Items) → Visits (order items) items) (digits : GivesDigits x)
    (trips : RoundTrips x.item) (prints : PrintsByKey x) (launch_id graph_ref body : String)
    (a : Accepted x body supergraph_query graph_ref "") where
  schema_pinned-config :
      (now : Time) (r : Running MemoryCache)
      → r.server.config.cache.enabled ≡ true
      → (l : Launched x now launch_id graph_ref r.server) → l.supergraph.launch_id ≢ launch_id
      → (handle x (memory_cache order) (schema_pinned now launch_id graph_ref) r).server.config
        ≡ record r.server.config {
          supergraphs = set_launch_id graph_ref launch_id r.server.config.supergraphs;
        }
  unfolding handle pin_schema pin_launch_id insert_pinned_cache_entry
  schema_pinned-config now r enabled l other =
      let fresh : (l.supergraph.launch_id == launch_id) ≡ false =
        ground (arith, eq_iff l.supergraph.launch_id launch_id) in
      ground (arith, l.found, fresh, l.fetched, l.dated, enabled, l.marshalled)

  -- Over the in-memory cache with the cache on, for JSON codecs and texts of maps as documented,
  -- hashes and indices made of digits, and a map that is visited by its entries: after pinSchema of
  -- a launch with an ID that the Studio API gives and that was not pinned before, followed by any
  -- requests to the relay and webhooks in any order, an accepted SupergraphSdlQuery without an
  -- ifAfterId that misses the cache is answered with the schema of that launch, at every time; no
  -- uplink is asked, and neither the cache nor the selector changes.
  pub run-relay_handler :
      (now : Time) (events : List Event) (r : Running MemoryCache)
      → r.server.config.cache.enabled ≡ true
      → (l : Launched x now launch_id graph_ref r.server) → l.supergraph.launch_id ≢ launch_id
      → launch_id ≢ ""
      → All IsTraffic events
      → (later : Time)
      → let t = run x (memory_cache order) (schema_pinned now launch_id graph_ref ∷ events) r in
        get later
            (make_cache_key x graph_ref supergraph_query (artifact_variables graph_ref "" ∷ []))
            t.server.cache
          ≡ none
        → let t = run x (memory_cache order) (schema_pinned now launch_id graph_ref ∷ events) r in
          relay_handler x (memory_cache order) t.server.config later body (endpoint t)
          ≡ reply
              (send (
                x.supergraph_response.marshal (
                  supergraph_hit x later r.server.config.cache.duration (
                    pinned_launch x order visits digits trips launch_id graph_ref a.graph_id
                      a.variant_id a.parsed now r l))))
              (endpoint t)
  unfolding run is_pinned
  run-relay_handler now events r enabled l other named calls later missing =
      let first = handle x (memory_cache order) (schema_pinned now launch_id graph_ref) r in
      let pinned : Config = record r.server.config {
        supergraphs = set_launch_id graph_ref launch_id r.server.config.supergraphs;
      } in
      let same =
        run-traffic_config x (memory_cache order) events first calls
        ∙ schema_pinned-config now r enabled l other in
      let set : (launch_id == "") ≡ false = ground (arith, eq_iff launch_id "") in
      let found =
        set_launch_id_lem graph_ref launch_id r.server.config graph_ref l.supergraph l.found
        ∙ rw (eq_refl graph_ref) refl in
      let served =
        run-pinned_traffic x order visits digits trips launch_id graph_ref a.graph_id a.variant_id
          a.parsed now events r enabled l other calls later in
      rw same (
        relay_handler-pinned x (memory_cache order) pinned body graph_ref "" prints enabled a later
          (endpoint (run x (memory_cache order) events first))
          (record l.supergraph { launch_id = launch_id })
          (pinned_launch x order visits digits trips launch_id graph_ref a.graph_id a.variant_id
            a.parsed now r l)
          missing found (rw set refl) served)
