-- ===== src/System/Pinned.antt =====
-- A schema that the management API pins in the running program, over the in-memory cache.
use uplink_relay.Common.{
  String, ◌≡◌, ◌≢◌, refl, ◌∙◌, true, false, some, List, [], ◌∷◌, All, negsuc, Time, ok, ◌==◌,
  eq_iff, inl, arith, eq_refl,
}
use uplink_relay.Cache.{CacheItem}
use uplink_relay.Cache.Memory.{Items, MemoryCache, memory_cache}
use uplink_relay.Cache.Memory.Eviction.{Visits}
use uplink_relay.Externals.{Externals, RoundTrips}
use uplink_relay.GraphRef.{parse_graph_ref}
use uplink_relay.Management.{pin_schema}
use uplink_relay.Pinning.Entry.{handle_pinned_entry, insert_pinned_cache_entry, pinned_item}
use uplink_relay.Pinning.Launch.{fetch_launch, pin_launch_id}
use uplink_relay.Pinning.Names.{
  operation_mapping, supergraph_pinned, license_pinned, persisted_queries_pinned,
}
use uplink_relay.Pinning.Serving.{Launched}
use uplink_relay.System.{Event, Running, run, handle, schema_pinned}
use uplink_relay.System.Invariants.{IsNoDeletion, IsTraffic, run-traffic}
use uplink_relay.System.Keys.{GivesDigits, no_name}
use uplink_relay.Cache.Writes.{IsPin, launched, built, licensed}
use uplink_relay.Cache.Keys.{make_cache_key}
use uplink_relay.Config.{Config}
use uplink_relay.Wire.{LaunchQueryVariantLaunch}
use uplink_relay.Uplink.{supergraph_query}
use uplink_relay.System.Items.{
  HoldsItem, key, set-HoldsItem, HoldsItem-closed, run-HoldsItem, handle_pinned_entry-HoldsItem,
}

module _ (x : Externals) (order : Items → Items)
    (visits : (items : Items) → Visits (order items) items) (digits : GivesDigits x)
    (trips : RoundTrips x.item) (launch_id graph_ref graph_id variant_id : String)
    (parsed : parse_graph_ref graph_ref ≡ ok (graph_id, variant_id)) where
  abbrev schema_key : String
  schema_key =
      key x order visits digits trips supergraph_query graph_ref (inl refl) graph_id variant_id
        parsed

  -- The item of a launch.
  abbrev pub pinned_launch :
      (now : Time) (r : Running MemoryCache)
      → Launched x now launch_id graph_ref r.server
      → CacheItem
  pinned_launch now r l = pinned_item x now l.launch.result.core_document l.launch.id l.completed

  schema_pinned-HoldsItem :
      (Fits : CacheItem → Type 0) (now : Time) (r : Running MemoryCache)
      → r.server.config.cache.enabled ≡ true
      → (l : Launched x now launch_id graph_ref r.server) → l.supergraph.launch_id ≢ launch_id
      → Fits (pinned_launch now r l)
      → HoldsItem x Fits schema_key
          (handle x (memory_cache order) (schema_pinned now launch_id graph_ref) r).server.cache
  unfolding handle pin_schema pin_launch_id insert_pinned_cache_entry operation_mapping
  schema_pinned-HoldsItem Fits now r enabled l other fits =
      let fresh : (l.supergraph.launch_id == launch_id) ≡ false =
        ground (arith, eq_iff l.supergraph.launch_id launch_id) in
      rw
        (
          handle, pin_schema, l.found, fresh, pin_launch_id, l.fetched, l.dated, enabled,
          insert_pinned_cache_entry, l.marshalled,
        )
        (set-HoldsItem x order visits digits trips supergraph_query graph_ref (inl refl) graph_id
          variant_id parsed Fits now schema_key l.entry (negsuc 0) r.server.cache
          (pinned_launch now r l) (eq_refl _) refl l.marshalled fits)

  -- The item of a pinned launch under the key: what PinLaunchID makes of a launch that the Studio
  -- API gave, for a graph_ref that has this key.
  pub record IsLaunchItem (item : CacheItem) : Type 0 where
    pub now : Time
    pub config : Config
    pub pinned_id : String
    pub pinned_ref : String
    pub launch : LaunchQueryVariantLaunch
    pub fetched : fetch_launch x config pinned_id pinned_ref ≡ ok launch
    pub completed : Time
    pub dated : x.parse_time launch.completed_at ≡ some completed
    pub same_key : schema_key ≡ make_cache_key x pinned_ref supergraph_pinned []
    pub made : item ≡ pinned_item x now launch.result.core_document launch.id completed

  -- Only launches are pinned under the key of a schema.
  pin-IsLaunchItem :
      (now : Time) (item : CacheItem) → IsPin x now schema_key item → IsLaunchItem item
  pin-IsLaunchItem now item (launched config id g launch completed fetched dated same made) =
      record {
        now = now;
        config = config;
        pinned_id = id;
        pinned_ref = g;
        launch = launch;
        fetched = fetched;
        completed = completed;
        dated = dated;
        same_key = same;
        made = made;
      }
  pin-IsLaunchItem now item (built config version g manifest nodes node fetched found same made) =
      absurd (
        no_name x digits supergraph_query graph_ref (inl refl) graph_id variant_id parsed schema_key
          g persisted_queries_pinned same (ground arith)
          (unfold operation_mapping in
            λ h. ground (arith, eq_iff supergraph_pinned persisted_queries_pinned))
          refl)
  pin-IsLaunchItem now item (licensed g license modified_time same made) = absurd (
      no_name x digits supergraph_query graph_ref (inl refl) graph_id variant_id parsed schema_key g
        license_pinned same (ground arith)
        (unfold operation_mapping in λ h. ground (arith, eq_iff supergraph_pinned license_pinned))
        refl)

  launched-IsLaunchItem :
      (now : Time) (r : Running MemoryCache) (l : Launched x now launch_id graph_ref r.server)
      → IsLaunchItem (pinned_launch now r l)
  unfolding operation_mapping
  launched-IsLaunchItem now r l = record {
    now = now;
    config = r.server.config;
    pinned_id = launch_id;
    pinned_ref = graph_ref;
    launch = l.launch;
    fetched = l.fetched;
    completed = l.completed;
    dated = l.dated;
    same_key = refl;
    made = refl;
  }

  -- Over the in-memory cache with the cache on, for a graph_ref that parses, a JSON codec as
  -- documented, hashes and indices made of digits, and a map that is visited by its entries: after
  -- pinSchema of a launch that the Studio API gives and that was not pinned before, followed by any
  -- requests to the relay, webhooks, rounds of polling, forced updates and pins in any order,
  -- HandlePinnedEntry gives an item to a SupergraphSdlQuery without an ifAfterId, at every time,
  -- and that item holds, whole, the document of a launch that the Studio API gave for a graph_ref
  -- with the same key, with the ID of that launch and the time of its completion.
  pub run-pinned :
      (now : Time) (events : List Event) (r : Running MemoryCache)
      → r.server.config.cache.enabled ≡ true
      → (l : Launched x now launch_id graph_ref r.server) → l.supergraph.launch_id ≢ launch_id
      → All IsNoDeletion events
      → (later : Time)
      → (item : CacheItem) × IsLaunchItem item
        × (handle_pinned_entry x
              (memory_cache order)
              later
              (run x
                (memory_cache order)
                (schema_pinned now launch_id graph_ref ∷ events)
                r).server.cache
              graph_id
              variant_id
              supergraph_query
              ""
            ≡ ok (some item))
  unfolding run
  run-pinned now events r enabled l other calls later =
      let held =
        run-HoldsItem x order visits digits trips supergraph_query graph_ref (inl refl) graph_id
          variant_id parsed IsLaunchItem events _ pin-IsLaunchItem calls
          (schema_pinned-HoldsItem IsLaunchItem now r enabled l other
            (launched-IsLaunchItem now r l)) in
      handle_pinned_entry-HoldsItem x order visits digits trips supergraph_query graph_ref
        (inl refl) graph_id variant_id parsed IsLaunchItem later _ held

  -- Over the in-memory cache with the cache on, for a graph_ref that parses, a JSON codec as
  -- documented, hashes and indices made of digits, and a map that is visited by its entries: after
  -- pinSchema of a launch that the Studio API gives and that was not pinned before, followed by any
  -- requests to the relay and webhooks in any order, HandlePinnedEntry gives the item of that
  -- launch to a SupergraphSdlQuery without an ifAfterId, at every time.
  pub run-pinned_traffic :
      (now : Time) (events : List Event) (r : Running MemoryCache)
      → r.server.config.cache.enabled ≡ true
      → (l : Launched x now launch_id graph_ref r.server) → l.supergraph.launch_id ≢ launch_id
      → All IsTraffic events
      → (later : Time)
      → handle_pinned_entry x
          (memory_cache order)
          later
          (run x
            (memory_cache order)
            (schema_pinned now launch_id graph_ref ∷ events)
            r).server.cache
          graph_id
          variant_id
          supergraph_query
          ""
        ≡ ok (some (pinned_launch now r l))
  unfolding run
  run-pinned_traffic now events r enabled l other calls later =
      let Same : CacheItem → Type 0 = λ item. item ≡ pinned_launch now r l in
      let held =
        run-traffic x (memory_cache order) (HoldsItem x Same schema_key)
          (HoldsItem-closed x order visits digits trips supergraph_query graph_ref (inl refl)
            graph_id variant_id parsed false Same (λ h. absurd (ground (arith, h))))
          events _ calls (schema_pinned-HoldsItem Same now r enabled l other refl) in
      let (item, same, served) =
        handle_pinned_entry-HoldsItem x order visits digits trips supergraph_query graph_ref
          (inl refl) graph_id variant_id parsed Same later _ held in
      served ∙ rw same refl
