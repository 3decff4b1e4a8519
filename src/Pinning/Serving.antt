-- ===== src/Pinning/Serving.antt =====
-- A launch that pinning/schema.go pinned is what the relay answers with.
use uplink_relay.Common.{
  String, ◌≡◌, ◌≢◌, refl, true, none, some, [], negsuc, Time, before, ok, arith, eq_iff, eq_refl,
  ◌∙◌, ◌<>◌, singleton-append, pair_eq, map_ok, if◌then◌else◌, ◌==◌,
}
use uplink_relay.Cache.{Cache, CacheItem}
use uplink_relay.Cache.Keeping.{Keeps}
use uplink_relay.Cache.Keys.{make_cache_key}
use uplink_relay.Config.{Config, SupergraphConfig, find_supergraph_config_from_graph_ref}
use uplink_relay.Config.Lookup.{find_supergraph_config-map}
use uplink_relay.Config.Lookup.{find_supergraph_lem}
use uplink_relay.Externals.{Externals, RoundTrips}
use uplink_relay.GraphRef.{at_sign, parse_graph_ref, parse_graph_ref_iff}
use uplink_relay.Pinning.Entry.{
  pinned_item, answer_pinned, insert_pinned_cache_entry, handle_pinned_entry,
}
use uplink_relay.Pinning.Launch.{with_launch_id, set_launch_id, fetch_launch, pin_launch_id}
use uplink_relay.Pinning.Names.{supergraph_pinned}
use uplink_relay.Server.{Server}
use uplink_relay.Uplink.{supergraph_query}
use uplink_relay.Wire.{LaunchQueryVariantLaunch}

set_launch_id-graph_ref :
    (graph_ref launch_id : String) (s : SupergraphConfig)
    → (with_launch_id graph_ref launch_id s).graph_ref ≡ s.graph_ref
set_launch_id-graph_ref graph_ref launch_id s = ground arith

-- After setting the launch ID of a graph_ref, the supergraph that was found for that graph_ref has
-- it, and what was found for every other graph_ref is what it was.
pub set_launch_id_lem :
    (graph_ref launch_id : String) (c : Config) (other : String) (g : SupergraphConfig)
    → find_supergraph_config_from_graph_ref other c ≡ ok g
    → find_supergraph_config_from_graph_ref other
        (record c { supergraphs = set_launch_id graph_ref launch_id c.supergraphs })
      ≡ ok (if other == graph_ref then record g { launch_id = launch_id } else g)
unfolding set_launch_id
set_launch_id_lem graph_ref launch_id c other g found =
    let named = ((find_supergraph_lem other c).0 g found).named in
    let mapped =
      find_supergraph_config-map (with_launch_id graph_ref launch_id)
        (set_launch_id-graph_ref graph_ref launch_id) other c in
    simp (mapped, found, named)

-- What PinLaunchID needs of the Studio API: a launch, completed at a time, whose item can be
-- marshalled.
pub record Launched {C : Type 0} (x : Externals) (now : Time) (launch_id graph_ref : String)
    (s : Server C) : Type 0 where
  pub launch : LaunchQueryVariantLaunch
  pub fetched : fetch_launch x s.config launch_id graph_ref ≡ ok launch
  pub completed : Time
  pub dated : x.parse_time launch.completed_at ≡ some completed
  pub entry : String
  pub marshalled :
      x.item.marshal (pinned_item x now launch.result.core_document launch.id completed)
      ≡ some entry
  pub supergraph : SupergraphConfig
  pub found : find_supergraph_config_from_graph_ref graph_ref s.config ≡ ok supergraph

module _ {C : Type 0} (x : Externals) (cache : Cache C) {now later : Time}
    (launch_id graph_ref graph_id variant_id : String) (s : Server C) (trips : RoundTrips x.item)
    (enabled : s.config.cache.enabled ≡ true)
    (parsed : parse_graph_ref graph_ref ≡ ok (graph_id, variant_id))
    (keeps : Keeps cache now later (negsuc 0)) where
  pub insert_pinned_cache_entry_lem :
      (key value id entry : String) (modified_time : Time) (c : C)
      → x.item.marshal (pinned_item x now value id modified_time) ≡ some entry
      → insert_pinned_cache_entry x cache now key value id modified_time c
        ≡ (ok tt, (cache.set now key entry (negsuc 0) c).1)
  unfolding insert_pinned_cache_entry
  insert_pinned_cache_entry_lem key value id entry modified_time c marshalled =
      rw
        (
          marshalled,
          pair_eq (cache.set now key entry (negsuc 0) c) (ok tt) (keeps.set_ok key entry c),
        )
        refl

  handle_pinned_entry_lem :
      (entry if_after_id : String) (item : CacheItem) (c : C)
      → cache.get later (make_cache_key x graph_ref supergraph_pinned []) c ≡ some entry
      → x.item.unmarshal entry ≡ some item
      → handle_pinned_entry x cache later c graph_id variant_id supergraph_query if_after_id
        ≡ map_ok some (answer_pinned x item supergraph_query if_after_id)
  unfolding handle_pinned_entry
  handle_pinned_entry_lem entry if_after_id item c found decoded =
      let (joint, _, _) = (parse_graph_ref_iff graph_ref graph_id variant_id).0 parsed in
      let here : cache.get later
            (make_cache_key x (graph_id <> "@" <> variant_id) supergraph_pinned []) c
          ≡ some entry =
        rw (singleton-append at_sign variant_id, ← joint) found in
      rw (handle_pinned_entry, here, decoded) refl

  abbrev pinned : Launched x now launch_id graph_ref s → CacheItem
  pinned l = pinned_item x now l.launch.result.core_document l.launch.id l.completed

  -- With the cache on, a graph_ref that parses, a JSON codec as documented and a cache that keeps
  -- entries of duration -1: after PinLaunchID of a launch that the Studio API gives, the
  -- configuration has the launch ID for the graph_ref, and HandlePinnedEntry gives the schema of
  -- the launch to a SupergraphSdlQuery, whole without an ifAfterId or with one before the
  -- completion of the launch, and without content for a later one.
  pub pin_launch_id-handle_pinned_entry :
      (l : Launched x now launch_id graph_ref s)
      → (s' : Server C) × (pin_launch_id x cache now launch_id graph_ref s ≡ (ok tt, s'))
        × (find_supergraph_config_from_graph_ref graph_ref s'.config
            ≡ ok (record l.supergraph { launch_id = launch_id }))
        × (handle_pinned_entry x cache later s'.cache graph_id variant_id supergraph_query ""
            ≡ ok (some (pinned l)))
        × ((if_after_id : String) (time : Time)
            → if_after_id ≢ ""
            → x.parse_after_id if_after_id ≡ some time
            → handle_pinned_entry x cache later s'.cache graph_id variant_id supergraph_query
                if_after_id
              ≡ ok (
                  some (
                    if before time l.completed
                    then pinned l
                    else record (pinned l) { content = none })))
  unfolding pin_launch_id answer_pinned pinned_item
  pin_launch_id-handle_pinned_entry l =
      let c' =
        (cache.set now (make_cache_key x graph_ref supergraph_pinned []) l.entry (negsuc 0)
          s.cache).1 in
      let inserted =
        insert_pinned_cache_entry_lem (make_cache_key x graph_ref supergraph_pinned [])
          l.launch.result.core_document l.launch.id l.entry l.completed s.cache l.marshalled in
      let served : (if_after_id : String)
          → handle_pinned_entry x cache later c' graph_id variant_id supergraph_query if_after_id
            ≡ map_ok some (answer_pinned x (pinned l) supergraph_query if_after_id) =
        λ if_after_id.
          handle_pinned_entry_lem l.entry if_after_id (pinned l) c'
            (keeps.get-set _ l.entry s.cache) (trips _ l.entry l.marshalled) in
      (
        record s {
          cache = c';
          config = record s.config {
            supergraphs = set_launch_id graph_ref launch_id s.config.supergraphs;
          };
        },
        rw (l.fetched, l.dated, enabled, inserted) refl,
        set_launch_id_lem graph_ref launch_id s.config graph_ref l.supergraph l.found
            ∙ rw (eq_refl graph_ref) refl,
        served "",
        λ if_after_id time present parsed_time.
            served if_after_id ∙ ground (arith, eq_iff if_after_id ""),
      )
