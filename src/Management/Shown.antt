-- ===== src/Management/Shown.antt =====
-- What the management API shows of a schema that it pinned.
use uplink_relay.Common.{
  String, ◌≡◌, ◌≢◌, refl, ◌∙◌, true, false, some, [], negsuc, Time, ok, ◌==◌, eq_iff, eq_refl,
  arith,
}
use uplink_relay.Cache.{Cache}
use uplink_relay.Cache.Keeping.{Keeps}
use uplink_relay.Cache.Keys.{make_cache_key, hash_string}
use uplink_relay.Config.{SupergraphConfig, find_supergraph_config_from_graph_ref}
use uplink_relay.Config.Lookup.{find_supergraph_lem}
use uplink_relay.Externals.{Externals, RoundTrips}
use uplink_relay.GraphRef.{parse_graph_ref}
use uplink_relay.Management.{pin_schema}
use uplink_relay.Management.Details.{
  current_schema, schema_key, string_of, shown, get_config_details,
}
use uplink_relay.Pinning.Entry.{pinned_item}
use uplink_relay.Pinning.Launch.{pin_launch_id, set_launch_id}
use uplink_relay.Pinning.Names.{supergraph_pinned}
use uplink_relay.Pinning.Serving.{Launched, insert_pinned_cache_entry_lem, set_launch_id_lem}
use uplink_relay.Server.{Server}

module _ {C : Type 0} (x : Externals) (cache : Cache C) {now later : Time}
    (launch_id graph_ref graph_id variant_id : String) (s : Server C) (trips : RoundTrips x.item)
    (enabled : s.config.cache.enabled ≡ true)
    (parsed : parse_graph_ref graph_ref ≡ ok (graph_id, variant_id))
    (keeps : Keeps cache now later (negsuc 0)) where
  abbrev pinned_key : String
  pinned_key = make_cache_key x graph_ref supergraph_pinned []

  -- The supergraph of the graph_ref, with the launch ID.
  abbrev pub with_launch : Launched x now launch_id graph_ref s → SupergraphConfig
  with_launch l = record l.supergraph { launch_id = launch_id }

  current_schema_pinned :
      (l : Launched x now launch_id graph_ref s) (c : C)
      → launch_id ≢ ""
      → l.launch.result.core_document ≢ ""
      → cache.get later pinned_key c ≡ some l.entry
      → current_schema x cache later c (with_launch l)
        ≡ shown (
            some (record {
              id = l.launch.id;
              hash = x.sha256_hex l.launch.result.core_document;
              schema = l.launch.result.core_document;
            }))
  unfolding current_schema schema_key string_of pinned_item hash_string
  current_schema_pinned l c named filled found =
      let set : (launch_id == "") ≡ false = ground (arith, eq_iff launch_id "") in
      let document : (l.launch.result.core_document == "") ≡ false =
        ground (arith, eq_iff l.launch.result.core_document "") in
      let same : l.supergraph.graph_ref ≡ graph_ref =
        ((find_supergraph_lem graph_ref s.config).0 l.supergraph l.found).named in
      rw (current_schema, schema_key, set, same, found, trips _ l.entry l.marshalled, document) refl

  -- With the cache on, for a graph_ref that parses, a JSON codec as documented and a cache that
  -- keeps entries of duration -1: pinSchema of a launch that the Studio API gives with a document,
  -- that has an ID and was not pinned before, succeeds with the details of the new state, the
  -- configuration has the launch ID for the graph_ref, and the current schema that the API shows of
  -- it at a later time is the document of the launch with its ID and its hash.
  pub pin_schema-current_schema :
      (l : Launched x now launch_id graph_ref s)
      → l.supergraph.launch_id ≢ launch_id
      → launch_id ≢ ""
      → l.launch.result.core_document ≢ ""
      → (s' : Server C) × (pin_schema x cache now launch_id graph_ref s
          ≡ (ok (get_config_details x cache now s'), s'))
        × (find_supergraph_config_from_graph_ref graph_ref s'.config ≡ ok (with_launch l))
        × (current_schema x cache later s'.cache (with_launch l)
            ≡ shown (
                some (record {
                  id = l.launch.id;
                  hash = x.sha256_hex l.launch.result.core_document;
                  schema = l.launch.result.core_document;
                })))
  unfolding pin_schema pin_launch_id
  pin_schema-current_schema l other named filled =
      let fresh : (l.supergraph.launch_id == launch_id) ≡ false =
        ground (arith, eq_iff l.supergraph.launch_id launch_id) in
      let inserted =
        insert_pinned_cache_entry_lem x cache launch_id graph_ref graph_id variant_id s trips
          enabled parsed keeps pinned_key l.launch.result.core_document l.launch.id l.entry
          l.completed s.cache l.marshalled in
      let c' = (cache.set now pinned_key l.entry (negsuc 0) s.cache).1 in
      (
        record s {
          cache = c';
          config = record s.config {
            supergraphs = set_launch_id graph_ref launch_id s.config.supergraphs;
          };
        },
        rw (pin_schema, l.found, fresh, pin_launch_id, l.fetched, l.dated, enabled, inserted) refl,
        set_launch_id_lem graph_ref launch_id s.config graph_ref l.supergraph l.found
            ∙ rw (eq_refl graph_ref) refl,
        current_schema_pinned l c' named filled (keeps.get-set pinned_key l.entry s.cache),
      )
