-- ===== src/Schema/Caching.antt =====
-- FetchSchema of schema/schema.go and what the cache has after it.
use uplink_relay.Common.{
  String, ◌≡◌, ◌≢◌, refl, true, Option-cases, inl, inr, some, [], ◌∷◌, ℤ, negsuc, Time, ok,
  panicked, ignore_lem, pair_eq, arith,
}
use uplink_relay.Cache.{Cache, CacheItem}
use uplink_relay.Cache.Keeping.{Keeps}
use uplink_relay.Cache.Keys.{default_cache_key, make_cache_key, artifact_variables}
use uplink_relay.Cache.Newest.{update_newest}
use uplink_relay.Config.{SupergraphConfig, find_supergraph_config_from_graph_ref}
use uplink_relay.Externals.{Externals}
use uplink_relay.Schema.{schema_request, schema_item, cache_schema, fetch_schema}
use uplink_relay.Server.{Server}
use uplink_relay.Uplink.{supergraph_query}
use uplink_relay.UplinkRequest.{uplink_request}
use uplink_relay.Wire.{UplinkSupergraphSdlResponse}

module _ {C : Type 0} (x : Externals) (cache : Cache C) {now later : Time} {duration : ℤ}
    (keeps : Keeps cache now later duration) where
  update_newest-returns :
      (graph_ref operation_name : String) (item : CacheItem) (c : C)
      → (update_newest x cache now graph_ref operation_name item c).0 ≢ panicked
  unfolding update_newest
  update_newest-returns graph_ref operation_name item c =
      elim (Option-cases (x.item.marshal item)) [
        | inl bad ↦ ground arith
        | inr (entry, good) ↦ ground (
          arith,
          keeps.set_returns (default_cache_key x graph_ref operation_name) entry (negsuc 0) c,
        )
      ]

  -- After CacheSchema the entry of the ifAfterId is found later on.
  pub get-cache_schema :
      (graph_ref sdl : String) (id : Time) (if_after_id entry : String) (c : C)
      → x.item.marshal (schema_item x now sdl id duration) ≡ some entry
      → (c' : C) × (cache_schema x cache now graph_ref sdl id if_after_id duration c ≡ (ok tt, c'))
        × (cache.get later
              (make_cache_key x graph_ref supergraph_query
                (artifact_variables graph_ref if_after_id ∷ []))
              c'
            ≡ some entry)
  unfolding cache_schema
  get-cache_schema graph_ref sdl id if_after_id entry c marshalled =
      let m =
        update_newest x cache now graph_ref supergraph_query (schema_item x now sdl id duration) in
      let key =
        make_cache_key x graph_ref supergraph_query
          (artifact_variables graph_ref if_after_id ∷ []) in
      let quiet = ignore_lem m c (update_newest-returns graph_ref supergraph_query _ c) in
      let stored =
        pair_eq (cache.set now key entry duration (m c).1) (ok tt)
          (keeps.set_ok key entry (m c).1) in
      (
        (cache.set now key entry duration (m c).1).1,
        rw (marshalled, quiet) stored,
        keeps.get-set key entry (m c).1,
      )

-- What FetchSchema needs to store a supergraph: a configured supergraph without a launch ID, and an
-- uplink that answers with a supergraph, dated and with an entry that can be marshalled.
pub record Fetched {C : Type 0} (x : Externals) (now : Time) (graph_ref : String) (s : Server C)
    : Type 0 where
  pub supergraph : SupergraphConfig
  pub found : find_supergraph_config_from_graph_ref graph_ref s.config ≡ ok supergraph
  pub not_pinned : supergraph.launch_id ≡ ""
  pub body : String
  pub answered :
      uplink_request x s.config (schema_request supergraph.apollo_key graph_ref) ≡ ok body
  pub response : UplinkSupergraphSdlResponse
  pub decoded : x.supergraph_response.unmarshal body ≡ some response
  pub id : Time
  pub dated : x.parse_time response.router_config.id ≡ some id
  pub enabled : s.config.cache.enabled ≡ true
  pub entry : String
  pub marshalled :
      x.item.marshal
        (schema_item x now response.router_config.supergraph_sdl id s.config.cache.duration)
      ≡ some entry

module _ {C : Type 0} (x : Externals) (cache : Cache C) {now later : Time} (graph_ref : String)
    (s : Server C) (keeps : Keeps cache now later s.config.cache.duration) where
  -- For a cache that keeps what it is given until a later time: FetchSchema that gets a supergraph,
  -- for a configured supergraph without a launch ID and with the cache on, succeeds, leaves the
  -- configuration alone, and its entry is found at the later time under the key of the requests
  -- without an ifAfterId.
  pub fetch_schema-caches :
      (f : Fetched x now graph_ref s)
      → (c' : C) × (fetch_schema x cache now graph_ref s ≡ (ok tt, record s { cache = c' }))
        × (cache.get later (default_cache_key x graph_ref supergraph_query) c' ≡ some f.entry)
  unfolding fetch_schema default_cache_key
  fetch_schema-caches f =
      let (c', stored, got) =
        get-cache_schema x cache keeps graph_ref f.response.router_config.supergraph_sdl f.id ""
          f.entry s.cache f.marshalled in
      (c', rw (f.found, f.not_pinned, f.answered, f.decoded, f.dated, f.enabled, stored) refl, got)
