-- ===== src/Proxy/Warming.antt =====
-- What polling or the management API fetched before is what the relay handler answers with.
use uplink_relay.Common.{String, ◌≡◌, refl, ◌∙◌, ok, Time, false, contains}
use uplink_relay.Cache.{Cache}
use uplink_relay.Cache.Contents.{contains-make_cache_key}
use uplink_relay.Cache.Keeping.{Keeps}
use uplink_relay.Cache.Keys.{artifact_variables, default_cache_key}
use uplink_relay.Entitlements.{fetch_router_license, license_item}
use uplink_relay.Entitlements.Caching.{Licensed, fetch_router_license-caches}
use uplink_relay.Externals.{Externals, RoundTrips, PrintsByKey}
use uplink_relay.Proxy.{Relay, reply, relay_handler}
use uplink_relay.Proxy.Caching.{Accepted, relay_handler-hit}
use uplink_relay.Proxy.Hit.{handle_cache_hit, send, supergraph_hit, license_hit}
use uplink_relay.Schema.{fetch_schema, schema_item}
use uplink_relay.Schema.Caching.{Fetched, fetch_schema-caches}
use uplink_relay.Server.{Server}
use uplink_relay.Uplink.{supergraph_query, license_query}

module _ {C : Type 0} (x : Externals) (cache : Cache C) {now later : Time} (graph_ref body : String)
    (server : Server C) (trips : RoundTrips x.item) (prints : PrintsByKey x)
    (a : Accepted x body supergraph_query graph_ref "")
    (keeps : Keeps cache now later server.config.cache.duration) where
  -- For JSON codecs and texts of maps as documented and a cache that keeps what it is given until a
  -- later time: after FetchSchema got a supergraph, an accepted SupergraphSdlQuery without an
  -- ifAfterId gets that supergraph from the cache at the later time, and the state of the relay
  -- stays as it is.
  pub fetch_schema-relay_handler :
      (s : Relay C) (f : Fetched x now graph_ref server)
      → (c' : C) × (fetch_schema x cache now graph_ref server
          ≡ (ok tt, record server { cache = c' }))
        × (relay_handler x cache server.config later body (record s { cache = c' })
            ≡ reply
                (send (
                  x.supergraph_response.marshal (
                    supergraph_hit x later server.config.cache.duration (
                      schema_item x now f.response.router_config.supergraph_sdl f.id
                        server.config.cache.duration))))
                (record s { cache = c' }))
  unfolding handle_cache_hit default_cache_key
  fetch_schema-relay_handler s f =
      let (c', done, found) = fetch_schema-caches x cache graph_ref server keeps f in
      let hit =
        relay_handler-hit x cache server.config body supergraph_query graph_ref "" prints f.enabled
          a later (record s { cache = c' }) f.entry
          (schema_item x now f.response.router_config.supergraph_sdl f.id
            server.config.cache.duration)
          found (trips _ f.entry f.marshalled) in
      let is_supergraph =
        contains-make_cache_key x graph_ref supergraph_query a.graph_id a.variant_id a.parsed
          (artifact_variables graph_ref "") in
      (c', done, hit ∙ rw (handle_cache_hit, is_supergraph) refl)

module _ {C : Type 0} (x : Externals) (cache : Cache C) {now later : Time} (graph_ref body : String)
    (server : Server C) (trips : RoundTrips x.item) (prints : PrintsByKey x)
    (a : Accepted x body license_query graph_ref "")
    (keeps : Keeps cache now later server.config.cache.duration) where
  -- For JSON codecs and texts of maps as documented, a cache that keeps what it is given until a
  -- later time, and a key of the license that does not contain the name SupergraphSdlQuery: after
  -- FetchRouterLicense got an entitlement, an accepted LicenseQuery without an ifAfterId gets that
  -- license from the cache at the later time, and the state of the relay stays as it is.
  pub fetch_router_license-relay_handler :
      (s : Relay C) (l : Licensed x now graph_ref server)
      → contains (default_cache_key x graph_ref license_query) supergraph_query ≡ false
      → (c' : C) × (fetch_router_license x cache now graph_ref server
          ≡ (ok tt, record server { cache = c' }))
        × (relay_handler x cache server.config later body (record s { cache = c' })
            ≡ reply
                (send (
                  x.license_response.marshal
                    (license_hit x (license_item x now l.license.jwt l.expiration))))
                (record s { cache = c' }))
  unfolding handle_cache_hit default_cache_key
  fetch_router_license-relay_handler s l no_supergraph =
      let (c', done, found) = fetch_router_license-caches x cache graph_ref server keeps l in
      let hit =
        relay_handler-hit x cache server.config body license_query graph_ref "" prints l.enabled a
          later (record s { cache = c' }) l.entry (license_item x now l.license.jwt l.expiration)
          found (trips _ l.entry l.marshalled) in
      let is_license =
        contains-make_cache_key x graph_ref license_query a.graph_id a.variant_id a.parsed
          (artifact_variables graph_ref "") in
      (c', done, hit ∙ rw (handle_cache_hit, no_supergraph, is_license) refl)
