-- ===== src/Entitlements/Caching.antt =====
-- FetchRouterLicense of entitlements/entitlements.go and what the cache has after it.
use uplink_relay.Common.{String, ◌≡◌, refl, true, some, [], ◌∷◌, Time, ok, pair_eq}
use uplink_relay.Cache.{Cache}
use uplink_relay.Cache.Keeping.{Keeps}
use uplink_relay.Cache.Keys.{default_cache_key, make_cache_key, artifact_variables}
use uplink_relay.Config.{SupergraphConfig, find_supergraph_config_from_graph_ref}
use uplink_relay.Entitlements.{
  license_request, license_item, update_nil, cache_license, fetch_router_license,
}
use uplink_relay.Externals.{Externals}
use uplink_relay.Server.{Server}
use uplink_relay.Uplink.{license_query}
use uplink_relay.UplinkRequest.{uplink_request}
use uplink_relay.Wire.{Jwt, UplinkLicenseResponse}

-- What FetchRouterLicense needs to store a license: a configured supergraph without an offline
-- license, and an uplink that answers with an entitlement, dated and with an entry that can be
-- marshalled.
pub record Licensed {C : Type 0} (x : Externals) (now : Time) (graph_ref : String) (s : Server C)
    : Type 0 where
  pub supergraph : SupergraphConfig
  pub found : find_supergraph_config_from_graph_ref graph_ref s.config ≡ ok supergraph
  pub online : supergraph.offline_license ≡ ""
  pub body : String
  pub answered :
      uplink_request x s.config (license_request supergraph.apollo_key graph_ref) ≡ ok body
  pub response : UplinkLicenseResponse
  pub decoded : x.license_response.unmarshal body ≡ some response
  pub expiration : Time
  pub dated : x.parse_time response.router_entitlements.id ≡ some expiration
  pub enabled : s.config.cache.enabled ≡ true
  pub license : Jwt
  pub entitled : response.router_entitlements.entitlement ≡ some license
  pub entry : String
  pub marshalled : x.item.marshal (license_item x now license.jwt expiration) ≡ some entry

module _ {C : Type 0} (x : Externals) (cache : Cache C) {now later : Time} (graph_ref : String)
    (s : Server C) (keeps : Keeps cache now later s.config.cache.duration) where
  pub cache_license_lem :
      (jwt entry if_after_id : String) (expiration : Time) (c : C)
      → x.item.marshal (license_item x now jwt expiration) ≡ some entry
      → cache_license x cache now graph_ref jwt expiration s.config.cache.duration if_after_id c ≡ (
        ok tt,
        (cache.set now
            (make_cache_key x graph_ref license_query
              (artifact_variables graph_ref if_after_id ∷ []))
            entry
            s.config.cache.duration
            c).1,
      )
  unfolding cache_license update_nil license_item
  cache_license_lem jwt entry if_after_id expiration c marshalled =
      rw marshalled (pair_eq _ (ok tt) (keeps.set_ok _ entry c))

  -- For a cache that keeps what it is given until a later time: FetchRouterLicense that gets an
  -- entitlement, for a configured supergraph without an offline license and with the cache on,
  -- succeeds, leaves the configuration alone, and its entry is found at the later time under the
  -- key of the requests without an ifAfterId.
  pub fetch_router_license-caches :
      (l : Licensed x now graph_ref s)
      → (c' : C) × (fetch_router_license x cache now graph_ref s ≡ (ok tt, record s { cache = c' }))
        × (cache.get later (default_cache_key x graph_ref license_query) c' ≡ some l.entry)
  unfolding fetch_router_license default_cache_key
  fetch_router_license-caches l =
      let key = make_cache_key x graph_ref license_query (artifact_variables graph_ref "" ∷ []) in
      let stored = cache_license_lem l.license.jwt l.entry "" l.expiration s.cache l.marshalled in
      (
        (cache.set now key l.entry s.config.cache.duration s.cache).1,
        rw (l.found, l.online, l.answered, l.decoded, l.dated, l.enabled, l.entitled, stored) refl,
        keeps.get-set key l.entry s.cache,
      )
