-- ===== src/Proxy/LicenseCaching.antt =====
-- From a miss to a hit: a license that the relay handler of proxy/proxy.go fetched from an uplink is
-- what it answers with afterwards.
use uplink_relay.Common.{
  String, ◌≡◌, refl, ◌∙◌, true, false, none, some, [], ◌∷◌, Time, ok, contains, arith,
}
use uplink_relay.Cache.{Cache}
use uplink_relay.Cache.Contents.{contains-make_cache_key}
use uplink_relay.Cache.Keeping.{Keeps}
use uplink_relay.Cache.Keys.{make_cache_key, artifact_variables}
use uplink_relay.Config.{Config}
use uplink_relay.Entitlements.{license_item}
use uplink_relay.Entitlements.Caching.{cache_license_lem}
use uplink_relay.Externals.{Externals, proxied, HttpResponse, RoundTrips, PrintsByKey}
use uplink_relay.Proxy.{Relay, reply, relay_handler, cleaned}
use uplink_relay.Proxy.Caching.{
  IsUnpinned, Accepted, relay_handler-hit, relay_handler-miss, after_id-cleaned, operation-cleaned,
  graph-cleaned,
}
use uplink_relay.Proxy.Hit.{handle_cache_hit, send, license_hit}
use uplink_relay.Proxy.Response.{
  modify_proxied_response, response_body, with_body, cache_license_response, license_if_after_id,
  jwt_of,
}
use uplink_relay.Proxy.SupergraphCaching.{Answers, relay_miss-answered}
use uplink_relay.Server.{Server}
use uplink_relay.Uplink.{next, supergraph_query, license_query}
use uplink_relay.Wire.{UplinkLicenseResponse}

-- The answer is an entitlement with a date for its ID, and its entry can be marshalled.
pub record IsLicense (x : Externals) (now : Time) (resp : HttpResponse) : Type 0 where
  pub json : String
  pub read : response_body x resp ≡ some json
  pub is_json : x.is_json json ≡ true
  pub response : UplinkLicenseResponse
  pub decoded : x.license_response.unmarshal json ≡ some response
  pub id : Time
  pub dated : x.parse_time response.router_entitlements.id ≡ some id
  pub entry : String
  pub marshalled :
      x.item.marshal (license_item x now (jwt_of response.router_entitlements.entitlement) id)
      ≡ some entry

module _ {C : Type 0} (x : Externals) (cache : Cache C) (config : Config)
    (body graph_ref if_after_id : String) {now later : Time} (trips : RoundTrips x.item)
    (prints : PrintsByKey x) (enabled : config.cache.enabled ≡ true)
    (a : Accepted x body license_query graph_ref if_after_id)
    (keeps : Keeps cache now later config.cache.duration) where
  abbrev pub license_key : String
  license_key =
      make_cache_key x graph_ref license_query (artifact_variables graph_ref if_after_id ∷ [])

  -- The license passes through unchanged, and its entry is found later on.
  modify-license :
      (resp : HttpResponse) (c : C) (l : IsLicense x now resp)
      → modify_proxied_response x cache config now license_key (cleaned a.request) resp c ≡ (
        ok (with_body resp l.json),
        (cache.set now license_key l.entry config.cache.duration c).1,
      )
  unfolding modify_proxied_response cache_license_response license_if_after_id
  modify-license resp c l =
      let server : Server C = record { cache = c; config = config } in
      let stored =
        cache_license_lem x cache graph_ref server keeps
          (jwt_of l.response.router_entitlements.entitlement) l.entry if_after_id l.id c
          l.marshalled in
      let after_id =
        after_id-cleaned x cache config body license_query graph_ref if_after_id prints enabled a in
      let graph =
        graph-cleaned x cache config body license_query graph_ref if_after_id prints enabled a in
      let operation =
        operation-cleaned x cache config body license_query graph_ref if_after_id prints enabled
          a in
      rw
        (
          modify_proxied_response, l.read, l.is_json, operation, cache_license_response, l.decoded,
          l.dated, enabled, license_if_after_id, after_id, graph,
        )
        (ground (arith, stored))

  -- With the cache on, for JSON codecs and texts of maps as documented, a cache that keeps what it
  -- is given until a later time, and a key that does not contain the name SupergraphSdlQuery: an
  -- accepted LicenseQuery that misses the cache and is not pinned, and whose first uplink answers
  -- with an entitlement, gets the answer of the uplink. The same request at the later time gets the
  -- same license from the cache: nothing is asked of an uplink, and neither the cache nor the
  -- selector changes.
  pub relay_handler-license :
      (s : Relay C) (resp : HttpResponse) (l : IsLicense x now resp)
      → cache.get now license_key s.cache ≡ none
      → contains license_key supergraph_query ≡ false
      → IsUnpinned config license_query graph_ref
      → Answers x config body s resp
      → (s' : Relay C) × (relay_handler x cache config now body s
          ≡ reply (proxied (with_body resp l.json) ∷ []) s')
        × (relay_handler x cache config later body s'
            ≡ reply
                (send (
                  x.license_response.marshal (
                    license_hit x (
                      license_item x now
                        (jwt_of l.response.router_entitlements.entitlement)
                        l.id))))
                s')
  unfolding handle_cache_hit
  relay_handler-license s resp l missing no_supergraph unpinned answers =
      let c' = (cache.set now license_key l.entry config.cache.duration s.cache).1 in
      let s' : Relay C = record s { selector = (next s.selector).1; cache = c' } in
      let missed =
        relay_handler-miss x cache config body license_query graph_ref if_after_id prints enabled a
          now s missing unpinned in
      let asked =
        relay_miss-answered x cache config now body license_key (cleaned a.request) s resp
          (with_body resp l.json) c' answers (modify-license resp s.cache l) in
      let hit =
        relay_handler-hit x cache config body license_query graph_ref if_after_id prints enabled a
          later s' l.entry
          (license_item x now (jwt_of l.response.router_entitlements.entitlement) l.id)
          (keeps.get-set license_key l.entry s.cache) (trips _ l.entry l.marshalled) in
      let is_license =
        contains-make_cache_key x graph_ref license_query a.graph_id a.variant_id a.parsed
          (artifact_variables graph_ref if_after_id) in
      (s', missed ∙ asked, hit ∙ rw (handle_cache_hit, no_supergraph, is_license) refl)
