-- ===== src/Proxy/SupergraphCaching.antt =====
-- From a miss to a hit: a supergraph that the relay handler of proxy/proxy.go fetched from an uplink
-- is what it answers with afterwards.
use uplink_relay.Common.{
  ℕ, zero, suc, String, ◌≡◌, ◌≢◌, refl, ◌∙◌, true, none, some, [], ◌∷◌, pos, Time, ok, arith,
}
use uplink_relay.Cache.{Cache}
use uplink_relay.Cache.Contents.{contains-make_cache_key}
use uplink_relay.Cache.Keeping.{Keeps}
use uplink_relay.Cache.Keys.{make_cache_key, artifact_variables}
use uplink_relay.Config.{Config}
use uplink_relay.Externals.{Externals, proxied, HttpResponse, RoundTrips, PrintsByKey}
use uplink_relay.Proxy.{
  Relay, reply, relay_handler, relay_miss, attempts, handle_cache_miss, after_attempt, serve_proxy,
  cleaned,
}
use uplink_relay.Proxy.Caching.{
  IsUnpinned, Accepted, relay_handler-hit, relay_handler-miss, after_id-cleaned, operation-cleaned,
  graph-cleaned,
}
use uplink_relay.Proxy.Hit.{handle_cache_hit, send, supergraph_hit}
use uplink_relay.Proxy.Response.{
  modify_proxied_response, response_body, with_body, cache_supergraph_response,
}
use uplink_relay.Proxy.Variables.{default_if_after_id}
use uplink_relay.Schema.{schema_item}
use uplink_relay.Schema.Caching.{get-cache_schema}
use uplink_relay.Uplink.{next, supergraph_query}
use uplink_relay.Wire.{UplinkRelayRequest, UplinkSupergraphSdlResponse}

-- An uplink is reached at the first attempt and answers.
pub record Answers {C : Type 0} (x : Externals) (config : Config) (body : String) (s : Relay C)
    (resp : HttpResponse) : Type 0 where
  pub retries : ℕ
  pub retry_count : config.uplink.retry_count ≡ pos retries
  pub url : String
  pub chosen : (next s.selector).0 ≡ ok url
  pub parsed : x.parsers.parse_url url ≢ none
  pub exchange : x.forward url body ≡ some resp

-- The answer is a supergraph with a date for its ID, and its entry can be marshalled.
pub record IsSupergraph (x : Externals) (config : Config) (now : Time) (resp : HttpResponse)
    : Type 0 where
  pub json : String
  pub read : response_body x resp ≡ some json
  pub is_json : x.is_json json ≡ true
  pub response : UplinkSupergraphSdlResponse
  pub decoded : x.supergraph_response.unmarshal json ≡ some response
  pub id : Time
  pub dated : x.parse_time response.router_config.id ≡ some id
  pub entry : String
  pub marshalled :
      x.item.marshal
        (schema_item x now response.router_config.supergraph_sdl id config.cache.duration)
      ≡ some entry

module _ {C : Type 0} (x : Externals) (cache : Cache C) (config : Config) (now : Time)
    (body key : String) where
  attempts-answered :
      (n : ℕ) (request : UplinkRelayRequest) (s : Relay C) (resp resp' : HttpResponse) (c : C)
      → Answers x config body s resp
      → modify_proxied_response x cache config now key request resp s.cache ≡ (ok resp', c)
      → attempts x cache config now n body key request s
        ≡ reply (proxied resp' ∷ []) (record s { selector = (next s.selector).1; cache = c })
  unfolding attempts after_attempt handle_cache_miss serve_proxy
  attempts-answered zero request s resp resp' c answers modified = ground arith
  attempts-answered (suc n) request s resp resp' c answers modified = ground arith

  -- A request whose first attempt reaches an uplink is answered with the modified response.
  pub relay_miss-answered :
      (request : UplinkRelayRequest) (s : Relay C) (resp resp' : HttpResponse) (c : C)
      → Answers x config body s resp
      → modify_proxied_response x cache config now key request resp s.cache ≡ (ok resp', c)
      → relay_miss x cache config now body key request s
        ≡ reply (proxied resp' ∷ []) (record s { selector = (next s.selector).1; cache = c })
  unfolding relay_miss
  relay_miss-answered request s resp resp' c answers modified =
      ground (arith, attempts-answered answers.retries request s resp resp' c answers modified)

module _ {C : Type 0} (x : Externals) (cache : Cache C) (config : Config)
    (body graph_ref if_after_id : String) {now later : Time} (trips : RoundTrips x.item)
    (prints : PrintsByKey x) (enabled : config.cache.enabled ≡ true)
    (a : Accepted x body supergraph_query graph_ref if_after_id)
    (keeps : Keeps cache now later config.cache.duration) where
  abbrev supergraph_key : String
  supergraph_key =
      make_cache_key x graph_ref supergraph_query (artifact_variables graph_ref if_after_id ∷ [])

  -- The supergraph passes through unchanged, and its entry is found later on.
  modify-supergraph :
      (resp : HttpResponse) (c : C) (sg : IsSupergraph x config now resp)
      → (c' : C) × (modify_proxied_response x cache config now supergraph_key
            (cleaned a.request)
            resp
            c
          ≡ (ok (with_body resp sg.json), c'))
        × (cache.get later supergraph_key c' ≡ some sg.entry)
  unfolding modify_proxied_response cache_supergraph_response default_if_after_id
  modify-supergraph resp c sg =
      let (c', stored, found) =
        get-cache_schema x cache keeps graph_ref sg.response.router_config.supergraph_sdl sg.id
          if_after_id sg.entry c sg.marshalled in
      let after_id =
        after_id-cleaned x cache config body supergraph_query graph_ref if_after_id prints enabled
          a in
      let graph =
        graph-cleaned x cache config body supergraph_query graph_ref if_after_id prints enabled a in
      let operation =
        operation-cleaned x cache config body supergraph_query graph_ref if_after_id prints enabled
          a in
      (
        c',
        rw
            (
              modify_proxied_response, sg.read, sg.is_json, operation, cache_supergraph_response,
              sg.decoded, sg.dated, enabled, default_if_after_id, after_id, graph, after_id, stored,
            )
            refl,
        found,
      )

  -- With the cache on, for JSON codecs and texts of maps as documented and a cache that keeps what
  -- it is given until a later time: an accepted SupergraphSdlQuery that misses the cache and is not
  -- pinned, and whose first uplink answers with a supergraph, gets the answer of the uplink. The
  -- same request at the later time gets the same supergraph from the cache: nothing is asked of an
  -- uplink, and neither the cache nor the selector changes.
  pub relay_handler-supergraph :
      (s : Relay C) (resp : HttpResponse) (sg : IsSupergraph x config now resp)
      → cache.get now supergraph_key s.cache ≡ none
      → IsUnpinned config supergraph_query graph_ref
      → Answers x config body s resp
      → (s' : Relay C) × (relay_handler x cache config now body s
          ≡ reply (proxied (with_body resp sg.json) ∷ []) s')
        × (relay_handler x cache config later body s'
            ≡ reply
                (send (
                  x.supergraph_response.marshal (
                    supergraph_hit x later config.cache.duration (
                      schema_item x now sg.response.router_config.supergraph_sdl sg.id
                        config.cache.duration))))
                s')
  unfolding handle_cache_hit
  relay_handler-supergraph s resp sg missing unpinned answers =
      let (c', modified, found) = modify-supergraph resp s.cache sg in
      let s' : Relay C = record s { selector = (next s.selector).1; cache = c' } in
      let missed =
        relay_handler-miss x cache config body supergraph_query graph_ref if_after_id prints enabled
          a now s missing unpinned in
      let asked =
        relay_miss-answered x cache config now body supergraph_key (cleaned a.request) s resp
          (with_body resp sg.json) c' answers modified in
      let hit =
        relay_handler-hit x cache config body supergraph_query graph_ref if_after_id prints enabled
          a later s' sg.entry
          (schema_item x now sg.response.router_config.supergraph_sdl sg.id config.cache.duration)
          found (trips _ sg.entry sg.marshalled) in
      let is_supergraph =
        contains-make_cache_key x graph_ref supergraph_query a.graph_id a.variant_id a.parsed
          (artifact_variables graph_ref if_after_id) in
      (s', missed ∙ asked, hit ∙ rw (handle_cache_hit, is_supergraph) refl)
