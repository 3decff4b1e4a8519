-- ===== src/Proxy.antt =====
-- proxy/proxy.go: the handler of the relay endpoint.
pub mod Variables
pub mod Response
pub mod Hit
pub mod Retries
pub mod Caching
pub mod SupergraphCaching
pub mod LicenseCaching
pub mod ManifestCaching
pub mod Warming
pub mod Polled
pub mod Manifests
pub mod Pinned
pub mod Versions
pub mod Transparency
pub mod Disabled
use uplink_relay.Common.{
  ℕ, zero, suc, String, Bool, true, false, not, ◌&&◌, Option, none, some, List, [], ◌∷◌, ◌++◌, ℤ,
  pos, negsuc, Time, ◌==◌, if◌then◌else◌, Result, ok, err, panicked, Error, library, without,
  lookup,
}
use uplink_relay.Cache.{CacheItem, Cache}
use uplink_relay.Cache.Keys.{make_cache_key}
use uplink_relay.Config.{Config, SupergraphConfig, find_supergraph_config_from_graph_ref}
use uplink_relay.Externals.{Externals, Write, http_error, proxied}
use uplink_relay.GraphRef.{parse_graph_ref}
use uplink_relay.Pinning.Entry.{handle_pinned_entry}
use uplink_relay.Uplink.{
  RoundRobinSelector, next, supergraph_query, license_query, persisted_queries_query,
}
use uplink_relay.Wire.{UplinkRelayRequest, Value}
use Variables.{as_text, is_nil, default_if_after_id}
use Response.{modify_proxied_response}
use Hit.{handle_cache_hit}

-- What the handler may change: the cache and the selector of uplinks.
pub record Relay (C : Type 0) : Type 0 where
  pub cache : C
  pub selector : RoundRobinSelector

-- One call of a handler: what it wrote, the value or error that it returned, and the state after it.
pub record Outcome (C A : Type 0) : Type 0 where
  pub writes : List Write
  pub returned : Result A
  pub after : Relay C

module _ {C : Type 0} where
  abbrev pub reply : List Write → Relay C → Outcome C (Unit {0})
  reply writes s = record { writes = writes; returned = ok tt; after = s }

  abbrev pub crash : Relay C → Outcome C (Unit {0})
  crash s = record { writes = []; returned = panicked; after = s }

  -- the writes of a handler that only reads
  abbrev pub replying : Result (List Write) → Relay C → Outcome C (Unit {0})
  replying (ok writes) s = reply writes s
  replying (err _) s = reply [] s
  replying panicked s = crash s

-- Whether the configuration of the supergraph pins the artifact of an operation.
unfoldable pub is_pinned : String → SupergraphConfig → Bool
is_pinned operation_name supergraph =
    if operation_name == supergraph_query
    then not (supergraph.launch_id == "")
    else if operation_name == license_query
    then not (supergraph.offline_license == "")
    else if operation_name == persisted_queries_query
    then not (supergraph.persisted_query_version == "")
    else false

-- The request as the cache sees it: without the API key, and with an ifAfterId.
unfoldable pub cleaned : UplinkRelayRequest → UplinkRelayRequest
unfolding default_if_after_id
cleaned request = record request {
  variables = default_if_after_id (without "apiKey" request.variables);
}

module _ {C : Type 0} (x : Externals) (cache : Cache C) (config : Config) (now : Time) where
  -- proxy.ServeHTTP. A failed exchange, or an error of ModifyResponse, goes to the ErrorHandler,
  -- which writes nothing.
  unfoldable pub serve_proxy :
      String → String → String → UplinkRelayRequest → Relay C → Outcome C (Unit {0})
  serve_proxy target body cache_key request s = elim (x.forward target body) [
    | none ↦ reply [] s
    | some resp ↦
        let (modified, c) =
          modify_proxied_response x cache config now cache_key request resp s.cache in
        let s' : Relay C = record s { cache = c } in
        elim modified [
          | ok resp' ↦ reply (proxied resp' ∷ []) s'
          | err _ ↦ reply [] s'
          | panicked ↦ crash s'
        ]
  ]

  unfoldable pub handle_cache_miss :
      String → String → UplinkRelayRequest → Relay C → Outcome C (Unit {0})
  unfolding serve_proxy
  handle_cache_miss body cache_key request s =
      let (chosen, selector) = next s.selector in
      let s' : Relay C = record s { selector = selector } in
      elim chosen [
        | ok url ↦ elim (x.parsers.parse_url url) [
          | none ↦ record {
            writes = http_error "Uplink Service Unavailable" 503 ∷ [];
            returned = err (library "url.Parse");
            after = s';
          }
          | some _ ↦ serve_proxy url body cache_key request s'
        ]
        | err _ ↦ crash s'
        | panicked ↦ crash s'
      ]

  -- What follows one attempt: the end, or another attempt after what was written.
  unfoldable pub after_attempt :
      Outcome C (Unit {0}) → (Relay C → Outcome C (Unit {0})) → Outcome C (Unit {0})
  after_attempt o again = elim o.returned [
    | ok _ ↦ o
    | err _ ↦ let later = again o.after in record later { writes = o.writes ++ later.writes }
    | panicked ↦ o
  ]

  -- The retry loop, with the number of attempts left after this one.
  unfoldable pub attempts :
      ℕ → String → String → UplinkRelayRequest → Relay C → Outcome C (Unit {0})
  unfolding handle_cache_miss after_attempt
  attempts zero body cache_key request s =
      after_attempt (handle_cache_miss body cache_key request s)
        (reply (http_error "Internal Server Error" 500 ∷ []))
  attempts (suc left) body cache_key request s =
      after_attempt (handle_cache_miss body cache_key request s)
        (attempts left body cache_key request)

  -- The loop makes RetryCount + 1 attempts, none if RetryCount is negative.
  unfoldable pub relay_miss : String → String → UplinkRelayRequest → Relay C → Outcome C (Unit {0})
  unfolding attempts
  relay_miss body cache_key request s = elim config.uplink.retry_count [
    | pos n ↦ attempts n body cache_key request s
    | negsuc _ ↦ reply (http_error "Internal Server Error" 500 ∷ []) s
  ]

  -- The answer from an entry that may be nil, or the error of the pinned schema.
  unfoldable pub relay_pinned :
      String → String → String → Result (Option CacheItem) → Relay C → Outcome C (Unit {0})
  relay_pinned operation_name cache_key if_after_id pinned s = elim pinned [
    | ok (some item) ↦
        replying (handle_cache_hit x now config.cache.duration cache_key (some item) if_after_id) s
    | ok none ↦
        if operation_name == supergraph_query
        then reply (http_error "Internal Server Error" 500 ∷ []) s
        else replying (handle_cache_hit x now config.cache.duration cache_key none if_after_id) s
    | err _ ↦
        if operation_name == supergraph_query
        then reply (http_error "Internal Server Error" 500 ∷ []) s
        else replying (handle_cache_hit x now config.cache.duration cache_key none if_after_id) s
    | panicked ↦ crash s
  ]

  -- A request that the cache does not answer: the pinned artifact, or the uplink.
  unfoldable pub relay_uncached :
      String
      → String
      → String
      → UplinkRelayRequest
      → String × String
      → Relay C
      → Outcome C (Unit {0})
  unfolding relay_miss relay_pinned is_pinned
  relay_uncached body cache_key graph_ref request (graph_id, variant_id) s =
      elim (find_supergraph_config_from_graph_ref graph_ref config) [
        | ok supergraph ↦
            if is_pinned request.operation_name supergraph
            then elim (as_text (lookup "ifAfterId" request.variables)) [
              | none ↦ crash s
              | some if_after_id ↦
                  relay_pinned request.operation_name cache_key if_after_id
                    (handle_pinned_entry x cache now s.cache graph_id variant_id
                      request.operation_name if_after_id)
                    s
            ]
            else relay_miss body cache_key request s
        | err _ ↦ relay_miss body cache_key request s
        | panicked ↦ crash s
      ]

  -- The lookup of a cleaned request under its key, and what follows it.
  unfoldable pub relay_cached :
      String → String → UplinkRelayRequest → String × String → Relay C → Outcome C (Unit {0})
  unfolding relay_uncached
  relay_cached body graph_ref request parts s =
      let cache_key = make_cache_key x graph_ref request.operation_name (request.variables ∷ []) in
      if config.cache.enabled
      then elim (cache.get now cache_key s.cache) [
        | none ↦ relay_uncached body cache_key graph_ref request parts s
        | some content ↦ elim (x.item.unmarshal content) [
          | none ↦ reply (http_error "json.Unmarshal" 500 ∷ []) s
          | some item ↦ elim (as_text (lookup "ifAfterId" request.variables)) [
            | none ↦ crash s
            | some if_after_id ↦
                replying
                  (handle_cache_hit x now config.cache.duration cache_key (some item) if_after_id) s
          ]
        ]
      ]
      else relay_miss body cache_key request s

  abbrev bad_request : Relay C → Outcome C (Unit {0})
  bad_request = reply (http_error "Bad Request" 400 ∷ [])

  -- RelayHandler, for the body of a request.
  unfoldable pub relay_handler : String → Relay C → Outcome C (Unit {0})
  unfolding relay_cached cleaned
  relay_handler body s = elim (x.request.unmarshal body) [
    | none ↦ bad_request s
    | some request ↦
        if is_nil (lookup "graph_ref" request.variables)
        then bad_request s
        else elim (as_text (lookup "graph_ref" request.variables)) [
          | none ↦ crash s
          | some graph_ref ↦ elim (parse_graph_ref graph_ref) [
            | ok parts ↦ relay_cached body graph_ref (cleaned request) parts s
            | err _ ↦ bad_request s
            | panicked ↦ crash s
          ]
        ]
  ]
