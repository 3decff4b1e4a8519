-- ===== src/System/Relaying.antt =====
-- The relay handler of proxy/proxy.go and what it caches.
use uplink_relay.Common.{
  ℕ, zero, suc, Bool, String, refl, [], ◌∷◌, Time, ℤ, arith, Result-cases, inl, inr, Preserves,
  preserves_rules, bind_try-Preserves, if_known-Preserves, negsuc, inl, inr, ◌≡◌, some, sym, ◌∙◌,
  eq_iff, true, ◌==◌,
}
use uplink_relay.Cache.{Cache}
use uplink_relay.Cache.Keys.{make_cache_key, default_cache_key, artifact_variables}
use uplink_relay.Cache.Newest.{update_newest}
use uplink_relay.PersistedQueries.{manifest_item}
use uplink_relay.Cache.Writes.{manifest_filed, IsClosed, update_newest-Preserves}
use uplink_relay.Config.{Config}
use uplink_relay.Externals.{Externals, HttpResponse, http_error}
use uplink_relay.Proxy.{
  Relay, Outcome, reply, relay_handler, relay_cached, relay_uncached, relay_pinned, relay_miss,
  attempts, after_attempt, cleaned, handle_cache_miss, serve_proxy,
}
use uplink_relay.Uplink.{next, persisted_queries_query}
use uplink_relay.Proxy.Response.{
  modify_proxied_response, cache_supergraph_response, cache_license_response, cache_pq_response,
  license_if_after_id,
}
use uplink_relay.System.Fetching.{
  cache_schema-Preserves, cache_license-Preserves, cache_persisted_query_chunk_data-Preserves,
}
use uplink_relay.Wire.{UplinkRelayRequest, Variables}

module _ {C : Type 0} (x : Externals) (cache : Cache C) (config : Config) (now : Time) {pins : Bool}
    {P : C → Type 0} (closed : IsClosed x pins cache P) where
  cache_supergraph_response-Preserves :
      (request : UplinkRelayRequest) (resp : HttpResponse) (body : String)
      → Preserves P (cache_supergraph_response x cache config now request resp body)
  unfolding cache_supergraph_response
  cache_supergraph_response-Preserves request resp body =
      search (preserves_rules, cache_schema-Preserves x cache closed) depth 14

  cache_license_response-Preserves :
      (request : UplinkRelayRequest) (resp : HttpResponse) (body : String)
      → Preserves P (cache_license_response x cache config now request resp body)
  unfolding cache_license_response license_if_after_id
  cache_license_response-Preserves request resp body =
      search (preserves_rules, cache_license-Preserves x cache closed) depth 14

  module _ (graph_ref operation_name : String) (variables : Variables) where
    abbrev key : String
    key = make_cache_key x graph_ref operation_name (variables ∷ [])

    -- The manifest under the key of the request, and the newest one.
    set_key-Preserves :
        (manifest id entry : String) (d : ℤ)
        → operation_name ≡ persisted_queries_query
        → x.item.marshal (manifest_item x now manifest id d) ≡ some entry
        → Preserves P (cache.set now key entry d)
    set_key-Preserves manifest id entry d named marshalled =
        closed now key entry d
          (manifest_filed graph_ref manifest id variables d (rw named refl) marshalled (inl refl))

    newest-Preserves :
        (other manifest id : String) (d : ℤ)
        → Preserves P (
            update_newest x cache now other persisted_queries_query
              (manifest_item x now manifest id d))
    unfolding default_cache_key
    newest-Preserves other manifest id d =
        update_newest-Preserves x cache now other persisted_queries_query _ (λ entry marshalled.
          closed now _ entry (negsuc 0) (
            manifest_filed other manifest id (artifact_variables other "") d refl marshalled
              (inr refl)))

    cache_pq_response-Preserves :
        (request : UplinkRelayRequest) (resp : HttpResponse) (body : String)
        → operation_name ≡ persisted_queries_query
        → Preserves P (cache_pq_response x cache config now key request resp body)
    unfolding cache_pq_response
    cache_pq_response-Preserves request resp body named =
        search
          (
            bind_try-Preserves,
            preserves_rules,
            set_key-Preserves,
            newest-Preserves,
            cache_persisted_query_chunk_data-Preserves x cache closed,
          )
          depth 14

    modify_proxied_response-Preserves :
        (request : UplinkRelayRequest) (resp : HttpResponse)
        → request.operation_name ≡ operation_name
        → Preserves P (modify_proxied_response x cache config now key request resp)
    unfolding modify_proxied_response
    modify_proxied_response-Preserves request resp same =
        let manifest : (body : String)
            → (request.operation_name == persisted_queries_query) ≡ true
            → Preserves P (cache_pq_response x cache config now key request resp body) =
          λ body named.
            cache_pq_response-Preserves request resp body
              (sym same ∙ (eq_iff request.operation_name persisted_queries_query).0 named) in
        search
          (
            if_known-Preserves, preserves_rules, cache_supergraph_response-Preserves,
            cache_license_response-Preserves, manifest,
          )
          depth 9

    serve_proxy-keeps :
        (target body : String) (request : UplinkRelayRequest) (s : Relay C)
        → request.operation_name ≡ operation_name
        → P s.cache
        → P (serve_proxy x cache config now target body key request s).after.cache
    unfolding serve_proxy
    serve_proxy-keeps target body request s same h =
        let modified = λ (resp : HttpResponse).
          (modify_proxied_response-Preserves request resp same).at s.cache h in
        grind (arith, modified)

    handle_cache_miss-keeps :
        (body : String) (request : UplinkRelayRequest) (s : Relay C)
        → request.operation_name ≡ operation_name
        → P s.cache
        → P (handle_cache_miss x cache config now body key request s).after.cache
    unfolding handle_cache_miss
    handle_cache_miss-keeps body request s same h =
        let served = λ (url : String).
          serve_proxy-keeps url body request (record s { selector = (next s.selector).1 }) same h in
        grind (arith, served)

    after_attempt-keeps :
        (o : Outcome C (Unit {0})) (again : Relay C → Outcome C (Unit {0}))
        → P o.after.cache
        → ((s : Relay C) → P s.cache → P (again s).after.cache)
        → P (after_attempt x cache config now o again).after.cache
    unfolding after_attempt
    after_attempt-keeps o again h later = elim (Result-cases o.returned) [
      | inl (a, done) ↦ rw done h
      | inr (inl (e, failed_)) ↦ rw failed_ (later o.after h)
      | inr (inr crashed) ↦ rw crashed h
    ]

    attempts-keeps :
        (left : ℕ) (body : String) (request : UplinkRelayRequest) (s : Relay C)
        → request.operation_name ≡ operation_name
        → P s.cache
        → P (attempts x cache config now left body key request s).after.cache
    unfolding attempts after_attempt
    attempts-keeps zero body request s same h =
        after_attempt-keeps (handle_cache_miss x cache config now body key request s)
          (reply (http_error "Internal Server Error" 500 ∷ []))
          (handle_cache_miss-keeps body request s same h) (λ s' h'. h')
    attempts-keeps (suc left) body request s same h =
        after_attempt-keeps (handle_cache_miss x cache config now body key request s)
          (attempts x cache config now left body key request)
          (handle_cache_miss-keeps body request s same h)
          (λ s' h'. attempts-keeps left body request s' same h')

    relay_miss-keeps :
        (body : String) (request : UplinkRelayRequest) (s : Relay C)
        → request.operation_name ≡ operation_name
        → P s.cache
        → P (relay_miss x cache config now body key request s).after.cache
    unfolding relay_miss
    relay_miss-keeps body request s same h =
        let tried = λ (left : ℕ). attempts-keeps left body request s same h in grind (arith, tried)

  relay_cached-keeps :
      (body graph_ref : String) (request : UplinkRelayRequest) (parts : String × String)
      (s : Relay C)
      → P s.cache
      → P (relay_cached x cache config now body graph_ref request parts s).after.cache
  unfolding relay_cached relay_uncached relay_pinned
  relay_cached-keeps body graph_ref request parts s h = ground (
    arith,
    relay_miss-keeps graph_ref request.operation_name request.variables body request s refl h,
  )

  pub relay_handler-keeps :
      (body : String) (s : Relay C)
      → P s.cache
      → P (relay_handler x cache config now body s).after.cache
  unfolding relay_handler
  relay_handler-keeps body s h =
      let cached = λ (graph_ref : String) (request : UplinkRelayRequest) (parts : String × String).
        relay_cached-keeps body graph_ref (cleaned request) parts s h in
      grind (arith, cached)
