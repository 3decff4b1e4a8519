-- ===== src/Proxy/Disabled.antt =====
-- The relay handler of proxy/proxy.go with the cache turned off.
use uplink_relay.Common.{
  ℕ, zero, suc, String, ◌≡◌, false, [], ◌∷◌, Time, arith, Result-cases, Option-cases, ℤ-cases,
  lookup, inl, inr,
}
use uplink_relay.Cache.{Cache}
use uplink_relay.Config.{Config}
use uplink_relay.Externals.{Externals, HttpResponse}
use uplink_relay.Proxy.{
  Relay, relay_handler, relay_cached, relay_miss, attempts, handle_cache_miss, after_attempt,
  serve_proxy, cleaned,
}
use uplink_relay.Proxy.Response.{
  modify_proxied_response, cache_supergraph_response, cache_license_response, cache_pq_response,
}
use uplink_relay.Proxy.Variables.{as_text}
use uplink_relay.Uplink.{next}
use uplink_relay.Cache.Keys.{make_cache_key}
use uplink_relay.Wire.{UplinkRelayRequest}

module _ {C : Type 0} (x : Externals) (cache : Cache C) (config : Config) (now : Time)
    (off : config.cache.enabled ≡ false) where
  modify-off :
      (key : String) (request : UplinkRelayRequest) (resp : HttpResponse) (c : C)
      → (modify_proxied_response x cache config now key request resp c).1 ≡ c
  unfolding modify_proxied_response cache_supergraph_response cache_license_response
      cache_pq_response
  modify-off key request resp c = ground arith

  serve-off :
      (url body key : String) (request : UplinkRelayRequest) (s : Relay C)
      → (serve_proxy x cache config now url body key request s).after.cache ≡ s.cache
  unfolding serve_proxy
  serve-off url body key request s = elim (Option-cases (x.forward url body)) [
    | inl unreachable ↦ ground arith
    | inr (resp, answered) ↦ ground (arith, modify-off key request resp s.cache)
  ]

  miss-off :
      (body key : String) (request : UplinkRelayRequest) (s : Relay C)
      → (handle_cache_miss x cache config now body key request s).after.cache ≡ s.cache
  unfolding handle_cache_miss
  miss-off body key request s = elim (Result-cases (next s.selector).0) [
    | inl (url, chosen) ↦
        ground (arith, serve-off url body key request (record s { selector = (next s.selector).1 }))
    | inr (inl (e, failed_)) ↦ ground arith
    | inr (inr crashed) ↦ ground arith
  ]

  attempts-off :
      (n : ℕ) (body key : String) (request : UplinkRelayRequest) (s : Relay C)
      → (attempts x cache config now n body key request s).after.cache ≡ s.cache
  unfolding attempts after_attempt
  attempts-off zero body key request s = ground (arith, miss-off body key request s)
  attempts-off (suc n) body key request s =
      let first = handle_cache_miss x cache config now body key request s in
      ground (arith, miss-off body key request s, attempts-off n body key request first.after)

  relay_miss-off :
      (body key : String) (request : UplinkRelayRequest) (s : Relay C)
      → (relay_miss x cache config now body key request s).after.cache ≡ s.cache
  unfolding relay_miss
  relay_miss-off body key request s = elim (ℤ-cases config.uplink.retry_count) [
    | inl (n, attempted) ↦ ground (arith, attempts-off n body key request s)
    | inr (n, none_) ↦ ground arith
  ]

  -- With the cache turned off the relay handler leaves it as it is, whatever the request and the
  -- answers of the uplinks are.
  pub relay_handler-off :
      (body : String) (s : Relay C)
      → (relay_handler x cache config now body s).after.cache ≡ s.cache
  unfolding relay_handler relay_cached
  relay_handler-off body s = elim (Option-cases (x.request.unmarshal body)) [
    | inl garbled ↦ ground arith
    | inr (request, decoded) ↦
        elim (Option-cases (as_text (lookup "graph_ref" request.variables))) [
          | inl nameless ↦ ground arith
          | inr (graph_ref, named) ↦
              let key =
                make_cache_key x graph_ref (cleaned request).operation_name
                  ((cleaned request).variables ∷ []) in
              ground (arith, relay_miss-off body key (cleaned request) s)
        ]
  ]
