-- ===== src/Proxy/Transparency.antt =====
-- What the relay changes in the answer of an uplink: modifyProxiedResponse of proxy/proxy.go.
use uplink_relay.Common.{
  String, Bool, true, false, Option, none, some, ◌&&◌, ◌==◌, if◌then◌else◌, ◌≡◌, ◌≢◌, Time, ok,
  arith, eq_iff,
}
use uplink_relay.Cache.{Cache}
use uplink_relay.Config.{Config}
use uplink_relay.Externals.{Externals, HttpResponse}
use uplink_relay.Proxy.Response.{
  with_body, drained, response_body, modify_proxied_response, cache_supergraph_response,
  cache_license_response,
}
use uplink_relay.Uplink.{supergraph_query, license_query, persisted_queries_query}
use uplink_relay.Wire.{UplinkRelayRequest}

abbrev is_some : {A : Type 0} → Option A → Bool
is_some none = false
is_some (some a) = true

module _ {C : Type 0} (x : Externals) (cache : Cache C) (config : Config) (now : Time) where
  -- Whether the body is put back: it is JSON and, for a schema or a license, unmarshals as one.
  abbrev pub is_restored : String → String → Bool
  is_restored operation_name json =
      x.is_json json
      && (if operation_name == supergraph_query
          then is_some (x.supergraph_response.unmarshal json)
          else if operation_name == license_query
          then is_some (x.license_response.unmarshal json)
          else true)

  supergraph_lem :
      (request : UplinkRelayRequest) (resp resp' : HttpResponse) (json : String) (c : C)
      → (cache_supergraph_response x cache config now request resp json c).0 ≡ ok resp'
      → resp' ≡ (
          if is_some (x.supergraph_response.unmarshal json)
          then with_body resp json
          else drained resp)
  unfolding cache_supergraph_response
  supergraph_lem request resp resp' json c h = ground arith

  license_lem :
      (request : UplinkRelayRequest) (resp resp' : HttpResponse) (json : String) (c : C)
      → (cache_license_response x cache config now request resp json c).0 ≡ ok resp'
      → resp' ≡ (
          if is_some (x.license_response.unmarshal json) then with_body resp json else drained resp)
  unfolding cache_license_response
  license_lem request resp resp' json c h = ground arith

  -- A response to a request other than one for a persisted queries manifest, whose body can be
  -- decompressed, passes through, if no error stops it, with the status and the headers of the
  -- uplink, the Content-Encoding included: with the decompressed body if it is JSON and, for a
  -- SupergraphSdlQuery or a LicenseQuery, unmarshals as a response to it, and else with no body.
  pub modify_proxied_response-Passed :
      (key json : String) (request : UplinkRelayRequest) (resp resp' : HttpResponse) (c : C)
      → request.operation_name ≢ persisted_queries_query
      → response_body x resp ≡ some json
      → (modify_proxied_response x cache config now key request resp c).0 ≡ ok resp'
      → resp'
        ≡ (if is_restored request.operation_name json then with_body resp json else drained resp)
  unfolding modify_proxied_response
  modify_proxied_response-Passed key json request resp resp' c other read h = ground (
    arith,
    eq_iff request.operation_name persisted_queries_query,
    supergraph_lem request resp resp' json c,
    license_lem request resp resp' json c,
  )
