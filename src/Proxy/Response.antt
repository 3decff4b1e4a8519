-- ===== src/Proxy/Response.antt =====
-- proxy/proxy.go: modifyProxiedResponse, which caches the artifact of a response on its way to the
-- client. Where the source returns nil early, the body has been read and is not put back.
use uplink_relay.Common.{
  String, Option, none, some, Time, ◌==◌, if◌then◌else◌, lookup, Act, library, pure, raise, try,
  deref, on_none, ignore, ◌>>=◌, ◌>>◌,
}
use uplink_relay.Cache.{Cache}
use uplink_relay.Cache.Newest.{update_newest}
use uplink_relay.Config.{Config}
use uplink_relay.Entitlements.{cache_license}
use uplink_relay.Externals.{Externals, HttpResponse}
use uplink_relay.PersistedQueries.{cache_persisted_query_chunk_data, manifest_item}
use uplink_relay.Proxy.Variables.{as_text, is_nil, default_if_after_id}
use uplink_relay.Schema.{cache_schema}
use uplink_relay.Uplink.{supergraph_query, license_query, persisted_queries_query}
use uplink_relay.Wire.{Value, Jwt, UplinkRelayRequest, UplinkPersistedQueryResponse}

-- The response with another body, or with its body read and not put back.
abbrev pub with_body : HttpResponse → String → HttpResponse
with_body resp body = record resp { body = body }

abbrev pub drained : HttpResponse → HttpResponse
drained resp = with_body resp ""

-- a type assertion to string
abbrev pub assert_text : {C : Type 0} → Option Value → Act C String
assert_text v = deref (as_text v)

abbrev pub jwt_of : Option Jwt → String
jwt_of none = ""
jwt_of (some jwt) = jwt.jwt

-- The decompressed body of a response.
unfoldable pub response_body : Externals → HttpResponse → Option String
response_body x resp =
    if resp.content_encoding == "gzip" then x.gunzip resp.body else some resp.body

module _ {C : Type 0} (x : Externals) (cache : Cache C) (config : Config) (now : Time) where
  unfoldable pub cache_supergraph_response :
      UplinkRelayRequest → HttpResponse → String → Act C HttpResponse
  unfolding default_if_after_id
  cache_supergraph_response request resp body =
      on_none (x.supergraph_response.unmarshal body) (pure (drained resp)) λ response. do
        id ← try (x.parse_time response.router_config.id) (library "time.Parse")
        if config.cache.enabled
            then (do
              let variables = default_if_after_id request.variables
              graph_ref ← assert_text (lookup "graph_ref" variables)
              if_after_id ← assert_text (lookup "ifAfterId" variables)
              cache_schema x cache now graph_ref response.router_config.supergraph_sdl id
                  if_after_id config.cache.duration
              pure (with_body resp body))
            else pure (with_body resp body)

  -- The ifAfterId of a license request, "" if it is nil.
  unfoldable pub license_if_after_id : Option Value → Act C String
  license_if_after_id v = if is_nil v then pure "" else assert_text v

  -- The error of CacheLicense is dropped.
  unfoldable pub cache_license_response :
      UplinkRelayRequest → HttpResponse → String → Act C HttpResponse
  unfolding license_if_after_id
  cache_license_response request resp body =
      on_none (x.license_response.unmarshal body) (pure (drained resp)) λ response. do
        expiration ← try (x.parse_time response.router_entitlements.id) (library "time.Parse")
        if config.cache.enabled
            then (do
              if_after_id ← license_if_after_id (lookup "ifAfterId" request.variables)
              graph_ref ← assert_text (lookup "graph_ref" request.variables)
              ignore (
                  cache_license x cache now graph_ref
                    (jwt_of response.router_entitlements.entitlement) expiration
                    config.cache.duration if_after_id)
              pure (with_body resp body))
            else pure (with_body resp body)

  -- The errors of Set and UpdateNewest are dropped; a response that does not marshal is "".
  unfoldable pub cache_pq_response :
      String → UplinkRelayRequest → HttpResponse → String → Act C HttpResponse
  cache_pq_response cache_key request resp body =
      on_none (x.pq_response.unmarshal body) (pure (drained resp)) λ response.
        if config.cache.enabled
        then (do
          chunks ←
              cache_persisted_query_chunk_data x cache config now response.persisted_queries.chunks
          let filled : UplinkPersistedQueryResponse = record {
            persisted_queries = record response.persisted_queries { chunks = chunks };
          }
          let manifest : String = elim (x.pq_response.marshal filled) [ none ↦ "" | some s ↦ s ]
          let item =
              manifest_item x now manifest response.persisted_queries.id config.cache.duration
          entry ← try (x.item.marshal item) (library "json.Marshal")
          ignore (cache.set now cache_key entry config.cache.duration)
          graph_ref ← assert_text (lookup "graph_ref" request.variables)
          ignore (update_newest x cache now graph_ref persisted_queries_query item)
          pure (record resp { body = manifest; content_length = x.byte_length manifest }))
        else pure (with_body resp body)

  unfoldable pub modify_proxied_response :
      String → UplinkRelayRequest → HttpResponse → Act C HttpResponse
  unfolding response_body cache_supergraph_response cache_license_response cache_pq_response
  modify_proxied_response cache_key request resp =
      on_none (response_body x resp) (raise (library "gzip")) λ body.
        if x.is_json body
        then (if request.operation_name == supergraph_query
            then cache_supergraph_response request resp body
            else if request.operation_name == license_query
            then cache_license_response request resp body
            else if request.operation_name == persisted_queries_query
            then cache_pq_response cache_key request resp body
            else pure (with_body resp body))
        else pure (drained resp)
