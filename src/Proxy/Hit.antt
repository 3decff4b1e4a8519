-- ===== src/Proxy/Hit.antt =====
-- proxy/proxy.go: handleCacheHit.
use uplink_relay.Common.{
  String, Bool, ◌&&◌, Option, none, some, List, [], ◌∷◌, ℤ, leb_ℤ, Time, ◌==◌, if◌then◌else◌,
  Result, ok, panicked, contains,
}
use uplink_relay.Cache.{CacheItem}
use uplink_relay.Cache.Newest.{is_blank}
use uplink_relay.Externals.{Externals, Write, set_header, http_error, write_body}
use uplink_relay.PersistedQueries.Keys.{decode_id}
use uplink_relay.Uplink.{supergraph_query, license_query, persisted_queries_query}
use uplink_relay.Wire.{
  UplinkSupergraphSdlResponse, UplinkLicenseResponse, UplinkPersistedQueryResponse,
}

-- string(item.Content)
abbrev pub text_of : Option String → String
text_of none = ""
text_of (some content) = content

abbrev internal_error : List Write
internal_error = http_error "Internal Server Error" 500 ∷ []

-- The marshalled response, after the header.
abbrev pub send : Option String → List Write
send none = internal_error
send (some body) = set_header "X-Cache-Hit" "true" ∷ write_body body ∷ []

module _ (x : Externals) where
  unfoldable pub supergraph_hit : Time → ℤ → CacheItem → UplinkSupergraphSdlResponse
  supergraph_hit now duration item = record {
    router_config = record {
      id = x.format_time (x.round_time now duration);
      typename = if is_blank item.content then "Unchanged" else "RouterConfigResult";
      supergraph_sdl = text_of item.content;
      min_delay_seconds = 30;
    };
  }

  unfoldable pub license_hit : CacheItem → UplinkLicenseResponse
  license_hit item = record {
    router_entitlements = record {
      id = item.id;
      typename = if is_blank item.content then "Unchanged" else "RouterEntitlementsResult";
      min_delay_seconds = 60;
      entitlement =
          if is_blank item.content then none else some (record { jwt = text_of item.content });
    };
  }

  -- The cached manifest, or a default one for an item without content.
  unfoldable pub cached_manifest : CacheItem → Option UplinkPersistedQueryResponse
  cached_manifest item =
      if is_blank item.content
      then some (record {
        persisted_queries = record {
          id = item.id;
          typename = "Unchanged";
          min_delay_seconds = 60;
          chunks = [];
        };
      })
      else x.pq_response.unmarshal (text_of item.content)

  -- Whether the client, at ifAfterId, has the manifest with the cached ID or a later one.
  unfoldable pub is_unchanged : String → String → Bool
  is_unchanged cached if_after_id =
      let (cached_id, cached_version) = decode_id x cached in
      let (after_id, after_version) = decode_id x if_after_id in
      cached_id == after_id && leb_ℤ cached_version after_version

  unfoldable pub pq_hit : UplinkPersistedQueryResponse → String → UplinkPersistedQueryResponse
  unfolding is_unchanged
  pq_hit cached if_after_id =
      if is_unchanged cached.persisted_queries.id if_after_id
      then record {
        persisted_queries = record cached.persisted_queries { typename = "Unchanged"; chunks = [] };
      }
      else cached

  -- The writes for an item, which panics if it is nil and its content is read. No operation in the
  -- key leaves the response nil, which marshals to null.
  unfoldable pub handle_cache_hit :
      Time → ℤ → String → Option CacheItem → String → Result (List Write)
  unfolding supergraph_hit license_hit cached_manifest pq_hit
  handle_cache_hit now duration cache_key item if_after_id =
      if contains cache_key supergraph_query
      then elim item [
        | none ↦ panicked
        | some i ↦ ok (send (x.supergraph_response.marshal (supergraph_hit now duration i)))
      ]
      else if contains cache_key license_query
      then elim item [
        | none ↦ panicked
        | some i ↦ ok (send (x.license_response.marshal (license_hit i)))
      ]
      else if contains cache_key persisted_queries_query
      then elim item [
        | none ↦ panicked
        | some i ↦ elim (cached_manifest i) [
          | none ↦ ok internal_error
          | some cached ↦ ok (send (x.pq_response.marshal (pq_hit cached if_after_id)))
        ]
      ]
      else ok (send (some "null"))
