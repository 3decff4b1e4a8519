-- ===== src/Entitlements.antt =====
-- entitlements/entitlements.go
pub mod Caching
use uplink_relay.Queries.{license_query_text}
use uplink_relay.Common.{
  String, none, some, [], ◌∷◌, ℤ, Time, not, ◌==◌, if◌then◌else◌, Act, library, pure, panic, try,
  lift, deref, ignore, ◌>>=◌, ◌>>◌,
}
use uplink_relay.Cache.{CacheItem, Cache}
use uplink_relay.Cache.Keys.{make_cache_key, hash_string, artifact_variables}
use uplink_relay.Cache.Newest.{update_newest}
use uplink_relay.Config.{find_supergraph_config_from_graph_ref}
use uplink_relay.Externals.{Externals}
use uplink_relay.Pinning.License.{pin_offline_license}
use uplink_relay.Server.{Server, on_cache, with_config}
use uplink_relay.Uplink.{license_query}
use uplink_relay.UplinkRequest.{uplink_request}
use uplink_relay.Wire.{UplinkRelayRequest, text}

abbrev pub license_request : String → String → UplinkRelayRequest
license_request apollo_key graph_ref = record {
  query = license_query_text;
  variables =
      ("apiKey", text apollo_key) ∷ ("graph_ref", text graph_ref) ∷ ("ifAfterId", text "") ∷ [];
  operation_name = "LicenseQuery";
}

unfoldable pub license_item : Externals → Time → String → Time → CacheItem
unfolding hash_string
license_item x now jwt id = record {
  content = some jwt;
  expiration = id;
  hash = hash_string x jwt;
  last_modified = now;
  id = x.format_time id;
}

module _ {C : Type 0} (x : Externals) (cache : Cache C) where
  -- UpdateNewest is called if the content is nil, which []byte(entitlementJWT) never is.
  unfoldable pub update_nil : Time → String → CacheItem → Act C (Unit {0})
  update_nil now graph_ref item = elim item.content [
    | none ↦ ignore (update_newest x cache now graph_ref license_query item)
    | some _ ↦ pure tt
  ]

  unfoldable pub cache_license : Time → String → String → Time → ℤ → String → Act C (Unit {0})
  unfolding license_item update_nil
  cache_license now graph_ref jwt id duration if_after_id = do
    let item = license_item x now jwt id
    entry ← try (x.item.marshal item) (library "json.Marshal")
    update_nil now graph_ref item
    cache.set now
        (make_cache_key x graph_ref license_query (artifact_variables graph_ref if_after_id ∷ []))
        entry duration

  -- The offline license is tested, and the launch ID is passed on. The entitlement is a pointer.
  unfoldable pub fetch_router_license : Time → String → Act (Server C) (Unit {0})
  unfolding cache_license
  fetch_router_license now graph_ref = with_config λ config. do
    supergraph ← lift (find_supergraph_config_from_graph_ref graph_ref config)
    if not (supergraph.offline_license == "")
        then on_cache (pin_offline_license x cache config now supergraph.launch_id graph_ref)
        else (do
          resp ← lift (uplink_request x config (license_request supergraph.apollo_key graph_ref))
          response ← try (x.license_response.unmarshal resp) (library "json.Unmarshal")
          expiration ← try (x.parse_time response.router_entitlements.id) (library "time.Parse")
          if config.cache.enabled
              then (do
                jwt ← deref response.router_entitlements.entitlement
                on_cache (cache_license now graph_ref jwt.jwt expiration config.cache.duration ""))
              else pure tt)
