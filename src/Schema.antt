-- ===== src/Schema.antt =====
-- schema/schema.go
pub mod Caching
use uplink_relay.Queries.{schema_query_text}
use uplink_relay.Common.{
  String, Option, none, some, List, [], ◌∷◌, ℤ, Time, not, ◌==◌, if◌then◌else◌, Act, Result, ok,
  err, failed, library, pure, try, lift, ignore, ◌>>=◌, ◌>>◌,
}
use uplink_relay.Cache.{CacheItem, Cache, expiration_time}
use uplink_relay.Cache.Keys.{make_cache_key, hash_string, artifact_variables}
use uplink_relay.Cache.Newest.{update_newest}
use uplink_relay.Config.{Config, find_supergraph_config_from_graph_ref}
use uplink_relay.Externals.{Externals}
use uplink_relay.Pinning.Launch.{pin_launch_id}
use uplink_relay.Server.{Server, on_cache, with_config}
use uplink_relay.Uplink.{supergraph_query}
use uplink_relay.UplinkRequest.{uplink_request}
use uplink_relay.Wire.{UplinkRelayRequest, Variables, text}

abbrev pub schema_request : String → String → UplinkRelayRequest
schema_request apollo_key graph_ref = record {
  query = schema_query_text;
  variables =
      ("apiKey", text apollo_key) ∷ ("graph_ref", text graph_ref) ∷ ("ifAfterId", text "") ∷ [];
  operation_name = "SupergraphSdlQuery";
}

unfoldable pub schema_item : Externals → Time → String → Time → ℤ → CacheItem
unfolding hash_string expiration_time
schema_item x now schema id duration = record {
  content = some schema;
  expiration = expiration_time now duration;
  hash = hash_string x schema;
  last_modified = now;
  id = x.format_time id;
}

module _ {C : Type 0} (x : Externals) (cache : Cache C) where
  -- The content is never nil, and the error of UpdateNewest is dropped.
  unfoldable pub cache_schema : Time → String → String → Time → String → ℤ → Act C (Unit {0})
  unfolding schema_item
  cache_schema now graph_ref schema id if_after_id duration = do
    let item = schema_item x now schema id duration
    entry ← try (x.item.marshal item) (library "json.Marshal")
    ignore (update_newest x cache now graph_ref supergraph_query item)
    cache.set now
        (make_cache_key x graph_ref supergraph_query
          (artifact_variables graph_ref if_after_id ∷ []))
        entry duration

  unfoldable pub fetch_schema : Time → String → Act (Server C) (Unit {0})
  unfolding cache_schema
  fetch_schema now graph_ref = with_config λ config. do
    supergraph ← lift (find_supergraph_config_from_graph_ref graph_ref config)
    if not (supergraph.launch_id == "")
        then pin_launch_id x cache now supergraph.launch_id graph_ref
        else (do
          resp ← lift (uplink_request x config (schema_request supergraph.apollo_key graph_ref))
          response ← try (x.supergraph_response.unmarshal resp) (library "json.Unmarshal")
          id ← try (x.parse_time response.router_config.id) (library "time.Parse")
          if config.cache.enabled
              then on_cache (
                  cache_schema now graph_ref response.router_config.supergraph_sdl id ""
                    config.cache.duration)
              else pure tt)
