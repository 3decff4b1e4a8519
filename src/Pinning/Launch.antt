-- ===== src/Pinning/Launch.antt =====
-- pinning/schema.go
use uplink_relay.Queries.{launch_query_text}
use uplink_relay.Common.{
  String, List, [], ◌∷◌, map, Time, ◌==◌, if◌then◌else◌, Act, Result, ok, failed, library, pure,
  raise, try, lift, result, ◌>>=◌, ◌>>◌,
}
use uplink_relay.Cache.{Cache}
use uplink_relay.Cache.Keys.{make_cache_key}
use uplink_relay.Config.{Config, SupergraphConfig}
use uplink_relay.Externals.{Externals}
use uplink_relay.GraphRef.{parse_graph_ref}
use uplink_relay.Pinning.Entry.{insert_pinned_cache_entry}
use uplink_relay.Pinning.Names.{supergraph_pinned, default_headers, find_api_key}
use uplink_relay.Server.{Server, on_cache, with_config}
use uplink_relay.Wire.{LaunchQueryVariantLaunch, PinningApiRequest, text}

abbrev launch_request : String → String → String → PinningApiRequest
launch_request graph_id variant_id launch_id = record {
  query = launch_query_text;
  variables =
      ("graphId", text graph_id) ∷ ("name", text variant_id) ∷ ("launchId", text launch_id) ∷ [];
  operation_name = "UplinkRelay_GetLaunchIDSchema";
}

-- A supergraph with the launch ID set, if it has the graph_ref.
abbrev pub with_launch_id : String → String → SupergraphConfig → SupergraphConfig
with_launch_id graph_ref launch_id s =
    if s.graph_ref == graph_ref then record s { launch_id = launch_id } else s

-- The supergraphs with the launch ID of one graph_ref set.
unfoldable pub set_launch_id : String → String → List SupergraphConfig → List SupergraphConfig
set_launch_id graph_ref launch_id supergraphs = map (with_launch_id graph_ref launch_id) supergraphs

-- The request to the Studio API, up to the decoded launch.
unfoldable pub fetch_launch : Externals → Config → String → String → Result LaunchQueryVariantLaunch
unfolding find_api_key
fetch_launch x config launch_id graph_ref = result (do
  (graph_id, variant_id) ← lift (parse_graph_ref graph_ref)
  api_key ← lift (find_api_key config graph_ref)
  request_body ←
      try (x.api_request.marshal (launch_request graph_id variant_id launch_id))
        (library "json.Marshal")
  if x.accepts_url config.uplink.studio_api_url
      then (do
        resp ←
            try (x.post config.uplink.studio_api_url (default_headers api_key) request_body)
              (library "http.Client.Do")
        response ← try (x.launch_response.unmarshal resp.body) (library "json.Unmarshal")
        launch ← try response.graph (failed "failed to get launch ID schema")
        if launch.result.typename == "BuildFailure"
            then raise (failed "failed to get launch ID schema")
            else pure launch)
      else raise (library "http.NewRequest"))

module _ {C : Type 0} (x : Externals) (cache : Cache C) where
  unfoldable pub pin_launch_id : Time → String → String → Act (Server C) (Unit {0})
  unfolding fetch_launch set_launch_id
  pin_launch_id now launch_id graph_ref = with_config λ config. do
    launch ← lift (fetch_launch x config launch_id graph_ref)
    modified_at ← try (x.parse_time launch.completed_at) (library "time.Parse")
    if config.cache.enabled
        then on_cache (
            insert_pinned_cache_entry x cache now (make_cache_key x graph_ref supergraph_pinned [])
              launch.result.core_document launch.id modified_at)
        else pure tt
    λ s'. (
      ok tt,
      record s' {
        config = record s'.config {
          supergraphs = set_launch_id graph_ref launch_id s'.config.supergraphs;
        };
      },
    )
