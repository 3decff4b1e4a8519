-- ===== src/Management.antt =====
-- graph/schema.resolvers.go and graph/config.go: the management API. The resolver context is the
-- state of the server.
pub mod Deletion
pub mod Survivors
pub mod Model
pub mod Enums
pub mod Shown
pub mod Details
use uplink_relay.Common.{
  String, Bool, true, false, Option, none, some, List, [], ◌∷◌, Time, ◌==◌, if◌then◌else◌, ◌<>◌,
  Act, Result, ok, err, failed, pure, raise, lift, ◌>>=◌, ◌>>◌,
}
use uplink_relay.Cache.{Cache}
use uplink_relay.Cache.Keys.{make_cache_prefix}
use uplink_relay.Config.{Config, find_supergraph_config_from_graph_ref}
use uplink_relay.Entitlements.{fetch_router_license}
use uplink_relay.Externals.{Externals}
use uplink_relay.GraphRef.{parse_graph_ref}
use uplink_relay.PersistedQueries.{fetch_pq_manifest}
use uplink_relay.Pinning.Launch.{pin_launch_id}
use uplink_relay.Pinning.PersistedQueries.{pin_persisted_queries}
use uplink_relay.Schema.{fetch_schema}
use uplink_relay.Server.{Server, on_cache, with_config}
use uplink_relay.Uplink.{supergraph_query, license_query, persisted_queries_query}
use Model.{OperationType, schema, entitlement, persisted_query_manifest, invalid, Configuration}
use Details.{get_config_details}

module _ {C : Type 0} (x : Externals) (cache : Cache C) (now : Time) where
  -- Success with the configuration, which is null when the details fail.
  abbrev pub details : Act (Server C) (Option Configuration)
  details s = (ok (get_config_details x cache now s), s)

  -- One round of DeleteCacheEntry.
  unfoldable pub delete_operation : String → OperationType → Act (Server C) (Unit {0})
  delete_operation graph_ref schema =
      on_cache (cache.delete_with_prefix (make_cache_prefix graph_ref supergraph_query))
  delete_operation graph_ref entitlement =
      on_cache (cache.delete_with_prefix (make_cache_prefix graph_ref license_query))
  delete_operation graph_ref persisted_query_manifest = do
    (graph_id, _) ← lift (parse_graph_ref graph_ref)
    on_cache (cache.delete_with_prefix ("pq:" <> graph_id <> "/"))
    on_cache (cache.delete_with_prefix (make_cache_prefix graph_ref persisted_queries_query))
  delete_operation graph_ref (invalid name) = raise (failed "invalid operation type")

  unfoldable pub delete_operations : String → List OperationType → Act (Server C) (Unit {0})
  unfolding delete_operation
  delete_operations graph_ref [] = pure tt
  delete_operations graph_ref (operation ∷ operations) =
      let rest = delete_operations graph_ref operations in
      (do delete_operation graph_ref operation; rest)

  unfoldable pub delete_cache_entry :
      List OperationType → String → Act (Server C) (Option Configuration)
  unfolding delete_operations
  delete_cache_entry operations graph_ref = do delete_operations graph_ref operations; details

  unfoldable pub pin_schema : String → String → Act (Server C) (Option Configuration)
  pin_schema launch_id graph_ref = with_config λ config. do
    supergraph ← lift (find_supergraph_config_from_graph_ref graph_ref config)
    if supergraph.launch_id == launch_id
        then details
        else (do pin_launch_id x cache now launch_id graph_ref; details)

  unfoldable pub pin_persisted_query_manifest :
      String → String → Act (Server C) (Option Configuration)
  pin_persisted_query_manifest id graph_ref = with_config λ config. do
    supergraph ← lift (find_supergraph_config_from_graph_ref graph_ref config)
    if supergraph.persisted_query_version == id
        then details
        else (do pin_persisted_queries x cache now graph_ref id; details)

  unfoldable pub update_operation : String → OperationType → Act (Server C) (Unit {0})
  update_operation graph_ref schema = fetch_schema x cache now graph_ref
  update_operation graph_ref entitlement = fetch_router_license x cache now graph_ref
  update_operation graph_ref persisted_query_manifest = fetch_pq_manifest x cache now graph_ref ""
  update_operation graph_ref (invalid name) = raise (failed "invalid operation type")

  unfoldable pub update_operations : String → List OperationType → Act (Server C) (Unit {0})
  unfolding update_operation
  update_operations graph_ref [] = pure tt
  update_operations graph_ref (operation ∷ operations) =
      let rest = update_operations graph_ref operations in
      (do update_operation graph_ref operation; rest)

  unfoldable pub force_update : List OperationType → String → Act (Server C) (Option Configuration)
  unfolding update_operations
  force_update operations graph_ref = do update_operations graph_ref operations; details

  unfoldable pub current_configuration : Act (Server C) (Option Configuration)
  current_configuration = details
