-- ===== src/System/Managing.antt =====
-- The mutations of graph/schema.resolvers.go that fetch or pin.
use uplink_relay.Common.{String, List, [], ◌∷◌, Time, Preserves, bind-Preserves, read-Preserves}
use uplink_relay.Cache.{Cache}
use uplink_relay.Config.{Config}
use uplink_relay.Externals.{Externals}
use uplink_relay.Management.{
  update_operation, update_operations, force_update, pin_schema, pin_persisted_query_manifest,
}
use uplink_relay.Management.Model.{
  OperationType, schema, entitlement, persisted_query_manifest, invalid,
}
use uplink_relay.Server.{OfServer, server_rules}
use uplink_relay.System.Fetching.{
  fetch_schema-Preserves, fetch_router_license-Preserves, fetch_pq_manifest-Preserves,
}
use uplink_relay.System.Pinning.{
  IsInvariant, pin_launch_id-Preserves, pin_persisted_queries-Preserves,
}

module _ {C : Type 0} (x : Externals) (cache : Cache C) (now : Time) {P : Config → C → Type 0}
    (inv : IsInvariant x cache P) where
  update_operation-Preserves :
      (graph_ref : String) (operation : OperationType)
      → Preserves (OfServer P) (update_operation x cache now graph_ref operation)
  unfolding update_operation
  update_operation-Preserves graph_ref schema = fetch_schema-Preserves x cache inv now graph_ref
  update_operation-Preserves graph_ref entitlement =
      fetch_router_license-Preserves x cache inv now graph_ref
  update_operation-Preserves graph_ref persisted_query_manifest =
      fetch_pq_manifest-Preserves x cache inv now graph_ref ""
  update_operation-Preserves graph_ref (invalid name) = search server_rules

  update_operations-Preserves :
      (graph_ref : String) (operations : List OperationType)
      → Preserves (OfServer P) (update_operations x cache now graph_ref operations)
  unfolding update_operations
  update_operations-Preserves graph_ref [] = search server_rules
  update_operations-Preserves graph_ref (operation ∷ operations) =
      bind-Preserves _ _ (update_operation-Preserves graph_ref operation)
        (λ _. update_operations-Preserves graph_ref operations)

  pub force_update-Preserves :
      (operations : List OperationType) (graph_ref : String)
      → Preserves (OfServer P) (force_update x cache now operations graph_ref)
  unfolding force_update
  force_update-Preserves operations graph_ref =
      search (server_rules, read-Preserves, update_operations-Preserves)

  pub pin_schema-Preserves :
      (launch_id graph_ref : String)
      → Preserves (OfServer P) (pin_schema x cache now launch_id graph_ref)
  unfolding pin_schema
  pin_schema-Preserves launch_id graph_ref =
      search (server_rules, read-Preserves, pin_launch_id-Preserves x cache inv)

  pub pin_persisted_query_manifest-Preserves :
      (id graph_ref : String)
      → Preserves (OfServer P) (pin_persisted_query_manifest x cache now id graph_ref)
  unfolding pin_persisted_query_manifest
  pin_persisted_query_manifest-Preserves id graph_ref =
      search (server_rules, read-Preserves, pin_persisted_queries-Preserves x cache inv)
