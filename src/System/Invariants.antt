-- ===== src/System/Invariants.antt =====
-- Predicates on the state of the running program, over its histories of calls.
use uplink_relay.Common.{
  String, false, List, [], ◌∷◌, All, Time, Preserves, bind-Preserves, read-Preserves,
  raise-Preserves, pure-Preserves,
}
use uplink_relay.Cache.{Cache}
use uplink_relay.Cache.Writes.{IsClosed}
use uplink_relay.Config.{Config}
use uplink_relay.Externals.{Externals}
use uplink_relay.Management.{delete_operation, delete_operations, delete_cache_entry}
use uplink_relay.Management.Model.{
  OperationType, schema, entitlement, persisted_query_manifest, invalid,
}
use uplink_relay.Server.{OfServer, on_cache-Preserves, server_rules}
use uplink_relay.System.{
  Event, Running, handle, run, relayed, hooked, polled, updated, schema_pinned, manifest_pinned,
  deleted,
}
use uplink_relay.System.Managing.{
  force_update-Preserves, pin_schema-Preserves, pin_persisted_query_manifest-Preserves,
}
use uplink_relay.System.Pinning.{IsInvariant}
use uplink_relay.System.Polling.{webhook_handler-Preserves, poll_for_updates-Preserves}
use uplink_relay.System.Relaying.{relay_handler-keeps}

-- A call that deletes nothing.
abbrev pub IsNoDeletion : Event → Type 0
IsNoDeletion (deleted now operations graph_ref) = ⊥
IsNoDeletion (relayed now body) = Unit
IsNoDeletion (hooked now signature_header body) = Unit
IsNoDeletion (polled now) = Unit
IsNoDeletion (updated now operations graph_ref) = Unit
IsNoDeletion (schema_pinned now launch_id graph_ref) = Unit
IsNoDeletion (manifest_pinned now id graph_ref) = Unit

module _ {C : Type 0} (x : Externals) (cache : Cache C) (P : Config → C → Type 0) where
  -- Every deletion by prefix keeps the predicate.
  abbrev pub SurvivesDeletes : Type 0
  SurvivesDeletes =
      (config : Config) (prefix : String) → Preserves (P config) (cache.delete_with_prefix prefix)

  module _ (deletes : SurvivesDeletes) (now : Time) (graph_ref : String) where
    delete_operation-Preserves :
        (operation : OperationType)
        → Preserves (OfServer P) (delete_operation x cache now graph_ref operation)
    unfolding delete_operation
    delete_operation-Preserves schema = on_cache-Preserves _ (λ config. deletes config _)
    delete_operation-Preserves entitlement = on_cache-Preserves _ (λ config. deletes config _)
    delete_operation-Preserves persisted_query_manifest = search (server_rules, deletes) depth 9
    delete_operation-Preserves (invalid name) = raise-Preserves _

    delete_operations-Preserves :
        (operations : List OperationType)
        → Preserves (OfServer P) (delete_operations x cache now graph_ref operations)
    unfolding delete_operations
    delete_operations-Preserves [] = pure-Preserves tt
    delete_operations-Preserves (operation ∷ operations) =
        bind-Preserves _ _ (delete_operation-Preserves operation)
          (λ _. delete_operations-Preserves operations)

    delete_cache_entry-Preserves :
        (operations : List OperationType)
        → Preserves (OfServer P) (delete_cache_entry x cache now operations graph_ref)
    unfolding delete_cache_entry
    delete_cache_entry-Preserves operations =
        search (server_rules, read-Preserves, delete_operations-Preserves)

  -- A call that does not delete, or any call if the predicate survives deletions.
  abbrev pub Spares : Event → Type 0
  Spares (deleted now operations graph_ref) = SurvivesDeletes
  Spares (relayed now body) = Unit
  Spares (hooked now signature_header body) = Unit
  Spares (polled now) = Unit
  Spares (updated now operations graph_ref) = Unit
  Spares (schema_pinned now launch_id graph_ref) = Unit
  Spares (manifest_pinned now id graph_ref) = Unit

  pub no_deletion-Spares : (events : List Event) → All IsNoDeletion events → All Spares events
  no_deletion-Spares [] h = tt
  no_deletion-Spares (event ∷ events) (first, later) =
      (spared event first, no_deletion-Spares events later)
    where
      spared : (event : Event) → IsNoDeletion event → Spares event
      spared (relayed now body) h = tt
      spared (hooked now signature_header body) h = tt
      spared (polled now) h = tt
      spared (updated now operations graph_ref) h = tt
      spared (schema_pinned now launch_id graph_ref) h = tt
      spared (manifest_pinned now id graph_ref) h = tt
      spared (deleted now operations graph_ref) h = elim h [ ]

  pub all-Spares : SurvivesDeletes → (events : List Event) → All Spares events
  all-Spares deletes [] = tt
  all-Spares deletes (event ∷ events) = (spared event, all-Spares deletes events)
    where
      spared : (event : Event) → Spares event
      spared (deleted now operations graph_ref) = deletes
      spared (relayed now body) = tt
      spared (hooked now signature_header body) = tt
      spared (polled now) = tt
      spared (updated now operations graph_ref) = tt
      spared (schema_pinned now launch_id graph_ref) = tt
      spared (manifest_pinned now id graph_ref) = tt

  module _ (inv : IsInvariant x cache P) where
    handle-Preserves :
        (event : Event) (r : Running C)
        → Spares event
        → OfServer P r.server
        → OfServer P (handle x cache event r).server
    unfolding handle
    handle-Preserves (relayed now body) r spares h = record {
      held =
          relay_handler-keeps x cache r.server.config now (inv.writes r.server.config) body
            (record { cache = r.server.cache; selector = r.selector }) h.held;
    }
    handle-Preserves (hooked now signature_header body) r spares h = record {
      held =
          (webhook_handler-Preserves x cache (inv.writes r.server.config) r.server.config now
              signature_header body).at
            r.server.cache h.held;
    }
    handle-Preserves (polled now) r spares h =
        (poll_for_updates-Preserves x cache now inv).at r.server h
    handle-Preserves (updated now operations graph_ref) r spares h =
        (force_update-Preserves x cache now inv operations graph_ref).at r.server h
    handle-Preserves (schema_pinned now launch_id graph_ref) r spares h =
        (pin_schema-Preserves x cache now inv launch_id graph_ref).at r.server h
    handle-Preserves (manifest_pinned now id graph_ref) r spares h =
        (pin_persisted_query_manifest-Preserves x cache now inv id graph_ref).at r.server h
    handle-Preserves (deleted now operations graph_ref) r spares h =
        (delete_cache_entry-Preserves spares now graph_ref operations).at r.server h

    pub run-Invariant :
        (events : List Event) (r : Running C)
        → All Spares events
        → OfServer P r.server
        → OfServer P (run x cache events r).server
    unfolding run
    run-Invariant [] r spares h = h
    run-Invariant (event ∷ events) r (first, later) h =
        run-Invariant events (handle x cache event r) later (handle-Preserves event r first h)

-- A request to the relay or to the webhook.
abbrev pub IsTraffic : Event → Type 0
IsTraffic (relayed now body) = Unit
IsTraffic (hooked now signature_header body) = Unit
IsTraffic (polled now) = ⊥
IsTraffic (updated now operations graph_ref) = ⊥
IsTraffic (schema_pinned now launch_id graph_ref) = ⊥
IsTraffic (manifest_pinned now id graph_ref) = ⊥
IsTraffic (deleted now operations graph_ref) = ⊥

-- A predicate that every write but those of pins keeps is kept by requests and webhooks.
pub run-traffic :
    {C : Type 0} (x : Externals) (cache : Cache C) (P : C → Type 0)
    → IsClosed x false cache P
    → (events : List Event) (r : Running C) → All IsTraffic events
    → P r.server.cache
    → P (run x cache events r).server.cache
unfolding run handle
run-traffic x cache P closed [] r calls h = h
run-traffic x cache P closed (relayed now body ∷ events) r (_, later) h =
    run-traffic x cache P closed events (handle x cache (relayed now body) r) later (
      relay_handler-keeps x cache r.server.config now closed body
        (record { cache = r.server.cache; selector = r.selector }) h)
run-traffic x cache P closed (hooked now header body ∷ events) r (_, later) h =
    run-traffic x cache P closed events (handle x cache (hooked now header body) r) later (
      (webhook_handler-Preserves x cache closed r.server.config now header body).at r.server.cache
        h)
run-traffic x cache P closed (polled now ∷ events) r (never, _) h = elim never [ ]
run-traffic x cache P closed (updated now operations graph ∷ events) r (never, _) h = elim never [ ]
run-traffic x cache P closed (schema_pinned now launch graph ∷ events) r (never, _) h =
    elim never [ ]
run-traffic x cache P closed (manifest_pinned now id graph ∷ events) r (never, _) h = elim never [ ]
run-traffic x cache P closed (deleted now operations graph ∷ events) r (never, _) h = elim never [ ]
