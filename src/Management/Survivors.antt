-- ===== src/Management/Survivors.antt =====
-- What DeleteCacheEntry of graph/schema.resolvers.go leaves in the in-memory cache.
use uplink_relay.Common.{
  String, ◌≡◌, ◌⊎◌, inl, inr, refl, ◌∙◌, false, [], ◌∷◌, Time, ok, arith, starts_with, ◌<>◌,
  starts_with-cancel, singleton-append,
}
use uplink_relay.Cache.Contents.{make_cache_prefix_lem}
use uplink_relay.Cache.Keys.{make_cache_prefix, make_cache_key}
use uplink_relay.Cache.Memory.{
  Items, MemoryCache, memory_cache, get, delete_with_prefix, proper_prefix,
}
use uplink_relay.Cache.Memory.Deletion.{get-delete_with_prefix}
use uplink_relay.Externals.{Externals}
use uplink_relay.GraphRef.{at_sign, parse_graph_ref, parse_graph_ref_iff}
use uplink_relay.Management.{delete_operation, delete_operations}
use uplink_relay.Management.Model.{OperationType, schema, entitlement}
use uplink_relay.Pinning.Entry.{handle_pinned_entry}
use uplink_relay.Pinning.Names.{operation_mapping}
use uplink_relay.Server.{Server}
use uplink_relay.System.Keys.{IsArtifact}
use uplink_relay.Uplink.{supergraph_query, license_query}

-- The operation types whose entries are deleted by one prefix.
abbrev IsPlain : OperationType → Type 0
IsPlain operation = (operation ≡ schema) ⊎ (operation ≡ entitlement)

-- The name of a pinned artifact starts with no name of an operation.
pinned-starts_with :
    (operation_name query : String)
    → IsArtifact operation_name
    → (query ≡ supergraph_query) ⊎ (query ≡ license_query)
    → starts_with (operation_mapping operation_name) query ≡ false
unfolding operation_mapping starts_with
pinned-starts_with operation_name query (inl e) (inl q) = rw (e, q) refl
pinned-starts_with operation_name query (inl e) (inr q) = rw (e, q) refl
pinned-starts_with operation_name query (inr (inl e)) (inl q) = rw (e, q) refl
pinned-starts_with operation_name query (inr (inl e)) (inr q) = rw (e, q) refl
pinned-starts_with operation_name query (inr (inr e)) (inl q) = rw (e, q) refl
pinned-starts_with operation_name query (inr (inr e)) (inr q) = rw (e, q) refl

module _ (x : Externals) (order : Items → Items) (graph_ref graph_id variant_id : String)
    (parsed : parse_graph_ref graph_ref ≡ ok (graph_id, variant_id)) (operation_name : String)
    (artifact : IsArtifact operation_name) where
  abbrev key : String
  key = make_cache_key x graph_ref (operation_mapping operation_name) []

  pinned_key-apart :
      (query : String)
      → (query ≡ supergraph_query) ⊎ (query ≡ license_query)
      → proper_prefix (make_cache_prefix graph_ref query) key ≡ false
  unfolding proper_prefix make_cache_key
  pinned_key-apart query plain =
      let name = operation_mapping operation_name in
      let no_start : starts_with (make_cache_prefix graph_ref name)
            (make_cache_prefix graph_ref query)
          ≡ false =
        rw
          (
            make_cache_prefix_lem x graph_ref name graph_id variant_id parsed,
            make_cache_prefix_lem x graph_ref query graph_id variant_id parsed,
          )
          (starts_with-cancel graph_id _ _
            ∙ starts_with-cancel ":" _ _
            ∙ starts_with-cancel variant_id _ _
            ∙ starts_with-cancel ":" name query
            ∙ pinned-starts_with operation_name query artifact plain) in
      ground (arith, no_start)

  get-delete_pinned :
      (query : String) (later : Time) (c : MemoryCache)
      → (query ≡ supergraph_query) ⊎ (query ≡ license_query)
      → get later key (delete_with_prefix (make_cache_prefix graph_ref query) c) ≡ get later key c
  get-delete_pinned query later c plain =
      rw (get-delete_with_prefix, pinned_key-apart query plain) refl

  deleted_get :
      (now later : Time) (operation : OperationType) (s : Server MemoryCache)
      → IsPlain operation
      → get later key
          (delete_operations x (memory_cache order) now graph_ref (operation ∷ []) s).1.cache
        ≡ get later key s.cache
  unfolding delete_operations delete_operation
  deleted_get now later operation s (inl e) =
      rw e (get-delete_pinned supergraph_query later s.cache (inl refl))
  deleted_get now later operation s (inr e) =
      rw e (get-delete_pinned license_query later s.cache (inr refl))

  deleted_ok :
      (now : Time) (operation : OperationType) (s : Server MemoryCache)
      → IsPlain operation
      → (delete_operations x (memory_cache order) now graph_ref (operation ∷ []) s).0 ≡ ok tt
  unfolding delete_operations delete_operation
  deleted_ok now operation s (inl e) = rw e refl
  deleted_ok now operation s (inr e) = rw e refl

  -- Over the in-memory cache, for a graph_ref that parses: DeleteCacheEntry of the schema or of the
  -- entitlement succeeds, and leaves the pinned artifacts of the graph_ref: HandlePinnedEntry gives
  -- at every time and for every ifAfterId what it gave before, for each of the three operations.
  pub delete_operations-handle_pinned_entry :
      (now later : Time) (operation : OperationType) (if_after_id : String) (s : Server MemoryCache)
      → IsPlain operation
      → let (result, s') =
          delete_operations x (memory_cache order) now graph_ref (operation ∷ []) s in
        (result ≡ ok tt)
        × (handle_pinned_entry x
              (memory_cache order)
              later
              s'.cache
              graph_id
              variant_id
              operation_name
              if_after_id
            ≡ handle_pinned_entry x
                (memory_cache order)
                later
                s.cache
                graph_id
                variant_id
                operation_name
                if_after_id)
  unfolding handle_pinned_entry
  delete_operations-handle_pinned_entry now later operation if_after_id s plain =
      let (joint, _, _) = (parse_graph_ref_iff graph_ref graph_id variant_id).0 parsed in
      let same = deleted_get now later operation s plain in
      let here : get later
            (make_cache_key x (graph_id <> "@" <> variant_id) (operation_mapping operation_name) [])
            (delete_operations x (memory_cache order) now graph_ref (operation ∷ []) s).1.cache
          ≡ get later
              (make_cache_key x (graph_id <> "@" <> variant_id) (operation_mapping operation_name)
                [])
              s.cache =
        rw (singleton-append at_sign variant_id, ← joint) same in
      (deleted_ok now operation s plain, rw (handle_pinned_entry, here) refl)
