-- ===== src/Management/Deletion.antt =====
-- DeleteCacheEntry of graph/schema.resolvers.go over the in-memory cache.
use Prim.Native.String
use Prim.Native.String.{len}
use text.Mathlib.TextLemmas.{nil-append}
use text.Mathlib.TextPositions.{len-append, len_utf8-pos}
use uplink_relay.Common.{
  String, ◌≡◌, ◌≢◌, ◌⊎◌, inl, inr, refl, true, none, List, [], ◌∷◌, Time, Result-cases, ok, err,
  Error, arith, lt→ltb, starts_with, ◌<>◌, starts_with-append,
}
use uplink_relay.Cache.Keys.{make_cache_prefix, make_cache_key}
use uplink_relay.Cache.Memory.{
  Items, MemoryCache, memory_cache, get, delete_with_prefix, proper_prefix,
}
use uplink_relay.Cache.Memory.Deletion.{get-delete_with_prefix}
use uplink_relay.Externals.{Externals}
use uplink_relay.GraphRef.{parse_graph_ref}
use uplink_relay.Management.{delete_operation, delete_operations}
use uplink_relay.Management.Enums.{operation_enum_mapping}
use uplink_relay.Management.Model.{
  OperationType, schema, entitlement, persisted_query_manifest, invalid,
}
use uplink_relay.Server.{Server}
use uplink_relay.Uplink.{supergraph_query, license_query, persisted_queries_query}
use uplink_relay.Wire.{Variables}

-- A key with arguments properly extends its prefix.
make_cache_key-proper :
    (x : Externals) (graph_ref operation_name : String) (v : Variables)
    → proper_prefix
        (make_cache_prefix graph_ref operation_name)
        (make_cache_key x graph_ref operation_name (v ∷ []))
      ≡ true
unfolding make_cache_key proper_prefix
make_cache_key-proper x graph_ref operation_name v =
    let prefix = make_cache_prefix graph_ref operation_name in
    let hash = x.sha256_hex (x.sprint (v ∷ [])) in
    let size = len-append prefix (":" <> hash) in
    let more = len-append ":" hash in
    let longer = lt→ltb (len prefix) (len (prefix <> ":" <> hash)) (ground (arith, size, more)) in
    ground (arith, longer, starts_with-append prefix (":" <> hash))

-- Every text but the empty one properly extends the empty one.
empty-proper : (k : String) → k ≢ "" → proper_prefix "" k ≡ true
unfolding proper_prefix
empty-proper String.[] h = absurd (h refl)
empty-proper (String.◌∷◌ c k) h =
    let (n, wide) = len_utf8-pos c in
    let joined = starts_with-append "" (String.◌∷◌ c k) in
    let front : starts_with (String.◌∷◌ c k) "" ≡ true = rw nil-append at joined in
    ground (arith, String.len.cons c k, wide, front)

-- Get of a key misses at every time.
abbrev pub Misses : String → MemoryCache → Type 0
Misses k c = (now : Time) → get now k c ≡ none

-- A deletion makes no miss a hit.
delete_with_prefix-Misses :
    (prefix k : String) (c : MemoryCache)
    → (proper_prefix prefix k ≡ true) ⊎ Misses k c
    → Misses k (delete_with_prefix prefix c)
delete_with_prefix-Misses prefix k c (inl proper) now =
    rw (get-delete_with_prefix prefix c now k, proper) refl
delete_with_prefix-Misses prefix k c (inr missing) now =
    rw (get-delete_with_prefix prefix c now k, missing now) (ground arith)

module _ (x : Externals) (order : Items → Items) (now : Time) (graph_ref : String) where
  -- A key of the relay for the operation type.
  abbrev key : OperationType → Variables → String
  key operation v = make_cache_key x graph_ref (operation_enum_mapping operation) (v ∷ [])

  delete_operation-keeps :
      (operation : OperationType) (k : String) (s : Server MemoryCache)
      → Misses k s.cache
      → Misses k (delete_operation x (memory_cache order) now graph_ref operation s).1.cache
  unfolding delete_operation
  delete_operation-keeps schema k s missing = delete_with_prefix-Misses _ k s.cache (inr missing)
  delete_operation-keeps entitlement k s missing =
      delete_with_prefix-Misses _ k s.cache (inr missing)
  delete_operation-keeps persisted_query_manifest k s missing =
      elim (Result-cases (parse_graph_ref graph_ref)) [
        | inl ((graph_id, variant_id), parsed) ↦ rw parsed (
            delete_with_prefix-Misses _ k _
              (inr (delete_with_prefix-Misses ("pq:" <> graph_id <> "/") k s.cache (inr missing))))
        | inr (inl (e, refused)) ↦ rw refused missing
        | inr (inr crashed) ↦ rw crashed missing
      ]
  delete_operation-keeps (invalid name) k s missing = missing

  delete_operation-deletes :
      (operation : OperationType) (v : Variables) (s : Server MemoryCache)
      → (delete_operation x (memory_cache order) now graph_ref operation s).0 ≡ ok tt
      → Misses
          (key operation v)
          (delete_operation x (memory_cache order) now graph_ref operation s).1.cache
  unfolding delete_operation
  delete_operation-deletes schema v s h =
      delete_with_prefix-Misses _ _ s.cache
        (inl (make_cache_key-proper x graph_ref supergraph_query v))
  delete_operation-deletes entitlement v s h =
      delete_with_prefix-Misses _ _ s.cache
        (inl (make_cache_key-proper x graph_ref license_query v))
  delete_operation-deletes persisted_query_manifest v s h =
      elim (Result-cases (parse_graph_ref graph_ref)) [
        | inl ((graph_id, variant_id), parsed) ↦ rw parsed (
            delete_with_prefix-Misses _ _ _
              (inl (make_cache_key-proper x graph_ref persisted_queries_query v)))
        | inr (inl (e, refused)) ↦ absurd (ground (arith, refused, h))
        | inr (inr crashed) ↦ absurd (ground (arith, crashed, h))
      ]
  delete_operation-deletes (invalid name) v s h = cc

  delete_operations-keeps :
      (operations : List OperationType) (k : String) (s : Server MemoryCache)
      → Misses k s.cache
      → Misses k (delete_operations x (memory_cache order) now graph_ref operations s).1.cache
  unfolding delete_operations
  delete_operations-keeps [] k s missing = missing
  delete_operations-keeps (operation ∷ operations) k s missing =
      let first = delete_operation x (memory_cache order) now graph_ref operation s in
      let after = delete_operation-keeps operation k s missing in
      elim (Result-cases first.0) [
        | inl (done, succeeded) ↦ rw succeeded (delete_operations-keeps operations k first.1 after)
        | inr (inl (e, refused)) ↦ rw refused after
        | inr (inr crashed) ↦ rw crashed after
      ]

  -- An operation type is in a list.
  abbrev pub Listed : OperationType → List OperationType → Type 0
  Listed operation [] = ⊥
  Listed operation (o ∷ operations) = (o ≡ operation) ⊎ Listed operation operations

  -- Over the in-memory cache: where the loop of DeleteCacheEntry succeeds, every key of the
  -- graph_ref with variables misses at every time, for each operation type that it was asked for.
  pub delete_operations-Misses :
      (operations : List OperationType) (operation : OperationType) (v : Variables)
      (s : Server MemoryCache)
      → Listed operation operations
      → (delete_operations x (memory_cache order) now graph_ref operations s).0 ≡ ok tt
      → Misses
          (key operation v)
          (delete_operations x (memory_cache order) now graph_ref operations s).1.cache
  unfolding delete_operations
  delete_operations-Misses [] operation v s listed h = absurd listed
  delete_operations-Misses (o ∷ operations) operation v s listed h =
      let first = delete_operation x (memory_cache order) now graph_ref o s in
      elim (Result-cases first.0) [
        | inl (done, succeeded) ↦
            let rest = rw succeeded at h in
            rw succeeded (elim listed [
              | inl same ↦
                  delete_operations-keeps operations _ first.1
                    (rw (← same) (delete_operation-deletes o v s succeeded))
              | inr later ↦ delete_operations-Misses operations operation v first.1 later rest
            ])
        | inr (inl (e, refused)) ↦ absurd (ground (arith, refused, h))
        | inr (inr crashed) ↦ absurd (ground (arith, crashed, h))
      ]

  -- For a graph_ref that does not parse and the schema: the loop of DeleteCacheEntry reports no
  -- error, and every key of the in-memory cache but the empty one misses afterwards.
  pub delete_operations-everything :
      (e : Error) (k : String) (s : Server MemoryCache)
      → parse_graph_ref graph_ref ≡ err e
      → k ≢ ""
      → ((delete_operations x (memory_cache order) now graph_ref (schema ∷ []) s).0 ≡ ok tt)
        × Misses k (delete_operations x (memory_cache order) now graph_ref (schema ∷ []) s).1.cache
  unfolding delete_operations delete_operation make_cache_prefix
  delete_operations-everything e k s refused named =
      (refl, rw refused (delete_with_prefix-Misses "" k s.cache (inl (empty-proper k named))))
