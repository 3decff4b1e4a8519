-- ===== src/System/Fetching.antt =====
-- The calls of schema/, entitlements/ and persisted_queries/ that fetch and cache an artifact.
use uplink_relay.Common.{
  ℕ, suc, Bool, String, refl, List, [], ◌∷◌, ℤ, Time, Preserves, preserves_rules, bind-Preserves,
  pure-Preserves, try-Preserves, bind_try-Preserves, ignore-Preserves, negsuc, inl, inr, ◌≡◌, some,
}
use uplink_relay.Cache.{Cache}
use uplink_relay.Cache.Keys.{make_cache_key, default_cache_key}
use uplink_relay.Cache.Writes.{
  schema_filed, license_filed, manifest_filed, chunk, IsClosed, update_newest-Preserves,
}
use uplink_relay.Config.{Config}
use uplink_relay.Entitlements.{license_item, cache_license, update_nil, fetch_router_license}
use uplink_relay.Externals.{Externals}
use uplink_relay.PersistedQueries.{
  manifest_item, cache_urls, cache_chunks, cache_persisted_query_chunk_data, fetch_pq_manifest,
}
use uplink_relay.PersistedQueries.Keys.{make_persisted_query_cache_key}
use uplink_relay.Schema.{schema_item, cache_schema, fetch_schema}
use uplink_relay.Server.{OfServer, server_rules}
use uplink_relay.System.Pinning.{
  IsInvariant, pin_launch_id-Preserves, pin_offline_license-Preserves,
}
use uplink_relay.Wire.{UplinkPersistedQueryChunk, Variables}
use uplink_relay.Uplink.{supergraph_query, persisted_queries_query}

module _ {C : Type 0} (x : Externals) {pins : Bool} (cache : Cache C) {P : C → Type 0}
    (closed : IsClosed x pins cache P) where
  pub cache_schema-Preserves :
      (now : Time) (graph_ref schema : String) (id : Time) (if_after_id : String) (d : ℤ)
      → Preserves P (cache_schema x cache now graph_ref schema id if_after_id d)
  unfolding cache_schema default_cache_key
  cache_schema-Preserves now graph_ref schema id if_after_id d =
      let item = schema_item x now schema id d in
      bind_try-Preserves _ _ _ (λ entry marshalled.
        bind-Preserves _ _
          (ignore-Preserves _ (
            update_newest-Preserves x cache now graph_ref supergraph_query item (λ newest again.
              closed now _ newest (negsuc 0)
                (schema_filed graph_ref "" schema id d refl again (inr refl)))))
          (λ _.
            closed now _ entry d
              (schema_filed graph_ref if_after_id schema id d refl marshalled (inl refl))))

  pub cache_license-Preserves :
      (now : Time) (graph_ref jwt : String) (id : Time) (d : ℤ) (if_after_id : String)
      → Preserves P (cache_license x cache now graph_ref jwt id d if_after_id)
  unfolding cache_license update_nil
  cache_license-Preserves now graph_ref jwt id d if_after_id =
      bind_try-Preserves _ _ _ (λ entry marshalled.
        bind-Preserves (update_nil x cache now graph_ref (license_item x now jwt id)) _
          (unfold license_item in unfold update_nil in pure-Preserves tt)
          (λ _. closed now _ entry d (license_filed graph_ref if_after_id jwt id refl marshalled)))

  pub cache_manifest-Preserves :
      (now : Time) (graph_ref manifest id entry : String) (v : Variables) (d : ℤ)
      → x.item.marshal (manifest_item x now manifest id d) ≡ some entry
      → Preserves P
          (cache.set now (make_cache_key x graph_ref persisted_queries_query (v ∷ [])) entry d)
  cache_manifest-Preserves now graph_ref manifest id entry v d marshalled =
      closed now _ entry d (manifest_filed graph_ref manifest id v d refl marshalled (inl refl))

  cache_urls-Preserves :
      (config : Config) (now : Time) (id : String) (u : ℕ) (parsed_url : String)
      (urls : List String)
      → Preserves P (cache_urls x cache config now id u parsed_url urls)
  unfolding cache_urls
  cache_urls-Preserves config now id u parsed_url [] = pure-Preserves _
  cache_urls-Preserves config now id u parsed_url (url ∷ urls) =
      bind-Preserves _ _ (try-Preserves _ _) (λ res.
        bind-Preserves _ _
          (closed now (make_persisted_query_cache_key id (x.itoa u)) _ _
            (chunk id res.body u refl refl))
          (λ _.
            bind-Preserves _ _ (cache_urls-Preserves config now id (suc u) _ urls)
              (λ later. pure-Preserves _)))

  cache_chunks-Preserves :
      (config : Config) (now : Time) (parsed_url : String) (chunks : List UplinkPersistedQueryChunk)
      → Preserves P (cache_chunks x cache config now parsed_url chunks)
  unfolding cache_chunks
  cache_chunks-Preserves config now parsed_url [] = pure-Preserves _
  cache_chunks-Preserves config now parsed_url (next ∷ chunks) =
      bind-Preserves _ _ (cache_urls-Preserves config now next.id 0 parsed_url next.urls)
        (λ (urls, final).
          bind-Preserves _ _ (cache_chunks-Preserves config now final chunks)
            (λ later. pure-Preserves _))

  pub cache_persisted_query_chunk_data-Preserves :
      (config : Config) (now : Time) (chunks : List UplinkPersistedQueryChunk)
      → Preserves P (cache_persisted_query_chunk_data x cache config now chunks)
  unfolding cache_persisted_query_chunk_data
  cache_persisted_query_chunk_data-Preserves config now chunks =
      search (preserves_rules, cache_chunks-Preserves)

module _ {C : Type 0} (x : Externals) (cache : Cache C) {P : Config → C → Type 0}
    (inv : IsInvariant x cache P) where
  pub fetch_schema-Preserves :
      (now : Time) (graph_ref : String)
      → Preserves (OfServer P) (fetch_schema x cache now graph_ref)
  unfolding fetch_schema
  fetch_schema-Preserves now graph_ref =
      let store = λ (config : Config). cache_schema-Preserves x cache (inv.writes config) in
      search (server_rules, store, pin_launch_id-Preserves x cache inv) depth 9

  pub fetch_router_license-Preserves :
      (now : Time) (graph_ref : String)
      → Preserves (OfServer P) (fetch_router_license x cache now graph_ref)
  unfolding fetch_router_license
  fetch_router_license-Preserves now graph_ref =
      let store = λ (config : Config). cache_license-Preserves x cache (inv.writes config) in
      let pin = λ (config : Config). pin_offline_license-Preserves x cache (inv.writes config) in
      search (server_rules, store, pin) depth 14

  pub fetch_pq_manifest-Preserves :
      (now : Time) (graph_ref if_after_id : String)
      → Preserves (OfServer P) (fetch_pq_manifest x cache now graph_ref if_after_id)
  unfolding fetch_pq_manifest default_cache_key
  fetch_pq_manifest-Preserves now graph_ref if_after_id =
      let store = λ (config : Config).
        cache_persisted_query_chunk_data-Preserves x cache (inv.writes config) in
      let file = λ (config : Config). cache_manifest-Preserves x cache (inv.writes config) in
      search (bind_try-Preserves, server_rules, store, file) depth 14
