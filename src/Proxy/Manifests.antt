-- ===== src/Proxy/Manifests.antt =====
-- What FetchPQManifest fetched before is what the relay handler of proxy/proxy.go answers with.
use uplink_relay.Common.{
  String, ◌≡◌, ◌≢◌, refl, ◌∙◌, ok, some, Bool-cases, inl, inr, Time, false, contains, ◌==◌, eq_iff,
}
use uplink_relay.Cache.{Cache}
use uplink_relay.Cache.Contents.{contains-make_cache_key}
use uplink_relay.Cache.Keeping.{Keeps}
use uplink_relay.Cache.Keys.{artifact_variables, default_cache_key}
use uplink_relay.Externals.{Externals, RoundTrips, PrintsByKey}
use uplink_relay.PersistedQueries.{fetch_pq_manifest, manifest_item}
use uplink_relay.PersistedQueries.Caching.{Manifested, fetch_pq_manifest-caches}
use uplink_relay.Proxy.{Relay, reply, relay_handler}
use uplink_relay.Proxy.Caching.{Accepted, relay_handler-hit}
use uplink_relay.Proxy.Hit.{handle_cache_hit, send, pq_hit, cached_manifest}
use uplink_relay.Server.{Server}
use uplink_relay.Uplink.{supergraph_query, license_query, persisted_queries_query}
use uplink_relay.Wire.{UplinkPersistedQueryResponse}

module _ {C : Type 0} (x : Externals) (cache : Cache C) {now later : Time} (graph_ref body : String)
    (server : Server C) (trips : RoundTrips x.item) (manifests : RoundTrips x.pq_response)
    (prints : PrintsByKey x) (a : Accepted x body persisted_queries_query graph_ref "")
    (keeps : Keeps cache now later server.config.cache.duration) where
  -- The manifest with the URLs of the relay.
  abbrev pub filled :
      {id : String} → Manifested x cache now graph_ref id server → UplinkPersistedQueryResponse
  filled m = record {
    persisted_queries = record m.response.persisted_queries { chunks = m.chunks };
  }

  read_back :
      {id : String} (m : Manifested x cache now graph_ref id server)
      → m.manifest ≢ ""
      → cached_manifest x (
          manifest_item x now m.manifest m.response.persisted_queries.id
            server.config.cache.duration)
        ≡ some (filled m)
  unfolding cached_manifest manifest_item
  read_back m named = elim (Bool-cases (m.manifest == "")) [
    | inl empty ↦ absurd (named ((eq_iff m.manifest "").0 empty))
    | inr full ↦ rw full (manifests (filled m) m.manifest m.marshalled)
  ]

  -- For JSON codecs and texts of maps as documented, a cache that keeps what it is given until a
  -- later time, and a key of the manifest that contains the name of neither other operation: after
  -- FetchPQManifest got a manifest whose chunks could be cached and whose text is not empty, an
  -- accepted PersistedQueriesManifestQuery without an ifAfterId is answered from the cache at the
  -- later time with that manifest and the cached chunks, as an Unchanged one if that is what its ID
  -- means for the client, and the state of the relay stays as it is.
  pub fetch_pq_manifest-relay_handler :
      (s : Relay C) (id : String) (m : Manifested x cache now graph_ref id server)
      → m.manifest ≢ ""
      → contains (default_cache_key x graph_ref persisted_queries_query) supergraph_query ≡ false
      → contains (default_cache_key x graph_ref persisted_queries_query) license_query ≡ false
      → (c' : C) × (fetch_pq_manifest x cache now graph_ref id server
          ≡ (ok tt, record server { cache = c' }))
        × (relay_handler x cache server.config later body (record s { cache = c' })
            ≡ reply
                (send (x.pq_response.marshal (pq_hit x (filled m) "")))
                (record s { cache = c' }))
  unfolding handle_cache_hit default_cache_key
  fetch_pq_manifest-relay_handler s id m named no_supergraph no_license =
      let (c', done, found) = fetch_pq_manifest-caches x cache graph_ref id server keeps m in
      let hit =
        relay_handler-hit x cache server.config body persisted_queries_query graph_ref "" prints
          m.enabled a later (record s { cache = c' }) m.entry
          (manifest_item x now m.manifest m.response.persisted_queries.id
            server.config.cache.duration)
          found (trips _ m.entry m.filed) in
      let is_manifest =
        contains-make_cache_key x graph_ref persisted_queries_query a.graph_id a.variant_id a.parsed
          (artifact_variables graph_ref "") in
      (
        c',
        done,
        hit ∙ rw (handle_cache_hit, no_supergraph, no_license, is_manifest, read_back m named) refl,
      )
