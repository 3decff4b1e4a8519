-- ===== src/Proxy/ManifestCaching.antt =====
-- From a miss to a hit: a manifest of persisted queries that the relay handler of proxy/proxy.go
-- fetched from an uplink is what it answers with afterwards.
use uplink_relay.Common.{
  String, ◌≡◌, ◌≢◌, refl, ◌∙◌, true, false, none, some, List, [], ◌∷◌, Time, ok, contains, ◌==◌,
  eq_iff, eq_refl, arith, pair_eq, Bool-cases, inl, inr,
}
use uplink_relay.Cache.{Cache, CacheItem}
use uplink_relay.Cache.Contents.{contains-make_cache_key}
use uplink_relay.Cache.Keeping.{Keeps}
use uplink_relay.Cache.Keys.{default_cache_key, artifact_variables}
use uplink_relay.Cache.Newest.{is_blank, update_newest, stored_entry}
use uplink_relay.Config.{Config}
use uplink_relay.Externals.{Externals, proxied, HttpResponse, RoundTrips, PrintsByKey}
use uplink_relay.PersistedQueries.{cache_persisted_query_chunk_data, manifest_item}
use uplink_relay.Proxy.{Relay, reply, relay_handler, cleaned}
use uplink_relay.Proxy.Caching.{
  IsUnpinned, Accepted, relay_handler-hit, relay_handler-miss, operation-cleaned, graph-cleaned,
}
use uplink_relay.Proxy.Hit.{handle_cache_hit, send, pq_hit, cached_manifest}
use uplink_relay.Proxy.Response.{modify_proxied_response, response_body, cache_pq_response}
use uplink_relay.Proxy.SupergraphCaching.{Answers, relay_miss-answered}
use uplink_relay.Uplink.{next, supergraph_query, license_query, persisted_queries_query}
use uplink_relay.Wire.{UplinkPersistedQueryResponse, UplinkPersistedQueryChunk}

-- The answer is a manifest whose chunks can be cached, with texts of the manifest with the URLs of
-- the relay, which is not empty, and of its entry.
pub record IsManifest {C : Type 0} (x : Externals) (cache : Cache C) (config : Config) (now : Time)
    (resp : HttpResponse) (c : C) : Type 0 where
  pub json : String
  pub read : response_body x resp ≡ some json
  pub is_json : x.is_json json ≡ true
  pub response : UplinkPersistedQueryResponse
  pub decoded : x.pq_response.unmarshal json ≡ some response
  pub chunks : List UplinkPersistedQueryChunk
  pub with_chunks : C
  pub chunked :
      cache_persisted_query_chunk_data x cache config now response.persisted_queries.chunks c
      ≡ (ok chunks, with_chunks)
  pub manifest : String
  pub marshalled :
      x.pq_response.marshal
        (record { persisted_queries = record response.persisted_queries { chunks = chunks } })
      ≡ some manifest
  pub named : manifest ≢ ""
  pub entry : String
  pub filed :
      x.item.marshal
        (manifest_item x now manifest response.persisted_queries.id config.cache.duration)
      ≡ some entry

module _ {C : Type 0} (x : Externals) (cache : Cache C) (config : Config) (body graph_ref : String)
    {now later : Time} (trips : RoundTrips x.item) (manifests : RoundTrips x.pq_response)
    (prints : PrintsByKey x) (enabled : config.cache.enabled ≡ true)
    (a : Accepted x body persisted_queries_query graph_ref "")
    (keeps : Keeps cache now later config.cache.duration)
    (keeps_now : Keeps cache now now config.cache.duration) where
  abbrev pub manifest_key : String
  manifest_key = default_cache_key x graph_ref persisted_queries_query

  abbrev pub stored_item :
      (resp : HttpResponse) (c : C) → IsManifest x cache config now resp c → CacheItem
  stored_item resp c m =
      manifest_item x now m.manifest m.response.persisted_queries.id config.cache.duration

  abbrev pub local_response :
      (resp : HttpResponse) (c : C)
      → IsManifest x cache config now resp c
      → UplinkPersistedQueryResponse
  local_response resp c m = record {
    persisted_queries = record m.response.persisted_queries { chunks = m.chunks };
  }

  -- The item that was just stored is not newer than itself.
  update_newest-same :
      (item : CacheItem) (entry : String) (c : C)
      → x.item.marshal item ≡ some entry
      → cache.get now manifest_key c ≡ some entry
      → update_newest x cache now graph_ref persisted_queries_query item c ≡ (ok tt, c)
  unfolding update_newest stored_entry
  update_newest-same item entry c marshalled found = elim (Bool-cases (is_blank item.content)) [
    | inl blank ↦ rw blank refl
    | inr filled ↦ rw (filled, found, trips item entry marshalled, eq_refl item.hash) (ground arith)
  ]

  modify-manifest :
      (resp : HttpResponse) (c : C) (m : IsManifest x cache config now resp c)
      → modify_proxied_response x cache config now manifest_key (cleaned a.request) resp c ≡ (
        ok (record resp { body = m.manifest; content_length = x.byte_length m.manifest }),
        (cache.set now manifest_key m.entry config.cache.duration m.with_chunks).1,
      )
  unfolding modify_proxied_response cache_pq_response
  modify-manifest resp c m =
      let c' = (cache.set now manifest_key m.entry config.cache.duration m.with_chunks).1 in
      let stored =
        pair_eq (cache.set now manifest_key m.entry config.cache.duration m.with_chunks) (ok tt)
          (keeps.set_ok manifest_key m.entry m.with_chunks) in
      let newest =
        update_newest-same (stored_item resp c m) m.entry c' m.filed
          (keeps_now.get-set manifest_key m.entry m.with_chunks) in
      let graph =
        graph-cleaned x cache config body persisted_queries_query graph_ref "" prints enabled a in
      let operation =
        operation-cleaned x cache config body persisted_queries_query graph_ref "" prints enabled
          a in
      rw (modify_proxied_response, m.read, m.is_json, operation, cache_pq_response, m.decoded)
        (ground (arith, enabled, m.chunked, m.marshalled, m.filed, stored, newest, graph))

  read_local :
      (resp : HttpResponse) (c : C) (m : IsManifest x cache config now resp c)
      → cached_manifest x (stored_item resp c m) ≡ some (local_response resp c m)
  unfolding cached_manifest manifest_item
  read_local resp c m = elim (Bool-cases (m.manifest == "")) [
    | inl empty ↦ absurd (m.named ((eq_iff m.manifest "").0 empty))
    | inr full ↦ rw full (manifests (local_response resp c m) m.manifest m.marshalled)
  ]

  -- With the cache on, for JSON codecs and texts of maps as documented, a cache that keeps what it
  -- is given at once and until a later time, and a key that contains the name of neither other
  -- operation: an accepted PersistedQueriesManifestQuery without an ifAfterId that misses the cache
  -- and is not pinned, and whose first uplink answers with a manifest whose chunks can be cached,
  -- gets that manifest with the cached chunks. The same request at the later time gets it from the
  -- cache, as an Unchanged one if that is what its ID means for the client: nothing is asked of an
  -- uplink, and neither the cache nor the selector changes.
  pub relay_handler-manifest :
      (s : Relay C) (resp : HttpResponse) (m : IsManifest x cache config now resp s.cache)
      → cache.get now manifest_key s.cache ≡ none
      → contains manifest_key supergraph_query ≡ false
      → contains manifest_key license_query ≡ false
      → IsUnpinned config persisted_queries_query graph_ref
      → Answers x config body s resp
      → (s' : Relay C) × (relay_handler x cache config now body s
          ≡ reply
              (proxied
                  (record resp { body = m.manifest; content_length = x.byte_length m.manifest })
                ∷ [])
              s')
        × (relay_handler x cache config later body s'
            ≡ reply (send (x.pq_response.marshal (pq_hit x (local_response resp s.cache m) ""))) s')
  unfolding handle_cache_hit default_cache_key
  relay_handler-manifest s resp m missing no_supergraph no_license unpinned answers =
      let c' = (cache.set now manifest_key m.entry config.cache.duration m.with_chunks).1 in
      let s' : Relay C = record s { selector = (next s.selector).1; cache = c' } in
      let missed =
        relay_handler-miss x cache config body persisted_queries_query graph_ref "" prints enabled a
          now s missing unpinned in
      let asked =
        relay_miss-answered x cache config now body manifest_key (cleaned a.request) s resp
          (record resp { body = m.manifest; content_length = x.byte_length m.manifest }) c' answers
          (modify-manifest resp s.cache m) in
      let hit =
        relay_handler-hit x cache config body persisted_queries_query graph_ref "" prints enabled a
          later s' m.entry (stored_item resp s.cache m)
          (keeps.get-set manifest_key m.entry m.with_chunks) (trips _ m.entry m.filed) in
      let is_manifest =
        contains-make_cache_key x graph_ref persisted_queries_query a.graph_id a.variant_id a.parsed
          (artifact_variables graph_ref "") in
      (
        s',
        missed ∙ asked,
        hit
            ∙ rw
                (
                  handle_cache_hit,
                  no_supergraph,
                  no_license,
                  is_manifest,
                  read_local resp s.cache m,
                )
                refl,
      )
