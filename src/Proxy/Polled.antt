-- ===== src/Proxy/Polled.antt =====
-- What the relay handler of proxy/proxy.go answers with after polling/polling.go cached a manifest.
use uplink_relay.Common.{
  String, ◌≡◌, refl, ◌∙◌, ok, some, Time, true, false, contains, [], ◌∷◌, arith, ap, ◌≢◌, ℤ, Result,
  panicked, ignore, ignore_lem,
}
use uplink_relay.Cache.{Cache, CacheItem}
use uplink_relay.Cache.Contents.{contains-make_cache_key}
use uplink_relay.Cache.Keeping.{Keeps}
use uplink_relay.Cache.Keys.{artifact_variables, default_cache_key, make_cache_key}
use uplink_relay.Cache.Newest.{is_blank}
use uplink_relay.Config.{SupergraphConfig}
use uplink_relay.Externals.{Externals, PrintsByKey}
use uplink_relay.Polling.{poll_persisted_queries, poll_pq_manifest}
use uplink_relay.Proxy.{Relay, reply, relay_handler}
use uplink_relay.Proxy.Caching.{Accepted, relay_handler-hit}
use uplink_relay.Proxy.Hit.{handle_cache_hit, send, pq_hit, cached_manifest}
use uplink_relay.Server.{Server, on_cache}
use uplink_relay.Uplink.{supergraph_query, license_query, persisted_queries_query}
use uplink_relay.Wire.{UplinkPersistedQueryResponse}

-- Polling gets a manifest for a supergraph that pins none. Its text, read as a CacheItem, whose
-- fields it does not have, is an item without content.
pub record Polled {C : Type 0} (x : Externals) (g : SupergraphConfig) (s : Server C) : Type 0 where
  pub enabled : s.config.cache.enabled ≡ true
  pub on : s.config.polling.persisted_queries ≡ some true
  pub not_pinned : g.persisted_query_version ≡ ""
  pub response : UplinkPersistedQueryResponse
  pub answered : poll_pq_manifest x s.config g.graph_ref g.apollo_key ≡ ok response
  pub manifest : String
  pub marshalled : x.pq_response.marshal response ≡ some manifest
  pub item : CacheItem
  pub decoded : x.item.unmarshal manifest ≡ some item
  pub blank : is_blank item.content ≡ true

-- The manifest of an item without content.
abbrev pub unchanged : CacheItem → UplinkPersistedQueryResponse
unchanged item = record {
  persisted_queries = record {
    id = item.id;
    typename = "Unchanged";
    min_delay_seconds = 60;
    chunks = [];
  };
}

ignored :
    {C : Type 0} (cache : Cache C) (now : Time) (key value : String) (duration : ℤ) (s : Server C)
    → (cache.set now key value duration s.cache).0 ≢ panicked
    → on_cache (ignore (cache.set now key value duration)) s
      ≡ (ok tt, record s { cache = (cache.set now key value duration s.cache).1 })
ignored cache now key value duration s returns =
    ap (λ (r : Result (Unit {0}) × _). (r.0, record s { cache = r.1 }))
      (ignore_lem (cache.set now key value duration) s.cache returns)

cached_manifest_blank :
    (x : Externals) (item : CacheItem)
    → is_blank item.content ≡ true
    → cached_manifest x item ≡ some (unchanged item)
unfolding cached_manifest
cached_manifest_blank x item blank = rw blank refl

pq_hit-unchanged :
    (x : Externals) (item : CacheItem) → pq_hit x (unchanged item) "" ≡ unchanged item
unfolding pq_hit
pq_hit-unchanged x item = ground arith

module _ {C : Type 0} (x : Externals) (cache : Cache C) {now later : Time} (g : SupergraphConfig)
    (body : String) (server : Server C) (prints : PrintsByKey x)
    (a : Accepted x body persisted_queries_query g.graph_ref "")
    (keeps : Keeps cache now later server.config.cache.duration) where
  poll-caches :
      (p : Polled x g server)
      → (c' : C) × (poll_persisted_queries x cache now g server
          ≡ (ok tt, record server { cache = c' }))
        × (cache.get later (default_cache_key x g.graph_ref persisted_queries_query) c'
            ≡ some p.manifest)
  unfolding poll_persisted_queries default_cache_key
  poll-caches p =
      let key =
        make_cache_key x g.graph_ref persisted_queries_query
          (artifact_variables g.graph_ref "" ∷ []) in
      (
        (cache.set now key p.manifest server.config.cache.duration server.cache).1,
        rw (poll_persisted_queries, p.on, p.not_pinned, p.answered, p.marshalled)
            (ignored cache now key p.manifest server.config.cache.duration _
              (keeps.set_returns key p.manifest server.config.cache.duration server.cache)),
        keeps.get-set key p.manifest server.cache,
      )

  -- For texts of maps as documented, a cache that keeps what it is given until a later time, and a
  -- key of the manifest that contains the name of neither other operation: after polling cached a
  -- manifest for a supergraph that pins none, where its text read as a CacheItem has no content, an
  -- accepted PersistedQueriesManifestQuery without an ifAfterId is answered from the cache at the
  -- later time with Unchanged and without a chunk, and the state of the relay stays as it is.
  pub poll_persisted_queries-relay_handler :
      (s : Relay C) (p : Polled x g server)
      → contains (default_cache_key x g.graph_ref persisted_queries_query) supergraph_query ≡ false
      → contains (default_cache_key x g.graph_ref persisted_queries_query) license_query ≡ false
      → (c' : C) × (poll_persisted_queries x cache now g server
          ≡ (ok tt, record server { cache = c' }))
        × (relay_handler x cache server.config later body (record s { cache = c' })
            ≡ reply (send (x.pq_response.marshal (unchanged p.item))) (record s { cache = c' }))
  unfolding handle_cache_hit default_cache_key
  poll_persisted_queries-relay_handler s p no_supergraph no_license =
      let (c', done, found) = poll-caches p in
      let hit =
        relay_handler-hit x cache server.config body persisted_queries_query g.graph_ref "" prints
          p.enabled a later (record s { cache = c' }) p.manifest p.item found p.decoded in
      let is_manifest =
        contains-make_cache_key x g.graph_ref persisted_queries_query a.graph_id a.variant_id
          a.parsed (artifact_variables g.graph_ref "") in
      (
        c',
        done,
        hit
            ∙ rw
                (
                  handle_cache_hit,
                  no_supergraph,
                  no_license,
                  is_manifest,
                  cached_manifest_blank x p.item p.blank,
                  pq_hit-unchanged x p.item,
                )
                refl,
      )
