-- ===== src/PersistedQueries/Serving.antt =====
-- From a chunk of a manifest to a file of the relay: what persisted_queries.go cached under the URL
-- that it wrote into the manifest is what PersistedQueryHandler sends.
use uplink_relay.Common.{
  String, ◌≡◌, ◌≢◌, refl, true, some, [], ◌∷◌, Time, ok, pair_eq, arith, second_part, eq_iff,
}
use uplink_relay.Cache.{Cache}
use uplink_relay.Cache.Keeping.{Keeps}
use uplink_relay.Config.{Config}
use uplink_relay.Externals.{Externals, HttpResponse, write_body}
use uplink_relay.PersistedQueries.{
  path_prefix, persisted_query_handler, cache_urls, cache_chunks, local_url, next_url,
}
use uplink_relay.PersistedQueries.Keys.{make_persisted_query_cache_key}
use uplink_relay.Wire.{UplinkPersistedQueryChunk}

-- What zlib is documented to do: a reader gives what was written.
abbrev pub Inflates : Externals → Type 0
Inflates x = (s : String) → x.inflate (x.deflate s) ≡ some (record { content = s; complete = true })

module _ {C : Type 0} (x : Externals) (cache : Cache C) (config : Config) {now later : Time}
    (inflates : Inflates x) (keeps : Keeps cache now later config.cache.duration) where
  -- For zlib as documented and a cache that keeps what it is given until a later time: a chunk with
  -- one URL that can be fetched is cached, its URL becomes the one of the relay, and
  -- PersistedQueryHandler later sends the content at any path that has the id of the chunk, which
  -- is not empty, as its second part, for the index of the URL.
  pub cache_chunks-persisted_query_handler :
      (parsed_url path url : String) (chunk : UplinkPersistedQueryChunk) (resp : HttpResponse)
      (c : C)
      → chunk.urls ≡ url ∷ []
      → x.get url ≡ some resp
      → second_part path path_prefix ≡ some chunk.id
      → chunk.id ≢ ""
      → x.itoa 0 ≢ ""
      → (c' : C) × (cache_chunks x cache config now parsed_url (chunk ∷ []) c ≡ (
        ok (
            record chunk {
              urls = local_url x cache (next_url x cache config parsed_url) chunk.id 0 ∷ [];
            }
            ∷ []),
        c',
      ))
        × (persisted_query_handler x cache later path (x.itoa 0) c'
            ≡ ok (write_body resp.body ∷ []))
  unfolding cache_chunks cache_urls persisted_query_handler
  cache_chunks-persisted_query_handler parsed_url path url chunk resp c one fetched at named
        indexed =
      let key = make_persisted_query_cache_key chunk.id (x.itoa 0) in
      let stored =
        pair_eq (cache.set now key (x.deflate resp.body) config.cache.duration c) (ok tt)
          (keeps.set_ok key (x.deflate resp.body) c) in
      let found = keeps.get-set key (x.deflate resp.body) c in
      (
        (cache.set now key (x.deflate resp.body) config.cache.duration c).1,
        rw (one, fetched, stored) refl,
        ground (arith, at, found, inflates resp.body, eq_iff chunk.id "", eq_iff (x.itoa 0) ""),
      )
