-- ===== src/PersistedQueries.antt =====
-- persisted_queries/persisted_queries.go: the chunks of a manifest, which the relay caches and
-- serves itself, and the manifest.
pub mod Keys
pub mod Serving
pub mod Caching
use uplink_relay.Queries.{manifest_query_text}
use uplink_relay.Common.{
  ℕ, suc, String, Bool, true, false, not, ◌&&◌, ◌||◌, Option, none, some, List, [], ◌∷◌, ℤ, negsuc,
  Time, ◌==◌, if◌then◌else◌, Act, Result, ok, err, panicked, failed, library, pure, raise, panic,
  try, lift, ◌>>=◌, ◌>>◌, ◌<>◌, starts_with, second_part,
}
use uplink_relay.Cache.{CacheItem, Cache, expiration_time}
use uplink_relay.Cache.Keys.{hash_string, default_cache_key}
use uplink_relay.Config.{Config, find_supergraph_config_from_graph_ref}
use uplink_relay.Externals.{Externals, Write, set_header, http_error, write_body}
use uplink_relay.Server.{Server, on_cache, with_config}
use uplink_relay.Uplink.{persisted_queries_query}
use uplink_relay.UplinkRequest.{uplink_request}
use uplink_relay.Wire.{
  UplinkRelayRequest, UplinkPersistedQueryChunk, UplinkPersistedQueryResponse, text,
}
use Keys.{make_persisted_query_cache_key}

abbrev pub path_prefix : String
path_prefix = "/persisted-queries/"

abbrev json_error : String → ℕ → List Write
json_error message code =
    set_header "Content-Type" "application/json" ∷ http_error message code ∷ []

-- The item that holds a manifest, a marshalled response.
unfoldable pub manifest_item : Externals → Time → String → String → ℤ → CacheItem
unfolding expiration_time hash_string
manifest_item x now resp id duration = record {
  content = some resp;
  expiration = expiration_time now duration;
  hash = hash_string x resp;
  last_modified = now;
  id = id;
}

module _ {C : Type 0} (x : Externals) (cache : Cache C) where
  -- PersistedQueryHandler for a path and the value of the query parameter i. io.Copy sends what
  -- the reader gives, also up to an error.
  unfoldable pub persisted_query_handler : Time → String → String → C → Result (List Write)
  persisted_query_handler now path index c = elim (second_part path path_prefix) [
    | none ↦ panicked
    | some id ↦
        if id == "" || index == ""
        then ok (json_error "{\"error\":\"Invalid path format\"}" 400)
        else elim (cache.get now (make_persisted_query_cache_key id index) c) [
          | none ↦ ok (json_error "{\"error\":\"Manifest not found\"}" 404)
          | some content ↦ elim (x.inflate content) [
            | none ↦ ok (http_error "Error reading content" 500 ∷ [])
            | some inflated ↦ ok (write_body inflated.content ∷ [])
          ]
        ]
  ]

  -- parsedUrl after one round of the loop: its scheme, and one more path_prefix.
  unfoldable pub next_url : Config → String → String
  next_url config parsed_url =
      x.join_path
        (if not (config.relay.tls.key_file == "") || not (config.relay.tls.cert_file == "")
          then x.set_scheme parsed_url "https"
          else parsed_url)
        path_prefix

  -- The URL that replaces the one at index u.
  unfoldable pub local_url : String → String → ℕ → String
  local_url parsed_url id u = parsed_url <> id <> "?i=" <> x.itoa u

  -- The inner loop over the URLs of a chunk from index u: the new URLs and parsedUrl at the end.
  unfoldable pub cache_urls :
      Config → Time → String → ℕ → String → List String → Act C (List String × String)
  unfolding next_url local_url
  cache_urls config now id u parsed_url [] = pure ([], parsed_url)
  cache_urls config now id u parsed_url (chunk_url ∷ urls) =
      let joined = next_url config parsed_url in
      let rest = cache_urls config now id (suc u) joined urls in
      (do
        res ← try (x.get chunk_url) (library "http.Get")
        cache.set now (make_persisted_query_cache_key id (x.itoa u)) (x.deflate res.body)
            config.cache.duration
        (later, final) ← rest
        pure (local_url joined id u ∷ later, final))

  -- The outer loop over the chunks.
  unfoldable pub cache_chunks :
      Config
      → Time
      → String
      → List UplinkPersistedQueryChunk
      → Act C (List UplinkPersistedQueryChunk)
  unfolding cache_urls
  cache_chunks config now parsed_url [] = pure []
  cache_chunks config now parsed_url (chunk ∷ chunks) =
      let rest = λ (url : String). cache_chunks config now url chunks in
      (do
        (urls, final) ← cache_urls config now chunk.id 0 parsed_url chunk.urls
        later ← rest final
        pure (record chunk { urls = urls } ∷ later))

  unfoldable pub cache_persisted_query_chunk_data :
      Config → Time → List UplinkPersistedQueryChunk → Act C (List UplinkPersistedQueryChunk)
  unfolding cache_chunks
  cache_persisted_query_chunk_data config now chunks =
      if not config.cache.enabled || config.relay.public_url == ""
      then pure chunks
      else if not (starts_with config.relay.public_url "http")
      then raise (failed "invalid publicURL")
      else (do
        _ ← try (x.parsers.parse_url config.relay.public_url) (library "url.Parse")
        cache_chunks config now config.relay.public_url chunks)

  abbrev pub manifest_request : String → String → String → UplinkRelayRequest
  manifest_request apollo_key graph_ref if_after_id = record {
    query = manifest_query_text;
    variables =
        ("apiKey", text apollo_key)
        ∷ ("graph_ref", text graph_ref)
        ∷ ("ifAfterId", text if_after_id)
        ∷ [];
    operation_name = "PersistedQueriesManifestQuery";
  }

  abbrev pub cache_persisted_queries : Time → String → String → ℤ → Act C (Unit {0})
  cache_persisted_queries now graph_ref response duration =
      cache.set now (default_cache_key x graph_ref persisted_queries_query) response duration

  unfoldable pub fetch_pq_manifest : Time → String → String → Act (Server C) (Unit {0})
  unfolding manifest_item
  fetch_pq_manifest now graph_ref if_after_id = with_config λ config. do
    supergraph ← lift (find_supergraph_config_from_graph_ref graph_ref config)
    if not (supergraph.persisted_query_version == "") then pure tt else (do
      resp ←
          lift
            (uplink_request x config (manifest_request supergraph.apollo_key graph_ref if_after_id))
      response ← try (x.pq_response.unmarshal resp) (library "json.Unmarshal")
      if config.cache.enabled
          then (do
            chunks ←
                on_cache
                  (cache_persisted_query_chunk_data config now response.persisted_queries.chunks)
            let filled : UplinkPersistedQueryResponse = record {
              persisted_queries = record response.persisted_queries { chunks = chunks };
            }
            manifest ← try (x.pq_response.marshal filled) (library "json.Marshal")
            entry ←
                try
                  (x.item.marshal (
                    manifest_item x now manifest response.persisted_queries.id
                      config.cache.duration))
                  (library "json.Marshal")
            on_cache (cache_persisted_queries now graph_ref entry config.cache.duration))
          else pure tt)
