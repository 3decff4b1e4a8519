-- ===== src/Tests/Requests.antt =====
-- The theorems on polling, webhooks, persisted queries, the requests of the relay and the management
-- API.
use uplink_relay.Common.{
  String, ◌≡◌, ◌≢◌, inl, refl, true, none, some, [], ◌∷◌, pos, negsuc, ok, err, failed, lookup,
  split, before_first, after_first, strip_prefix, without, insert, second_part,
}
use uplink_relay.Cache.Keys.{hash_string, make_cache_prefix, make_cache_key, artifact_variables}
use uplink_relay.Cache.Memory.{MemoryCache, get, set, make_room, new_item, new_memory_cache}
use uplink_relay.Config.{Config, find_supergraph_config_from_graph_ref}
use uplink_relay.Externals.{write_body}
use uplink_relay.Management.Survivors.{delete_operations-handle_pinned_entry}
use uplink_relay.Management.{delete_operation, delete_operations}
use uplink_relay.Management.Deletion.{
  Misses, delete_operations-Misses, delete_operations-everything,
}
use uplink_relay.Management.Model.{schema}
use uplink_relay.GraphRef.{parse_graph_ref}
use uplink_relay.PersistedQueries.{cache_chunks, persisted_query_handler, local_url, next_url}
use uplink_relay.PersistedQueries.Serving.{cache_chunks-persisted_query_handler}
use uplink_relay.Pinning.Entry.{answer_pinned, handle_pinned_entry}
use uplink_relay.Pinning.Names.{operation_mapping}
use uplink_relay.Polling.Rounds.{Filled}
use uplink_relay.Proxy.{cleaned, Relay, is_pinned}
use uplink_relay.Proxy.Caching.{Accepted}
use uplink_relay.Proxy.Variables.{default_if_after_id}
use uplink_relay.Server.{Server}
use uplink_relay.Tests.Memory.{one_minute, parsed}
use uplink_relay.Tests.World.{body_of, config, graph, memory, empty, answer}
use uplink_relay.Uplink.{new_round_robin_selector, next, supergraph_query}
use uplink_relay.UplinkRequest.{uplink_request, uplink_url, response_bytes}
use uplink_relay.UplinkRequest.Accepting.{Exchanged, uplink_request-Exchanged}
use uplink_relay.Webhooks.{contains_graph, process, signature_of, webhook_handler}
use uplink_relay.Webhooks.Signed.{Genuine, webhook_handler-Genuine}
use uplink_relay.Wire.{UplinkPersistedQueryChunk}
use uplink_relay.Tests.Services.{pinned, there, server}

signed : signature_of "sha256=mac" ≡ some "mac"
unfolding signature_of after_first before_first strip_prefix
signed = refl

webhook_ok :
    (webhook_handler there memory config 1000 "sha256=mac" "{}" empty).0
    ≡ ok (write_body "Webhook processed successfully" ∷ [])
unfolding webhook_handler signature_of after_first before_first strip_prefix process contains_graph
    make_cache_key make_cache_prefix parse_graph_ref split
webhook_ok = refl

webhook_handler-Genuine_example : Genuine there config "sha256=mac" "{}"
webhook_handler-Genuine_example =
    webhook_handler-Genuine there memory config 1000 "sha256=mac" "{}" empty webhook_ok

forged : signature_of "sha256=none" ≢ some "mac"
unfolding signature_of after_first before_first strip_prefix
forged h = cc

abbrev chunk : UplinkPersistedQueryChunk
chunk = record { id = "c"; urls = "http://chunk" ∷ [] }

chunk_path : second_part "/persisted-queries/c" "/persisted-queries/" ≡ some "c"
unfolding second_part
chunk_path = refl

cache_chunks-persisted_query_handler_example :
    (c' : MemoryCache) × (cache_chunks there memory config 1000 "http://r" (chunk ∷ []) empty ≡ (
      ok (
          record chunk {
            urls = local_url there memory (next_url there memory config "http://r") "c" 0 ∷ [];
          }
          ∷ []),
      c',
    ))
    × (persisted_query_handler there memory 2000 "/persisted-queries/c" "0" c'
        ≡ ok (write_body "{}" ∷ []))
cache_chunks-persisted_query_handler_example =
    cache_chunks-persisted_query_handler there memory config (λ s. refl) one_minute "http://r"
      "/persisted-queries/c" "http://chunk" chunk answer empty refl refl chunk_path (λ h. cc)
      (λ h. cc)

requested : uplink_request there config (body_of supergraph_query) ≡ ok "{}"
unfolding uplink_request uplink_url response_bytes next new_round_robin_selector
requested = refl

uplink_request-Exchanged_example : Exchanged there config (body_of supergraph_query) "{}"
uplink_request-Exchanged_example =
    uplink_request-Exchanged there config (body_of supergraph_query) "{}" (λ h. cc) requested

-- A server that polls everything, without attempts.
abbrev polling : Server MemoryCache
polling = record server {
  config = record config {
    polling = record config.polling {
      enabled = true;
      retry_count = pos 0;
      supergraph = some true;
      entitlements = some true;
      persisted_queries = some true;
    };
  };
}

filled : Filled polling.config
filled = record {
  supergraph = true;
  supergraph_is = refl;
  entitlements = true;
  entitlements_is = refl;
  persisted_queries = true;
  persisted_queries_is = refl;
}

deleted : (delete_operations there memory 1000 "g@v" (schema ∷ []) server).0 ≡ ok tt
unfolding delete_operations delete_operation
deleted = refl

delete_operations-Misses_example :
    Misses
      (make_cache_key there "g@v" supergraph_query (artifact_variables "g@v" "" ∷ []))
      (delete_operations there memory 1000 "g@v" (schema ∷ []) server).1.cache
delete_operations-Misses_example =
    delete_operations-Misses there (λ items. items) 1000 "g@v" (schema ∷ []) schema
      (artifact_variables "g@v" "") server (inl refl) deleted

abbrev pinned_server : Server MemoryCache
pinned_server = record server {
  cache = (memory.set 10 "g:v:SupergraphPinned" "item" (negsuc 0) empty).1;
}

delete_operations-handle_pinned_entry_example :
    let (result, s') = delete_operations there memory 1000 "g@v" (schema ∷ []) pinned_server in
    (result ≡ ok tt)
    × (handle_pinned_entry there memory 2000 s'.cache "g" "v" supergraph_query ""
        ≡ handle_pinned_entry there memory 2000 pinned_server.cache "g" "v" supergraph_query "")
delete_operations-handle_pinned_entry_example =
    delete_operations-handle_pinned_entry there (λ items. items) "g@v" "g" "v" parsed
      supergraph_query (inl refl) 1000 2000 schema "" pinned_server (inl refl)

refused : parse_graph_ref "g" ≡ err (failed "invalid graph_ref")
unfolding parse_graph_ref split
refused = refl

delete_operations-everything_example :
    ((delete_operations there memory 1000 "g" (schema ∷ []) server).0 ≡ ok tt)
    × Misses "k" (delete_operations there memory 1000 "g" (schema ∷ []) server).1.cache
delete_operations-everything_example =
    delete_operations-everything there (λ items. items) 1000 "g" (failed "invalid graph_ref") "k"
      server refused (λ h. cc)

-- A configuration that pins g@v to a launch, and a cache with the pinned schema.
abbrev pinning : Config
pinning = record config { supergraphs = record graph { launch_id = "l1" } ∷ [] }

abbrev supplied : Relay MemoryCache
supplied = record {
  cache = set [] 1000 "g:v:SupergraphPinned" "item" (negsuc 0) empty;
  selector = new_round_robin_selector ("http://u" ∷ []);
}

accepted : Accepted there "{}" supergraph_query "g@v" ""
unfolding cleaned default_if_after_id lookup without
accepted = record {
  request = body_of supergraph_query;
  decoded = refl;
  operation = refl;
  graph = refl;
  variables = λ k. refl;
  graph_id = "g";
  variant_id = "v";
  parsed = parsed;
}

abbrev artifact_key : String
artifact_key = make_cache_key there "g@v" supergraph_query (artifact_variables "g@v" "" ∷ [])

not_cached : get 2000 artifact_key supplied.cache ≡ none
unfolding get set make_room new_memory_cache lookup insert without make_cache_key make_cache_prefix
    hash_string parse_graph_ref split
not_cached = refl

pinned_graph :
    find_supergraph_config_from_graph_ref "g@v" pinning ≡ ok (record graph { launch_id = "l1" })
unfolding find_supergraph_config_from_graph_ref
pinned_graph = refl

has_launch : is_pinned supergraph_query (record graph { launch_id = "l1" }) ≡ true
unfolding is_pinned
has_launch = refl

pinned_entry :
    handle_pinned_entry there memory 2000 supplied.cache "g" "v" supergraph_query ""
    ≡ ok (some pinned)
unfolding handle_pinned_entry answer_pinned operation_mapping get set make_room new_memory_cache
    new_item lookup insert make_cache_key make_cache_prefix parse_graph_ref split
pinned_entry = refl
