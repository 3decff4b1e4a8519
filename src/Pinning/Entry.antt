-- ===== src/Pinning/Entry.antt =====
-- pinning/pinning.go: storing a pinned entry, and reading it for a request.
use uplink_relay.Common.{
  String, Option, none, some, [], negsuc, Time, before, ◌==◌, if◌then◌else◌, Act, Result, ok, err,
  library, try, ◌>>=◌, ignore, ◌<>◌, map_ok,
}
use uplink_relay.Cache.{CacheItem, Cache, expiration_time}
use uplink_relay.Cache.Keys.{make_cache_key, hash_string}
use uplink_relay.Externals.{Externals}
use uplink_relay.Uplink.{license_query, persisted_queries_query}
use uplink_relay.Pinning.Names.{operation_mapping}

-- The item that holds a pinned value.
unfoldable pub pinned_item : Externals → Time → String → String → Time → CacheItem
unfolding hash_string expiration_time
pinned_item x now value id modified_time = record {
  content = some value;
  expiration = expiration_time now (negsuc 0);
  hash = hash_string x value;
  last_modified = modified_time;
  id = id;
}

-- How a pinned item is answered to a request with an ifAfterId.
unfoldable pub answer_pinned : Externals → CacheItem → String → String → Result CacheItem
answer_pinned x entry operation_name if_after_id =
    if if_after_id == ""
    then ok entry
    else if operation_name == persisted_queries_query
    then ok entry
    else elim (x.parse_after_id if_after_id) [
      | none ↦ err (library "time.Parse")
      | some if_after_id_time ↦
          if operation_name == license_query
          then ok entry
          else if before if_after_id_time entry.last_modified
          then ok entry
          else ok (record entry { content = none })
    ]

module _ {C : Type 0} (x : Externals) (cache : Cache C) where
  unfoldable pub insert_pinned_cache_entry :
      Time → String → String → String → Time → Act C (Unit {0})
  unfolding pinned_item
  insert_pinned_cache_entry now key value id modified_time = ignore (do
    entry ← try (x.item.marshal (pinned_item x now value id modified_time)) (library "json.Marshal")
    cache.set now key entry (negsuc 0))

  -- The result is none where the source returns a nil item.
  unfoldable pub handle_pinned_entry :
      Time → C → String → String → String → String → Result (Option CacheItem)
  unfolding answer_pinned operation_mapping
  handle_pinned_entry now c graph_id variant_id operation_name if_after_id =
      elim (cache.get now
        (make_cache_key x (graph_id <> "@" <> variant_id) (operation_mapping operation_name) [])
        c) [
          | none ↦ ok none
          | some raw_entry ↦ elim (x.item.unmarshal raw_entry) [
            | none ↦ err (library "json.Unmarshal")
            | some entry ↦ map_ok some (answer_pinned x entry operation_name if_after_id)
          ]
        ]
