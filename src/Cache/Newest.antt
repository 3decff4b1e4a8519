-- ===== src/Cache/Newest.antt =====
-- cache/cache.go: UpdateNewest, which keeps the entry without arguments the latest one.
use uplink_relay.Common.{
  String, Bool, true, not, ◌&&◌, Option, none, some, negsuc, Time, before, ◌==◌, if◌then◌else◌, Act,
  library, pure, try, ◌>>=◌,
}
use uplink_relay.Cache.{CacheItem, Cache, indefinite_timestamp}
use uplink_relay.Cache.Keys.{default_cache_key}
use uplink_relay.Externals.{Externals}

-- len(item.Content) == 0
abbrev pub is_blank : Option String → Bool
is_blank none = true
is_blank (some content) = content == ""

abbrev pub first_entry : CacheItem
first_entry = record {
  content = none;
  expiration = indefinite_timestamp;
  hash = "";
  last_modified = indefinite_timestamp;
  id = "";
}

-- The entry to compare with: the stored one, or an empty one.
unfoldable pub stored_entry : Externals → Option String → Option CacheItem
stored_entry x none = some first_entry
stored_entry x (some entry) = x.item.unmarshal entry

module _ {C : Type 0} (x : Externals) (cache : Cache C) where
  unfoldable pub update_newest : Time → String → String → CacheItem → Act C (Unit {0})
  unfolding stored_entry
  update_newest now graph_ref operation_name passed_item c =
      if is_blank passed_item.content
      then pure tt c
      else (let key = default_cache_key x graph_ref operation_name in
          (do
            first ← try (stored_entry x (cache.get now key c)) (library "json.Unmarshal")
            if before first.last_modified passed_item.last_modified
                  && not (first.hash == passed_item.hash)
                then (do
                  entry ← try (x.item.marshal passed_item) (library "json.Marshal")
                  cache.set now key entry (negsuc 0))
                else pure tt)
            c)
