-- ===== src/Cache/Item.antt =====
-- cache/cache.go: the cached item.
use uplink_relay.Common.{String, Option, Time, unix_epoch}

abbrev pub indefinite_timestamp : Time
indefinite_timestamp = unix_epoch

-- `content` is none for a nil []byte.
pub record CacheItem : Type 0 where
  pub content : Option String
  pub expiration : Time
  pub hash : String
  pub last_modified : Time
  pub id : String
