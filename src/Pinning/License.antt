-- ===== src/Pinning/License.antt =====
-- pinning/license.go
use uplink_relay.Common.{
  String, Option, none, some, [], Time, unix, minus_days, if◌then◌else◌, Act, library, pure, try,
  ◌>>=◌,
}
use uplink_relay.Cache.{CacheItem, Cache}
use uplink_relay.Cache.Keys.{make_cache_key, hash_string}
use uplink_relay.Config.{Config}
use uplink_relay.Externals.{Externals}
use uplink_relay.Pinning.Entry.{insert_pinned_cache_entry}
use uplink_relay.Pinning.Names.{license_pinned}

-- The modified time of a license: 30 days before its warnAt.
unfoldable pub license_time : Externals → String → Option Time
license_time x license = elim (x.warn_at license) [
  | none ↦ none
  | some warn_at ↦ some (minus_days (unix warn_at) 30)
]

module _ {C : Type 0} (x : Externals) (cache : Cache C) where
  unfoldable pub pin_offline_license : Config → Time → String → String → Act C (Unit {0})
  unfolding license_time hash_string
  pin_offline_license config now license graph_ref = do
    modified_time ← try (license_time x license) (library "jose.ParseSigned")
    if config.cache.enabled
        then (do
          let entry : CacheItem = record {
            content = some license;
            expiration = modified_time;
            hash = hash_string x license;
            last_modified = now;
            id = x.format_time modified_time;
          }
          value ← try (x.item.marshal entry) (library "json.Marshal")
          insert_pinned_cache_entry x cache now (make_cache_key x graph_ref license_pinned []) value
              (x.format_time modified_time) modified_time)
        else pure tt
