-- ===== src/Cache.antt =====
-- cache/cache.go: the interface that the caches implement and the cached item.
pub mod Item
pub mod Memory
pub mod Keys
pub mod Newest
pub mod Contents
pub mod Keeping
pub mod Upkeep
pub mod Writes
pub use Item.{CacheItem, indefinite_timestamp}
use uplink_relay.Common.{
  String, Bool, Option, none, some, ℤ, negsuc, eqb, before, ◌&&◌, not, if◌then◌else◌, eqb_ℤ, Act,
  Time, unix_epoch, add, seconds,
}

-- The interface Cache over the state C of an implementation. `get` takes the time of the call; a
-- read never changes the state. `set` and `delete_with_prefix` may give an error.
pub record Cache (C : Type 0) : Type 0 where
  pub get : Time → String → C → Option String
  pub set : Time → String → String → ℤ → Act C (Unit {0})
  pub delete_with_prefix : String → Act C (Unit {0})
  pub name : String

abbrev pub is_indefinite : Time → Bool
is_indefinite expiration_time = eqb expiration_time indefinite_timestamp

abbrev pub time_before_with_indefinite : Time → Time → Bool
time_before_with_indefinite expiration_time compare_to =
    before expiration_time compare_to && not (is_indefinite expiration_time)

-- ExpirationTime, at the time `now`
unfoldable pub expiration_time : Time → ℤ → Time
expiration_time now duration =
    if eqb_ℤ duration (negsuc 0) then indefinite_timestamp else add now (seconds duration)
