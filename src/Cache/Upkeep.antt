-- ===== src/Cache/Upkeep.antt =====
-- What UpdateNewest of cache/cache.go leaves in the entry without arguments.
use uplink_relay.Common.{
  String, ◌≡◌, refl, false, not, ◌&&◌, some, negsuc, Time, before, ◌==◌, if◌then◌else◌, ok, pair_eq,
  Bool-cases, inl, inr,
}
use uplink_relay.Cache.{CacheItem, Cache}
use uplink_relay.Cache.Keeping.{Keeps}
use uplink_relay.Cache.Keys.{default_cache_key}
use uplink_relay.Cache.Newest.{is_blank, update_newest, stored_entry}
use uplink_relay.Externals.{Externals, RoundTrips}

-- The newer of two items, where an item with the same hash is not newer.
abbrev pub newest : CacheItem → CacheItem → CacheItem
newest first item =
    if before first.last_modified item.last_modified && not (first.hash == item.hash)
    then item
    else first

module _ {C : Type 0} (x : Externals) (cache : Cache C) {now : Time} (trips : RoundTrips x.item)
    (keeps : Keeps cache now now (negsuc 0)) where
  -- For a JSON codec as documented and a cache that keeps entries of duration -1: UpdateNewest with
  -- an item that has content and can be marshalled, over a stored item, succeeds and leaves the
  -- newer of the two stored, the old one if the hashes agree.
  pub update_newest-stored :
      (graph_ref operation_name stored entry : String) (first item : CacheItem) (c : C)
      → is_blank item.content ≡ false
      → cache.get now (default_cache_key x graph_ref operation_name) c ≡ some stored
      → x.item.unmarshal stored ≡ some first
      → x.item.marshal item ≡ some entry
      → (c' : C) × (stored' : String) × (update_newest x cache now graph_ref operation_name item c
          ≡ (ok tt, c'))
        × (cache.get now (default_cache_key x graph_ref operation_name) c' ≡ some stored')
        × (x.item.unmarshal stored' ≡ some (newest first item))
  unfolding update_newest stored_entry
  update_newest-stored graph_ref operation_name stored entry first item c filled found decoded
        marshalled =
      let key = default_cache_key x graph_ref operation_name in
      elim (Bool-cases
        (before first.last_modified item.last_modified && not (first.hash == item.hash))) [
          | inl newer ↦ (
            (cache.set now key entry (negsuc 0) c).1,
            entry,
            rw (filled, found, decoded, newer, marshalled)
                (pair_eq (cache.set now key entry (negsuc 0) c) (ok tt) (keeps.set_ok key entry c)),
            keeps.get-set key entry c,
            rw newer (trips item entry marshalled),
          )
          | inr older ↦
              (c, stored, rw (filled, found, decoded, older) refl, found, rw older decoded)
        ]
