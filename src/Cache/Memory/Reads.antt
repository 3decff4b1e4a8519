-- ===== src/Cache/Memory/Reads.antt =====
-- What Get of cache/in_memory.go returns after a Set.
use uplink_relay.Common.{
  ℕ, ◌+◌, ◌*◌, ◌^◌, ◌<◌, ◌≡◌, ◌≢◌, String, Option, none, some, ℤ, pos, negsuc, ◌==◌, ltb,
  if◌then◌else◌, Time, second, arith, lookup, lookup-insert, eq_refl, add-seconds,
}
use uplink_relay.Cache.{CacheItem, indefinite_timestamp, time_before_with_indefinite}
use uplink_relay.Cache.Memory.{Items, MemoryCache, get, make_room, new_item, set}

-- What Get returns of an entry.
abbrev pub live : Time → Option CacheItem → Option String
live now none = none
live now (some item) =
    if time_before_with_indefinite item.expiration now
    then none
    else elim item.content [ none ↦ some "" | some content ↦ some content ]

pub get-live :
    (now : Time) (k : String) (c : MemoryCache) → get now k c ≡ live now (lookup k c.items)
unfolding get
get-live now k c = ground arith

-- The entry of j after a Set of k: the new one, nothing for the evicted key, else the old one.
pub lookup-set :
    (visit : Items) (now : Time) (k content : String) (d : ℤ) (c : MemoryCache) (j : String)
    → lookup j (set visit now k content d c).items
      ≡ (if k == j then some (new_item now content d) else lookup j (make_room visit c).items)
unfolding set
lookup-set visit now k content d c j = lookup-insert k j _ _

module _ (visit : Items) (now : Time) (k content : String) (c : MemoryCache) where
  -- An entry set with duration -1 is found at every later and earlier time.
  pub get-set_pinned :
      (d : ℤ) (then_ : Time)
      → d ≡ negsuc 0
      → get then_ k (set visit now k content d c) ≡ some content
  get-set_pinned d then_ e = rw (get-live, lookup-set, eq_refl) (unfold new_item in ground arith)

  -- An entry set for n seconds, fewer than 2^33, is found as long as the time is not past n seconds
  -- after now, and no longer, unless it expires exactly at the Unix epoch.
  pub get-set_self :
      (n : ℕ) (then_ : Time)
      → n < 2 ^ 33
      → now + n * second ≢ indefinite_timestamp
      → get then_ k (set visit now k content (pos n) c)
        ≡ (if ltb (now + n * second) then_ then none else some content)
  get-set_self n then_ small no_epoch =
      rw (get-live, lookup-set, eq_refl)
        (unfold new_item in ground (arith, add-seconds now n small))
