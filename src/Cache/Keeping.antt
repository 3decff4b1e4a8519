-- ===== src/Cache/Keeping.antt =====
-- What the handlers rely on of a cache: that an entry is there at a later time.
use uplink_relay.Common.{
  ℕ, ◌+◌, ◌*◌, ◌^◌, ◌<◌, ◌≤◌, ◌≡◌, ◌≢◌, refl, String, some, ℤ, pos, negsuc, Time, second, ok,
  panicked, arith,
}
use uplink_relay.Cache.{Cache, indefinite_timestamp}
use uplink_relay.Cache.Memory.{Items, memory_cache}
use uplink_relay.Cache.Memory.Reads.{get-set_pinned, get-set_self}

-- Set at the time `now` with a duration succeeds, and Get at the time `later` finds the entry. No
-- Set panics.
pub record Keeps {C : Type 0} (cache : Cache C) (now later : Time) (duration : ℤ) : Type 0 where
  pub set_ok : (k v : String) (c : C) → (cache.set now k v duration c).0 ≡ ok tt
  pub set_returns : (k v : String) (d : ℤ) (c : C) → (cache.set now k v d c).0 ≢ panicked
  pub get-set : (k v : String) (c : C) → cache.get later k (cache.set now k v duration c).1 ≡ some v

-- The in-memory cache keeps an entry for ever if its duration is -1: Set succeeds, and Get finds
-- the entry at every time.
pub memory_cache-Keeps_pinned :
    (order : Items → Items) (now later : Time) → Keeps (memory_cache order) now later (negsuc 0)
memory_cache-Keeps_pinned order now later = record {
  set_ok = λ k v c. refl;
  set_returns = λ k v d c. cc;
  get-set = λ k v c. get-set_pinned (order c.items) now k v c (negsuc 0) later refl;
}

-- The in-memory cache keeps an entry for a duration of n seconds, below 2^33, unless the end of
-- that time is the Unix epoch: Set succeeds, and Get finds the entry at every time up to the end.
pub memory_cache-Keeps :
    (order : Items → Items) (now later : Time) (n : ℕ)
    → n < 2 ^ 33
    → now + n * second ≢ indefinite_timestamp
    → later ≤ now + n * second
    → Keeps (memory_cache order) now later (pos n)
memory_cache-Keeps order now later n small no_epoch soon = record {
  set_ok = λ k v c. refl;
  set_returns = λ k v d c. cc;
  get-set = λ k v c. ground (arith, get-set_self (order c.items) now k v c n later small no_epoch);
}
