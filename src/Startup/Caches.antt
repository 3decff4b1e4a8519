-- ===== src/Startup/Caches.antt =====
-- The cache that main.go chooses, against the caches that the configuration enables.
use uplink_relay.Common.{
  ℕ, ◌+◌, ◌*◌, ◌^◌, ◌<◌, ◌≡◌, ◌≢◌, inr, refl, subst, ok_inj, String, Bool, true, false, List, [],
  ◌∷◌, ℤ, pos, Time, second, All, ok, arith,
}
use uplink_relay.Cache.{Cache, indefinite_timestamp}
use uplink_relay.Cache.Keeping.{Keeps, memory_cache-Keeps}
use uplink_relay.Cache.Memory.{Items, memory_cache}
use uplink_relay.Config.{Config}
use uplink_relay.FilesystemCache.{FileSystem}
use uplink_relay.Redis.{Client, redis_cache}
use uplink_relay.Redis.Expiration as Redis
use uplink_relay.Redis.Expiration.{redis_cache-Keeps}
use uplink_relay.Startup.{Stores, three, uplink_caches, choose_cache, make_cache}
use uplink_relay.TieredCache.{tiered_cache}
use uplink_relay.TieredCache.Parts.{on_right, on_left-Keeps, on_right-Keeps}
use uplink_relay.TieredCache.Writing.{Apart}
use uplink_relay.TieredCache.Keeping.{tiered_cache-Keeps}
use uplink_relay.TieredCache.Reading.{Reads, tiered_cache-Reads, one_Reads}

three_All :
    {A : Type 0} (Holds : A → Type 0) (a_on b_on c_on : Bool) (a b c : A)
    → (a_on ≡ true → Holds a)
    → (b_on ≡ true → Holds b)
    → (c_on ≡ true → Holds c)
    → All Holds (three a_on b_on c_on a b c)
three_All Holds true true true a b c on_a on_b on_c = (on_a refl, (on_b refl, (on_c refl, tt)))
three_All Holds true true false a b c on_a on_b on_c = (on_a refl, (on_b refl, tt))
three_All Holds true false true a b c on_a on_b on_c = (on_a refl, (on_c refl, tt))
three_All Holds true false false a b c on_a on_b on_c = (on_a refl, tt)
three_All Holds false true true a b c on_a on_b on_c = (on_b refl, (on_c refl, tt))
three_All Holds false true false a b c on_a on_b on_c = (on_b refl, tt)
three_All Holds false false true a b c on_a on_b on_c = (on_c refl, tt)
three_All Holds false false false a b c on_a on_b on_c = tt

-- The heads of the four lists with more than one cache.
abbrev IsAheadApart : {C : Type 0} → List (Cache C) → Type 0
IsAheadApart [] = Unit
IsAheadApart (cache ∷ caches) = All (λ other. Apart other cache) caches

three-IsAheadApart :
    {C : Type 0} (a_on b_on c_on : Bool) (a b c : Cache C)
    → Apart b a
    → Apart c a
    → Apart c b
    → IsAheadApart (three a_on b_on c_on a b c)
three-IsAheadApart true true true a b c ba ca cb = (ba, (ca, tt))
three-IsAheadApart true true false a b c ba ca cb = (ba, tt)
three-IsAheadApart true false true a b c ba ca cb = (ca, tt)
three-IsAheadApart true false false a b c ba ca cb = tt
three-IsAheadApart false true true a b c ba ca cb = (cb, tt)
three-IsAheadApart false true false a b c ba ca cb = tt
three-IsAheadApart false false true a b c ba ca cb = tt
three-IsAheadApart false false false a b c ba ca cb = tt

module _ {D R : Type 0} (order : Items → Items) (os : FileSystem D) (client : Client R) where
  -- The chosen cache is the last step of main's choice.
  make_cache_chosen :
      (config : Config) (s : Stores D R) (cache : Cache (Stores D R))
      → (make_cache order os client config s).0 ≡ ok cache
      → choose_cache order os client (uplink_caches order os client config) ≡ ok cache
  unfolding make_cache
  make_cache_chosen config s cache made = ground (arith, made)

  choose_cache-Keeps :
      (caches : List (Cache (Stores D R))) (cache : Cache (Stores D R)) (now later : Time)
      (duration : ℤ)
      → IsAheadApart caches
      → All (λ (c : Cache (Stores D R)). Keeps c now later duration) caches
      → choose_cache order os client caches ≡ ok cache
      → Keeps cache now later duration
  unfolding choose_cache
  choose_cache-Keeps [] cache now later duration apart keep chosen = absurd (ground (arith, chosen))
  choose_cache-Keeps (only ∷ []) cache now later duration apart keep chosen =
      subst (λ (c : Cache (Stores D R)). Keeps c now later duration) (ok_inj only cache chosen)
        keep.0
  choose_cache-Keeps (head ∷ next ∷ tail) cache now later duration apart keep chosen =
      subst (λ (c : Cache (Stores D R)). Keeps c now later duration)
        (ok_inj (tiered_cache (head ∷ next ∷ tail)) cache chosen)
        (tiered_cache-Keeps head (next ∷ tail) now later duration apart keep)

  -- For a configuration without the filesystem cache, be it with the in-memory cache, with Redis or
  -- with both as tiers, and a Redis server as documented on which no write fails where it is
  -- enabled: the cache that main chooses keeps an entry for a duration of n seconds, below 2^33,
  -- unless the end of that time is the Unix epoch: Set succeeds, and Get finds the entry at every
  -- time before the end.
  pub make_cache-Keeps :
      (config : Config) (s : Stores D R) (cache : Cache (Stores D R)) (now later : Time) (n : ℕ)
      → (make_cache order os client config s).0 ≡ ok cache
      → n < 2 ^ 33
      → now + n * second ≢ indefinite_timestamp
      → later < now + n * second
      → config.filesystem_cache.enabled ≡ false
      → (config.redis.enabled ≡ true
          → Redis.IsDocumented client
            × ((key content : String) (e : ℤ) (r : R) → (client.set now key content e r).0 ≡ ok tt))
      → Keeps cache now later (pos n)
  unfolding uplink_caches
  make_cache-Keeps config s cache now later n made small no_epoch soon no_disk server =
      choose_cache-Keeps (uplink_caches order os client config) cache now later (pos n)
        (three-IsAheadApart config.cache.enabled config.filesystem_cache.enabled
          config.redis.enabled _ _ _ (λ _ _ _ _ _ _ _. refl) (λ _ _ _ _ _ _ _. refl)
          (λ _ _ _ _ _ _ _. refl))
        (three_All (λ (c : Cache (Stores D R)). Keeps c now later (pos n)) config.cache.enabled
          config.filesystem_cache.enabled config.redis.enabled _ _ _
          (λ on.
            on_left-Keeps (memory_cache order) now later (pos n)
              (memory_cache-Keeps order now later n small no_epoch (omega (arith, soon))))
          (λ on. absurd (ground (arith, no_disk, on)))
          (λ on.
            let (documented, succeeds) = server on in
            on_right-Keeps (on_right (redis_cache client)) now later (pos n) (
              on_right-Keeps (redis_cache client) now later (pos n) (
                redis_cache-Keeps client documented now later (pos n)
                  (inr (inr (n, refl, small, soon))) succeeds))))
        (make_cache_chosen config s cache made)

  choose_cache-Reads :
      (caches : List (Cache (Stores D R))) (cache : Cache (Stores D R)) (now : Time) (key : String)
      (s : Stores D R)
      → choose_cache order os client caches ≡ ok cache
      → Reads now key s caches (cache.get now key s)
  unfolding choose_cache
  choose_cache-Reads [] cache now key s chosen = absurd (ground (arith, chosen))
  choose_cache-Reads (only ∷ []) cache now key s chosen =
      subst (λ (c : Cache (Stores D R)). Reads now key s (only ∷ []) (c.get now key s))
        (ok_inj only cache chosen) (one_Reads now key s only)
  choose_cache-Reads (head ∷ next ∷ tail) cache now key s chosen =
      subst (λ (c : Cache (Stores D R)). Reads now key s (head ∷ next ∷ tail) (c.get now key s))
        (ok_inj (tiered_cache (head ∷ next ∷ tail)) cache chosen)
        (tiered_cache-Reads now key s (head ∷ next ∷ tail)).0

  -- Get of the cache that main chooses answers with the content of the first of the enabled caches
  -- that has the key, or with none if all of them miss it.
  pub make_cache-Reads :
      (config : Config) (s : Stores D R) (cache : Cache (Stores D R)) (now : Time) (key : String)
      (later : Stores D R)
      → (make_cache order os client config s).0 ≡ ok cache
      → Reads now key later (uplink_caches order os client config) (cache.get now key later)
  make_cache-Reads config s cache now key later made =
      choose_cache-Reads (uplink_caches order os client config) cache now key later
        (make_cache_chosen config s cache made)
