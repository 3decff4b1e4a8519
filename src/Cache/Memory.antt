-- ===== src/Cache/Memory.antt =====
-- cache/in_memory.go. The mutex makes each operation one step. The order in which `range` visits
-- the map is not fixed by Go: it is the argument `visit` of `set`.
pub mod Reads
pub mod Eviction
pub mod Deletion
pub mod Bounds
pub mod History
use Prim.Native.String.{len}
use uplink_relay.Common.{
  ℕ, String, Bool, Option, none, some, List, [], ◌∷◌, ℤ, pos, negsuc, ◌+ℤ◌, ◌-ℤ◌, leb_ℤ, eqb_ℤ,
  ◌==◌, ◌&&◌, ◌||◌, ltb, if◌then◌else◌, Act, pure, Time, before, lookup, without, insert,
  starts_with, add, seconds,
}
use uplink_relay.Cache.{
  CacheItem, Cache, indefinite_timestamp, is_indefinite, time_before_with_indefinite,
}

abbrev pub Items : Type 0
Items = List (String × CacheItem)

pub record MemoryCache : Type 0 where
  pub items : Items
  pub max_items : ℤ
  pub current_items : ℤ

unfoldable pub new_memory_cache : ℤ → MemoryCache
new_memory_cache max_items = record { items = []; max_items = max_items; current_items = pos 0 }

-- The entry that Get returns: the bytes of a live entry.
bytes : Option String → String
bytes none = ""
bytes (some content) = content

unfoldable pub get : Time → String → MemoryCache → Option String
unfolding bytes
get now key c = elim (lookup key c.items) [
  | none ↦ none
  | some item ↦
      if time_before_with_indefinite item.expiration now then none else some (bytes item.content)
]

-- One round of the loop that looks for the oldest entry, over (oldestKey, oldestExpiration).
unfoldable pub older : String × Time → String × CacheItem → String × Time
older (oldest_key, oldest_expiration) (k, v) =
    if oldest_key == "" || time_before_with_indefinite v.expiration oldest_expiration
    then (if is_indefinite v.expiration then (oldest_key, oldest_expiration) else (k, v.expiration))
    else (oldest_key, oldest_expiration)

unfoldable pub find_oldest : String × Time → Items → String × Time
find_oldest oldest [] = oldest
find_oldest oldest (entry ∷ visit) = find_oldest (older oldest entry) visit

-- The removal of the oldest entry from a full cache.
unfoldable pub make_room : Items → MemoryCache → MemoryCache
make_room visit c =
    if leb_ℤ c.max_items c.current_items
    then record c {
      items = without (find_oldest ("", 0) visit).0 c.items;
      current_items = c.current_items -ℤ pos 1;
    }
    else c

-- The entry that Set stores.
unfoldable pub new_item : Time → String → ℤ → CacheItem
new_item now content duration = record {
  content = some content;
  expiration =
      if eqb_ℤ duration (negsuc 0) then indefinite_timestamp else add now (seconds duration);
  hash = "";
  last_modified = 0;
  id = "";
}

unfoldable pub set : Items → Time → String → String → ℤ → MemoryCache → MemoryCache
set visit now key content duration c =
    let room = make_room visit c in
    record room {
      items = insert key (new_item now content duration) room.items;
      current_items = room.current_items +ℤ pos 1;
    }

-- The loop of DeleteWithPrefix; `proper_prefix` is its test.
unfoldable pub proper_prefix : String → String → Bool
proper_prefix prefix k = ltb (len prefix) (len k) && starts_with k prefix

unfoldable pub delete_entries : String → Items → ℤ → Items × ℤ
delete_entries prefix [] current = ([], current)
delete_entries prefix ((k, v) ∷ items) current =
    let (kept, count) =
      delete_entries prefix items (if proper_prefix prefix k then current -ℤ pos 1 else current) in
    if proper_prefix prefix k then (kept, count) else ((k, v) ∷ kept, count)

unfoldable pub delete_with_prefix : String → MemoryCache → MemoryCache
delete_with_prefix prefix c =
    let (kept, count) = delete_entries prefix c.items c.current_items in
    record c { items = kept; current_items = count }

-- MemoryCache as an implementation of Cache, with the visits that the runtime makes.
abbrev pub memory_cache : (Items → Items) → Cache MemoryCache
memory_cache order = record {
  get = get;
  set = λ now key content duration c. pure tt (set (order c.items) now key content duration c);
  delete_with_prefix = λ prefix c. pure tt (delete_with_prefix prefix c);
  name = "Memory";
}
