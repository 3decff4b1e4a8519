-- ===== src/Cache/Memory/History.antt =====
-- The cache of cache/in_memory.go against the history of its calls: it may forget an entry, and
-- never returns anything but the last content that was set.
use uplink_relay.Common.{
  ◌≡◌, ◌⊎◌, String, Option, none, some, List, [], ◌∷◌, ℤ, ◌==◌, if◌then◌else◌, Time, arith, lookup,
  lookup-without,
}
use uplink_relay.Cache.Memory
use uplink_relay.Cache.Memory.{
  Items, MemoryCache, get, make_room, new_item, proper_prefix, new_memory_cache, find_oldest,
}
use uplink_relay.Cache.Memory.Reads.{live, get-live, lookup-set}
use uplink_relay.Cache.Memory.Deletion.{get-delete_with_prefix}

-- A call that changes the cache, with the visit and the time of a Set.
pub data Call : Type 0 where
  set : Items → Time → String → String → ℤ → Call
  delete_with_prefix : String → Call

pub apply : Call → MemoryCache → MemoryCache
apply (set visit now k content d) c = Memory.set visit now k content d c
apply (delete_with_prefix prefix) c = Memory.delete_with_prefix prefix c

-- The calls of a history, the latest first.
unfoldable pub run : List Call → MemoryCache → MemoryCache
unfolding apply
run [] c = c
run (call ∷ calls) c = apply call (run calls c)

-- What an ideal map with the same history holds.
unfoldable pub last_set : List Call → String → Option String
last_set [] j = none
last_set (set visit now k content d ∷ calls) j = if k == j then some content else last_set calls j
last_set (delete_with_prefix prefix ∷ calls) j =
    if proper_prefix prefix j then none else last_set calls j

lookup-make_room :
    (visit : Items) (c : MemoryCache) (j : String)
    → (lookup j (make_room visit c).items ≡ none)
      ⊎ (lookup j (make_room visit c).items ≡ lookup j c.items)
unfolding make_room
lookup-make_room visit c j = ground (arith, lookup-without (find_oldest ("", 0) visit).0 j c.items)

-- A Set adds its own content and nothing else.
pub set_coherent :
    (visit : Items) (now : Time) (k content : String) (d : ℤ) (c : MemoryCache) (then_ : Time)
    (j w : String)
    → get then_ j (Memory.set visit now k content d c) ≡ some w
    → (if k == j then some content else get then_ j c) ≡ some w
set_coherent visit now k content d c then_ j w h =
    let found : live then_
          (if k == j then some (new_item now content d) else lookup j (make_room visit c).items)
        ≡ some w =
      rw (get-live, lookup-set) at h in
    rw get-live (unfold new_item in ground (arith, lookup-make_room visit c j))

-- Whatever the calls on a new in-memory cache, their times and the orders in which the map is
-- visited, Get at any time returns either nothing or the content that was last set for the key and
-- not deleted since.
pub get-run :
    (calls : List Call) (max_items : ℤ) (now : Time) (j w : String)
    → get now j (run calls (new_memory_cache max_items)) ≡ some w
    → last_set calls j ≡ some w
unfolding run last_set apply
get-run [] max_items now j w h = unfold get new_memory_cache lookup in cc
get-run (set visit t k content d ∷ calls) max_items now j w h = ground (
  arith,
  set_coherent visit t k content d (run calls (new_memory_cache max_items)) now j w h,
  get-run calls max_items now j w,
)
get-run (delete_with_prefix prefix ∷ calls) max_items now j w h = ground (
  arith,
  get-delete_with_prefix prefix (run calls (new_memory_cache max_items)) now j,
  get-run calls max_items now j w,
)
