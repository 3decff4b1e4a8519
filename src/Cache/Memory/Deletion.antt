-- ===== src/Cache/Memory/Deletion.antt =====
-- What DeleteWithPrefix of cache/in_memory.go removes.
use uplink_relay.Common.{
  ◌≡◌, String, none, [], ◌∷◌, ℤ, pos, ◌-ℤ◌, if◌then◌else◌, Time, arith, lookup, eq_iff,
}
use uplink_relay.Cache.Memory.{
  Items, MemoryCache, get, proper_prefix, delete_entries, delete_with_prefix,
}

delete_entries-lookup :
    (prefix : String) (items : Items) (current : ℤ) (j : String)
    → lookup j (delete_entries prefix items current).0
      ≡ (if proper_prefix prefix j then none else lookup j items)
unfolding delete_entries lookup
delete_entries-lookup prefix [] current j = ground arith
delete_entries-lookup prefix ((k, v) ∷ items) current j = ground (
  arith,
  eq_iff k j,
  delete_entries-lookup prefix items current j,
  delete_entries-lookup prefix items (current -ℤ pos 1) j,
)

-- After DeleteWithPrefix a key that properly extends the prefix is a miss, and every other key, the
-- prefix itself included, reads as before.
pub get-delete_with_prefix :
    (prefix : String) (c : MemoryCache) (now : Time) (j : String)
    → get now j (delete_with_prefix prefix c)
      ≡ (if proper_prefix prefix j then none else get now j c)
unfolding get delete_with_prefix
get-delete_with_prefix prefix c now j =
    ground (arith, delete_entries-lookup prefix c.items c.current_items j)
