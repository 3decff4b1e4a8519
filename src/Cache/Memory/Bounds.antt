-- ===== src/Cache/Memory/Bounds.antt =====
-- The capacity of the cache of cache/in_memory.go.
use uplink_relay.Common.{
  ◌+◌, ◌≤◌, ◌≡◌, ◌≢◌, refl, String, some, [], ◌∷◌, ℤ, pos, ◌+ℤ◌, ◌-ℤ◌, ◌≤ℤ◌, leb_ℤ, Time, arith,
  lookup, without, insert, eq_refl, length, All, int_laws, leb_ℤ→le, not-leb_ℤ, Bool-cases, inl,
  inr,
}
use uplink_relay.Cache.{CacheItem}
use uplink_relay.Cache.Memory.{Items, MemoryCache, make_room, new_item, set, find_oldest}
use uplink_relay.Cache.Memory.Eviction.{Visits, IsFinite, HasNamedKeys, oldest_listed}

-- The entries are named and expire, their number is at most the counter, and the counter is at
-- most the maximum, which is positive.
pub record IsBounded (c : MemoryCache) : Type 0 where
  pub positive : pos 1 ≤ℤ c.max_items
  pub counted : pos (length c.items) ≤ℤ c.current_items
  pub within : c.current_items ≤ℤ c.max_items
  pub named : HasNamedKeys c.items
  pub finite : All (λ e. IsFinite e.1) c.items

module _ (k : String) where
  length-without : (items : Items) → length (without k items) ≤ length items
  unfolding without
  length-without [] = omega arith
  length-without ((j, v) ∷ items) = ground (arith, length-without items)

  length-without_found :
      (items : Items) (e : CacheItem)
      → lookup k items ≡ some e
      → length (without k items) + 1 ≤ length items
  unfolding without lookup
  length-without_found [] e found = cc
  length-without_found ((j, v) ∷ items) e found =
      ground (arith, length-without items, length-without_found items e)

  All-without :
      (P : String × CacheItem → Type 0) (items : Items) → All P items → All P (without k items)
  unfolding without
  All-without P [] h = tt
  All-without P ((j, v) ∷ items) h = ground (arith, All-without P items)

make_room-max : (visit : Items) (c : MemoryCache) → (make_room visit c).max_items ≡ c.max_items
unfolding make_room
make_room-max visit c = ground arith

make_room-All :
    (P : String × CacheItem → Type 0) (visit : Items) (c : MemoryCache)
    → All P c.items
    → All P (make_room visit c).items
unfolding make_room
make_room-All P visit c h = ground (arith, All-without (find_oldest ("", 0) visit).0 P c.items h)

-- Making room leaves fewer entries than the maximum, with the counter to match.
make_room-length :
    (visit : Items) (c : MemoryCache)
    → Visits visit c.items
    → IsBounded c
    → (pos (length (make_room visit c).items + 1) ≤ℤ (make_room visit c).current_items +ℤ pos 1)
      × ((make_room visit c).current_items +ℤ pos 1 ≤ℤ c.max_items)
unfolding make_room
make_room-length visit c visits h = elim (Bool-cases (leb_ℤ c.max_items c.current_items)) [
  | inl full ↦ rw full (by_items c.items refl (leb_ℤ→le c.max_items c.current_items full))
  | inr room ↦ rw room (omega (int_laws, not-leb_ℤ c.max_items c.current_items room))
]
  where
    victim : String
    victim = (find_oldest ("", 0) visit).0

    by_items :
        (items : Items)
        → c.items ≡ items
        → c.max_items ≤ℤ c.current_items
        → (pos (length (without victim c.items) + 1) ≤ℤ c.current_items -ℤ pos 1 +ℤ pos 1)
          × (c.current_items -ℤ pos 1 +ℤ pos 1 ≤ℤ c.max_items)
    by_items [] e full = rw e (unfold without in omega int_laws)
    by_items ((k, v) ∷ items) e full =
        let found : lookup k c.items ≡ some v = rw e (unfold lookup in rw eq_refl) in
        let ends : IsFinite v =
          (let all : All (λ p. IsFinite p.1) ((k, v) ∷ items) = rw e at h.finite in all.0) in
        let (oldest, listed, _, _) = oldest_listed visit c visits k v h.named found ends in
        omega (int_laws, length-without_found victim c.items oldest listed)

-- Set of a named key with a finite expiration keeps a bounded cache bounded: the entries are named
-- and expire, their number is at most the counter, and the counter is at most the maximum, which is
-- positive.
pub set-IsBounded :
    (visit : Items) (now : Time) (k content : String) (d : ℤ) (c : MemoryCache)
    → Visits visit c.items
    → k ≢ ""
    → IsFinite (new_item now content d)
    → IsBounded c
    → IsBounded (set visit now k content d c)
unfolding set insert
set-IsBounded visit now k content d c visits named finite h =
    let (counted, within) = make_room-length visit c visits h in
    record {
      positive = rw make_room-max h.positive;
      counted = omega (int_laws, length-without k (make_room visit c).items);
      within = rw make_room-max within;
      named = (named, All-without k (λ e. e.0 ≢ "") _ (make_room-All _ visit c h.named));
      finite = (finite, All-without k (λ e. IsFinite e.1) _ (make_room-All _ visit c h.finite));
    }
