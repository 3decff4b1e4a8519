-- ===== src/Cache/Memory/Eviction.antt =====
-- Which entry a full cache of cache/in_memory.go gives up, whatever the order of the visit.
use mathlib.Core.List.{Memᴰ}
use uplink_relay.Common.{
  ◌≤◌, ◌≡◌, ◌≢◌, ◌⊎◌, inl, inr, refl, sym, ap, ◌∙◌, String, true, false, none, some, [], ◌∷◌, ◌==◌,
  if◌then◌else◌, Time, arith, lookup, lookup-without, eq_iff, All, Bool-cases, leb_ℤ,
}
use uplink_relay.Cache.{CacheItem, is_indefinite}
use uplink_relay.Cache.Memory.{Items, MemoryCache, older, find_oldest, make_room}

-- A visit of the map by `range`: it yields exactly the entries of the map.
pub record Visits (visit items : Items) : Type 0 where
  pub sound : (k : String) (e : CacheItem) → Memᴰ (k, e) visit → lookup k items ≡ some e
  pub complete : (k : String) (e : CacheItem) → lookup k items ≡ some e → Memᴰ (k, e) visit

abbrev pub IsFinite : CacheItem → Type 0
IsFinite e = is_indefinite e.expiration ≡ false

abbrev pub HasNamedKeys : Items → Type 0
HasNamedKeys items = All (λ e. e.0 ≢ "") items

-- Where the outcome of the search comes from: the start, or a finite entry of the visit.
abbrev Origin : String × Time → Items → String × Time → Type 0
Origin o visit found =
    (found ≡ o)
    ⊎ ((e : CacheItem) × Memᴰ (found.0, e) visit × IsFinite e × (found.1 ≡ e.expiration))

older-origin :
    (o : String × Time) (k : String) (e : CacheItem)
    → (older o (k, e) ≡ o) ⊎ ((older o (k, e) ≡ (k, e.expiration)) × IsFinite e)
unfolding older
older-origin o k e = ground arith

find_oldest-Origin : (o : String × Time) (visit : Items) → Origin o visit (find_oldest o visit)
unfolding find_oldest
find_oldest-Origin o [] = inl refl
find_oldest-Origin o ((k, e) ∷ visit) = elim (find_oldest-Origin (older o (k, e)) visit) [
  | inl same ↦ elim (older-origin o k e) [
    | inl kept ↦ inl (same ∙ kept)
    | inr (taken, finite) ↦ rw (same, taken) (inr (e, Memᴰ.head refl, finite, refl))
  ]
  | inr (e', listed, finite, at) ↦ inr (e', Memᴰ.tail listed, finite, at)
]

-- One round with an entry held: an entry is held after it, which expires no later.
older-le :
    (o : String × Time) (k : String) (e : CacheItem)
    → o.0 ≢ ""
    → k ≢ ""
    → ((older o (k, e)).0 ≢ "") × ((older o (k, e)).1 ≤ o.1)
unfolding older
older-le o k e h named = ground (arith, eq_iff o.0 "")

-- After the round of a finite entry one is held that expires no later than this.
older-le_self :
    (o : String × Time) (k : String) (e : CacheItem)
    → k ≢ ""
    → IsFinite e
    → ((older o (k, e)).0 ≢ "") × ((older o (k, e)).1 ≤ e.expiration)
unfolding older
older-le_self o k e named finite = ground (arith, eq_iff o.0 "")

find_oldest-le_start :
    (o : String × Time) (visit : Items)
    → o.0 ≢ ""
    → HasNamedKeys visit
    → ((find_oldest o visit).0 ≢ "") × ((find_oldest o visit).1 ≤ o.1)
unfolding find_oldest
find_oldest-le_start o [] h named = (h, omega arith)
find_oldest-le_start o ((k, e) ∷ visit) h (named, rest) =
    let (held, sooner) = older-le o k e h named in
    let (found, le) = find_oldest-le_start (older o (k, e)) visit held rest in (found, omega arith)

find_oldest-le_member :
    (o : String × Time) (visit : Items) {k : String} {e : CacheItem}
    → Memᴰ (k, e) visit
    → HasNamedKeys visit
    → IsFinite e
    → ((find_oldest o visit).0 ≢ "") × ((find_oldest o visit).1 ≤ e.expiration)
unfolding find_oldest
find_oldest-le_member o [] listed named finite = elim listed [ ]
find_oldest-le_member o ((k', e') ∷ visit) {k} {e} (Memᴰ.head same) (named, rest) finite =
    let key : k ≡ k' = ap (λ (p : String × CacheItem). p.0) same in
    let item : e ≡ e' = ap (λ (p : String × CacheItem). p.1) same in
    let (held, sooner) = older-le_self o k' e' named (rw (← item) finite) in
    let (found, le) = find_oldest-le_start (older o (k', e')) visit held rest in
    (found, rw item (omega arith))
find_oldest-le_member o (entry ∷ visit) (Memᴰ.tail listed) (named, rest) finite =
    find_oldest-le_member (older o entry) visit listed rest finite

pub named_of_lookup :
    (k : String) (e : CacheItem) (items : Items)
    → HasNamedKeys items
    → lookup k items ≡ some e
    → k ≢ ""
unfolding lookup
named_of_lookup k e ((j, v) ∷ items) (named, rest) found =
    ground (arith, eq_iff j k, named_of_lookup k e items rest)
named_of_lookup k e [] named found = cc

All_of_members :
    (P : String → Type 0) (visit : Items)
    → ((k : String) (e : CacheItem) → Memᴰ (k, e) visit → P k)
    → All (λ e. P e.0) visit
All_of_members P [] h = tt
All_of_members P ((k, e) ∷ visit) h =
    (h k e (Memᴰ.head refl), All_of_members P visit (λ j v listed. h j v (Memᴰ.tail listed)))

some_inj : (a b : CacheItem) → some a ≡ some b → a ≡ b
some_inj a b h = cc

module _ (visit : Items) (c : MemoryCache) (visits : Visits visit c.items) where
  -- Making room in a cache never removes an entry without expiration whose key is not empty, in
  -- whatever order the map is visited.
  pub make_room-pinned :
      (j : String) (e : CacheItem)
      → j ≢ ""
      → lookup j c.items ≡ some e
      → is_indefinite e.expiration ≡ true
      → lookup j (make_room visit c).items ≡ some e
  unfolding make_room
  make_room-pinned j e named found pinned = elim (Bool-cases (leb_ℤ c.max_items c.current_items)) [
    | inl full ↦ rw (full, lookup-without) (kept (find_oldest-Origin ("", 0) visit))
    | inr room ↦ rw room found
  ]
    where
      victim : String
      victim = (find_oldest ("", 0) visit).0

      kept :
          Origin ("", 0) visit (find_oldest ("", 0) visit)
          → (if victim == j then none else lookup j c.items) ≡ some e
      kept (inl start) = ground (arith, eq_iff victim j, ap (λ (p : String × Time). p.0) start)
      kept (inr (e', listed, finite, _)) =
          ground (arith, eq_iff victim j, visits.sound victim e' listed)

  -- The entry that the search finds, if some entry has an expiration.
  pub oldest_listed :
      (k : String) (e : CacheItem)
      → HasNamedKeys c.items
      → lookup k c.items ≡ some e
      → IsFinite e
      → (oldest : CacheItem) × (lookup (find_oldest ("", 0) visit).0 c.items ≡ some oldest)
        × IsFinite oldest
        × (oldest.expiration ≤ e.expiration)
  oldest_listed k e named found finite =
      let keys : HasNamedKeys visit =
        All_of_members (λ j. j ≢ "") visit
          (λ j v listed. named_of_lookup j v c.items named (visits.sound j v listed)) in
      let (held, le) =
        find_oldest-le_member ("", 0) visit (visits.complete k e found) keys finite in
      elim (find_oldest-Origin ("", 0) visit) [
        | inl start ↦ absurd (held (ap (λ (p : String × Time). p.0) start))
        | inr (oldest, listed, bounded, at) ↦
            (oldest, visits.sound _ oldest listed, bounded, omega arith)
      ]

  -- A full cache whose keys are not empty and that holds an entry with an expiration gives up, in
  -- whatever order the map is visited, one entry of those with an expiration, none of which expires
  -- earlier, and keeps every other key.
  pub make_room-oldest :
      (k : String) (e : CacheItem)
      → leb_ℤ c.max_items c.current_items ≡ true
      → HasNamedKeys c.items
      → lookup k c.items ≡ some e
      → IsFinite e
      → (victim : String) × (oldest : CacheItem) × (lookup victim c.items ≡ some oldest)
        × IsFinite oldest
        × ((j : String) (v : CacheItem)
            → lookup j c.items ≡ some v
            → IsFinite v
            → oldest.expiration ≤ v.expiration)
        × ((j : String)
            → lookup j (make_room visit c).items ≡ (if victim == j then none else lookup j c.items))
  unfolding make_room
  make_room-oldest k e full named found finite =
      let (oldest, listed, bounded, _) = oldest_listed k e named found finite in
      (
        (find_oldest ("", 0) visit).0,
        oldest,
        listed,
        bounded,
        λ j v held ends.
            let (oldest', listed', _, le) = oldest_listed j v named held ends in
            rw (some_inj _ _ (sym listed ∙ listed')) le,
        λ j. rw (full, lookup-without),
      )
