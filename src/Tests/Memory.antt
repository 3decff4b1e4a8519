-- ===== src/Tests/Memory.antt =====
-- The theorems on the in-memory cache and its keys, at small caches.
use mathlib.Core.List.{Memᴰ}
use uplink_relay.Common.{
  insert, split, add, seconds, String, ◌≡◌, ◌≢◌, ◌≤◌, refl, none, some, List, [], ◌∷◌, pos, negsuc,
  arith, ◌==◌, if◌then◌else◌, lookup, ok, eq_refl, eq_iff, ap, sym, Bool-cases, inl, inr, lookup,
}
use uplink_relay.Cache.{CacheItem, indefinite_timestamp}
use uplink_relay.Cache.Keeping.{Keeps, memory_cache-Keeps}
use uplink_relay.Cache.Keys.{artifact_variables, default_cache_key}
use uplink_relay.Cache.Memory.{Items, MemoryCache, get, set, make_room, new_memory_cache, new_item}
use uplink_relay.Cache.Memory.Bounds.{IsBounded, set-IsBounded}
use uplink_relay.Cache.Memory.Eviction.{Visits, IsFinite, make_room-oldest}
use uplink_relay.Cache.Memory.History as History
use uplink_relay.Cache.Memory.History.{Call, run, last_set, get-run}
use uplink_relay.GraphRef.{parse_graph_ref}
use uplink_relay.Wire.{text}
use uplink_relay.Tests.World.{world, memory, empty}

-- An entry that expires, one that does not, and full caches of each.
abbrev pub finite : CacheItem
finite = record { content = some "a"; expiration = 50; hash = ""; last_modified = 0; id = "" }

abbrev pub lasting : CacheItem
lasting = record finite { content = some "b"; expiration = indefinite_timestamp }

abbrev full_lasting : MemoryCache
full_lasting = record { items = ("b", lasting) ∷ []; max_items = pos 1; current_items = pos 1 }

abbrev full : MemoryCache
full = record { items = ("a", finite) ∷ []; max_items = pos 1; current_items = pos 1 }

Visits_sound :
    (items : Items) (k : String) (e : CacheItem) (k₁ : String) (e₁ : CacheItem)
    → ◌≡◌ {A = String × CacheItem} (k, e) (k₁, e₁)
    → lookup k ((k₁, e₁) ∷ items) ≡ some e
unfolding lookup
Visits_sound items k e k₁ e₁ same =
    let key : k ≡ k₁ = ap (λ (p : String × CacheItem). p.0) same in
    let item : e ≡ e₁ = ap (λ (p : String × CacheItem). p.1) same in rw (key, eq_refl k₁, item) refl

one_visit : (k₁ : String) (e₁ : CacheItem) → Visits ((k₁, e₁) ∷ []) ((k₁, e₁) ∷ [])
unfolding lookup
one_visit k₁ e₁ = record {
  sound = λ k e listed. elim listed [
    | Memᴰ.head same ↦ Visits_sound [] k e k₁ e₁ same
    | Memᴰ.tail later ↦ elim later [ ]
  ];
  complete = λ k e found. elim (Bool-cases (k₁ == k)) [
    | inl same ↦
        let key : k ≡ k₁ = sym ((eq_iff k₁ k).0 same) in
        let item : e ≡ e₁ = sym (ground (arith, same, found)) in Memᴰ.head (λ i. (key i, item i))
    | inr other ↦ absurd (ground (arith, other, found))
  ];
}

a_named : ◌≢◌ {A = String} "a" ""
a_named h = cc

k_named : ◌≢◌ {A = String} "k" ""
k_named h = cc

full-IsBounded : IsBounded full
full-IsBounded = record {
  positive = ground arith;
  counted = ground arith;
  within = ground arith;
  named = (a_named, tt);
  finite = (refl, tt);
}

make_room-oldest_example :
    (victim : String) × (oldest : CacheItem) × (lookup victim full.items ≡ some oldest)
    × IsFinite oldest
    × ((j : String) (v : CacheItem)
        → lookup j full.items ≡ some v
        → IsFinite v
        → oldest.expiration ≤ v.expiration)
    × ((j : String)
        → lookup j (make_room (("a", finite) ∷ []) full).items
          ≡ (if victim == j then none else lookup j full.items))
make_room-oldest_example =
    make_room-oldest (("a", finite) ∷ []) full (one_visit "a" finite) "a" finite refl (a_named, tt)
      (unfold lookup in refl) refl

expires : IsFinite (new_item 1000 "v" (pos 60))
unfolding new_item add seconds
expires = refl

set-IsBounded_example : IsBounded (set (("a", finite) ∷ []) 1000 "k" "v" (pos 60) full)
set-IsBounded_example =
    set-IsBounded (("a", finite) ∷ []) 1000 "k" "v" (pos 60) full (one_visit "a" finite) k_named
      expires full-IsBounded

abbrev calls : List Call
calls = History.set [] 1000 "k" "v" (negsuc 0) ∷ History.delete_with_prefix "k" ∷ []

k_found : get 2000 "k" (run calls (new_memory_cache (pos 2))) ≡ some "v"
unfolding run get lookup set insert new_item
k_found = refl

get-run_example : last_set calls "k" ≡ some "v"
get-run_example = get-run calls (pos 2) 2000 "k" "v" k_found

pub one_minute : Keeps memory 1000 2000 (pos 60)
one_minute =
    memory_cache-Keeps (λ items. items) 1000 2000 60 (omega arith) (omega arith) (omega arith)

pub parsed : parse_graph_ref "g@v" ≡ ok ("g", "v")
unfolding parse_graph_ref split
parsed = refl

same_lookups :
    (k : String)
    → lookup k (artifact_variables "g@v" "")
      ≡ lookup k (("ifAfterId", text "") ∷ ("graph_ref", text "g@v") ∷ [])
unfolding lookup
same_lookups k = elim (Bool-cases ("graph_ref" == k)) [
  | inl same ↦ rw (← (eq_iff "graph_ref" k).0 same) refl
  | inr other ↦ rw other refl
]

-- A cache with the entry of `finite` at the key without arguments, without expiration.
abbrev newest_key : String
newest_key = default_cache_key (world "q" finite) "g@v" "q"

abbrev kept : MemoryCache
kept = set [] 10 newest_key "item" (negsuc 0) empty
