-- ===== src/System/Items.antt =====
-- The entry of a pinned artifact in the running program, over the in-memory cache.
use uplink_relay.Common.{
  String, Bool, ◌≡◌, refl, ◌∙◌, true, some, List, [], All, ℤ, negsuc, Time, ok, ◌==◌, eq_iff,
  Bool-cases, inl, inr, arith, lookup, ◌<>◌, singleton-append, subst,
}
use uplink_relay.Cache.{CacheItem, is_indefinite}
use uplink_relay.Cache.Keys.{make_cache_key}
use uplink_relay.Cache.Memory.{Items, MemoryCache, memory_cache, new_item, get}
use uplink_relay.Cache.Memory.Eviction.{Visits, make_room-pinned}
use uplink_relay.Cache.Memory.Reads.{lookup-set, get-live}
use uplink_relay.Cache.Writes.{IsClosed, IsPin}
use uplink_relay.Config.{Config}
use uplink_relay.Externals.{Externals, RoundTrips}
use uplink_relay.GraphRef.{parse_graph_ref, parse_graph_ref_iff, at_sign}
use uplink_relay.Pinning.Entry.{handle_pinned_entry, answer_pinned}
use uplink_relay.Pinning.Names.{operation_mapping}
use uplink_relay.System.{Event, Running, run}
use uplink_relay.System.Invariants.{IsNoDeletion, no_deletion-Spares, run-Invariant}
use uplink_relay.System.Keys.{
  GivesDigits, IsArtifact, pinned_key, pinned_key-ne_empty, write-pinned_key,
}

-- The cache has an entry without end under a key, which reads as an item with the property.
pub record HoldsItem (x : Externals) (Fits : CacheItem → Type 0) (key : String) (c : MemoryCache)
    : Type 0 where
  pub stored : CacheItem
  pub found : lookup key c.items ≡ some stored
  pub endless : is_indefinite stored.expiration ≡ true
  pub content : String
  pub filled : stored.content ≡ some content
  pub item : CacheItem
  pub decoded : x.item.unmarshal content ≡ some item
  pub fits : Fits item

module _ (x : Externals) (order : Items → Items)
    (visits : (items : Items) → Visits (order items) items) (digits : GivesDigits x)
    (trips : RoundTrips x.item) (operation_name graph_ref : String)
    (artifact : IsArtifact operation_name) (graph_id variant_id : String)
    (parsed : parse_graph_ref graph_ref ≡ ok (graph_id, variant_id)) where
  abbrev pub key : String
  key = pinned_key x digits operation_name graph_ref artifact graph_id variant_id parsed

  pub set-HoldsItem :
      (Fits : CacheItem → Type 0) (now : Time) (k value : String) (d : ℤ) (c : MemoryCache)
      (item : CacheItem)
      → k == key ≡ true
      → d ≡ negsuc 0
      → x.item.marshal item ≡ some value
      → Fits item
      → HoldsItem x Fits key ((memory_cache order).set now k value d c).1
  unfolding new_item
  set-HoldsItem Fits now k value d c item same lasting marshalled fits = record {
    stored = new_item now value d;
    found = lookup-set (order c.items) now k value d c key ∙ rw same refl;
    endless = rw lasting refl;
    content = value;
    filled = refl;
    item = item;
    decoded = trips item value marshalled;
    fits = fits;
  }

  pub HoldsItem-closed :
      (pins : Bool) (Fits : CacheItem → Type 0)
      → (pins ≡ true → (now : Time) (item : CacheItem) → IsPin x now key item → Fits item)
      → IsClosed x pins (memory_cache order) (HoldsItem x Fits key)
  HoldsItem-closed pins Fits all now k value d write = record {
    at = λ c h. elim (Bool-cases (k == key)) [
      | inl same ↦
          let (pinning, lasting, item, pin, marshalled) =
            write-pinned_key x digits operation_name graph_ref artifact graph_id variant_id parsed
              pins now k value d write ((eq_iff k key).0 same) in
          set-HoldsItem Fits now k value d c item same lasting marshalled
            (all pinning now item (subst (λ k. IsPin x now k item) ((eq_iff k key).0 same) pin))
      | inr other ↦ record {
        stored = h.stored;
        found =
            lookup-set (order c.items) now k value d c key
            ∙ rw other (
                make_room-pinned (order c.items) c (visits c.items) key h.stored
                  (pinned_key-ne_empty x digits operation_name graph_ref artifact graph_id
                    variant_id parsed)
                  h.found h.endless);
        endless = h.endless;
        content = h.content;
        filled = h.filled;
        item = h.item;
        decoded = h.decoded;
        fits = h.fits;
      }
    ];
  }

  pub run-HoldsItem :
      (Fits : CacheItem → Type 0) (events : List Event) (r : Running MemoryCache)
      → ((now : Time) (item : CacheItem) → IsPin x now key item → Fits item)
      → All IsNoDeletion events
      → HoldsItem x Fits key r.server.cache
      → HoldsItem x Fits key (run x (memory_cache order) events r).server.cache
  run-HoldsItem Fits events r fits calls h =
      let Pin : Config → MemoryCache → Type 0 = λ config c. HoldsItem x Fits key c in
      let held =
        run-Invariant x (memory_cache order) Pin
          (record {
            writes = λ config. HoldsItem-closed true Fits (λ pinning. fits);
            launches = λ config c graph launch_id h. h;
            versions = λ config c graph version h. h;
          })
          events r (no_deletion-Spares x (memory_cache order) Pin events calls)
          (record { held = h }) in
      held.held

  pub handle_pinned_entry-HoldsItem :
      (Fits : CacheItem → Type 0) (later : Time) (c : MemoryCache)
      → HoldsItem x Fits key c
      → (item : CacheItem) × Fits item
        × (handle_pinned_entry x (memory_cache order) later c graph_id variant_id operation_name ""
            ≡ ok (some item))
  unfolding handle_pinned_entry answer_pinned
  handle_pinned_entry-HoldsItem Fits later c h =
      let (joint, _, _) = (parse_graph_ref_iff graph_ref graph_id variant_id).0 parsed in
      let live : get later key c ≡ some h.content =
        rw (get-live, h.found) (ground (arith, h.endless, h.filled)) in
      let here : get later
            (make_cache_key x (graph_id <> "@" <> variant_id) (operation_mapping operation_name) [])
            c
          ≡ some h.content =
        rw (singleton-append at_sign variant_id, ← joint) live in
      (h.item, h.fits, rw (handle_pinned_entry, here, h.decoded) refl)
