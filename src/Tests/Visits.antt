-- ===== src/Tests/Visits.antt =====
-- A visit of a map that yields each entry once.
use mathlib.Core.List.{Memᴰ}
use uplink_relay.Common.{
  String, ◌≡◌, refl, sym, ap, false, some, [], ◌∷◌, ◌==◌, if◌then◌else◌, eq_iff, eq_refl, arith,
  lookup, without, Bool-cases, inl, inr,
}
use uplink_relay.Cache.{CacheItem}
use uplink_relay.Cache.Memory.{Items}
use uplink_relay.Cache.Memory.Eviction.{Visits}

unfoldable pub distinct : Items → Items
distinct [] = []
distinct ((k, e) ∷ items) = (k, e) ∷ without k (distinct items)

module _ (k j : String) (e : CacheItem) where
  -- The step over an entry of another key.
  step_without :
      (i : String) (v : CacheItem) (items : Items)
      → (Memᴰ (j, e) (without k items) → ((k == j) ≡ false) × Memᴰ (j, e) items)
      → (i == k) ≡ false
      → Memᴰ (j, e) ((i, v) ∷ without k items)
      → ((k == j) ≡ false) × Memᴰ (j, e) ((i, v) ∷ items)
  step_without i v items later other (Memᴰ.head same) =
      let key : j ≡ i = ap (λ (p : String × CacheItem). p.0) same in
      (ground (arith, eq_iff k j, eq_iff i k, key), Memᴰ.head same)
  step_without i v items later other (Memᴰ.tail listed) =
      let (apart, there) = later listed in (apart, Memᴰ.tail there)

  Mem-of_without :
      (items : Items) → Memᴰ (j, e) (without k items) → ((k == j) ≡ false) × Memᴰ (j, e) items
  unfolding without
  Mem-of_without [] listed = elim listed [ ]
  Mem-of_without ((i, v) ∷ items) listed =
      let later = Mem-of_without items in
      elim (Bool-cases (i == k)) [
        | inl same ↦ let (other, there) = later (rw same at listed) in (other, Memᴰ.tail there)
        | inr other ↦ step_without i v items later other (rw other at listed)
      ]

  Mem-without :
      (items : Items) → (k == j) ≡ false → Memᴰ (j, e) items → Memᴰ (j, e) (without k items)
  unfolding without
  Mem-without [] other listed = elim listed [ ]
  Mem-without ((i, v) ∷ items) other (Memᴰ.head same) =
      let key : j ≡ i = ap (λ (p : String × CacheItem). p.0) same in
      let apart : (i == k) ≡ false = ground (arith, eq_iff k j, eq_iff i k, key) in
      rw apart (Memᴰ.head same)
  Mem-without ((i, v) ∷ items) other (Memᴰ.tail later) = elim (Bool-cases (i == k)) [
    | inl same ↦ rw same (Mem-without items other later)
    | inr apart ↦ rw apart (Memᴰ.tail (Mem-without items other later))
  ]

some_item : (a b : CacheItem) → some a ≡ some b → a ≡ b
some_item a b h = cc

module _ (k : String) (v : CacheItem) (items : Items) (visits : Visits (distinct items) items) where
  distinct_sound :
      (j : String) (e : CacheItem)
      → Memᴰ (j, e) ((k, v) ∷ without k (distinct items))
      → (if k == j then some v else lookup j items) ≡ some e
  distinct_sound j e (Memᴰ.head same) =
      let key : j ≡ k = ap (λ (p : String × CacheItem). p.0) same in
      let item : e ≡ v = ap (λ (p : String × CacheItem). p.1) same in rw (key, item, eq_refl k) refl
  distinct_sound j e (Memᴰ.tail later) =
      let (apart, there) = Mem-of_without k j e (distinct items) later in
      rw apart (visits.sound j e there)

  distinct_complete :
      (j : String) (e : CacheItem)
      → (if k == j then some v else lookup j items) ≡ some e
      → Memᴰ (j, e) ((k, v) ∷ without k (distinct items))
  distinct_complete j e found = elim (Bool-cases (k == j)) [
    | inl same ↦
        let item : some v ≡ some e = rw same at found in
        let key : k ≡ j = (eq_iff k j).0 same in
        Memᴰ.head (λ i. (sym key i, some_item e v (sym item) i))
    | inr apart ↦
        let later : lookup j items ≡ some e = rw apart at found in
        Memᴰ.tail (Mem-without k j e (distinct items) apart (visits.complete j e later))
  ]

pub distinct-Visits : (items : Items) → Visits (distinct items) items
unfolding distinct lookup
distinct-Visits [] = record { sound = λ k e listed. elim listed [ ]; complete = λ k e found. cc }
distinct-Visits ((k, v) ∷ items) =
    let visits = distinct-Visits items in
    record {
      sound = distinct_sound k v items visits;
      complete = distinct_complete k v items visits;
    }
