-- ===== src/TieredCache/Reading.antt =====
-- What Get of tiered_cache/tiered.go answers with, and what it leaves undone.
use uplink_relay.Common.{
  ℕ, suc, String, ◌≡◌, ◌⊎◌, inl, inr, refl, ap, Option, Option-cases, none, some, List, [], ◌∷◌,
  ◌++◌, Time, All, arith,
}
use uplink_relay.Cache.{Cache}
use uplink_relay.TieredCache.{search, tiered_cache}

module _ {C : Type 0} (now : Time) (key : String) (c : C) where
  -- The answer is the content of the first of the caches that has one.
  pub record IsFirstHit (caches : List (Cache C)) (content : String) : Type 0 where
    pub before : List (Cache C)
    pub cache : Cache C
    pub after : List (Cache C)
    pub split : caches ≡ before ++ cache ∷ after
    pub hit : cache.get now key c ≡ some content
    pub misses : All (λ (b : Cache C). b.get now key c ≡ none) before

  -- The two ways in which Get may end.
  abbrev pub Reads : List (Cache C) → Option String → Type 0
  Reads caches answer =
      ((content : String) × (answer ≡ some content) × IsFirstHit caches content)
      ⊎ ((answer ≡ none) × All (λ (b : Cache C). b.get now key c ≡ none) caches)

  pub search_miss :
      (cache : Cache C) (caches : List (Cache C)) (index : ℕ) (missed : List (Cache C))
      → cache.get now key c ≡ none
      → search (cache ∷ caches) index missed "" now key c
        ≡ search caches (suc index) (missed ++ cache ∷ []) "" now key c
  unfolding search
  search_miss cache caches index missed miss = rw miss

  pub search_hit :
      (cache : Cache C) (caches : List (Cache C)) (index : ℕ) (missed : List (Cache C))
      (content : String)
      → cache.get now key c ≡ some content
      → ((search (cache ∷ caches) index missed "" now key c).answer ≡ some content)
        × ((search (cache ∷ caches) index missed "" now key c).backfill ≡ [])
  unfolding search
  search_hit cache caches index missed content hit = ground arith

  search-Reads :
      (caches : List (Cache C)) (index : ℕ) (missed : List (Cache C))
      → Reads caches (search caches index missed "" now key c).answer
        × ((search caches index missed "" now key c).backfill ≡ [])
  unfolding search
  search-Reads [] index missed = (inr (refl, tt), ground arith)
  search-Reads (cache ∷ caches) index missed = elim (Option-cases (cache.get now key c)) [
    | inl miss ↦
        let (reads, nothing) = search-Reads caches (suc index) (missed ++ cache ∷ []) in
        let answered : Reads (cache ∷ caches)
            (search caches (suc index) (missed ++ cache ∷ []) "" now key c).answer =
          elim reads [
            | inl (content, found, first) ↦ inl (
              content,
              found,
              record {
                before = cache ∷ first.before;
                cache = first.cache;
                after = first.after;
                split = ap (◌∷◌ cache) first.split;
                hit = first.hit;
                misses = (miss, first.misses);
              },
            )
            | inr (lost, all) ↦ inr (lost, (miss, all))
          ] in
        rw (search_miss cache caches index missed miss) (answered, nothing)
    | inr (content, hit) ↦
        let (answer, backfill) = search_hit cache caches index missed content hit in
        (
          inl (
            content,
            answer,
            record {
              before = [];
              cache = cache;
              after = caches;
              split = refl;
              hit = hit;
              misses = tt;
            },
          ),
          backfill,
        )
  ]

  -- Get of the tiered cache answers with the content of the first cache that has the key, all
  -- caches before it missing it, or with none if all miss it; and it starts a back-fill of no
  -- cache.
  pub tiered_cache-Reads :
      (caches : List (Cache C))
      → Reads caches ((tiered_cache caches).get now key c)
        × ((search caches 0 [] "" now key c).backfill ≡ [])
  tiered_cache-Reads caches = search-Reads caches 0 []

  -- Get of a single cache.
  pub one_Reads : (cache : Cache C) → Reads (cache ∷ []) (cache.get now key c)
  one_Reads cache = elim (Option-cases (cache.get now key c)) [
    | inl miss ↦ inr (miss, (miss, tt))
    | inr (content, hit) ↦ inl (
      content,
      hit,
      record { before = []; cache = cache; after = []; split = refl; hit = hit; misses = tt },
    )
  ]
