-- ===== src/TieredCache/Keeping.antt =====
-- What the handlers rely on of a cache, for tiered_cache/tiered.go.
use uplink_relay.Common.{
  String, ◌≡◌, ◌≢◌, refl, ◌∙◌, some, List, [], ◌∷◌, ℤ, Time, All, Result, Result-cases, ok, err,
  panicked, inl, inr,
}
use uplink_relay.Cache.{Cache}
use uplink_relay.Cache.Keeping.{Keeps}
use uplink_relay.TieredCache.{set_each, tiered_cache}
use uplink_relay.TieredCache.Reading.{search_hit}
use uplink_relay.TieredCache.Writing.{Apart, SetReturns, set_each-Apart}

module _ {C : Type 0} (now : Time) (key content : String) (duration : ℤ) where
  set_each_ok :
      (later : Time) (caches : List (Cache C)) (c : C)
      → All (λ (cache : Cache C). Keeps cache now later duration) caches
      → (set_each caches now key content duration (ok tt) c).0 ≡ ok tt
  unfolding set_each
  set_each_ok later [] c keep = refl
  set_each_ok later (cache ∷ caches) c (keeps, keep) =
      rw (set_each, keeps.set_ok key content c)
        (set_each_ok later caches (cache.set now key content duration c).1 keep)

  set_each_returns :
      (caches : List (Cache C)) (given : Result (Unit {0})) (c : C)
      → given ≢ panicked
      → All (λ (cache : Cache C). SetReturns now cache) caches
      → (set_each caches now key content duration given c).0 ≢ panicked
  unfolding set_each
  set_each_returns [] given c fine return = fine
  set_each_returns (cache ∷ caches) given c fine (returns, return) =
      elim (Result-cases (cache.set now key content duration c).0) [
        | inl (done, succeeded) ↦
            rw (set_each, succeeded) (set_each_returns caches (ok tt) _ (λ h. cc) return)
        | inr (inl (e, failed_)) ↦
            rw (set_each, failed_) (set_each_returns caches (err e) _ (λ h. cc) return)
        | inr (inr crashed) ↦ absurd (returns key content duration c crashed)
      ]

  set_each_head :
      (later : Time) (head : Cache C) (tail : List (Cache C)) (c : C)
      → All (λ (cache : Cache C). Apart cache head) tail
      → Keeps head now later duration
      → head.get later key (set_each (head ∷ tail) now key content duration (ok tt) c).1
        ≡ some content
  unfolding set_each
  set_each_head later head tail c apart keeps =
      rw (set_each, keeps.set_ok key content c)
        (set_each-Apart now key content duration head tail (ok tt) later key _ apart
          ∙ keeps.get-set key content c)

All_SetReturns :
    {C : Type 0} (now later : Time) (duration : ℤ) (caches : List (Cache C))
    → All (λ (cache : Cache C). Keeps cache now later duration) caches
    → All (λ (cache : Cache C). SetReturns now cache) caches
All_SetReturns now later duration [] keep = tt
All_SetReturns now later duration (cache ∷ caches) (keeps, keep) =
    (keeps.set_returns, All_SetReturns now later duration caches keep)

module _ {C : Type 0} where
  -- A tiered cache, of a first cache on whose part no later one works, keeps an entry if each of
  -- its caches does.
  pub tiered_cache-Keeps :
      (head : Cache C) (tail : List (Cache C)) (now later : Time) (duration : ℤ)
      → All (λ (cache : Cache C). Apart cache head) tail
      → All (λ (cache : Cache C). Keeps cache now later duration) (head ∷ tail)
      → Keeps (tiered_cache (head ∷ tail)) now later duration
  tiered_cache-Keeps head tail now later duration apart keep = record {
    set_ok = λ k v c. set_each_ok now k v duration later (head ∷ tail) c keep;
    set_returns = λ k v d c.
        set_each_returns now k v d (head ∷ tail) (ok tt) c (λ h. cc)
          (All_SetReturns now later duration (head ∷ tail) keep);
    get-set = λ k v c.
        (search_hit later k _ head tail 0 [] v
          (set_each_head now k v duration later head tail c apart keep.0)).0;
  }
