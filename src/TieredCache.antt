-- ===== src/TieredCache.antt =====
-- tiered_cache/tiered.go: a list of caches as one. The caches work on parts of one state.
pub mod Reading
pub mod Writing
pub mod Keeping
pub mod Parts
use uplink_relay.Common.{
  ℕ, zero, suc, String, Bool, true, false, not, ◌&&◌, Option, none, some, List, [], ◌∷◌, ◌++◌, ℤ,
  Time, ◌==◌, if◌then◌else◌, Act, Result, ok, err, panicked,
}
use uplink_relay.Cache.{Cache}

-- What Get comes to: its answer, and the caches that the goroutine fills with updateContent.
pub record Outcome (C : Type 0) : Type 0 where
  pub answer : Option String
  pub backfill : List (Cache C)
  pub update_content : String

module _ {C : Type 0} where
  abbrev is_empty : List (Cache C) → Bool
  is_empty [] = true
  is_empty (_ ∷ _) = false

  -- What follows the loop that found nothing.
  abbrev missed_all : List (Cache C) → String → Outcome C
  missed_all missed update_content = record {
    answer = none;
    backfill = if not (is_empty missed) && not (update_content == "") then missed else [];
    update_content = update_content;
  }

  -- The loop of Get from an index on, over missedCaches and updateContent. A hit returns at once,
  -- also after it has set updateContent.
  unfoldable pub search :
      List (Cache C) → ℕ → List (Cache C) → String → Time → String → C → Outcome C
  search [] index missed update_content now key c = missed_all missed update_content
  search (cache ∷ caches) index missed update_content now key c =
      let rest = search caches (suc index) (missed ++ cache ∷ []) update_content now key c in
      elim (cache.get now key c) [
        | none ↦ rest
        | some content ↦ record {
          answer = some content;
          backfill = [];
          update_content = elim index [ zero ↦ update_content | suc _ ↦ content ];
        }
      ]

  -- The loop of Set, with the value of err: the error of a cache is kept until the next cache.
  unfoldable pub set_each :
      List (Cache C) → Time → String → String → ℤ → Result (Unit {0}) → Act C (Unit {0})
  set_each [] now key content duration last c = (last, c)
  set_each (cache ∷ caches) now key content duration last c =
      let (result, c') = cache.set now key content duration c in
      elim result [
        | panicked ↦ (panicked, c')
        | ok _ ↦ set_each caches now key content duration (ok tt) c'
        | err e ↦ set_each caches now key content duration (err e) c'
      ]

  -- The loop of DeleteWithPrefix.
  unfoldable pub delete_each : List (Cache C) → String → Result (Unit {0}) → Act C (Unit {0})
  delete_each [] prefix last c = (last, c)
  delete_each (cache ∷ caches) prefix last c =
      let (result, c') = cache.delete_with_prefix prefix c in
      elim result [
        | panicked ↦ (panicked, c')
        | ok _ ↦ delete_each caches prefix (ok tt) c'
        | err e ↦ delete_each caches prefix (err e) c'
      ]

  -- TieredCache as an implementation of Cache.
  abbrev pub tiered_cache : List (Cache C) → Cache C
  tiered_cache caches = record {
    get = λ now key c. (search caches 0 [] "" now key c).answer;
    set = λ now key content duration. set_each caches now key content duration (ok tt);
    delete_with_prefix = λ prefix. delete_each caches prefix (ok tt);
    name = "Tiered";
  }
