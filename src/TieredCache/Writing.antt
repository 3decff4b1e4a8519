-- ===== src/TieredCache/Writing.antt =====
-- What Set of tiered_cache/tiered.go does to its caches, when none works on the part of another.
use uplink_relay.Common.{
  String, ◌≡◌, ◌≢◌, refl, sym, ◌∙◌, subst, Option, some, List, [], ◌∷◌, ◌++◌, ℤ, Time, ◌==◌,
  if◌then◌else◌, All, Result, Result-cases, ok, err, panicked, inl, inr, arith, ℕ, suc,
  Option-cases, ap,
}
use uplink_relay.Cache.{Cache}
use uplink_relay.TieredCache.{Outcome, search, set_each, tiered_cache}
use uplink_relay.TieredCache.Reading.{search_miss, search_hit}

-- Set of one cache is not seen by Get of another.
abbrev pub Apart : {C : Type 0} → Cache C → Cache C → Type 0
Apart {C} writer reader =
    (now later : Time) (key content : String) (duration : ℤ) (j : String) (c : C)
    → reader.get later j (writer.set now key content duration c).1 ≡ reader.get later j c

-- What a cache returns is what an ideal map holds.
abbrev pub Agrees : {C : Type 0} → Cache C → (String → Option String) → C → Type 0
Agrees cache ideal c =
    (later : Time) (j content : String)
    → cache.get later j c ≡ some content
    → ideal j ≡ some content

abbrev pub updated : (String → Option String) → String → String → String → Option String
updated ideal key content j = if key == j then some content else ideal j

-- A Set of a cache that succeeds follows the ideal map.
abbrev pub Follows : {C : Type 0} → Cache C → Type 0
Follows {C} cache =
    (ideal : String → Option String) (now : Time) (key content : String) (duration : ℤ) (c : C)
    → (cache.set now key content duration c).0 ≡ ok tt
    → Agrees cache ideal c
    → Agrees cache (updated ideal key content) (cache.set now key content duration c).1

-- No Set at the time `now` panics.
abbrev pub SetReturns : {C : Type 0} → Time → Cache C → Type 0
SetReturns {C} now cache =
    (key content : String) (duration : ℤ) (c : C)
    → (cache.set now key content duration c).0 ≢ panicked

module _ {C : Type 0} (now : Time) (key content : String) (duration : ℤ) where
  -- A loop that stops in the middle is no exception: the rest of the caches is not reached.
  pub set_each-Apart :
      (reader : Cache C) (caches : List (Cache C)) (last : Result (Unit {0})) (later : Time)
      (j : String) (c : C)
      → All (λ (writer : Cache C). Apart writer reader) caches
      → reader.get later j (set_each caches now key content duration last c).1
        ≡ reader.get later j c
  unfolding set_each
  set_each-Apart reader [] last later j c apart = refl
  set_each-Apart reader (cache ∷ caches) last later j c (here, rest) =
      let next = cache.set now key content duration c in
      let unseen = here now later key content duration j c in
      elim (Result-cases next.0) [
        | inl (done, succeeded) ↦
            rw (set_each, succeeded)
              (set_each-Apart reader caches (ok tt) later j next.1 rest ∙ unseen)
        | inr (inl (e, failed_)) ↦
            rw (set_each, failed_)
              (set_each-Apart reader caches (err e) later j next.1 rest ∙ unseen)
        | inr (inr crashed) ↦ rw (set_each, crashed) unseen
      ]

-- No cache of a list works on the part of another.
abbrev pub Independent : {C : Type 0} → List (Cache C) → Type 0
Independent [] = Unit
Independent {C} (cache ∷ caches) =
    All (λ (other : Cache C). Apart cache other) caches
    × All (λ (other : Cache C). Apart other cache) caches
    × Independent caches

module _ {C : Type 0} (now : Time) (key content : String) (duration : ℤ) where
  All_Agrees-Apart :
      (ideal : String → Option String) (writer : Cache C) (caches : List (Cache C)) (c : C)
      → All (λ (other : Cache C). Apart writer other) caches
      → All (λ (other : Cache C). Agrees other ideal c) caches
      → All
          (λ (other : Cache C). Agrees other ideal (writer.set now key content duration c).1)
          caches
  All_Agrees-Apart ideal writer [] c apart agree = tt
  All_Agrees-Apart ideal writer (cache ∷ caches) c (here, rest) (agrees, agree) = (
    λ later j found got. agrees later j found (sym (here now later key content duration j c) ∙ got),
    All_Agrees-Apart ideal writer caches c rest agree,
  )

  kept :
      (ideal : String → Option String) (cache : Cache C) (caches : List (Cache C))
      (given : Result (Unit {0})) (c : C)
      → All (λ (other : Cache C). Apart other cache) caches
      → Agrees cache (updated ideal key content) c
      → Agrees cache
          (updated ideal key content)
          (set_each caches now key content duration given c).1
  kept ideal cache caches given c inward here later j found got =
      here later j found
        (sym (set_each-Apart now key content duration cache caches given later j c inward) ∙ got)

  -- After the first cache the loop goes on, with one value of err or another.
  set_each_next :
      (cache : Cache C) (caches : List (Cache C)) (last : Result (Unit {0})) (c : C)
      → SetReturns now cache
      → (given : Result (Unit {0})) × (set_each (cache ∷ caches) now key content duration last c
          ≡ set_each caches now key content duration given (cache.set now key content duration c).1)
  unfolding set_each
  set_each_next cache caches last c returns =
      elim (Result-cases (cache.set now key content duration c).0) [
        | inl (done, succeeded) ↦ (ok tt, rw succeeded refl)
        | inr (inl (e, failed_)) ↦ (err e, rw failed_ refl)
        | inr (inr crashed) ↦ absurd (returns key content duration c crashed)
      ]

  -- In the loop over the caches, the Set of each of them succeeds.
  abbrev pub EachSucceeds : List (Cache C) → C → Type 0
  EachSucceeds [] c = Unit
  EachSucceeds (cache ∷ caches) c =
      ((cache.set now key content duration c).0 ≡ ok tt)
      × EachSucceeds caches (cache.set now key content duration c).1

  -- Set of the caches of a list follows the ideal map in each of them.
  set_each-Agrees :
      (ideal : String → Option String) (caches : List (Cache C)) (last : Result (Unit {0})) (c : C)
      → Independent caches
      → All (λ (cache : Cache C). Follows cache) caches
      → EachSucceeds caches c
      → All (λ (cache : Cache C). Agrees cache ideal c) caches
      → All
          (λ (cache : Cache C).
            Agrees cache
              (updated ideal key content)
              (set_each caches now key content duration last c).1)
          caches
  unfolding set_each
  set_each-Agrees ideal [] last c independent follow succeed agree = tt
  set_each-Agrees ideal (cache ∷ caches) last c (outward, inward, independent) (follows, follow)
        (succeeds, succeed) (agrees, agree) =
      let next = cache.set now key content duration c in
      let here = follows ideal now key content duration c succeeds agrees in
      let others = All_Agrees-Apart ideal cache caches c outward agree in
      let same : set_each (cache ∷ caches) now key content duration last c
          ≡ set_each caches now key content duration (ok tt) next.1 =
        rw succeeds refl in
      subst
        (λ (after : Result (Unit {0}) × C).
          All (λ (cache : Cache C). Agrees cache (updated ideal key content) after.1)
            (cache ∷ caches))
        (sym same)
        (
          kept ideal cache caches (ok tt) next.1 inward here,
          set_each-Agrees ideal caches (ok tt) next.1 independent follow succeed others,
        )

module _ {C : Type 0} (later : Time) (j : String) (ideal : String → Option String) (c : C) where
  search-Agrees :
      (content : String) (caches : List (Cache C)) (index : ℕ) (missed : List (Cache C))
      → All (λ (cache : Cache C). Agrees cache ideal c) caches
      → (search caches index missed "" later j c).answer ≡ some content
      → ideal j ≡ some content
  unfolding search
  search-Agrees content [] index missed agree found = absurd (ground (arith, found))
  search-Agrees content (cache ∷ caches) index missed (agrees, agree) found =
      elim (Option-cases (cache.get later j c)) [
        | inl miss ↦ search-Agrees content caches (suc index) (missed ++ cache ∷ []) agree (
            sym (
              ap (λ (o : Outcome C). o.answer)
                (search_miss later j c cache caches index missed miss))
            ∙ found)
        | inr (held, hit) ↦
            agrees later j content
              (hit ∙ sym (search_hit later j c cache caches index missed held hit).0 ∙ found)
      ]

module _ {C : Type 0} (now : Time) (key content : String) (duration : ℤ) where
  set_each-last :
      (last : Cache C) (caches : List (Cache C)) (given : Result (Unit {0})) (c : C)
      → All (λ (cache : Cache C). SetReturns now cache) caches
      → (before : C) × (set_each (caches ++ last ∷ []) now key content duration given c
          ≡ last.set now key content duration before)
  unfolding set_each
  set_each-last last [] given c return = (c, ground arith)
  set_each-last last (cache ∷ caches) given c (returns, return) =
      let (next, same) =
        set_each_next now key content duration cache (caches ++ last ∷ []) given c returns in
      let (before, rest) =
        set_each-last last caches next (cache.set now key content duration c).1 return in
      (before, same ∙ rest)

module _ {C : Type 0} where
  -- For caches none of which works on the part of another and each of which follows an ideal map in
  -- a Set that succeeds: if all of them return only what an ideal map holds, then after a Set of
  -- the tiered cache that succeeds in each of them, Get of the tiered cache returns at every time
  -- only what the map holds with the content put in at the key.
  pub tiered_cache-Agrees :
      (caches : List (Cache C)) (ideal : String → Option String) (now : Time) (key content : String)
      (duration : ℤ) (c : C)
      → Independent caches
      → All (λ (cache : Cache C). Follows cache) caches
      → EachSucceeds now key content duration caches c
      → All (λ (cache : Cache C). Agrees cache ideal c) caches
      → Agrees
          (tiered_cache caches)
          (updated ideal key content)
          ((tiered_cache caches).set now key content duration c).1
  tiered_cache-Agrees caches ideal now key content duration c independent follow succeed agree later
        j found got =
      search-Agrees later j (updated ideal key content)
        ((tiered_cache caches).set now key content duration c).1 found caches 0 []
        (set_each-Agrees now key content duration ideal caches (ok tt) c independent follow succeed
          agree)
        got

  -- If no cache before the last panics in Set, the result of Set of the tiered cache is the one of
  -- the last cache alone.
  pub tiered_cache-set_last :
      (caches : List (Cache C)) (last : Cache C) (now : Time) (key content : String) (duration : ℤ)
      (c : C)
      → All (λ (cache : Cache C). SetReturns now cache) caches
      → (before : C) × ((tiered_cache (caches ++ last ∷ [])).set now key content duration c
          ≡ last.set now key content duration before)
  tiered_cache-set_last caches last now key content duration c return =
      set_each-last now key content duration last caches (ok tt) c return
