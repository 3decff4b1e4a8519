-- ===== src/TieredCache/Parts.antt =====
-- Caches on the parts of one state, as main.go gives them to tiered_cache/tiered.go, and the
-- in-memory cache as one of them.
use uplink_relay.Common.{refl, ℤ, Time, ◌==◌, Bool-cases, inl, inr, arith}
use uplink_relay.Cache.{Cache}
use uplink_relay.Cache.Keeping.{Keeps}
use uplink_relay.Cache.Memory.{Items, memory_cache}
use uplink_relay.Cache.Memory.History.{set_coherent}
use uplink_relay.TieredCache.Writing.{Apart, Follows}

module _ {C D : Type 0} where
  -- A cache on the left or on the right part of a state.
  abbrev pub on_left : Cache C → Cache (C × D)
  on_left cache = record {
    get = λ now key (s : C × D). cache.get now key s.0;
    set = λ now key content duration (s : C × D).
        let (result, c) = cache.set now key content duration s.0 in (result, (c, s.1));
    delete_with_prefix = λ prefix (s : C × D).
        let (result, c) = cache.delete_with_prefix prefix s.0 in (result, (c, s.1));
    name = cache.name;
  }

  abbrev pub on_right : Cache D → Cache (C × D)
  on_right cache = record {
    get = λ now key (s : C × D). cache.get now key s.1;
    set = λ now key content duration (s : C × D).
        let (result, d) = cache.set now key content duration s.1 in (result, (s.0, d));
    delete_with_prefix = λ prefix (s : C × D).
        let (result, d) = cache.delete_with_prefix prefix s.1 in (result, (s.0, d));
    name = cache.name;
  }

  pub on_left-Apart : (a : Cache C) (b : Cache D) → Apart (on_left a) (on_right b)
  on_left-Apart a b now later key content duration j s = refl

  pub on_right-Apart : (a : Cache C) (b : Cache D) → Apart (on_right b) (on_left a)
  on_right-Apart a b now later key content duration j s = refl

  pub on_left-Follows : (a : Cache C) → Follows a → Follows (on_left a)
  on_left-Follows a follows ideal now key content duration s succeeds agrees =
      follows ideal now key content duration s.0 succeeds agrees

  pub on_right-Follows : (b : Cache D) → Follows b → Follows (on_right b)
  on_right-Follows b follows ideal now key content duration s succeeds agrees =
      follows ideal now key content duration s.1 succeeds agrees

  pub on_left-Keeps :
      (a : Cache C) (now later : Time) (duration : ℤ)
      → Keeps a now later duration
      → Keeps (on_left a) now later duration
  on_left-Keeps a now later duration keeps = record {
    set_ok = λ k v s. keeps.set_ok k v s.0;
    set_returns = λ k v d s. keeps.set_returns k v d s.0;
    get-set = λ k v s. keeps.get-set k v s.0;
  }

  pub on_right-Keeps :
      (b : Cache D) (now later : Time) (duration : ℤ)
      → Keeps b now later duration
      → Keeps (on_right b) now later duration
  on_right-Keeps b now later duration keeps = record {
    set_ok = λ k v s. keeps.set_ok k v s.1;
    set_returns = λ k v d s. keeps.set_returns k v d s.1;
    get-set = λ k v s. keeps.get-set k v s.1;
  }

-- Set of the in-memory cache follows the ideal map.
pub memory_cache-Follows : (order : Items → Items) → Follows (memory_cache order)
memory_cache-Follows order ideal now key content duration c succeeds agrees later j found got =
    let coherent = set_coherent (order c.items) now key content duration c later j found got in
    elim (Bool-cases (key == j)) [
      | inl same ↦ ground (arith, same, coherent)
      | inr other ↦ rw other (agrees later j found (ground (arith, other, coherent)))
    ]
