-- ===== src/Redis/Expiration.antt =====
-- How long redis/redis.go keeps an entry, and what it deletes, for a server as documented.
use uplink_relay.Common.{
  ℕ, ◌+◌, ◌*◌, ◌^◌, ◌<◌, ◌≡◌, ◌≢◌, ◌↔◌, refl, String, Bool, false, Option, none, some, List, [],
  ◌∷◌, ℤ, pos, negsuc, Time, second, ok, panicked, inl, inr, ◌⊎◌, arith, ◌<>◌, ◌==◌, ◌||◌,
  if◌then◌else◌, seconds, wrap64_small, Bool-cases, eq_iff,
}
use uplink_relay.Cache.Keeping.{Keeps}
use uplink_relay.TieredCache.Writing.{Follows}
use uplink_relay.Redis.{
  Client, Reply, value, nil, refused, get, set, expiration, delete_with_prefix, delete_keys,
  redis_cache,
}

abbrev pub is_member : String → List String → Bool
is_member key [] = false
is_member key (k ∷ keys) = (k == key) || is_member key keys

-- What Redis documents of its commands: an entry with the expiration 0 stays, one with an
-- expiration is there up to its end, SET replaces the value of its key and of no other, KEYS with a prefix and a star lists the keys with the prefix
-- that are there, DEL deletes its keys and no other, and the client does not panic.
pub record IsDocumented {R : Type 0} (client : Client R) : Type 0 where
  pub set_lasting :
      (now later : Time) (key content : String) (r : R)
      → (client.set now key content (pos 0) r).0 ≡ ok tt
      → client.get later key (client.set now key content (pos 0) r).1 ≡ value content
  pub set_expiring :
      (now later : Time) (key content : String) (n : ℕ) (r : R)
      → (client.set now key content (pos n) r).0 ≡ ok tt
      → later < now + n
      → client.get later key (client.set now key content (pos n) r).1 ≡ value content
  pub set_reads :
      (now later : Time) (key content v : String) (e : ℤ) (r : R)
      → (client.set now key content e r).0 ≡ ok tt
      → client.get later key (client.set now key content e r).1 ≡ value v
      → v ≡ content
  pub set_apart :
      (now later : Time) (key j content : String) (e : ℤ) (r : R)
      → key ≢ j
      → client.get later j (client.set now key content e r).1 ≡ client.get later j r
  pub set_returns :
      (now : Time) (key content : String) (e : ℤ) (r : R)
      → (client.set now key content e r).0 ≢ panicked
  pub del_keys :
      (keys : List String) (now : Time) (j : String) (r : R)
      → (client.del keys r).0 ≡ ok tt
      → client.get now j (client.del keys r).1
        ≡ (if is_member j keys then nil else client.get now j r)

-- How long an entry with a duration is there: -1 and 0 last for ever, n seconds up to their end.
abbrev pub Lasts : Time → ℤ → Time → Type 0
Lasts now duration later =
    (duration ≡ negsuc 0)
    ⊎ ((duration ≡ pos 0)
        ⊎ ((n : ℕ) × (duration ≡ pos n) × (n < 2 ^ 33) × (later < now + n * second)))

seconds_small : (n : ℕ) → n < 2 ^ 33 → seconds (pos n) ≡ pos (n * second)
unfolding seconds
seconds_small n small = wrap64_small (n * second) (omega arith)

expiration_forever : (duration : ℤ) → duration ≡ negsuc 0 → expiration duration ≡ pos 0
unfolding expiration
expiration_forever duration forever = rw forever refl

expiration_zero : (duration : ℤ) → duration ≡ pos 0 → expiration duration ≡ pos 0
unfolding expiration seconds
expiration_zero duration zero = rw zero refl

expiration_small :
    (duration : ℤ) (n : ℕ) → duration ≡ pos n → n < 2 ^ 33 → expiration duration ≡ pos (n * second)
unfolding expiration
expiration_small duration n same small = rw (same, ← seconds_small n small) (ground arith)

module _ {R : Type 0} (client : Client R) (documented : IsDocumented client) where
  reply : Reply → Option String
  reply (value val) = some val
  reply nil = none
  reply refused = none

  get-reply :
      (now : Time) (key : String) (r : R) → get client now key r ≡ reply (client.get now key r)
  unfolding get reply
  get-reply now key r = ground arith

  -- Set is the command, but for the text of its error.
  set_cases :
      (now : Time) (key content : String) (duration : ℤ) (r : R)
      → let sent = client.set now key content (expiration duration) r in
        ((set client now key content duration r).1 ≡ sent.1)
        × (((set client now key content duration r).0 ≡ ok tt) ↔ (sent.0 ≡ ok tt))
        × ((set client now key content duration r).0 ≢ panicked)
  unfolding set
  set_cases now key content duration r =
      let fine = documented.set_returns now key content (expiration duration) r in
      (ground arith, (λ h. ground arith, λ h. ground arith), λ h. ground arith)

  lasts :
      (now later : Time) (key content : String) (duration : ℤ) (r : R)
      → Lasts now duration later
      → (client.set now key content (expiration duration) r).0 ≡ ok tt
      → client.get later key (client.set now key content (expiration duration) r).1 ≡ value content
  lasts now later key content duration r (inl forever) sent =
      let none_at_all = expiration_forever duration forever in
      rw none_at_all (documented.set_lasting now later key content r (rw none_at_all at sent))
  lasts now later key content duration r (inr (inl zero)) sent =
      let none_at_all = expiration_zero duration zero in
      rw none_at_all (documented.set_lasting now later key content r (rw none_at_all at sent))
  lasts now later key content duration r (inr (inr (n, same, small, soon))) sent =
      let finite = expiration_small duration n same small in
      rw finite
        (documented.set_expiring now later key content (n * second) r (rw finite at sent) soon)

  -- For a Redis server as documented whose Set succeeds: the Redis cache keeps an entry at every
  -- time for the durations -1 and 0, and up to the end of the time for n seconds, below 2^33.
  pub redis_cache-Keeps :
      (now later : Time) (duration : ℤ)
      → Lasts now duration later
      → ((key content : String) (e : ℤ) (r : R) → (client.set now key content e r).0 ≡ ok tt)
      → Keeps (redis_cache client) now later duration
  redis_cache-Keeps now later duration soon succeeds = record {
    set_ok = λ k v r. (set_cases now k v duration r).1.1 (succeeds k v (expiration duration) r);
    set_returns = λ k v d r. (set_cases now k v d r).2;
    get-set = λ k v r.
        rw
          (
            get-reply,
            (set_cases now k v duration r).0,
            lasts now later k v duration r soon (succeeds k v (expiration duration) r),
          )
          (unfold reply in refl);
  }

  -- A Set of the Redis cache that succeeds follows an ideal map.
  pub redis_cache-Follows : Follows (redis_cache client)
  unfolding get
  redis_cache-Follows ideal now key content duration r succeeds agrees later j held got =
      let (sent, iff, _) = set_cases now key content duration r in
      let there : get client later j (client.set now key content (expiration duration) r).1
          ≡ some held =
        rw sent at got in
      elim (Bool-cases (key == j)) [
        | inl same ↦
            let reads =
              documented.set_reads now later key content held (expiration duration) r
                (iff.0 succeeds) in
            ground (arith, same, (eq_iff key j).0 same, there, reads)
        | inr other ↦
            let apart =
              documented.set_apart now later key j content (expiration duration) r
                (λ h. ground (arith, other, (eq_iff key j).1 h)) in
            rw other (agrees later j held (ground (arith, there, apart)))
      ]

  delete_keys_lem :
      (keys : List String) (now : Time) (j : String) (r : R)
      → (delete_keys client keys r).0 ≡ ok tt
      → get client now j (delete_keys client keys r).1
        ≡ (if is_member j keys then none else get client now j r)
  unfolding delete_keys get
  delete_keys_lem [] now j r succeeded = refl
  delete_keys_lem (key ∷ keys) now j r succeeded =
      ground (arith, documented.del_keys (key ∷ keys) now j r)

  -- After a DeleteWithPrefix of the Redis cache that succeeds, Get misses the keys that KEYS listed
  -- and reads every other key as before.
  pub get-delete_with_prefix_keys :
      (prefix : String) (now : Time) (j : String) (r : R)
      → (delete_with_prefix client prefix r).0 ≡ ok tt
      → get client now j (delete_with_prefix client prefix r).1
        ≡ (if is_member j (client.keys (prefix <> "*") r) then none else get client now j r)
  unfolding delete_with_prefix
  get-delete_with_prefix_keys prefix now j r succeeded =
      delete_keys_lem (client.keys (prefix <> "*") r) now j r succeeded
