-- ===== src/Redis.antt =====
-- redis/redis.go: a cache in a Redis server. The client library is the parameter `Client`, over the
-- state R of the server.
pub mod Expiration
use uplink_relay.Common.{
  ℕ, String, Bool, Option, none, some, List, [], ◌∷◌, ℤ, pos, negsuc, eqb_ℤ, seconds, Time,
  if◌then◌else◌, Act, Result, ok, err, panicked, failed, pure, ◌<>◌,
}
use uplink_relay.Cache.{Cache}

-- What a Get command gives back: a value, redis.Nil, or an error.
pub data Reply : Type 0 where
  value : String → Reply
  nil : Reply
  refused : Reply

-- The commands of the client. Keys gives the value of its result: no keys when it fails. Each
-- command takes the time of the call, by which the server has expired keys.
pub record Client (R : Type 0) : Type 0 where
  pub get : Time → String → R → Reply
  pub set : Time → String → String → ℤ → Act R (Unit {0})
  pub keys : String → R → List String
  pub del : List String → Act R (Unit {0})

-- The expiration that Set passes on: 0 is none.
unfoldable pub expiration : ℤ → ℤ
expiration duration = if eqb_ℤ duration (negsuc 0) then pos 0 else seconds duration

-- An error of a command, wrapped in a text of this program.
abbrev wrapped : {R : Type 0} → Act R (Unit {0}) → String → Act R (Unit {0})
wrapped call message r =
    let (result, r') = call r in
    elim result [
      | ok _ ↦ (ok tt, r')
      | err _ ↦ (err (failed message), r')
      | panicked ↦ (panicked, r')
    ]

module _ {R : Type 0} (client : Client R) where
  unfoldable pub get : Time → String → R → Option String
  get now key r = elim (client.get now key r) [ value val ↦ some val | nil ↦ none | refused ↦ none ]

  unfoldable pub set : Time → String → String → ℤ → Act R (Unit {0})
  set now key content duration =
      wrapped (client.set now key content (expiration duration)) "failed to set key"

  -- The keys that match the pattern are deleted at once.
  unfoldable pub delete_keys : List String → Act R (Unit {0})
  delete_keys [] = pure tt
  delete_keys (key ∷ keys) = wrapped (client.del (key ∷ keys)) "failed to delete keys with prefix"

  unfoldable pub delete_with_prefix : String → Act R (Unit {0})
  unfolding delete_keys
  delete_with_prefix prefix r = delete_keys (client.keys (prefix <> "*") r) r

  -- RedisCache as an implementation of Cache.
  abbrev pub redis_cache : Cache R
  redis_cache = record {
    get = get;
    set = set;
    delete_with_prefix = delete_with_prefix;
    name = "Redis";
  }
