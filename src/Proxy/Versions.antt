-- ===== src/Proxy/Versions.antt =====
-- When handleCacheHit of proxy/proxy.go answers Unchanged to a client that has a manifest.
use uplink_relay.Common.{
  String, ◌≡◌, ◌↔◌, refl, true, some, ℤ, ◌≤ℤ◌, arith, eq_iff, Excludes, split_two, ◌<>◌,
  singleton-append,
}
use uplink_relay.Externals.{Externals}
use uplink_relay.PersistedQueries.Keys.{colon, decode_id}
use uplink_relay.Proxy.Hit.{is_unchanged}

module _ (x : Externals) where
  -- A manifest ID: an identifier and a version number with a colon between them.
  pub record Versioned (text identifier : String) (number : ℤ) : Type 0 where
    pub version : String
    pub joined : text ≡ identifier <> ":" <> version
    pub one_part : Excludes colon identifier
    pub no_more : Excludes colon version
    pub numeric : x.atoi version ≡ some number

  decode_id-Versioned :
      (text identifier : String) (number : ℤ)
      → Versioned text identifier number
      → decode_id x text ≡ (identifier, number)
  unfolding decode_id
  decode_id-Versioned text identifier number v =
      let parts = split_two colon identifier v.version v.one_part v.no_more in
      let joined = rw singleton-append at v.joined in rw (joined, parts, v.numeric) refl

  -- For two manifest IDs of an identifier, a colon and a version number: the client is told
  -- Unchanged exactly if the cached manifest has the same identifier and its version is not above
  -- the one of the client.
  pub is_unchanged_iff :
      (cached after identifier identifier' : String) (m n : ℤ)
      → Versioned cached identifier m
      → Versioned after identifier' n
      → (is_unchanged x cached after ≡ true) ↔ ((identifier ≡ identifier') × (m ≤ℤ n))
  unfolding is_unchanged
  is_unchanged_iff cached after identifier identifier' m n v w =
      let decoded = decode_id-Versioned cached identifier m v in
      let decoded' = decode_id-Versioned after identifier' n w in
      rw (decoded, decoded') (ground (arith, eq_iff identifier identifier'))
