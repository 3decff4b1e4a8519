-- ===== src/PersistedQueries/Keys.antt =====
-- persisted_queries/persisted_queries.go: the keys and the IDs of persisted queries.
use uplink_relay.Common.{String, Char, none, some, List, [], ◌∷◌, ℤ, negsuc, split, ◌<>◌}
use uplink_relay.Externals.{Externals}

unfoldable pub make_persisted_query_cache_key : String → String → String
make_persisted_query_cache_key id index = "pq:" <> id <> ":" <> index

abbrev pub colon : Char
colon = ":"

decode_parts : Externals → List String → String × ℤ
decode_parts x (id ∷ version ∷ []) = elim (x.atoi version) [
  | none ↦ ("", negsuc 0)
  | some n ↦ (id, n)
]
decode_parts x _ = ("", negsuc 0)

unfoldable pub decode_id : Externals → String → String × ℤ
unfolding decode_parts
decode_id x id = decode_parts x (split colon id)
