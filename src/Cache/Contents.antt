-- ===== src/Cache/Contents.antt =====
-- What stands in the keys of cache/cache.go.
use uplink_relay.Common.{
  String, ◌≡◌, ap, true, [], ◌∷◌, ok, ◌<>◌, contains, contains_middle, lookup, text_append_assoc,
}
use uplink_relay.Cache.Keys.{make_cache_prefix, make_cache_key, hash_string}
use uplink_relay.Externals.{Externals, PrintsByKey}
use uplink_relay.GraphRef.{parse_graph_ref}
use uplink_relay.Wire.{Variables}

module _ (x : Externals) (graph_ref operation_name graph_id variant_id : String)
    (parsed : parse_graph_ref graph_ref ≡ ok (graph_id, variant_id)) where
  pub make_cache_prefix_lem :
      make_cache_prefix graph_ref operation_name
      ≡ graph_id <> ":" <> variant_id <> ":" <> operation_name
  unfolding make_cache_prefix
  make_cache_prefix_lem = rw parsed

  -- For a graph_ref that parses, the operation name occurs in every key with variables.
  pub contains-make_cache_key :
      (v : Variables)
      → contains (make_cache_key x graph_ref operation_name (v ∷ [])) operation_name ≡ true
  unfolding make_cache_key hash_string
  contains-make_cache_key v =
      let e =
        contains_middle (graph_id <> ":" <> variant_id <> ":") operation_name
          (":" <> x.sha256_hex (x.sprint (v ∷ []))) in
      rw make_cache_prefix_lem (simp text_append_assoc (simp text_append_assoc at e))

-- For texts of maps as documented, requests whose variables agree at each key have the same cache
-- key.
pub make_cache_key_ext :
    (x : Externals) (graph_ref operation_name : String) (u v : Variables)
    → PrintsByKey x
    → ((k : String) → lookup k u ≡ lookup k v)
    → make_cache_key x graph_ref operation_name (u ∷ [])
      ≡ make_cache_key x graph_ref operation_name (v ∷ [])
unfolding make_cache_key
make_cache_key_ext x graph_ref operation_name u v prints same =
    ap (λ s. make_cache_prefix graph_ref operation_name <> ":" <> x.sha256_hex s) (prints u v same)
