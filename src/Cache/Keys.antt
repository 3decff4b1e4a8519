-- ===== src/Cache/Keys.antt =====
-- cache/cache.go: the cache keys; internal/util/hash.go.
use uplink_relay.Common.{String, List, [], ◌∷◌, Result, ok, err, panicked, ◌<>◌}
use uplink_relay.GraphRef.{parse_graph_ref}
use uplink_relay.Wire.{Variables, text}
use uplink_relay.Externals.{Externals}

-- fmt.Sprintf("%s:%s:%s", …) of the parts of a graph_ref, and "" for an error
prefix_of : Result (String × String) → String → String
prefix_of (ok (graph_id, variant_id)) operation_name =
    graph_id <> ":" <> variant_id <> ":" <> operation_name
prefix_of (err _) operation_name = ""
prefix_of panicked operation_name = ""

unfoldable pub make_cache_prefix : String → String → String
unfolding prefix_of
make_cache_prefix graph_ref operation_name = prefix_of (parse_graph_ref graph_ref) operation_name

-- The variables by which an artifact is filed.
abbrev pub artifact_variables : String → String → Variables
artifact_variables graph_ref if_after_id =
    ("graph_ref", text graph_ref) ∷ ("ifAfterId", text if_after_id) ∷ []

module _ (x : Externals) where
  unfoldable pub hash_string : String → String
  hash_string s = x.sha256_hex s

  -- The extra arguments are maps wherever the program gives some.
  unfoldable pub make_cache_key : String → String → List Variables → String
  unfolding hash_string
  make_cache_key graph_ref operation_name [] = make_cache_prefix graph_ref operation_name
  make_cache_key graph_ref operation_name (args ∷ more) =
      make_cache_prefix graph_ref operation_name <> ":" <> hash_string (x.sprint (args ∷ more))

  unfoldable pub default_cache_key : String → String → String
  default_cache_key graph_ref operation_name =
      make_cache_key graph_ref operation_name (artifact_variables graph_ref "" ∷ [])
