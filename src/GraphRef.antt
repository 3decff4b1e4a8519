-- ===== src/GraphRef.antt =====
-- internal/util/graphref.go: the two parts of a graph_ref, such as graph@variant.
use Prim.Native.String.{◌∷◌ as ◌::◌, ◌++◌ as ◌<>◌}
use uplink_relay.Common.{
  Char, String, List, [], ◌∷◌, ◌≡◌, ◌↔◌, split, Excludes, split_two, of_split_two, two, Result, ok,
  err, failed, arith,
}

abbrev pub at_sign : Char
at_sign = "@"

-- a graph_ref with the parts g and v
abbrev pub joined : String → String → String
joined g v = ◌<>◌ g (◌::◌ at_sign v)

parts_pair : List String → Result (String × String)
parts_pair (graph_id ∷ variant_id ∷ []) = ok (graph_id, variant_id)
parts_pair _ = err (failed "invalid graph_ref")

unfoldable pub parse_graph_ref : String → Result (String × String)
unfolding parts_pair
parse_graph_ref graph_ref = parts_pair (split at_sign graph_ref)

parts_pair-eq_ok :
    (parts : List String) (g v : String) → parts_pair parts ≡ ok (g, v) → parts ≡ two g v
unfolding parts_pair
parts_pair-eq_ok (a ∷ b ∷ []) g v h = ground arith
parts_pair-eq_ok _ g v h = ground arith

-- A graph_ref is accepted with the parts g and v exactly if it is g, "@" and v in a row, and
-- neither part has an "@" in it.
pub parse_graph_ref_iff :
    (s g v : String)
    → (parse_graph_ref s ≡ ok (g, v)) ↔ ((s ≡ joined g v) × Excludes at_sign g × Excludes at_sign v)
unfolding parse_graph_ref
parse_graph_ref_iff s g v = (
  λ h. of_split_two at_sign s g v (parts_pair-eq_ok (split at_sign s) g v h),
  λ h. cc (h.0, split_two at_sign g v h.1 h.2),
)
