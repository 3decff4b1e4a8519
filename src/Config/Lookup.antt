-- ===== src/Config/Lookup.antt =====
-- The lookup of config/config.go, also after a change to each supergraph.
use uplink_relay.Common.{
  ◌≡◌, ◌≢◌, inl, inr, refl, String, List, [], ◌∷◌, ◌==◌, eq_iff, arith, ok, err, failed, All,
  Bool-cases, ap, ◌++◌, panicked, map, map_ok,
}
use uplink_relay.Config.{
  Config, SupergraphConfig, find_supergraph, find_supergraph_config_from_graph_ref,
}

-- `s` is the first of the supergraphs with the graph_ref.
pub record IsFirst (graph_ref : String) (supergraphs : List SupergraphConfig) (s : SupergraphConfig)
    : Type 0 where
  pub before : List SupergraphConfig
  pub after : List SupergraphConfig
  pub split : supergraphs ≡ before ++ s ∷ after
  pub named : s.graph_ref ≡ graph_ref
  pub skipped : All (λ b. b.graph_ref ≢ graph_ref) before

find_supergraph_ok :
    (graph_ref : String) (supergraphs : List SupergraphConfig) (s : SupergraphConfig)
    → find_supergraph graph_ref supergraphs ≡ ok s
    → IsFirst graph_ref supergraphs s
unfolding find_supergraph
find_supergraph_ok graph_ref [] s h = cc
find_supergraph_ok graph_ref (b ∷ bs) s h = elim (Bool-cases (b.graph_ref == graph_ref)) [
  | inl same ↦
      let e : b ≡ s = ground arith in
      record {
        before = [];
        after = bs;
        split = rw e;
        named = rw (← e) ((eq_iff _ _).0 same);
        skipped = tt;
      }
  | inr other ↦
      let rest = find_supergraph_ok graph_ref bs s (ground arith) in
      record {
        before = b ∷ rest.before;
        after = rest.after;
        split = ap (◌∷◌ b) rest.split;
        named = rest.named;
        skipped = (ground (arith, eq_iff b.graph_ref graph_ref), rest.skipped);
      }
]

find_supergraph_err :
    (graph_ref : String) (supergraphs : List SupergraphConfig)
    → All (λ b. b.graph_ref ≢ graph_ref) supergraphs
    → find_supergraph graph_ref supergraphs ≡ err (failed "supergraph not found for graphRef")
unfolding find_supergraph
find_supergraph_err graph_ref [] h = refl
find_supergraph_err graph_ref (b ∷ bs) (other, h) =
    ground (arith, eq_iff b.graph_ref graph_ref, find_supergraph_err graph_ref bs h)

-- The lookup of a graph_ref, if it succeeds, gives the first supergraph that has it, and it is an
-- error if none has.
pub find_supergraph_lem :
    (graph_ref : String) (c : Config)
    → ((s : SupergraphConfig)
        → find_supergraph_config_from_graph_ref graph_ref c ≡ ok s
        → IsFirst graph_ref c.supergraphs s)
      × (All (λ b. b.graph_ref ≢ graph_ref) c.supergraphs
          → find_supergraph_config_from_graph_ref graph_ref c
            ≡ err (failed "supergraph not found for graphRef"))
unfolding find_supergraph_config_from_graph_ref
find_supergraph_lem graph_ref c =
    (find_supergraph_ok graph_ref c.supergraphs, find_supergraph_err graph_ref c.supergraphs)

find_supergraph-returns :
    (graph_ref : String) (supergraphs : List SupergraphConfig)
    → find_supergraph graph_ref supergraphs ≢ panicked
unfolding find_supergraph
find_supergraph-returns graph_ref [] = cc
find_supergraph-returns graph_ref (b ∷ bs) = ground (arith, find_supergraph-returns graph_ref bs)

pub find_supergraph_config-returns :
    (graph_ref : String) (c : Config) → find_supergraph_config_from_graph_ref graph_ref c ≢ panicked
unfolding find_supergraph_config_from_graph_ref
find_supergraph_config-returns graph_ref c = find_supergraph-returns graph_ref c.supergraphs

module _ (f : SupergraphConfig → SupergraphConfig)
    (keeps : (s : SupergraphConfig) → (f s).graph_ref ≡ s.graph_ref) where
  find_supergraph-map :
      (graph_ref : String) (supergraphs : List SupergraphConfig)
      → find_supergraph graph_ref (map f supergraphs)
        ≡ map_ok f (find_supergraph graph_ref supergraphs)
  unfolding find_supergraph
  find_supergraph-map graph_ref [] = refl
  find_supergraph-map graph_ref (s ∷ supergraphs) = elim (Bool-cases (s.graph_ref == graph_ref)) [
    | inl same ↦ simp (keeps s, same)
    | inr other ↦ simp (keeps s, other, find_supergraph-map graph_ref supergraphs)
  ]

  -- A change that keeps the graph_refs is found at the graph_ref of what it changed.
  pub find_supergraph_config-map :
      (graph_ref : String) (c : Config)
      → find_supergraph_config_from_graph_ref graph_ref
          (record c { supergraphs = map f c.supergraphs })
        ≡ map_ok f (find_supergraph_config_from_graph_ref graph_ref c)
  unfolding find_supergraph_config_from_graph_ref
  find_supergraph_config-map graph_ref c = find_supergraph-map graph_ref c.supergraphs
