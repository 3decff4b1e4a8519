-- ===== src/Polling/Rounds.antt =====
-- The rounds of polling/polling.go.
use uplink_relay.Common.{
  ℕ, suc, ◌≡◌, refl, Bool, some, List, [], ◌∷◌, ℤ, pos, negsuc, Time, arith, ok, ◌≤ℤ◌,
}
use uplink_relay.Cache.{Cache}
use uplink_relay.Config.{Config, SupergraphConfig}
use uplink_relay.Externals.{Externals}
use uplink_relay.Polling.{poll_attempts, poll_graphs, poll_for_updates, all_off, count}
use uplink_relay.Server.{Server}

-- The three polling options are set, to true or to false.
pub record Filled (config : Config) : Type 0 where
  pub supergraph : Bool
  pub supergraph_is : config.polling.supergraph ≡ some supergraph
  pub entitlements : Bool
  pub entitlements_is : config.polling.entitlements ≡ some entitlements
  pub persisted_queries : Bool
  pub persisted_queries_is : config.polling.persisted_queries ≡ some persisted_queries

module _ {C : Type 0} (x : Externals) (cache : Cache C) (now : Time) where
  poll_graphs-zero :
      (supergraphs : List SupergraphConfig) (s : Server C)
      → poll_graphs x cache now 0 supergraphs s ≡ (ok tt, s)
  unfolding poll_graphs poll_attempts
  poll_graphs-zero [] s = refl
  poll_graphs-zero (g ∷ supergraphs) s = rw (poll_graphs-zero supergraphs s) refl

  -- The attempts of a round are one attempt, since an error leaves the loop too.
  poll_attempts-once :
      (n : ℕ) (g : SupergraphConfig) (s : Server C)
      → poll_attempts x cache now (suc n) g s ≡ poll_attempts x cache now 1 g s
  unfolding poll_attempts
  poll_attempts-once n g s = refl

  -- A round of polling over a list of supergraphs does the same with every positive number of
  -- attempts: none is made a second time, also after an error.
  pub poll_graphs-once :
      (n : ℕ) (supergraphs : List SupergraphConfig) (s : Server C)
      → poll_graphs x cache now (suc n) supergraphs s ≡ poll_graphs x cache now 1 supergraphs s
  unfolding poll_graphs
  poll_graphs-once n [] s = refl
  poll_graphs-once n (g ∷ supergraphs) s =
      let rest : poll_graphs x cache now (suc n) supergraphs
          ≡ poll_graphs x cache now 1 supergraphs =
        λ i s'. poll_graphs-once n supergraphs s' i in
      let once = poll_attempts-once n g s in rw (once, rest) refl

  no_attempt : (n : ℤ) → n ≤ℤ pos 0 → count x cache now n ≡ 0
  no_attempt (pos n) h = ground arith
  no_attempt (negsuc n) h = refl

  -- With the three polling options set, a round of polling with a retryCount that is not positive
  -- fetches nothing and changes nothing, whatever is configured to be polled.
  pub poll_for_updates-no_attempt :
      (s : Server C)
      → Filled s.config
      → s.config.polling.retry_count ≤ℤ pos 0
      → poll_for_updates x cache now s ≡ (ok tt, s)
  unfolding poll_for_updates all_off
  poll_for_updates-no_attempt s filled none_left = ground (
    arith,
    filled.supergraph_is,
    filled.entitlements_is,
    filled.persisted_queries_is,
    no_attempt s.config.polling.retry_count none_left,
    poll_graphs-zero s.config.supergraphs s,
  )
