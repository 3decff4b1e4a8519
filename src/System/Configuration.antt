-- ===== src/System/Configuration.antt =====
-- The configuration of the running program, which pinning/ rewrites.
use uplink_relay.Common.{◌≡◌, refl, List, [], ◌∷◌, map, ◌∙◌, ap, ◌==◌, if◌then◌else◌, arith}
use uplink_relay.Cache.{Cache}
use uplink_relay.Config.{Config, SupergraphConfig}
use uplink_relay.Externals.{Externals}
use uplink_relay.Pinning.Launch.{set_launch_id, with_launch_id}
use uplink_relay.Pinning.PersistedQueries.{set_persisted_query_version}
use uplink_relay.System.{Event, Running, run}
use uplink_relay.System.Invariants.{all-Spares, run-Invariant}

-- A supergraph without what a pin sets.
abbrev pub unpinned : SupergraphConfig → SupergraphConfig
unpinned s = record s { launch_id = ""; persisted_query_version = "" }

abbrev pub without_pins : Config → Config
without_pins c = record c { supergraphs = map unpinned c.supergraphs }

-- The configuration is another one, up to pins.
abbrev IsRepinned : {C : Type 0} → Config → Config → C → Type 0
IsRepinned first c cache = without_pins c ≡ without_pins first

map-unpinned :
    (f : SupergraphConfig → SupergraphConfig)
    → ((s : SupergraphConfig) → unpinned (f s) ≡ unpinned s)
    → (supergraphs : List SupergraphConfig)
    → map unpinned (map f supergraphs) ≡ map unpinned supergraphs
map-unpinned f same [] = refl
map-unpinned f same (s ∷ supergraphs) = rw (map-unpinned f same supergraphs, same s) refl

-- After any calls in any order, deletions included, and with any cache, the configuration is what
-- it was, up to the launch IDs and the persisted query versions of its supergraphs.
pub run-without_pins :
    {C : Type 0} (x : Externals) (cache : Cache C) (events : List Event) (r : Running C)
    → without_pins (run x cache events r).server.config ≡ without_pins r.server.config
unfolding set_launch_id set_persisted_query_version
run-without_pins x cache events r =
    let kept =
      run-Invariant x cache (IsRepinned r.server.config)
        (record {
          writes = λ config now key value d write. record { at = λ c h. h };
          launches = λ config c graph_ref launch_id h.
              ap (λ l. record config { supergraphs = l })
                (map-unpinned (with_launch_id graph_ref launch_id) (λ s. ground arith)
                  config.supergraphs)
              ∙ h;
          versions = λ config c graph_ref version h.
              ap (λ l. record config { supergraphs = l })
                (map-unpinned
                  (λ s.
                    if s.graph_ref == graph_ref
                    then record s { persisted_query_version = version }
                    else s)
                  (λ s. ground arith) config.supergraphs)
              ∙ h;
        })
        events r
        (all-Spares x cache (IsRepinned r.server.config) (λ config prefix. record { at = λ c h. h })
          events)
        (record { held = refl }) in
    kept.held
