-- ===== src/Startup/Launch.antt =====
-- main of main.go up to the wait for signals, and the configuration of a reload.
use uplink_relay.Common.{
  ◌≡◌, sym, ◌∙◌, ap, Time, Result, Result-cases, ok, err, panicked, inl, inr, arith, ok_inj,
}
use uplink_relay.Cache.{Cache}
use uplink_relay.Cache.Memory.{Items}
use uplink_relay.Config.{Config, Parsers, new_default_config, merge_with_default_config, validate}
use uplink_relay.Config.Validation.{IsValid, validate-IsValid}
use uplink_relay.Externals.{Externals}
use uplink_relay.FilesystemCache.{FileSystem}
use uplink_relay.Polling.Schedule.{listens}
use uplink_relay.Polling.Validated.{validate-listens}
use uplink_relay.Redis.{Client}
use uplink_relay.Server.{Server}
use uplink_relay.Startup.{Stores, make_cache, ServeMux, Started, startup}
use uplink_relay.Startup.Routes.{startup_ensures}

-- The configuration of the first startup, from what LoadConfig gave.
unfoldable pub configured : Parsers → Result Config → Result Config
configured p (err e) = err e
configured p panicked = panicked
configured p (ok user_config) =
    let merged_config = merge_with_default_config new_default_config user_config in
    elim (validate p merged_config) [
      | ok _ ↦ ok merged_config
      | err e ↦ err e
      | panicked ↦ panicked
    ]

-- The one of a reload, which is not validated.
unfoldable pub reconfigured : Result Config → Result Config
reconfigured (err e) = err e
reconfigured panicked = panicked
reconfigured (ok new_config) = ok (merge_with_default_config new_default_config new_config)

-- What main has when it waits for signals.
pub record Launched (C : Type 0) : Type 0 where
  pub started : Started
  pub uplink_cache : Cache C
  pub server : Server C

configured-validate :
    (p : Parsers) (loaded : Result Config) (config : Config)
    → configured p loaded ≡ ok config
    → validate p config ≡ ok tt
unfolding configured
configured-validate p (err e) config h = absurd (ground (arith, h))
configured-validate p panicked config h = absurd (ground (arith, h))
configured-validate p (ok user) config h =
    let merged = merge_with_default_config new_default_config user in
    elim (Result-cases (validate p merged)) [
      | inl (done, accepted) ↦
          let same : merged ≡ config = ok_inj merged config (rw (configured, accepted) at h) in
          rw (← same) accepted
      | inr (inl (e, failed_)) ↦ absurd (ground (arith, failed_, h))
      | inr (inr crashed) ↦ absurd (ground (arith, crashed, h))
    ]

module _ {D R : Type 0} (x : Externals) (mux : ServeMux) (order : Items → Items) (os : FileSystem D)
    (client : Client R) where
  -- What follows the configuration. An error ends the process.
  unfoldable pub start : Config → Time → Stores D R → Result (Launched (Stores D R))
  start config now stores =
      let (chosen, kept) = make_cache order os client config stores in
      elim chosen [
        | err e ↦ err e
        | panicked ↦ panicked
        | ok cache ↦
            let (begun, server) =
              startup x mux cache now (record { cache = kept; config = config }) in
            elim begun [
              | err e ↦ err e
              | panicked ↦ panicked
              | ok started ↦
                  ok (record { started = started; uplink_cache = cache; server = server })
            ]
      ]

  unfoldable pub launch : Result Config → Time → Stores D R → Result (Launched (Stores D R))
  unfolding configured start
  launch loaded now stores = elim (configured x.parsers loaded) [
    | err e ↦ err e
    | panicked ↦ panicked
    | ok config ↦ start config now stores
  ]

module _ {D R : Type 0} (x : Externals) (mux : ServeMux) (order : Items → Items) (os : FileSystem D)
    (client : Client R) where
  start-polls :
      (config : Config) (now : Time) (stores : Stores D R) (l : Launched (Stores D R))
      → start x mux order os client config now stores ≡ ok l
      → l.started.polls ≡ config.polling.enabled
  unfolding start
  start-polls config now stores l h =
      elim (Result-cases (make_cache order os client config stores).0) [
        | inl (cache, made) ↦
            let server : Server (Stores D R) = record {
              cache = (make_cache order os client config stores).1;
              config = config;
            } in
            elim (Result-cases (startup x mux cache now server).0) [
              | inl (st, begun) ↦
                  let same : st ≡ l.started =
                    ap (λ (o : Launched (Stores D R)). o.started)
                      (ok_inj _ l (rw (start, made, begun) at h)) in
                  rw (← same) (startup_ensures x mux cache now server st begun).1
              | inr (inl (e, failed_)) ↦ absurd (ground (arith, made, failed_, h))
              | inr (inr crashed) ↦ absurd (ground (arith, made, crashed, h))
            ]
        | inr (inl (e, failed_)) ↦ absurd (ground (arith, failed_, h))
        | inr (inr crashed) ↦ absurd (ground (arith, crashed, h))
      ]

  -- Where main comes to wait for signals, it has started with a configuration that is valid, and it
  -- has started a poller exactly if StartPolling with that configuration comes to a loop that reads
  -- the stop channel.
  pub launch-IsValid :
      (loaded : Result Config) (now : Time) (stores : Stores D R) (l : Launched (Stores D R))
      → launch x mux order os client loaded now stores ≡ ok l
      → (config : Config) × IsValid x.parsers config
        × (l.started.polls ≡ listens x.parsers config)
        × (start x mux order os client config now stores ≡ ok l)
  unfolding launch
  launch-IsValid loaded now stores l h = elim (Result-cases (configured x.parsers loaded)) [
    | inl (config, done) ↦
        let started : start x mux order os client config now stores ≡ ok l =
          rw (launch, done) at h in
        let accepted = configured-validate x.parsers loaded config done in
        (
          config,
          validate-IsValid x.parsers config accepted,
          start-polls config now stores l started
              ∙ sym (validate-listens x.parsers config accepted),
          started,
        )
    | inr (inl (e, failed_)) ↦ absurd (ground (arith, failed_, h))
    | inr (inr crashed) ↦ absurd (ground (arith, crashed, h))
  ]
