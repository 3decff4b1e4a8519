-- ===== src/Startup/Pins.antt =====
-- What startup of main.go returns.
use uplink_relay.Common.{
  ◌≢◌, inl, inr, String, Bool, true, false, not, List, [], ◌∷◌, Time, Act, Result-cases, err, Error,
  ignore, pure, ◌>>=◌, arith, ◌==◌, if◌then◌else◌,
}
use uplink_relay.Cache.{Cache}
use uplink_relay.Config.{SupergraphConfig}
use uplink_relay.Externals.{Externals}
use uplink_relay.Server.{Server, on_cache}
use uplink_relay.Pinning.License.{pin_offline_license}
use uplink_relay.Startup.{
  Handler, relay, persisted_queries, webhook, management, ServeMux, register_handlers,
  pin_supergraph, pin_supergraphs, startup,
}

-- A call that gives no error value.
abbrev NoError : {S A : Type 0} → Act S A → Type 0
NoError {S} m = (e : Error) (s : S) → (m s).0 ≢ err e

module _ {S A : Type 0} where
  bind-NoError :
      {B : Type 0} (m : Act S A) (f : A → Act S B)
      → NoError m
      → ((a : A) → NoError (f a))
      → NoError (m >>= f)
  bind-NoError m f first later e s h = elim (Result-cases (m s).0) [
    | inl (a, done) ↦ later a e (m s).1 (rw done at h)
    | inr (inl (e', failed_)) ↦ absurd (first e' s failed_)
    | inr (inr crashed) ↦ ground (arith, crashed, h)
  ]

  pure-NoError : (a : A) → NoError {S = S} (pure a)
  pure-NoError a e s h = cc

  if-NoError : (b : Bool) (m k : Act S A) → NoError m → NoError k → NoError (if b then m else k)
  if-NoError true m k first second = first
  if-NoError false m k first second = second

  ignore-NoError : (m : Act S A) → NoError (ignore m)
  ignore-NoError m e s h = ground (arith, h)

module _ {C : Type 0} (x : Externals) (mux : ServeMux) (cache : Cache C) (now : Time) where
  register_handlers-NoError :
      (routes : List (String × Handler)) (route : String) (handler : Handler)
      → NoError (register_handlers x mux cache now routes route handler)
  unfolding register_handlers
  register_handlers-NoError routes route handler e s h = ground (arith, h)

  pin_supergraph-NoError :
      (supergraph : SupergraphConfig) → NoError (pin_supergraph x mux cache now supergraph)
  unfolding pin_supergraph
  pin_supergraph-NoError supergraph =
      bind-NoError _ _
        (if-NoError (not (supergraph.launch_id == "")) _ _ (ignore-NoError _) (pure-NoError tt))
        (λ _.
          bind-NoError _ _
            (if-NoError (not (supergraph.offline_license == "")) _ _
              (λ e s.
                ignore-NoError
                  (on_cache (
                    pin_offline_license x cache s.config now supergraph.offline_license
                      supergraph.graph_ref))
                  e s)
              (pure-NoError tt))
            (λ _.
              if-NoError (not (supergraph.persisted_query_version == "")) _ _ (ignore-NoError _)
                (pure-NoError tt)))

  pin_supergraphs-NoError :
      (supergraphs : List SupergraphConfig) → NoError (pin_supergraphs x mux cache now supergraphs)
  unfolding pin_supergraphs
  pin_supergraphs-NoError [] e s h = cc
  pin_supergraphs-NoError (supergraph ∷ supergraphs) e s h =
      bind-NoError (pin_supergraph x mux cache now supergraph) _ (pin_supergraph-NoError supergraph)
        (λ _. pin_supergraphs-NoError supergraphs) e s h

  -- Startup never gives an error value, whatever the pins of the supergraphs give.
  pub startup_no_error : (e : Error) (s : Server C) → (startup x mux cache now s).0 ≢ err e
  unfolding startup
  startup_no_error e s =
      bind-NoError (register_handlers x mux cache now [] "/*" relay) _
        (register_handlers-NoError [] "/*" relay)
        (λ relay_only.
          bind-NoError _ _
            (register_handlers-NoError relay_only "/persisted-queries/*" persisted_queries)
            (λ chunks.
              bind-NoError _ _
                (if-NoError s.config.webhook.enabled _ _
                  (register_handlers-NoError chunks s.config.webhook.path webhook)
                  (pure-NoError chunks))
                (λ routes. bind-NoError _ _ (pin_supergraphs-NoError s.config.supergraphs) (λ _.
                  bind-NoError _ _
                    (if-NoError s.config.management_api.enabled _ _
                      (register_handlers-NoError routes s.config.management_api.path management)
                      (pure-NoError routes))
                    (λ all_routes. pure-NoError _)))))
        e s
