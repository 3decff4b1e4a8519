-- ===== src/Startup.antt =====
-- main.go: the caches by the configuration, and startup. The operating system, the Redis client and
-- Go's ServeMux are parameters.
pub mod Caches
pub mod Pins
pub mod Routes
pub mod Launch
use uplink_relay.Common.{
  ℕ, zero, suc, String, Bool, true, false, not, ◌&&◌, Option, none, some, List, [], ◌∷◌, ◌++◌, map,
  ◌==◌, if◌then◌else◌, get_elem?, length, Time, Act, Result, ok, err, panicked, failed, pure, raise,
  panic, ignore, ◌>>=◌, ◌>>◌,
}
use uplink_relay.Cache.{Cache}
use uplink_relay.Cache.Memory.{Items, MemoryCache, new_memory_cache, memory_cache}
use uplink_relay.Config.{Config, SupergraphConfig}
use uplink_relay.Externals.{Externals}
use uplink_relay.FilesystemCache.{FileSystem, new_filesystem_cache, filesystem_cache}
use uplink_relay.Pinning.Launch.{pin_launch_id}
use uplink_relay.Pinning.License.{pin_offline_license}
use uplink_relay.Pinning.PersistedQueries.{pin_persisted_queries}
use uplink_relay.Redis.{Client, redis_cache}
use uplink_relay.Server.{Server, on_cache}
use uplink_relay.TieredCache.{tiered_cache}
use uplink_relay.TieredCache.Parts.{on_left, on_right}
use uplink_relay.Uplink.{RoundRobinSelector, new_round_robin_selector}

-- What the caches keep: in memory, on disk and in Redis.
abbrev pub Stores : (D R : Type 0) → Type 0
Stores D R = MemoryCache × (D × R)

module _ {A : Type 0} where
  -- append, if the cache is enabled
  abbrev enabled : Bool → A → List A
  enabled true a = a ∷ []
  enabled false a = []

  abbrev pub three : (a_on b_on c_on : Bool) → A → A → A → List A
  three a_on b_on c_on a b c = enabled a_on a ++ enabled b_on b ++ enabled c_on c

module _ {D R : Type 0} (order : Items → Items) (os : FileSystem D) (client : Client R) where
  -- uplinkCaches, in the order of main.
  unfoldable pub uplink_caches : Config → List (Cache (Stores D R))
  uplink_caches config =
      three config.cache.enabled config.filesystem_cache.enabled config.redis.enabled
        (on_left (memory_cache order))
        (on_right (on_left (filesystem_cache os config.filesystem_cache.directory)))
        (on_right (on_right (redis_cache client)))

  -- One cache is used as it is, several are tiered. An error ends the process.
  unfoldable pub choose_cache : List (Cache (Stores D R)) → Result (Cache (Stores D R))
  choose_cache [] = err (failed "No cache configured")
  choose_cache (cache ∷ []) = ok cache
  choose_cache (cache ∷ next ∷ caches) = ok (tiered_cache (cache ∷ next ∷ caches))

  abbrev on_disk : {A : Type 0} → Act D A → Act (Stores D R) A
  on_disk call s = let (result, d) = call s.1.0 in (result, (s.0, (d, s.1.1)))

  unfoldable pub make_cache : Config → Act (Stores D R) (Cache (Stores D R))
  unfolding uplink_caches choose_cache
  make_cache config = do
    if config.cache.enabled
        then (λ s. (ok tt, (new_memory_cache config.cache.max_size, s.1)))
        else pure tt
    _ ←
        if config.filesystem_cache.enabled
        then on_disk (new_filesystem_cache os config.filesystem_cache.directory)
        else pure ""
    λ s. (choose_cache (uplink_caches config), s)

-- The handlers that startup registers.
pub data Handler : Type 0 where
  relay : Handler
  persisted_queries : Handler
  webhook : Handler
  management : Handler

-- ServeMux, by its documentation: whether a pattern may be registered after others, and which of
-- the registered patterns serves a path.
pub record ServeMux : Type 0 where
  pub accepts : List String → String → Bool
  pub serves : (pattern path : String) → Bool

-- How the server listens.
pub record Listener : Type 0 where
  pub address : String
  pub tls : Bool

-- StartServer: it listens with TLS if both files are given. It gives no error: one of listening
-- comes later and ends the process.
unfoldable pub start_server : Config → Listener
start_server config = record {
  address = config.relay.address;
  tls = not (config.relay.tls.cert_file == "") && not (config.relay.tls.key_file == "");
}

-- What startup leaves behind: the routes, the selector, whether a poller was started, and the
-- listener of StartServer.
pub record Started : Type 0 where
  pub routes : List (String × Handler)
  pub selector : RoundRobinSelector
  pub polls : Bool
  pub listener : Listener

module _ {C : Type 0} (x : Externals) (mux : ServeMux) (cache : Cache C) (now : Time) where
  -- RegisterHandlers: HandleFunc panics on a pattern that it does not accept.
  unfoldable pub register_handlers :
      List (String × Handler) → String → Handler → Act (Server C) (List (String × Handler))
  register_handlers routes route handler =
      if mux.accepts (map (λ (r : String × Handler). r.0) routes) route
      then pure (routes ++ (route, handler) ∷ [])
      else panic

  -- The round of the loop for one supergraph: errors are logged.
  unfoldable pub pin_supergraph : SupergraphConfig → Act (Server C) (Unit {0})
  pin_supergraph supergraph = do
    if not (supergraph.launch_id == "")
        then ignore (pin_launch_id x cache now supergraph.launch_id supergraph.graph_ref)
        else pure tt
    if not (supergraph.offline_license == "")
        then (λ s.
            ignore
              (on_cache (
                pin_offline_license x cache s.config now supergraph.offline_license
                  supergraph.graph_ref))
              s)
        else pure tt
    if not (supergraph.persisted_query_version == "")
        then ignore (
            pin_persisted_queries x cache now supergraph.graph_ref
              supergraph.persisted_query_version)
        else pure tt

  -- The loop runs over the list at its start: a pin puts a new list into the configuration.
  unfoldable pub pin_supergraphs : List SupergraphConfig → Act (Server C) (Unit {0})
  unfolding pin_supergraph
  pin_supergraphs [] s = pure tt s
  pin_supergraphs (supergraph ∷ supergraphs) s =
      let rest = pin_supergraphs supergraphs in (do pin_supergraph supergraph; rest) s

  unfoldable pub startup : Act (Server C) Started
  unfolding register_handlers pin_supergraphs start_server
  startup s =
      let config = s.config in
      (do
        relay_only ← register_handlers [] "/*" relay
        chunks ← register_handlers relay_only "/persisted-queries/*" persisted_queries
        routes ←
            if config.webhook.enabled
            then register_handlers chunks config.webhook.path webhook
            else pure chunks
        pin_supergraphs config.supergraphs
        all_routes ←
            if config.management_api.enabled
            then register_handlers routes config.management_api.path management
            else pure routes
        pure (record {
          routes = all_routes;
          selector = new_round_robin_selector config.uplink.urls;
          polls = config.polling.enabled;
          listener = start_server config;
        }))
        s
