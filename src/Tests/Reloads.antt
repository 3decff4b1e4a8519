-- ===== src/Tests/Reloads.antt =====
-- The theorems on LoadConfig, startup, polling and the reload.
use uplink_relay.Common.{
  ℕ, ◌≡◌, ◌≢◌, refl, Bool, true, false, some, [], ◌∷◌, pos, arith, ok, map_ok, eq_iff, ◌==◌,
}
use uplink_relay.Cache.Memory.{MemoryCache}
use uplink_relay.Config.{new_default_config}
use uplink_relay.Config.Environment.{load_config, of_config, ptr}
use uplink_relay.Config.Environment.Expanding.{read_config, load_config-expands}
use uplink_relay.Polling.Schedule.{listens}
use uplink_relay.Reload.{
  serving, shut_down, Process, hang_up, shut, send, restart, Steps, here, then_, Reach,
}
use uplink_relay.Reload.Pollers.{IsCounted, Reach-IsCounted, reload-serves, stale_poller}
use uplink_relay.Reload.Stuck.{second_reload-stuck}
use uplink_relay.Server.{Server}
use uplink_relay.Startup.{ServeMux, Started, startup, relay, persisted_queries, webhook}
use uplink_relay.Uplink.{new_round_robin_selector}
use uplink_relay.Startup.Routes.{ServesLiterally, MatchesLiterally, startup-ServesLiterally}
use uplink_relay.Startup.{Stores, make_cache}
use uplink_relay.Startup.Launch.{Launched, launch}
use uplink_relay.TieredCache.Parts.{on_left}
use uplink_relay.Config.{validate, merge_with_default_config}
use uplink_relay.Cache.Memory.{new_memory_cache}
use uplink_relay.Tests.Disks.{Disk, disk, Keys, server}
use uplink_relay.Tests.Memory.{finite}
use uplink_relay.Tests.World.{world, config, memory, empty}

-- A process that never polls, in its second reload.
abbrev silent : ℕ → Bool
silent n = listens (world "LicenseQuery" finite).parsers config

abbrev second_reload : Process
second_reload = record {
  phase = shut_down;
  signalled = false;
  stop_polling = 1;
  pollers = [];
  generation = 1;
}

reload_reached : Reach silent second_reload
unfolding listens
reload_reached =
    then_
      (then_
        (then_ (then_ (then_ (then_ here hang_up) (shut refl refl)) (send refl refl))
          (restart refl))
        hang_up)
      (shut refl refl)

second_reload-stuck_example : second_reload.phase ≢ serving
second_reload-stuck_example =
    second_reload-stuck (world "LicenseQuery" finite).parsers (λ n. config) second_reload
      second_reload (λ n. refl) reload_reached (omega arith) refl here

-- A server that polls each minute.
abbrev polled : Server MemoryCache
polled = record {
  cache = empty;
  config = record config { polling = record config.polling { enabled = true; interval = pos 60 } };
}

polled_valid : validate (world "LicenseQuery" finite).parsers polled.config ≡ ok tt
unfolding validate
polled_valid = refl

-- One that always polls, in its first reload.
abbrev always : ℕ → Bool
always n = listens (world "LicenseQuery" finite).parsers polled.config

abbrev down : Process
down = record {
  phase = shut_down;
  signalled = false;
  stop_polling = 0;
  pollers = 0 ∷ [];
  generation = 0;
}

down_reached : Reach always down
unfolding listens
down_reached = then_ (then_ here hang_up) (shut refl refl)

Reach-IsCounted_example : IsCounted down
Reach-IsCounted_example =
    Reach-IsCounted (world "LicenseQuery" finite).parsers (λ n. polled.config) (λ n. polled_valid)
      (λ n. refl) down down_reached

reload-serves_example :
    (t : Process) × Steps always down t × (t.phase ≡ serving) × (t.generation ≡ 1)
reload-serves_example =
    reload-serves (world "LicenseQuery" finite).parsers (λ n. polled.config) (λ n. polled_valid)
      (λ n. refl) down down_reached refl

stale_poller_example :
    (s : Process) × Reach always s
    × (s.phase ≡ serving)
    × (s.generation ≡ 3)
    × (s.stop_polling ≡ 0)
    × (s.pollers ≡ 0 ∷ [])
stale_poller_example =
    stale_poller (world "LicenseQuery" finite).parsers (λ n. polled.config) (λ n. polled_valid)
      (λ n. refl) 3

-- A ServeMux of literal patterns.
abbrev mux : ServeMux
mux = record { accepts = λ routes route. true; serves = λ pattern path. path == pattern }

load_config-expands_example :
    load_config (λ path. some path) (λ file. some config) (λ s. "x") "config.yml"
    ≡ map_ok
        (λ c. ptr (of_config c))
        (read_config (λ path. some path) (λ file. some config) (λ s. "x") "config.yml")
load_config-expands_example =
    load_config-expands (λ path. some path) (λ file. some config) (λ s. "x") "config.yml"

mux-MatchesLiterally : MatchesLiterally mux
mux-MatchesLiterally pattern path literal serves = (eq_iff path pattern).0 serves

abbrev begun : Started
begun = record {
  routes = ("/*", relay) ∷ ("/persisted-queries/*", persisted_queries) ∷ ("/webhook", webhook) ∷ [];
  selector = new_round_robin_selector ("http://u" ∷ []);
  polls = true;
  listener = record { address = "localhost:8080"; tls = false };
}

begins : (startup (world "LicenseQuery" finite) mux memory 10 polled).0 ≡ ok begun
unfolding startup new_round_robin_selector
begins = refl

startup-ServesLiterally_example :
    ServesLiterally (world "LicenseQuery" finite) mux memory 10 begun.routes
startup-ServesLiterally_example =
    startup-ServesLiterally (world "LicenseQuery" finite) mux memory 10 polled begun
      mux-MatchesLiterally begins

abbrev ready : Launched (Stores Disk Keys)
ready = record {
  started = begun;
  uplink_cache = on_left memory;
  server = record {
    cache = (new_memory_cache (pos 1000), ([], []));
    config = merge_with_default_config new_default_config polled.config;
  };
}

launches :
    launch
      (world "LicenseQuery" finite)
      mux
      (λ items. items)
      disk
      server
      (ok polled.config)
      10
      (empty, ([], []))
    ≡ ok ready
unfolding launch startup new_round_robin_selector validate merge_with_default_config make_cache
launches = refl
