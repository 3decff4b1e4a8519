-- ===== src/Config/Environment/Expanding.antt =====
-- LoadConfig of config/config.go against an expansion of each string of a Config.
use uplink_relay.Common.{
  String, ◌≡◌, refl, Bool, true, false, Option, none, some, List, [], ◌∷◌, map, Result, ok, err,
  library, map_ok, Option-cases, inl, inr,
}
use uplink_relay.Config.{Config, SupergraphConfig}
use uplink_relay.Config.Environment.{
  ptr, expand_env_in_struct, expand_each, strings, flag, of_supergraphs, of_config, load_config,
}

module _ (env : String → String) where
  abbrev expand_supergraph : SupergraphConfig → SupergraphConfig
  expand_supergraph g = record {
    graph_ref = env g.graph_ref;
    apollo_key = env g.apollo_key;
    launch_id = env g.launch_id;
    persisted_query_version = env g.persisted_query_version;
    offline_license = env g.offline_license;
  }

  -- A Config with the environment expanded in every string of it, and nothing else changed.
  abbrev pub expand_config : Config → Config
  expand_config c = record {
    relay = record {
      address = env c.relay.address;
      tls = record { cert_file = env c.relay.tls.cert_file; key_file = env c.relay.tls.key_file };
      public_url = env c.relay.public_url;
    };
    uplink = record c.uplink {
      urls = map env c.uplink.urls;
      studio_api_url = env c.uplink.studio_api_url;
    };
    cache = c.cache;
    redis = record c.redis { address = env c.redis.address; password = env c.redis.password };
    filesystem_cache = record c.filesystem_cache { directory = env c.filesystem_cache.directory };
    supergraphs = map expand_supergraph c.supergraphs;
    webhook = record c.webhook { path = env c.webhook.path; secret = env c.webhook.secret };
    polling = record c.polling { expressions = map env c.polling.expressions };
    management_api = record c.management_api {
      path = env c.management_api.path;
      secret = env c.management_api.secret;
    };
  }

  expand_each-strings :
      (ss : List String) → expand_each env (strings ss) true ≡ some (strings (map env ss))
  unfolding expand_each
  expand_each-strings [] = refl
  expand_each-strings (s ∷ ss) = rw (expand_each-strings ss) refl

  expand_each-supergraphs :
      (gs : List SupergraphConfig)
      → expand_each env (of_supergraphs gs) true ≡ some (of_supergraphs (map expand_supergraph gs))
  unfolding expand_each
  expand_each-supergraphs [] = refl
  expand_each-supergraphs (g ∷ gs) = rw (expand_each-supergraphs gs) refl

  expand_flag : (b : Option Bool) → expand_env_in_struct env (flag b) true ≡ some (flag b)
  unfolding expand_each
  expand_flag none = refl
  expand_flag (some b) = refl

  expand_env_in_struct-config :
      (c : Config)
      → expand_env_in_struct env (ptr (of_config c)) false
        ≡ some (ptr (of_config (expand_config c)))
  unfolding expand_each
  expand_env_in_struct-config c =
      rw
        (
          expand_each-strings c.uplink.urls,
          expand_each-supergraphs c.supergraphs,
          expand_each-strings c.polling.expressions,
          expand_flag c.polling.entitlements,
          expand_flag c.polling.supergraph,
          expand_flag c.polling.persisted_queries,
        )
        refl

-- What LoadConfig comes to without reflection.
abbrev pub read_config :
    (open_ : String → Option String) (decode : String → Option Config) (env : String → String)
    (config_path : String)
    → Result Config
read_config open_ decode env config_path = elim (open_ config_path) [
  | none ↦ err (library "os.Open")
  | some config_file ↦ elim (decode config_file) [
    | none ↦ err (library "yaml.Decoder.Decode")
    | some config ↦ ok (expand_config env config)
  ]
]

-- LoadConfig, with its walk over the reflected values, gives what reading the file and expanding
-- the environment in each string of the Config gives: the same error of the file or of YAML, else
-- the Config with every string expanded and nothing else changed, and no panic.
pub load_config-expands :
    (open_ : String → Option String) (decode : String → Option Config) (env : String → String)
    (config_path : String)
    → load_config open_ decode env config_path
      ≡ map_ok (λ c. ptr (of_config c)) (read_config open_ decode env config_path)
unfolding load_config
load_config-expands open_ decode env config_path = elim (Option-cases (open_ config_path)) [
  | inl closed ↦ rw (load_config, read_config, closed) refl
  | inr (config_file, opened) ↦ elim (Option-cases (decode config_file)) [
    | inl wrong ↦ rw (load_config, read_config, opened, wrong) refl
    | inr (config, decoded) ↦
        rw (load_config, read_config, opened, decoded, expand_env_in_struct-config env config) refl
  ]
]
