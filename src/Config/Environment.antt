-- ===== src/Config/Environment.antt =====
-- LoadConfig and expandEnvInStruct of config/config.go. The values of Go's reflect package are a
-- data type; os.ExpandEnv and the decoder of YAML are parameters.
pub mod Expanding
use uplink_relay.Common.{
  String, Bool, true, false, Option, none, some, List, [], ◌∷◌, ℤ, if◌then◌else◌, Result, ok, err,
  panicked, library,
}
use uplink_relay.Config.{Config, SupergraphConfig, PollingConfig}

-- The key of a map entry: a string, or a value of another kind.
pub data Key : Type 0 where
  string_key : String → Key
  other_key : ℤ → Key

-- A reflect.Value, by its Kind. `Values` are the elements of a slice or the fields of a struct.
mutual
  pub data Value : Type 0 where
    nil_ptr : Value
    ptr : Value → Value
    slice : Values → Value
    map_of : Entries → Value
    string : String → Value
    struct : Values → Value
    bool : Bool → Value
    int : ℤ → Value

  pub data Values : Type 0 where
    end : Values
    next : Value → Values → Values

  pub data Entries : Type 0 where
    no_entry : Entries
    entry : Key → Value → Entries → Entries

abbrev bind_some : {A B : Type 0} → Option A → (A → Option B) → Option B
bind_some none f = none
bind_some (some a) f = f a

module _ (expand_env : String → String) where
  abbrev expanded_key : Key → Key
  expanded_key (string_key s) = string_key (expand_env s)
  expanded_key (other_key n) = other_key n

  -- expandEnvInStruct on a value for which CanSet is `can_set`; none is a panic. What a pointer
  -- points to and the elements of a slice can be set, the values of a map cannot.
  unfoldable mutual
    pub expand_env_in_struct : Value → (can_set : Bool) → Option Value
    expand_env_in_struct nil_ptr can_set = some nil_ptr
    expand_env_in_struct (ptr v) can_set =
        bind_some (expand_env_in_struct v true) (λ v'. some (ptr v'))
    expand_env_in_struct (slice vs) can_set =
        bind_some (expand_each vs true) (λ vs'. some (slice vs'))
    expand_env_in_struct (map_of es) can_set =
        bind_some (expand_entries es) (λ es'. if can_set then some (map_of es') else none)
    expand_env_in_struct (string s) can_set = some (string (if can_set then expand_env s else s))
    expand_env_in_struct (struct vs) can_set =
        bind_some (expand_each vs can_set) (λ vs'. some (struct vs'))
    expand_env_in_struct (bool b) can_set = some (bool b)
    expand_env_in_struct (int n) can_set = some (int n)

    -- The elements of a slice and the fields of a struct.
    pub expand_each : Values → (can_set : Bool) → Option Values
    expand_each end can_set = some end
    expand_each (next v vs) can_set =
        bind_some (expand_env_in_struct v can_set)
          (λ v'. bind_some (expand_each vs can_set) (λ vs'. some (next v' vs')))

    -- The new map: a string is replaced, any other value is expanded where it stands.
    pub expand_entries : Entries → Option Entries
    expand_entries no_entry = some no_entry
    expand_entries (entry key v es) =
        let standing = expand_env_in_struct v false in
        let expanded : Option Value = elim v [
          | string s ↦ some (string (expand_env s))
          | _ ↦ standing
        ] in
        bind_some expanded
          (λ v'. bind_some (expand_entries es) (λ es'. some (entry (expanded_key key) v' es')))

-- A Config as reflect shows it, with its fields in the order of the source.
abbrev strings : List String → Values
strings [] = end
strings (s ∷ ss) = next (string s) (strings ss)

abbrev flag : Option Bool → Value
flag none = nil_ptr
flag (some b) = ptr (bool b)

abbrev pub of_supergraph : SupergraphConfig → Value
of_supergraph g = struct (
    next (string g.graph_ref) (
      next (string g.apollo_key) (
        next (string g.launch_id)
          (next (string g.persisted_query_version) (next (string g.offline_license) end)))))

abbrev of_supergraphs : List SupergraphConfig → Values
of_supergraphs [] = end
of_supergraphs (g ∷ gs) = next (of_supergraph g) (of_supergraphs gs)

abbrev of_polling : PollingConfig → Value
of_polling p = struct (
    next (bool p.enabled) (
      next (int p.interval) (
        next (slice (strings p.expressions)) (
          next (int p.retry_count) (
            next (flag p.entitlements)
              (next (flag p.supergraph) (next (flag p.persisted_queries) end)))))))

abbrev pub of_config : Config → Value
of_config c = struct (
    next
      (struct (
        next (string c.relay.address) (
          next
            (struct (next (string c.relay.tls.cert_file) (next (string c.relay.tls.key_file) end)))
            (next (string c.relay.public_url) end))))
      (next
        (struct (
          next (slice (strings c.uplink.urls)) (
            next (int c.uplink.timeout)
              (next (int c.uplink.retry_count) (next (string c.uplink.studio_api_url) end)))))
        (next
          (struct (
            next (bool c.cache.enabled)
              (next (int c.cache.duration) (next (int c.cache.max_size) end))))
          (next
            (struct (
              next (bool c.redis.enabled) (
                next (string c.redis.address)
                  (next (string c.redis.password) (next (int c.redis.database) end)))))
            (next
              (struct (
                next (bool c.filesystem_cache.enabled)
                  (next (string c.filesystem_cache.directory) end)))
              (next (slice (of_supergraphs c.supergraphs)) (
                next
                  (struct (
                    next (bool c.webhook.enabled)
                      (next (string c.webhook.path) (next (string c.webhook.secret) end))))
                  (next (of_polling c.polling) (
                    next
                      (struct (
                        next (bool c.management_api.enabled) (
                          next (string c.management_api.path)
                            (next (string c.management_api.secret) end))))
                      end)))))))))

-- LoadConfig: os.Open and the decoder are parameters. The decoded Config is given as reflect shows it.
unfoldable pub load_config :
    (open_ : String → Option String) (decode : String → Option Config)
    (expand_env : String → String) (config_path : String)
    → Result Value
load_config open_ decode expand_env config_path = elim (open_ config_path) [
  | none ↦ err (library "os.Open")
  | some config_file ↦ elim (decode config_file) [
    | none ↦ err (library "yaml.Decoder.Decode")
    | some config ↦ elim (expand_env_in_struct expand_env (ptr (of_config config)) false) [
      | none ↦ panicked
      | some expanded ↦ ok expanded
    ]
  ]
]
