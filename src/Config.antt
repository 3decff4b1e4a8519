-- ===== src/Config.antt =====
-- config/config.go: the configuration, its defaults, the merge with them, and its validation.
pub mod Merging
pub mod Lookup
pub mod Validation
pub mod Environment
use uplink_relay.Common.{
  ℕ, String, Bool, true, false, ◌&&◌, ◌||◌, not, Option, none, some, List, [], ◌∷◌, ℤ, pos, negsuc,
  ltb_ℤ, leb_ℤ, eqb_ℤ, ◌==◌, if◌then◌else◌, Result, ok, err, panicked, Error, failed, library,
}

pub record RelayTlsConfig : Type 0 where
  pub cert_file : String
  pub key_file : String

pub record RelayConfig : Type 0 where
  pub address : String
  pub tls : RelayTlsConfig
  pub public_url : String

pub record UplinkConfig : Type 0 where
  pub urls : List String
  pub timeout : ℤ
  pub retry_count : ℤ
  pub studio_api_url : String

pub record CacheConfig : Type 0 where
  pub enabled : Bool
  pub duration : ℤ
  pub max_size : ℤ

pub record RedisConfig : Type 0 where
  pub enabled : Bool
  pub address : String
  pub password : String
  pub database : ℤ

pub record FilesystemCacheConfig : Type 0 where
  pub enabled : Bool
  pub directory : String

pub record WebhookConfig : Type 0 where
  pub enabled : Bool
  pub path : String
  pub secret : String

-- The three *bool fields are none when the file does not set them.
pub record PollingConfig : Type 0 where
  pub enabled : Bool
  pub interval : ℤ
  pub expressions : List String
  pub retry_count : ℤ
  pub entitlements : Option Bool
  pub supergraph : Option Bool
  pub persisted_queries : Option Bool

pub record SupergraphConfig : Type 0 where
  pub graph_ref : String
  pub apollo_key : String
  pub launch_id : String
  pub persisted_query_version : String
  pub offline_license : String

pub record ManagementApiConfig : Type 0 where
  pub enabled : Bool
  pub path : String
  pub secret : String

pub record Config : Type 0 where
  pub relay : RelayConfig
  pub uplink : UplinkConfig
  pub cache : CacheConfig
  pub redis : RedisConfig
  pub filesystem_cache : FilesystemCacheConfig
  pub supergraphs : List SupergraphConfig
  pub webhook : WebhookConfig
  pub polling : PollingConfig
  pub management_api : ManagementApiConfig

abbrev pub new_default_config : Config
new_default_config = record {
  relay = record {
    address = "localhost:8080";
    tls = record { cert_file = ""; key_file = "" };
    public_url = "";
  };
  uplink = record {
    urls = "http://localhost:8081" ∷ [];
    timeout = pos 30;
    retry_count = negsuc 0;
    studio_api_url = "https://graphql.api.apollographql.com/api/graphql";
  };
  cache = record { enabled = true; duration = negsuc 0; max_size = pos 1000 };
  redis = record { enabled = false; address = ""; password = ""; database = pos 0 };
  filesystem_cache = record { enabled = false; directory = "" };
  supergraphs = [];
  webhook = record { enabled = false; path = "/webhook"; secret = "" };
  polling = record {
    enabled = false;
    interval = pos 0;
    expressions = [];
    retry_count = pos 0;
    entitlements = some true;
    supergraph = some true;
    persisted_queries = some false;
  };
  management_api = record { enabled = false; path = "/graphql"; secret = "" };
}

-- `loaded` unless it has the zero value of its type
or_text : String → String → String
or_text loaded default = if loaded == "" then default else loaded

or_list {ℓ} : {A : Type ℓ} → List A → List A → List A
or_list [] default = default
or_list (x ∷ xs) default = x ∷ xs

or_int : ℤ → ℤ → ℤ → ℤ
or_int zero loaded default = if eqb_ℤ loaded zero then default else loaded

or_bool : Option Bool → Option Bool → Option Bool
or_bool none default = default
or_bool (some b) default = some b

unfoldable pub merge_with_default_config : Config → Config → Config
unfolding or_text or_list or_int or_bool
merge_with_default_config d c = record {
  relay = record c.relay { address = or_text c.relay.address d.relay.address };
  uplink = record {
    urls = or_list c.uplink.urls d.uplink.urls;
    timeout = or_int (pos 0) c.uplink.timeout d.uplink.timeout;
    retry_count = or_int (negsuc 0) c.uplink.retry_count d.uplink.retry_count;
    studio_api_url = or_text c.uplink.studio_api_url d.uplink.studio_api_url;
  };
  cache = record {
    enabled = c.cache.enabled;
    duration = or_int (pos 0) c.cache.duration d.cache.duration;
    max_size = or_int (pos 0) c.cache.max_size d.cache.max_size;
  };
  redis = c.redis;
  filesystem_cache = c.filesystem_cache;
  supergraphs = or_list c.supergraphs d.supergraphs;
  webhook = record c.webhook { path = or_text c.webhook.path d.webhook.path };
  polling = record c.polling {
    interval = or_int (pos 0) c.polling.interval d.polling.interval;
    entitlements = or_bool c.polling.entitlements d.polling.entitlements;
    supergraph = or_bool c.polling.supergraph d.polling.supergraph;
    persisted_queries = or_bool c.polling.persisted_queries d.polling.persisted_queries;
  };
  management_api = record c.management_api {
    path = or_text c.management_api.path d.management_api.path;
  };
}

find_supergraph : String → List SupergraphConfig → Result SupergraphConfig
find_supergraph graph_ref [] = err (failed "supergraph not found for graphRef")
find_supergraph graph_ref (s ∷ supergraphs) =
    if s.graph_ref == graph_ref then ok s else find_supergraph graph_ref supergraphs

unfoldable pub find_supergraph_config_from_graph_ref : String → Config → Result SupergraphConfig
unfolding find_supergraph
find_supergraph_config_from_graph_ref graph_ref c = find_supergraph graph_ref c.supergraphs

-- What Validate takes from libraries: the scheme and host of a parsed URL, and whether an
-- expression parses as a cron schedule.
pub record Parsers : Type 0 where
  pub parse_url : String → Option (String × String)
  pub parse_cron : String → Bool

infixr 6 ◌andthen◌
abbrev pub ◌andthen◌ : Result (Unit {0}) → Result (Unit {0}) → Result (Unit {0})
ok _ andthen later = later
err e andthen later = err e
panicked andthen later = panicked

abbrev pub refuse : Bool → String → Result (Unit {0})
refuse true message = err (failed message)
refuse false message = ok tt

is_empty {ℓ} : {A : Type ℓ} → List A → Bool
is_empty [] = true
is_empty (_ ∷ _) = false

module _ (p : Parsers) where
  validate_public_url : String → Result (Unit {0})
  validate_public_url url = elim (p.parse_url url) [
    | none ↦ err (failed "invalid publicURL")
    | some (scheme, host) ↦
        if scheme == "" || host == ""
        then err (failed "invalid publicURL")
        else if scheme == "http" || scheme == "https"
        then ok tt
        else err (failed "invalid publicURL scheme")
  ]

  all_parse : List String → Bool
  all_parse [] = true
  all_parse (e ∷ expressions) = p.parse_cron e && all_parse expressions

  validate_polling : PollingConfig → Result (Unit {0})
  validate_polling polling = elim polling.expressions [
    | [] ↦
        if leb_ℤ polling.interval (pos 0)
        then err (failed "polling interval must be positive")
        else ok tt
    | _ ∷ _ ↦
        if ltb_ℤ (pos 0) polling.interval
        then err (failed "cannot use both interval and cronExpressions for polling")
        else if all_parse polling.expressions
        then ok tt
        else err (failed "invalid cron expression")
  ]

  unfoldable pub validate : Config → Result (Unit {0})
  unfolding validate_public_url all_parse validate_polling is_empty
  validate c =
      refuse (c.relay.address == "") "relay address cannot be empty"
      andthen (if c.relay.public_url == "" then ok tt else validate_public_url c.relay.public_url)
      andthen refuse (is_empty c.uplink.urls) "uplink URLs cannot be empty"
      andthen refuse (ltb_ℤ c.uplink.timeout (pos 0)) "uplink timeout cannot be negative"
      andthen refuse (ltb_ℤ c.uplink.retry_count (pos 1)) "uplink retryCount must be at least 1"
      andthen refuse (leb_ℤ c.cache.duration (pos 0) && not (eqb_ℤ c.cache.duration (negsuc 0)))
          "cache duration must be positive"
      andthen refuse (leb_ℤ c.cache.max_size (pos 0)) "cache maxSize must be positive"
      andthen refuse (c.webhook.enabled && c.webhook.path == "")
          "webhook path cannot be empty when webhook is enabled"
      andthen (if c.polling.enabled then validate_polling c.polling else ok tt)
