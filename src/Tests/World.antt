-- ===== src/Tests/World.antt =====
-- Concrete libraries and services for the examples: a program with one supergraph, g@v.
use uplink_relay.Common.{
  String, ◌≡◌, refl, ap, sym, Bool, true, false, Option, none, some, [], ◌∷◌, pos, ◌==◌, ◌&&◌, eqb,
  if◌then◌else◌, arith, eq_iff,
}
use uplink_relay.Cache.{CacheItem, Cache}
use uplink_relay.Cache.Memory.{MemoryCache, memory_cache, new_memory_cache}
use uplink_relay.Config.{Config, SupergraphConfig, new_default_config}
use uplink_relay.Externals.{Externals, Json, RoundTrips, HttpResponse, PrintsByKey}
use uplink_relay.Wire.{
  text, UplinkRelayRequest, UplinkSupergraphSdlResponse, UplinkLicenseResponse,
  LaunchQueryVariantLaunch, WebhookData,
}

abbrev pub blank : Option String → String
blank none = ""
blank (some s) = s

abbrev is_some : Option String → Bool
is_some none = false
is_some (some s) = true

abbrev same_item : CacheItem → CacheItem → Bool
same_item a b =
    is_some a.content
    && is_some b.content
    && blank a.content == blank b.content
    && eqb a.expiration b.expiration
    && a.hash == b.hash
    && eqb a.last_modified b.last_modified
    && a.id == b.id

-- A codec that knows one item.
abbrev pub json_of : CacheItem → Json CacheItem
json_of item = record {
  marshal = λ a. if same_item a item then some "item" else none;
  unmarshal = λ s. if s == "item" then some item else none;
}

content-eq : (a b : Option String) → is_some a ≡ true → is_some b ≡ true → blank a ≡ blank b → a ≡ b
content-eq none b h k e = cc
content-eq (some s) none h k e = cc
content-eq (some s) (some t) h k e = rw e refl

same_item-eq : (a b : CacheItem) → same_item a b ≡ true → a ≡ b
same_item-eq a b h =
    let content : a.content ≡ b.content =
      content-eq a.content b.content (ground arith) (ground arith)
        (ground (arith, eq_iff (blank a.content) (blank b.content))) in
    let hash : a.hash ≡ b.hash = ground (arith, eq_iff a.hash b.hash) in
    let id : a.id ≡ b.id = ground (arith, eq_iff a.id b.id) in
    let expiration : a.expiration ≡ b.expiration = ground arith in
    let last_modified : a.last_modified ≡ b.last_modified = ground arith in
    λ i. record {
      content = content i;
      expiration = expiration i;
      hash = hash i;
      last_modified = last_modified i;
      id = id i;
    }

pub json_of-RoundTrips : (item : CacheItem) → RoundTrips (json_of item)
json_of-RoundTrips item a s h =
    let same = same_item-eq a item (ground arith) in
    let named : s == "item" ≡ true = ground (arith, eq_iff s "item") in
    rw named (ap some (sym same))

abbrev pub constant : {A : Type 0} → A → Json A
constant a = record { marshal = λ _. some "{}"; unmarshal = λ _. some a }

abbrev pub graph : SupergraphConfig
graph = record {
  graph_ref = "g@v";
  apollo_key = "service:g:1";
  launch_id = "";
  persisted_query_version = "";
  offline_license = "";
}

abbrev pub config : Config
config = record new_default_config {
  uplink = record new_default_config.uplink { retry_count = pos 1; urls = "http://u" ∷ [] };
  cache = record new_default_config.cache { duration = pos 60 };
  supergraphs = graph ∷ [];
  webhook = record { enabled = true; path = "/webhook"; secret = "s" };
}

abbrev pub body_of : String → UplinkRelayRequest
body_of operation_name = record {
  query = "";
  variables =
      ("apiKey", text "service:g:1") ∷ ("graph_ref", text "g@v") ∷ ("ifAfterId", text "") ∷ [];
  operation_name = operation_name;
}

-- The answer of the uplink.
abbrev pub answer : HttpResponse
answer = record { status_code = 200; content_encoding = ""; content_length = "2"; body = "{}" }

abbrev pub sdl : String
sdl = "type Query"

abbrev pub sdl_response : UplinkSupergraphSdlResponse
sdl_response = record {
  router_config = record {
    typename = "RouterConfigResult";
    id = "today";
    supergraph_sdl = sdl;
    min_delay_seconds = 30;
  };
}

abbrev pub license_response : UplinkLicenseResponse
license_response = record {
  router_entitlements = record {
    id = "today";
    typename = "RouterEntitlementsResult";
    min_delay_seconds = 60;
    entitlement = some (record { jwt = "jwt" });
  };
}

abbrev pub launch : LaunchQueryVariantLaunch
launch = record {
  id = "l1";
  completed_at = "today";
  result = record { typename = "Built"; core_document = sdl; error_messages = [] };
}

abbrev pub event : WebhookData
event = record {
  event_type = "BUILD_PUBLISH_EVENT";
  event_id = "e";
  changes = [];
  schema_url = "http://schema";
  schema_url_expires_at = 0;
  graph_id = "g";
  variant_id = "g@v";
  timestamp = 0;
}

-- The libraries and services, for a request with an operation name and a codec of one item. The
-- hash is the identity, and the only URL that does not parse is "bad".
abbrev pub world : String → CacheItem → Externals
world operation_name item = record {
  sha256_hex = λ s. s;
  hmac_sha256_hex = λ secret s. "mac";
  sprint = λ _. "map";
  is_json = λ _. true;
  item = json_of item;
  request = constant (body_of operation_name);
  supergraph_response = constant sdl_response;
  license_response = constant license_response;
  pq_response = constant (record {
    persisted_queries = record {
      id = "p:1";
      typename = "PersistedQueriesResult";
      min_delay_seconds = 60;
      chunks = [];
    };
  });
  launch_response = constant (record { graph = some launch });
  pq_query_response = constant (record {
    variant = record { typename = ""; persisted_query_query_list = none; message = "" };
  });
  api_request = constant (record { query = ""; variables = []; operation_name = "" });
  webhook_data = constant event;
  parse_time = λ _. some 5;
  format_time = λ _. "today";
  round_time = λ t _. t;
  parse_after_id = λ _. some 7;
  warn_at = λ _. some (pos 1);
  gunzip = some;
  deflate = λ s. s;
  inflate = λ s. some (record { content = s; complete = true });
  byte_length = λ _. "2";
  atoi = λ s. if s == "1" then some (pos 1) else some (pos 2);
  itoa = λ n. if eqb n 0 then "0" else "1";
  parsers = record {
    parse_url = λ url. if url == "bad" then none else some ("http", "h");
    parse_cron = λ _. true;
  };
  join_path = λ url path. url;
  set_scheme = λ url scheme. url;
  add_query_index = λ url i. url;
  accepts_url = λ _. true;
  post = λ url headers body. some answer;
  get = λ url. some answer;
  forward = λ url body. some answer;
}

pub world-PrintsByKey :
    (operation_name : String) (item : CacheItem) → PrintsByKey (world operation_name item)
world-PrintsByKey operation_name item u v h = refl

-- The map of a cache is visited in the order of its list.
abbrev pub memory : Cache MemoryCache
memory = memory_cache (λ items. items)

abbrev pub empty : MemoryCache
empty = new_memory_cache (pos 1000)
