-- ===== src/Externals.antt =====
-- What the program takes from Go's libraries, from third-party packages and from the services that
-- it calls: arguments of the model. A none is an error of the call.
use uplink_relay.Common.{ℕ, String, Bool, Option, some, List, [], ◌∷◌, ◌≡◌, Time, lookup, ℤ}
use uplink_relay.Config.{Parsers}
use uplink_relay.Wire.{
  Variables, UplinkRelayRequest, UplinkSupergraphSdlResponse, UplinkLicenseResponse,
  UplinkPersistedQueryResponse, LaunchQueryResponse, PersistedQueryQueryResponse, PinningApiRequest,
  WebhookData,
}
use uplink_relay.Cache.Item.{CacheItem}

-- encoding/json at a type: Marshal and Unmarshal
pub record Json (A : Type 0) : Type 0 where
  pub marshal : A → Option String
  pub unmarshal : String → Option A

-- What Unmarshal is documented to do with the output of Marshal.
abbrev pub RoundTrips : {A : Type 0} → Json A → Type 0
RoundTrips {A} j = (a : A) (s : String) → j.marshal a ≡ some s → j.unmarshal s ≡ some a

-- A response of net/http: the status code, the two headers that the program reads or sets, and
-- what is left to read of the body.
pub record HttpResponse : Type 0 where
  pub status_code : ℕ
  pub content_encoding : String
  pub content_length : String
  pub body : String

-- What a zlib reader gives: the text up to its end or its error, and whether it came to the end.
pub record Inflated : Type 0 where
  pub content : String
  pub complete : Bool

-- What a handler does to its http.ResponseWriter, in order. `proxied` is the copy that the reverse
-- proxy makes of a response.
pub data Write : Type 0 where
  set_header : String → String → Write
  http_error : String → ℕ → Write
  write_body : String → Write
  proxied : HttpResponse → Write

pub record Externals : Type 0 where
  -- crypto/sha256 and crypto/hmac, in hexadecimal; fmt.Sprint of maps
  pub sha256_hex : String → String
  pub hmac_sha256_hex : String → String → String
  pub sprint : List Variables → String
  -- encoding/json
  pub is_json : String → Bool
  pub item : Json CacheItem
  pub request : Json UplinkRelayRequest
  pub supergraph_response : Json UplinkSupergraphSdlResponse
  pub license_response : Json UplinkLicenseResponse
  pub pq_response : Json UplinkPersistedQueryResponse
  pub launch_response : Json LaunchQueryResponse
  pub pq_query_response : Json PersistedQueryQueryResponse
  pub api_request : Json PinningApiRequest
  pub webhook_data : Json WebhookData
  -- time.Parse and Format with the layout time.RFC3339
  pub parse_time : String → Option Time
  pub format_time : Time → String
  -- UTC().Round to a multiple of a duration of so many seconds
  pub round_time : Time → ℤ → Time
  -- time.Parse with the layout 2006-01-02T15:04:05Z0700
  pub parse_after_id : String → Option Time
  -- the warnAt field, in seconds, of the payload of a license, by go-jose and encoding/json
  pub warn_at : String → Option ℤ
  -- compress/gzip and compress/zlib; for inflate a none is an error of NewReader
  pub gunzip : String → Option String
  pub deflate : String → String
  pub inflate : String → Option Inflated
  -- the length of a body in bytes, in decimal
  pub byte_length : String → String
  -- strconv.Atoi and Itoa
  pub atoi : String → Option ℤ
  pub itoa : ℕ → String
  -- net/url: whether Parse accepts, Parse followed by JoinPath and String, with a query i=…, and
  -- the scheme replaced
  pub parsers : Parsers
  pub join_path : String → String → String
  pub set_scheme : String → String → String
  pub add_query_index : String → String → String
  -- net/http: NewRequest accepts a URL; a POST with headers and a body; a GET
  pub accepts_url : String → Bool
  pub post : String → List (String × String) → String → Option HttpResponse
  pub get : String → Option HttpResponse
  -- the exchange that the reverse proxy makes with a target URL for the body of a request
  pub forward : String → String → Option HttpResponse

-- What fmt.Sprint is documented to do: a map is printed in the order of its keys, so that the text
-- depends on the value of each key only.
abbrev pub PrintsByKey : Externals → Type 0
PrintsByKey x =
    (u v : Variables)
    → ((k : String) → lookup k u ≡ lookup k v)
    → x.sprint (u ∷ []) ≡ x.sprint (v ∷ [])
