-- ===== src/UplinkRequest/Accepting.antt =====
-- What UplinkRequest of internal/util/request.go accepts from an uplink, and which one it asks.
use uplink_relay.Common.{
  String, ◌≡◌, ◌≢◌, ◌≤◌, ◌<◌, refl, Option-cases, ◌⊎◌, inl, inr, some, List, [], ◌∷◌, ok, arith,
  eq_iff,
}
use uplink_relay.Config.{Config}
use uplink_relay.Externals.{Externals, HttpResponse}
use uplink_relay.UplinkRequest.{relay_headers, uplink_url, response_bytes, uplink_request}
use uplink_relay.Wire.{UplinkRelayRequest}

-- The exchange behind a successful request: the uplink is the first one of the configuration, and
-- its response has a status from 200 to 299 and a body.
pub record Exchanged (x : Externals) (config : Config) (request : UplinkRelayRequest)
    (bytes : String) : Type 0 where
  pub url : String
  pub urls : List String
  pub configured : config.uplink.urls ≡ url ∷ urls
  pub request_body : String
  pub marshalled : x.request.marshal request ≡ some request_body
  pub resp : HttpResponse
  pub answered : x.post url relay_headers request_body ≡ some resp
  pub least : 200 ≤ resp.status_code
  pub most : resp.status_code < 300
  pub is_body : resp.body ≡ bytes
  pub filled : bytes ≢ ""

-- The URL is the first one, however often a request was made before; without URLs it is "".
pub uplink_url-first :
    (config : Config) (url : String) (urls : List String)
    → config.uplink.urls ≡ url ∷ urls
    → uplink_url config ≡ ok url
unfolding uplink_url
uplink_url-first config url urls configured = rw configured refl

List-cases : (l : List String) → (l ≡ []) ⊎ ((u : String) × ((us : List String) × (l ≡ u ∷ us)))
List-cases [] = inl refl
List-cases (u ∷ us) = inr (u, (us, refl))

response_bytes-ok :
    (resp : HttpResponse) (bytes : String)
    → response_bytes resp ≡ ok bytes
    → (200 ≤ resp.status_code) × (resp.status_code < 300) × (resp.body ≡ bytes) × (bytes ≢ "")
unfolding response_bytes
response_bytes-ok resp bytes h =
    let empty = eq_iff resp.body "" in (ground arith, ground arith, ground arith, ground arith)

-- For a configuration with an uplink URL: a request of the relay itself that succeeds was sent to
-- the first of the URLs and answered with a status from 200 to 299 and a body that is not empty,
-- which is the result.
pub uplink_request-Exchanged :
    (x : Externals) (config : Config) (request : UplinkRelayRequest) (bytes : String)
    → config.uplink.urls ≢ []
    → uplink_request x config request ≡ ok bytes
    → Exchanged x config request bytes
unfolding uplink_request
uplink_request-Exchanged x config request bytes some_url h = elim (List-cases config.uplink.urls) [
  | inl none_ ↦ absurd (some_url none_)
  | inr (url, (urls, configured)) ↦ elim (Option-cases (x.request.marshal request)) [
    | inl bad ↦ absurd (ground (arith, uplink_url-first config url urls configured))
    | inr (request_body, marshalled) ↦ elim (Option-cases (x.post url relay_headers request_body)) [
      | inl lost ↦ absurd (ground (arith, uplink_url-first config url urls configured))
      | inr (resp, answered) ↦
          let first = uplink_url-first config url urls configured in
          let (least, most, is_body, filled) =
            response_bytes-ok resp bytes (ground (arith, first)) in
          record {
            url = url;
            urls = urls;
            configured = configured;
            request_body = request_body;
            marshalled = marshalled;
            resp = resp;
            answered = answered;
            least = least;
            most = most;
            is_body = is_body;
            filled = filled;
          }
    ]
  ]
]
