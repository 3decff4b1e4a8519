-- ===== src/UplinkRequest.antt =====
-- internal/util/request.go: a request of the relay itself to Apollo Uplink.
pub mod Accepting
use uplink_relay.Common.{
  ℕ, String, Bool, ◌||◌, Option, none, some, List, [], ◌∷◌, ltb, leb, ◌==◌, if◌then◌else◌, Act,
  Result, ok, err, failed, library, pure, raise, try, lift, result, ◌>>=◌, ◌>>◌,
}
use uplink_relay.Config.{Config}
use uplink_relay.Externals.{Externals, HttpResponse}
use uplink_relay.Uplink.{new_round_robin_selector, next}
use uplink_relay.Wire.{UplinkRelayRequest}

abbrev pub relay_headers : List (String × String)
relay_headers =
    ("apollo-client-name", "UplinkRelay")
    ∷ ("apollo-client-version", "1.0")
    ∷ ("User-Agent", "UplinkRelay/1.0")
    ∷ ("Content-Type", "application/json")
    ∷ []

-- The URL of a request: each request makes a selector of its own.
unfoldable pub uplink_url : Config → Result String
unfolding new_round_robin_selector next
uplink_url config = (next (new_round_robin_selector config.uplink.urls)).0

-- The tests on a response.
unfoldable pub response_bytes : HttpResponse → Result String
response_bytes resp =
    if leb 300 resp.status_code || ltb resp.status_code 200
    then err (failed "API request failed")
    else if resp.body == ""
    then err (failed "empty response body")
    else ok resp.body

unfoldable pub uplink_request : Externals → Config → UplinkRelayRequest → Result String
unfolding uplink_url response_bytes
uplink_request x config body = result (do
  url ← lift (uplink_url config)
  request_body ← try (x.request.marshal body) (library "json.Marshal")
  if x.accepts_url url
      then (do
        resp ← try (x.post url relay_headers request_body) (library "http.Client.Do")
        lift (response_bytes resp))
      else raise (library "http.NewRequest"))
