-- ===== src/Proxy/Retries.antt =====
-- The attempts of RelayHandler in proxy/proxy.go, when the uplink URLs do not parse and when they do.
use uplink_relay.Common.{
  ℕ, zero, suc, String, ◌≡◌, ◌≢◌, none, some, List, [], ◌∷◌, pos, Time, ok, err, arith, library,
}
use uplink_relay.Cache.{Cache}
use uplink_relay.Config.{Config}
use uplink_relay.Externals.{Externals, Write, http_error, proxied, HttpResponse}
use uplink_relay.Proxy.{
  Relay, reply, handle_cache_miss, after_attempt, attempts, relay_miss, serve_proxy,
}
use uplink_relay.Proxy.Response.{modify_proxied_response}
use uplink_relay.Uplink.{RoundRobinSelector, next}
use uplink_relay.Uplink.RoundRobin.{after}
use uplink_relay.Wire.{UplinkRelayRequest}

-- The answer to an attempt whose URL does not parse.
abbrev pub unavailable : Write
unavailable = http_error "Uplink Service Unavailable" 503

abbrev pub failures : ℕ → List Write
failures zero = unavailable ∷ http_error "Internal Server Error" 500 ∷ []
failures (suc n) = unavailable ∷ failures n

module _ {C : Type 0} (x : Externals) (cache : Cache C) (config : Config) (now : Time)
    (body cache_key : String) (request : UplinkRelayRequest) where
  -- The selector gives, on each of its next calls, a URL that does not parse.
  abbrev pub AllBad : ℕ → RoundRobinSelector → Type 0
  AllBad zero rr = (url : String) × ((next rr).0 ≡ ok url) × (x.parsers.parse_url url ≡ none)
  AllBad (suc n) rr =
      ((url : String) × ((next rr).0 ≡ ok url) × (x.parsers.parse_url url ≡ none))
      × AllBad n (next rr).1

  miss_bad :
      (s : Relay C) (url : String)
      → (next s.selector).0 ≡ ok url
      → x.parsers.parse_url url ≡ none
      → handle_cache_miss x cache config now body cache_key request s ≡ record {
        writes = unavailable ∷ [];
        returned = err (library "url.Parse");
        after = record s { selector = (next s.selector).1 };
      }
  unfolding handle_cache_miss
  miss_bad s url chosen bad = ground arith

  attempts_bad :
      (n : ℕ) (s : Relay C)
      → AllBad n s.selector
      → attempts x cache config now n body cache_key request s
        ≡ reply (failures n) (record s { selector = after (suc n) s.selector })
  unfolding attempts after_attempt after
  attempts_bad zero s (url, chosen, bad) = rw (miss_bad s url chosen bad)
  attempts_bad (suc n) s ((url, chosen, bad), later) = rw (
    miss_bad s url chosen bad,
    attempts_bad n (record s { selector = (next s.selector).1 }) later,
  )

  -- With a retryCount of n, and n + 1 URLs in a row that do not parse, the handler writes n + 1
  -- times 503 and then 500, returns without a panic, and has advanced only the selector.
  pub relay_miss-failures :
      (n : ℕ) (s : Relay C)
      → config.uplink.retry_count ≡ pos n
      → AllBad n s.selector
      → relay_miss x cache config now body cache_key request s
        ≡ reply (failures n) (record s { selector = after (suc n) s.selector })
  unfolding relay_miss
  relay_miss-failures n s count bad = ground (arith, attempts_bad n s bad)

  late_writes :
      (n : ℕ) (s : Relay C) (good : String) (resp resp' : HttpResponse) (c : C)
      → (next s.selector).0 ≡ ok good
      → x.parsers.parse_url good ≢ none
      → x.forward good body ≡ some resp
      → modify_proxied_response x cache config now cache_key request resp s.cache ≡ (ok resp', c)
      → (attempts x cache config now n body cache_key request s).writes ≡ proxied resp' ∷ []
  unfolding attempts after_attempt handle_cache_miss serve_proxy
  late_writes zero s good resp resp' c chosen parsed answer modified = ground arith
  late_writes (suc n) s good resp resp' c chosen parsed answer modified = ground arith

  -- With a positive retryCount, an uplink whose URL parses and that answers, behind one whose URL
  -- does not: the answer is written after an error 503, which the client gets first.
  pub relay_miss-late_success :
      (n : ℕ) (s : Relay C) (bad good : String) (resp resp' : HttpResponse) (c : C)
      → config.uplink.retry_count ≡ pos (suc n)
      → (next s.selector).0 ≡ ok bad
      → x.parsers.parse_url bad ≡ none
      → (next (next s.selector).1).0 ≡ ok good
      → x.parsers.parse_url good ≢ none
      → x.forward good body ≡ some resp
      → modify_proxied_response x cache config now cache_key request resp s.cache ≡ (ok resp', c)
      → (relay_miss x cache config now body cache_key request s).writes
        ≡ unavailable ∷ proxied resp' ∷ []
  unfolding relay_miss attempts after_attempt
  relay_miss-late_success n s bad good resp resp' c count first unparsed second parsed answer
        modified =
      ground (
        arith,
        miss_bad s bad first unparsed,
        late_writes n (record s { selector = (next s.selector).1 }) good resp resp' c second parsed
            answer modified,
      )
