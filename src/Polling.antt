-- ===== src/Polling.antt =====
-- polling/polling.go: one round of polling. (The ticker, the cron schedule and the stop channel of
-- StartPolling decide when a round runs.)
pub mod Rounds
pub mod Schedule
pub mod Validated
use uplink_relay.Queries.{polled_manifest_query_text}
use uplink_relay.Common.{
  ℕ, zero, suc, String, Bool, true, false, not, ◌&&◌, Option, none, some, List, [], ◌∷◌, ℤ, pos,
  negsuc, Time, ◌==◌, if◌then◌else◌, Act, Result, ok, err, panicked, failed, library, pure, raise,
  panic, try, lift, result, ignore, deref, ◌>>=◌, ◌>>◌, split,
}
use uplink_relay.Cache.{Cache}
use uplink_relay.Cache.Keys.{make_cache_key, artifact_variables}
use uplink_relay.Config.{Config, SupergraphConfig}
use uplink_relay.Entitlements.{fetch_router_license}
use uplink_relay.Externals.{Externals}
use uplink_relay.GraphRef.{at_sign}
use uplink_relay.Schema.{fetch_schema}
use uplink_relay.Server.{Server, on_cache, with_config}
use uplink_relay.Uplink.{persisted_queries_query}
use uplink_relay.UplinkRequest.{uplink_url, relay_headers}
use uplink_relay.Wire.{UplinkRelayRequest, UplinkPersistedQueryResponse, text}

abbrev poll_request : String → String → UplinkRelayRequest
poll_request api_key graph_ref = record {
  query = polled_manifest_query_text;
  variables =
      ("apiKey", text api_key) ∷ ("graph_ref", text graph_ref) ∷ ("ifAfterId", text "") ∷ [];
  operation_name = "PersistedQueriesManifestQuery";
}

-- FetchPQManifest of this package, which looks at no status code.
unfoldable pub poll_pq_manifest :
    Externals → Config → String → String → Result UplinkPersistedQueryResponse
unfolding uplink_url
poll_pq_manifest x config graph_ref api_key = result (do
  request_body ← try (x.request.marshal (poll_request api_key graph_ref)) (library "json.Marshal")
  url ← lift (uplink_url config)
  if x.accepts_url url
      then (do
        resp ← try (x.post url relay_headers request_body) (library "http.Client.Do")
        try (x.pq_response.unmarshal resp.body) (library "json.Unmarshal"))
      else raise (library "http.NewRequest"))

-- strings.Split(graphRef, "@") has two parts.
unfoldable pub has_two_parts : String → Bool
has_two_parts graph_ref = elim (split at_sign graph_ref) [
  | [] ↦ false
  | _ ∷ rest ↦ elim rest [ [] ↦ false | _ ∷ more ↦ elim more [ [] ↦ true | _ ∷ _ ↦ false ] ]
]

module _ {C : Type 0} (x : Externals) (cache : Cache C) (now : Time) where
  -- The three steps of an attempt, each behind its own test.
  unfoldable pub poll_supergraph : SupergraphConfig → Act (Server C) (Unit {0})
  poll_supergraph g = with_config λ config. do
    on ← deref config.polling.supergraph
    if on && g.launch_id == "" then fetch_schema x cache now g.graph_ref else pure tt

  unfoldable pub poll_license : SupergraphConfig → Act (Server C) (Unit {0})
  poll_license g = with_config λ config. do
    on ← deref config.polling.entitlements
    if on && g.offline_license == "" then fetch_router_license x cache now g.graph_ref else pure tt

  -- The manifest is cached as it came, and the error of Set is dropped.
  unfoldable pub poll_persisted_queries : SupergraphConfig → Act (Server C) (Unit {0})
  unfolding poll_pq_manifest
  poll_persisted_queries g = with_config λ config. do
    on ← deref config.polling.persisted_queries
    if on && g.persisted_query_version == ""
        then (do
          response ← lift (poll_pq_manifest x config g.graph_ref g.apollo_key)
          manifest ← try (x.pq_response.marshal response) (library "json.Marshal")
          on_cache (
              ignore (
                cache.set now
                  (make_cache_key x g.graph_ref persisted_queries_query
                    (artifact_variables g.graph_ref "" ∷ []))
                  manifest config.cache.duration)))
        else pure tt

  -- The log line that reads the three options.
  unfoldable pub log_options : Act (Server C) (Unit {0})
  log_options = with_config λ config. do
    _ ← deref config.polling.supergraph
    _ ← deref config.polling.entitlements
    _ ← deref config.polling.persisted_queries
    pure tt

  -- The body of the attempt loop; an error is one of its breaks.
  unfoldable pub poll_once : SupergraphConfig → Act (Server C) (Unit {0})
  unfolding poll_supergraph poll_license poll_persisted_queries has_two_parts log_options
  poll_once g = do
    log_options
    if has_two_parts g.graph_ref then pure tt else raise (failed "Invalid GraphRef")
    poll_supergraph g
    poll_license g
    poll_persisted_queries g

  -- for i := 0; i < RetryCount && !success; i++, with the attempts left: the value is success. A
  -- break leaves the loop.
  unfoldable pub poll_attempts : ℕ → SupergraphConfig → Act (Server C) Bool
  unfolding poll_once
  poll_attempts zero g s = (ok false, s)
  poll_attempts (suc left) g s =
      let (done, s') = poll_once g s in
      elim done [ ok _ ↦ (ok true, s') | err _ ↦ (ok false, s') | panicked ↦ (panicked, s') ]

  abbrev pub count : ℤ → ℕ
  count (pos n) = n
  count (negsuc n) = 0

  unfoldable pub poll_graphs : ℕ → List SupergraphConfig → Act (Server C) (Unit {0})
  unfolding poll_attempts
  poll_graphs retries [] s = pure tt s
  poll_graphs retries (g ∷ graphs) s =
      let rest = poll_graphs retries graphs in (do _ ← poll_attempts retries g; rest) s

  -- !*Supergraph && !*Entitlements && !*PersistedQueries
  unfoldable pub all_off : Config → Act (Server C) Bool
  all_off config = do
    supergraph ← deref config.polling.supergraph
    if supergraph then pure false else (do
      entitlements ← deref config.polling.entitlements
      if entitlements then pure false else (do
        persisted_queries ← deref config.polling.persisted_queries
        pure (not persisted_queries)))

  -- The list of supergraphs is the one at the start of the loop.
  unfoldable pub poll_for_updates : Act (Server C) (Unit {0})
  unfolding poll_graphs all_off
  poll_for_updates = with_config λ config.
      if config.polling.enabled
      then (do
        off ← all_off config
        if off then pure tt else poll_graphs (count config.polling.retry_count) config.supergraphs)
      else pure tt
