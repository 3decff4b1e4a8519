-- ===== src/System/Polling.antt =====
-- The handler of webhooks/webhooks.go and the rounds of polling/polling.go.
use uplink_relay.Common.{
  ℕ, zero, suc, Bool, String, refl, List, [], ◌∷◌, ℤ, Time, arith, Preserves, bind-Preserves, ◌≡◌,
  some, bind_try-Preserves,
}
use uplink_relay.Cache.{Cache}
use uplink_relay.Cache.Keys.{make_cache_key, default_cache_key, artifact_variables}
use uplink_relay.Cache.Writes.{polled, hooked, IsClosed}
use uplink_relay.Config.{Config, SupergraphConfig}
use uplink_relay.Externals.{Externals, HttpResponse}
use uplink_relay.Polling.{
  poll_supergraph, poll_license, poll_persisted_queries, log_options, poll_once, poll_attempts,
  poll_graphs, poll_for_updates, all_off,
}
use uplink_relay.Server.{OfServer, server_rules}
use uplink_relay.System.Fetching.{fetch_schema-Preserves, fetch_router_license-Preserves}
use uplink_relay.System.Pinning.{IsInvariant}
use uplink_relay.Webhooks.{process, webhook_handler}
use uplink_relay.Wire.{WebhookData, UplinkPersistedQueryResponse}
use uplink_relay.Uplink.{persisted_queries_query}

module _ {C : Type 0} (x : Externals) {pins : Bool} (cache : Cache C) {P : C → Type 0}
    (closed : IsClosed x pins cache P) (config : Config) (now : Time) where
  process-Preserves : (event : WebhookData) → Preserves P (process x cache config now event)
  unfolding process
  process-Preserves event = record {
    at = λ c h.
        let stored : (resp : HttpResponse)
            → x.get event.schema_url ≡ some resp
            → P
                (cache.set now (make_cache_key x event.variant_id "SupergraphSdlQuery" []) resp.body
                  config.cache.duration c).1 =
          λ resp fetched.
            (closed now _ resp.body config.cache.duration
                (hooked event.variant_id event.schema_url resp refl fetched refl)).at
              c h in
        grind (arith, stored);
  }

  pub webhook_handler-Preserves :
      (signature_header body : String)
      → Preserves P (webhook_handler x cache config now signature_header body)
  unfolding webhook_handler
  webhook_handler-Preserves signature_header body = record {
    at = λ c h.
        let processed = λ (event : WebhookData). (process-Preserves event).at c h in
        grind (arith, processed);
  }

module _ {C : Type 0} (x : Externals) (cache : Cache C) (now : Time) {P : Config → C → Type 0}
    (inv : IsInvariant x cache P) where
  poll_supergraph-Preserves :
      (g : SupergraphConfig) → Preserves (OfServer P) (poll_supergraph x cache now g)
  unfolding poll_supergraph
  poll_supergraph-Preserves g = search (server_rules, fetch_schema-Preserves x cache inv)

  poll_license-Preserves :
      (g : SupergraphConfig) → Preserves (OfServer P) (poll_license x cache now g)
  unfolding poll_license
  poll_license-Preserves g = search (server_rules, fetch_router_license-Preserves x cache inv)

  poll_persisted_queries-Preserves :
      (g : SupergraphConfig) → Preserves (OfServer P) (poll_persisted_queries x cache now g)
  unfolding poll_persisted_queries default_cache_key
  poll_persisted_queries-Preserves g =
      let file : (config : Config) (response : UplinkPersistedQueryResponse) (manifest : String)
            (d : ℤ)
          → x.pq_response.marshal response ≡ some manifest
          → Preserves (P config) (
              cache.set now
                (make_cache_key x g.graph_ref persisted_queries_query
                  (artifact_variables g.graph_ref "" ∷ []))
                manifest d) =
        λ config response manifest d marshalled.
          inv.writes config now _ manifest d (polled g.graph_ref response refl marshalled) in
      search (bind_try-Preserves, server_rules, file) depth 14

  poll_once-Preserves : (g : SupergraphConfig) → Preserves (OfServer P) (poll_once x cache now g)
  unfolding poll_once log_options
  poll_once-Preserves g =
      search
        (
          server_rules, poll_supergraph-Preserves, poll_license-Preserves,
          poll_persisted_queries-Preserves,
        )
        depth 9

  poll_attempts-Preserves :
      (left : ℕ) (g : SupergraphConfig) → Preserves (OfServer P) (poll_attempts x cache now left g)
  unfolding poll_attempts
  poll_attempts-Preserves zero g = record { at = λ s h. h }
  poll_attempts-Preserves (suc left) g = record {
    at = λ s h. ground (arith, (poll_once-Preserves g).at s h);
  }

  poll_graphs-Preserves :
      (retries : ℕ) (graphs : List SupergraphConfig)
      → Preserves (OfServer P) (poll_graphs x cache now retries graphs)
  unfolding poll_graphs
  poll_graphs-Preserves retries [] = record { at = λ s h. h }
  poll_graphs-Preserves retries (g ∷ graphs) = record {
    at = λ s h.
        (bind-Preserves _ _ (poll_attempts-Preserves retries g)
            (λ _. poll_graphs-Preserves retries graphs)).at
          s h;
  }

  pub poll_for_updates-Preserves : Preserves (OfServer P) (poll_for_updates x cache now)
  unfolding poll_for_updates all_off
  poll_for_updates-Preserves = search (server_rules, poll_graphs-Preserves) depth 12
