-- ===== src/Webhooks/Signed.antt =====
-- What a request must carry for WebhookHandler of webhooks/webhooks.go to change the cache.
use uplink_relay.Common.{
  String, ◌≡◌, ◌≢◌, ◌⊎◌, inl, inr, true, some, List, [], ◌∷◌, Time, ◌==◌, eq_iff, arith, Bool-cases,
  Option-cases, ok,
}
use uplink_relay.Cache.{Cache}
use uplink_relay.Config.{Config, SupergraphConfig}
use uplink_relay.Externals.{Externals, Write, write_body, HttpResponse}
use uplink_relay.Webhooks.{contains_graph, signature_of, process, webhook_handler}
use uplink_relay.Wire.{WebhookData}

-- One of the supergraphs has the graph_ref.
abbrev pub Configured : String → List SupergraphConfig → Type 0
Configured graph_ref [] = ⊥
Configured graph_ref (s ∷ supergraphs) =
    (s.graph_ref ≡ graph_ref) ⊎ Configured graph_ref supergraphs

contains_graph_sound :
    (supergraphs : List SupergraphConfig) (graph_ref : String)
    → contains_graph supergraphs graph_ref ≡ true
    → Configured graph_ref supergraphs
unfolding contains_graph
contains_graph_sound [] graph_ref h = cc
contains_graph_sound (s ∷ supergraphs) graph_ref h = elim (Bool-cases (s.graph_ref == graph_ref)) [
  | inl same ↦ inl ((eq_iff _ _).0 same)
  | inr other ↦ inr (contains_graph_sound supergraphs graph_ref (ground arith))
]

-- What a request that is processed carries: a signature of its body under the configured secret,
-- and the event of a configured supergraph whose schema can be fetched.
pub record Genuine (x : Externals) (config : Config) (header body : String) : Type 0 where
  pub secret : config.webhook.secret ≢ ""
  pub signed : signature_of header ≡ some (x.hmac_sha256_hex config.webhook.secret body)
  pub event : WebhookData
  pub decoded : x.webhook_data.unmarshal body ≡ some event
  pub configured : Configured event.variant_id config.supergraphs
  pub resp : HttpResponse
  pub fetched : x.get event.schema_url ≡ some resp

abbrev success : List Write
success = write_body "Webhook processed successfully" ∷ []

module _ {C : Type 0} (x : Externals) (cache : Cache C) (config : Config) (now : Time) where
  process-Genuine :
      (event : WebhookData) (c : C)
      → (process x cache config now event c).0 ≡ ok success
      → Configured event.variant_id config.supergraphs
        × ((resp : HttpResponse) × (x.get event.schema_url ≡ some resp))
  unfolding process
  process-Genuine event c h = elim (Option-cases (x.get event.schema_url)) [
    | inl lost ↦ absurd (ground arith)
    | inr (resp, fetched) ↦
        (contains_graph_sound config.supergraphs event.variant_id (ground arith), (resp, fetched))
  ]

  -- WebhookHandler answers with success only to a genuine request: a secret is configured, the
  -- signature is the one of the body under it, the body is an event of a configured supergraph, and
  -- its schema can be fetched.
  pub webhook_handler-Genuine :
      (header body : String) (c : C)
      → (webhook_handler x cache config now header body c).0 ≡ ok success
      → Genuine x config header body
  unfolding webhook_handler
  webhook_handler-Genuine header body c h = elim (Option-cases (signature_of header)) [
    | inl unsigned ↦ absurd (ground arith)
    | inr (signature, signed) ↦ elim (Option-cases (x.webhook_data.unmarshal body)) [
      | inl garbled ↦ absurd (ground arith)
      | inr (event, decoded) ↦
          let (configured, (resp, fetched)) = process-Genuine event c (ground arith) in
          record {
            secret = ground (arith, eq_iff config.webhook.secret "");
            signed =
                ground (arith, eq_iff signature (x.hmac_sha256_hex config.webhook.secret body));
            event = event;
            decoded = decoded;
            configured = configured;
            resp = resp;
            fetched = fetched;
          }
    ]
  ]

  -- A request whose signature is not the one of its body under the configured secret leaves the
  -- cache as it was.
  pub webhook_handler-unsigned :
      (header body : String) (c : C)
      → signature_of header ≢ some (x.hmac_sha256_hex config.webhook.secret body)
      → (webhook_handler x cache config now header body c).1 ≡ c
  unfolding webhook_handler
  webhook_handler-unsigned header body c forged = elim (Option-cases (signature_of header)) [
    | inl unsigned ↦ ground arith
    | inr (signature, signed) ↦
        ground (arith, eq_iff signature (x.hmac_sha256_hex config.webhook.secret body))
  ]
