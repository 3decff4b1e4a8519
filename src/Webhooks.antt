-- ===== src/Webhooks.antt =====
-- webhooks/webhooks.go
pub mod Signed
use uplink_relay.Common.{
  ℕ, String, Char, code, Bool, true, false, not, ◌&&◌, Option, none, some, List, [], ◌∷◌, Time,
  ◌==◌, if◌then◌else◌, Act, Result, ok, err, panicked, ignore, after_first, before_first,
}
use uplink_relay.Cache.{Cache}
use uplink_relay.Cache.Keys.{make_cache_key}
use uplink_relay.Config.{Config, SupergraphConfig}
use uplink_relay.Externals.{Externals, Write, http_error, write_body}
use uplink_relay.Wire.{WebhookData}

unfoldable pub contains_graph : List SupergraphConfig → String → Bool
contains_graph [] variant_id = false
contains_graph (item ∷ configs) variant_id =
    if item.graph_ref == variant_id then true else contains_graph configs variant_id

-- strings.SplitN(header, "=", 2) has two parts, of which the first is sha256: the second one.
unfoldable pub signature_of : String → Option String
signature_of header = elim (after_first header "=") [
  | none ↦ none
  | some signature ↦ if before_first header "=" == "sha256" then some signature else none
]

abbrev pub refuse_with : {C : Type 0} → String → ℕ → Act C (List Write)
refuse_with message code c = (ok (http_error message code ∷ []), c)

module _ {C : Type 0} (x : Externals) (cache : Cache C) (config : Config) (now : Time) where
  -- What follows a verified signature. The error of Set is dropped.
  unfoldable pub process : WebhookData → Act C (List Write)
  unfolding contains_graph
  process event c =
      if not (contains_graph config.supergraphs event.variant_id)
      then refuse_with "VariantID not found in the list of supergraphs" 400 c
      else elim (x.get event.schema_url) [
        | none ↦ refuse_with "Failed to fetch schema" 500 c
        | some resp ↦
            if config.cache.enabled
            then (let cache_key = make_cache_key x event.variant_id "SupergraphSdlQuery" [] in
                if cache_key == ""
                then refuse_with "Failed to create cache key" 500 c
                else let (r, c') =
                    ignore (cache.set now cache_key resp.body config.cache.duration) c in
                  elim r [
                    | ok _ ↦ (ok (write_body "Webhook processed successfully" ∷ []), c')
                    | err e ↦ (err e, c')
                    | panicked ↦ (panicked, c')
                  ])
            else (ok (write_body "Webhook processed successfully" ∷ []), c)
      ]

  -- WebhookHandler, for the header x-apollo-signature and the body of a request.
  unfoldable pub webhook_handler : String → String → Act C (List Write)
  unfolding process signature_of
  webhook_handler signature_header body c =
      if signature_header == ""
      then refuse_with "Missing signature" 400 c
      else elim (signature_of signature_header) [
        | none ↦ refuse_with "Invalid signature" 400 c
        | some signature ↦
            if config.webhook.secret == ""
            then refuse_with "Webhook secret not configured" 400 c
            else if not (signature == x.hmac_sha256_hex config.webhook.secret body)
            then refuse_with "Invalid signature" 400 c
            else elim (x.webhook_data.unmarshal body) [
              | none ↦ refuse_with "json.Unmarshal" 400 c
              | some event ↦ process event c
            ]
      ]
