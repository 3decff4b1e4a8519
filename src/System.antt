-- ===== src/System.antt =====
-- The running program: the handlers of proxy/proxy.go, webhooks/webhooks.go and
-- graph/schema.resolvers.go and the rounds of polling/polling.go, called in any order over one
-- cache, configuration and selector. Each call is one step.
pub mod Pinning
pub mod Fetching
pub mod Polling
pub mod Managing
pub mod Relaying
pub mod Invariants
pub mod Configuration
pub mod Keys
pub mod Items
pub mod Pinned
pub mod Serving
pub mod PinnedManifests
pub mod Trace
use uplink_relay.Common.{String, List, [], ◌∷◌, Time}
use uplink_relay.Cache.{Cache}
use uplink_relay.Externals.{Externals}
use uplink_relay.Management.{
  delete_cache_entry, force_update, pin_schema, pin_persisted_query_manifest,
}
use uplink_relay.Management.Model.{OperationType}
use uplink_relay.Polling.{poll_for_updates}
use uplink_relay.Proxy.{Relay, Outcome, relay_handler}
use uplink_relay.Server.{Server}
use uplink_relay.Uplink.{RoundRobinSelector}
use uplink_relay.Webhooks.{webhook_handler}

-- A call, at a time: a request to the relay or to the webhook, a round of polling, a mutation.
pub data Event : Type 0 where
  relayed : Time → String → Event
  hooked : Time → (signature_header body : String) → Event
  polled : Time → Event
  updated : Time → List OperationType → String → Event
  schema_pinned : Time → (launch_id graph_ref : String) → Event
  manifest_pinned : Time → (id graph_ref : String) → Event
  deleted : Time → List OperationType → String → Event

pub record Running (C : Type 0) : Type 0 where
  pub server : Server C
  pub selector : RoundRobinSelector

module _ {C : Type 0} (x : Externals) (cache : Cache C) where
  -- What a call leaves behind, also where it gives an error or panics.
  pub handle : Event → Running C → Running C
  handle (relayed now body) r =
      let after : Relay C =
        (relay_handler x cache r.server.config now body
          (record { cache = r.server.cache; selector = r.selector })).after in
      record { server = record r.server { cache = after.cache }; selector = after.selector }
  handle (hooked now signature_header body) r = record r {
    server = record r.server {
      cache = (webhook_handler x cache r.server.config now signature_header body r.server.cache).1;
    };
  }
  handle (polled now) r = record r { server = (poll_for_updates x cache now r.server).1 }
  handle (updated now operations graph_ref) r = record r {
    server = (force_update x cache now operations graph_ref r.server).1;
  }
  handle (schema_pinned now launch_id graph_ref) r = record r {
    server = (pin_schema x cache now launch_id graph_ref r.server).1;
  }
  handle (manifest_pinned now id graph_ref) r = record r {
    server = (pin_persisted_query_manifest x cache now id graph_ref r.server).1;
  }
  handle (deleted now operations graph_ref) r = record r {
    server = (delete_cache_entry x cache now operations graph_ref r.server).1;
  }

  -- The calls of a history, the first one first.
  unfoldable pub run : List Event → Running C → Running C
  unfolding handle
  run [] r = r
  run (event ∷ events) r = run events (handle event r)
