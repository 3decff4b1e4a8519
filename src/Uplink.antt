-- ===== src/Uplink.antt =====
-- uplink/uplink.go: the operation names and the round-robin choice of the next uplink URL.
pub mod RoundRobin
use uplink_relay.Common.{
  ℕ, ◌+◌, ◌%◌, String, List, [], ◌∷◌, Option, none, some, length, get_elem?, Act, Result, ok, pure,
  panic,
}

abbrev pub supergraph_query : String
supergraph_query = "SupergraphSdlQuery"

abbrev pub license_query : String
license_query = "LicenseQuery"

abbrev pub persisted_queries_query : String
persisted_queries_query = "PersistedQueriesManifestQuery"

pub record RoundRobinSelector : Type 0 where
  pub urls : List String
  pub next_index : ℕ

unfoldable pub new_round_robin_selector : List String → RoundRobinSelector
new_round_robin_selector urls = record { urls = urls; next_index = 0 }

-- The access `rr.urls[rr.nextIndex]` panics out of range.
unfoldable pub next : Act RoundRobinSelector String
next rr = elim rr.urls [
  | [] ↦ pure "" rr
  | _ ∷ _ ↦ elim (get_elem? rr.urls rr.next_index) [
    | none ↦ panic rr
    | some url ↦ pure url (record rr { next_index = (rr.next_index + 1) % length rr.urls })
  ]
]
