-- ===== src/Pinning/Names.antt =====
-- pinning/pinning.go: the names of the pinned artifacts, the request headers and the API key.
use uplink_relay.Common.{String, List, [], ◌∷◌, ◌==◌, if◌then◌else◌, Result, ok, err, failed}
use uplink_relay.Config.{Config, SupergraphConfig}
use uplink_relay.Uplink.{supergraph_query, license_query, persisted_queries_query}

abbrev pub supergraph_pinned : String
supergraph_pinned = "SupergraphPinned"

abbrev pub license_pinned : String
license_pinned = "LicensePinned"

abbrev pub persisted_queries_pinned : String
persisted_queries_pinned = "PersistedQueriesPinned"

-- A key that the map does not have reads as "".
unfoldable pub operation_mapping : String → String
operation_mapping operation_name =
    if operation_name == supergraph_query
    then supergraph_pinned
    else if operation_name == license_query
    then license_pinned
    else if operation_name == persisted_queries_query
    then persisted_queries_pinned
    else ""

abbrev pub default_headers : String → List (String × String)
default_headers api_key =
    ("apollo-client-name", "UplinkRelay")
    ∷ ("apollo-client-version", "1.0")
    ∷ ("User-Agent", "UplinkRelay/1.0")
    ∷ ("Content-Type", "application/json")
    ∷ ("x-api-key", api_key)
    ∷ []

key_of : String → List SupergraphConfig → Result String
key_of graph_ref [] = err (failed "API key not found for graphRef")
key_of graph_ref (s ∷ supergraphs) =
    if s.graph_ref == graph_ref then ok s.apollo_key else key_of graph_ref supergraphs

unfoldable pub find_api_key : Config → String → Result String
unfolding key_of
find_api_key c graph_ref = key_of graph_ref c.supergraphs
