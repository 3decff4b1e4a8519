-- ===== src/Queries.antt =====
-- The GraphQL queries that the program sends, as they stand in the sources.
use uplink_relay.Common.{String}

-- schema/schema.go
unfoldable pub schema_query_text : String
schema_query_text =
    "query SupergraphSdlQuery($apiKey: String!, $graph_ref: String!, $ifAfterId: ID) {\n\t\t\t\t\trouterConfig(ref: $graph_ref, apiKey: $apiKey, ifAfterId: $ifAfterId) {\n\t\t\t\t\t\t\t__typename\n\t\t\t\t\t\t\t... on RouterConfigResult {\n\t\t\t\t\t\t\t\t\tid\n\t\t\t\t\t\t\t\t\tsupergraphSdl: supergraphSDL\n\t\t\t\t\t\t\t\t\tminDelaySeconds\n\t\t\t\t\t\t\t}\n\t\t\t\t\t\t\t... on Unchanged {\n\t\t\t\t\t\t\t\t\tid\n\t\t\t\t\t\t\t\t\tminDelaySeconds\n\t\t\t\t\t\t\t}\n\t\t\t\t\t\t\t... on FetchError {\n\t\t\t\t\t\t\t\t\tcode\n\t\t\t\t\t\t\t\t\tmessage\n\t\t\t\t\t\t\t}\n\t\t\t\t\t}\n\t\t\t}"

-- entitlements/entitlements.go
unfoldable pub license_query_text : String
license_query_text =
    "query LicenseQuery($apiKey: String!, $graph_ref: String!, $ifAfterId: ID) {\n\t\t\trouterEntitlements(ifAfterId: $ifAfterId, apiKey: $apiKey, ref: $graph_ref) {\n\t\t\t\t\t__typename\n\t\t\t\t\t... on RouterEntitlementsResult {\n\t\t\t\t\t\t\tid\n\t\t\t\t\t\t\tminDelaySeconds\n\t\t\t\t\t\t\tentitlement {\n\t\t\t\t\t\t\t\t\tjwt\n\t\t\t\t\t\t\t}\n\t\t\t\t\t}\n\t\t\t\t\t... on Unchanged {\n\t\t\t\t\t\t\tid\n\t\t\t\t\t\t\tminDelaySeconds\n\t\t\t\t\t}\n\t\t\t\t\t... on FetchError {\n\t\t\t\t\t\t\tcode\n\t\t\t\t\t\t\tmessage\n\t\t\t\t\t}\n\t\t\t}\n\t\t}"

-- persisted_queries/persisted_queries.go
unfoldable pub manifest_query_text : String
manifest_query_text =
    "query PersistedQueriesManifestQuery($apiKey: String!, $graph_ref: String!, $ifAfterId: ID) {\n\t\t\tpersistedQueries(ref: $graph_ref, apiKey: $apiKey, ifAfterId: $ifAfterId) {\n\t\t\t\t__typename\n\t\t\t\t... on PersistedQueriesResult {\n\t\t\t\t\tid\n\t\t\t\t\tminDelaySeconds\n\t\t\t\t\tchunks {\n\t\t\t\t\t\tid\n\t\t\t\t\t\turls\n\t\t\t\t\t}\n\t\t\t\t}\n\t\t\t\t... on Unchanged {\n\t\t\t\t\tid\n\t\t\t\t\tminDelaySeconds\n\t\t\t\t}\n\t\t\t\t... on FetchError {\n\t\t\t\t\tcode\n\t\t\t\t\tmessage\n\t\t\t\t}\n\t\t\t}\n\t\t}"

-- polling/polling.go
unfoldable pub polled_manifest_query_text : String
polled_manifest_query_text =
    "query PersistedQueriesManifestQuery($apiKey: String!, $graph_ref: String!, $ifAfterId: ID) {\n\t\t\tpersistedQueries(ref: $graph_ref, apiKey: $apiKey, ifAfterId: $ifAfterId) {\n\t\t\t\t__typename\n\t\t\t\t... on PersistedQueriesResult {\n\t\t\t\tid\n\t\t\t\tminDelaySeconds\n\t\t\t\tchunks {\n\t\t\t\t\tid\n\t\t\t\t\turls\n\t\t\t\t}\n\t\t\t\t}\n\t\t\t\t... on Unchanged {\n\t\t\t\t\tid\n\t\t\t\t\tminDelaySeconds\n\t\t\t\t}\n\t\t\t\t... on FetchError {\n\t\t\t\t\tcode\n\t\t\t\t\tmessage\n\t\t\t\t}\n\t\t\t}\n\t\t}"

-- pinning/schema.go
unfoldable pub launch_query_text : String
launch_query_text =
    "\n\t\tquery UplinkRelay_GetLaunchIDSchema($graphId: ID!, $name: String!, $launchId: ID!) {\n\t\t\tgraph(id: $graphId) {\n\t\t\t\tvariant(name: $name) {\n\t\t\t\t\tid\n\t\t\t\t\tlaunch(id: $launchId) {\n\t\t\t\t\t\tcompletedAt\n\t\t\t\t\t\tbuild {\n\t\t\t\t\t\tresult {\n\t\t\t\t\t\t\t__typename\n\t\t\t\t\t\t\t... on BuildSuccess {\n\t\t\t\t\t\t\tcoreSchema {\n\t\t\t\t\t\t\t\tcoreDocument\n\t\t\t\t\t\t\t}\n\t\t\t\t\t\t\t}\n\t\t\t\t\t\t\t... on BuildFailure {\n\t\t\t\t\t\t\terrorMessages {\n\t\t\t\t\t\t\t\tmessage\n\t\t\t\t\t\t\t}\n\t\t\t\t\t\t\t}\n\t\t\t\t\t\t}\n\t\t\t\t\t\t}\n\t\t\t\t\t}\n\t\t\t\t}\n\t\t\t}\n\t\t}\n\t\t"

-- pinning/persisted_queries.go
unfoldable pub builds_query_text : String
builds_query_text =
    "\n\t\tquery UplinkRelay_PinPersistedQueries($ref: ID!){\n\t\t\tvariant(ref: $ref) {\n\t\t\t\t__typename\n\t\t\t\t... on InvalidRefFormat {\n\t\t\t\t\tmessage\n\t\t\t\t}\n\t\t\t\t... on Error {\n\t\t\t\t\tmessage\n\t\t\t\t}\n\t\t\t\t... on GraphVariant {\n\t\t\t\t\tpersistedQueryList {\n\t\t\t\t\t\tbuilds {\n\t\t\t\t\t\t\tedges {\n\t\t\t\t\t\t\t\tnode {\n\t\t\t\t\t\t\t\t\tid\n\t\t\t\t\t\t\t\t\tmanifestChunks {\n\t\t\t\t\t\t\t\t\t\tid\n\t\t\t\t\t\t\t\t\t\tjson\n\t\t\t\t\t\t\t\t\t}\n\t\t\t\t\t\t\t\t}\n\t\t\t\t\t\t\t}\n\t\t\t\t\t\t}\n\t\t\t\t\t}\n\t\t\t\t}\n\t\t\t}\n\t\t}\n\t\t"
