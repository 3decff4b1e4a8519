-- ===== src/Lib.antt =====
-- Uplink Relay: a proxy between Apollo Routers and Apollo Uplink that caches the three artifacts of a
-- router (the supergraph schema, the license and the manifest of persisted queries), keeps them
-- fresh by polling and webhooks, and can pin them to a version.
--
-- A request goes to RelayHandler (proxy/proxy.go), which looks it up in the cache under a key of its
-- graph_ref, its operation name and its variables, answers from the pinned artifacts of the
-- configuration if there are some, and else forwards it to an uplink that a round-robin selector
-- chooses; the response is cached on its way back. Polling, webhooks and the management API write to
-- the same cache, and pinning rewrites the configuration as well.
--
-- Files:
--   Common        helpers: tests, lists, texts, results of calls, integers, instants
--   Uplink        uplink/uplink.go: operation names and RoundRobinSelector (`next`); Uplink/RoundRobin
--                 has the order of the URLs
--   GraphRef      internal/util/graphref.go: ParseGraphRef
--   Config        config/config.go: the structs, NewDefaultConfig, MergeWithDefaultConfig, Validate,
--                 FindSupergraphConfigFromGraphRef; LoadConfig and expandEnvInStruct are in
--                 Config/Environment; the other child modules have theorems
--   Wire, Queries the JSON structs of all packages and the GraphQL queries
--   Externals     what comes from libraries and services
--   Cache         cache/cache.go and cache/in_memory.go: the interface Cache, the keys (Cache/Keys),
--                 UpdateNewest (Cache/Newest) and MemoryCache (Cache/Memory); what the handlers rely
--                 on of a cache is the record Keeps of Cache/Keeping
--   TieredCache   tiered_cache/tiered.go: a list of caches as one; TieredCache/Parts puts caches on the
--                 parts of one state
--   FilesystemCache  filesystem_cache/filesystem.go, over Go's os package as a parameter
--   Redis         redis/redis.go, over the client library as a parameter
--   Startup       main.go: the choice of the caches, startup, and main up to the wait for signals
--                 (Startup/Launch)
--   Reload        main.go: the handling of SIGHUP, the pollers and the channel stopPolling
--   Server        the state of the handlers: a cache and the configuration
--   UplinkRequest internal/util/request.go
--   Schema        schema/schema.go: FetchSchema, CacheSchema
--   Entitlements  entitlements/entitlements.go: FetchRouterLicense, CacheLicense
--   PersistedQueries  persisted_queries/persisted_queries.go
--   Pinning       pinning/: a file for each artifact, and HandlePinnedEntry in Pinning/Entry
--   Proxy         proxy/proxy.go: RelayHandler; handleCacheHit in Proxy/Hit, modifyProxiedResponse in
--                 Proxy/Response; the other files below it have theorems
--   Polling       polling/polling.go: pollForUpdates, and StartPolling in Polling/Schedule
--   Webhooks      webhooks/webhooks.go: WebhookHandler
--   Management    graph/schema.resolvers.go, graph/config.go: the mutations, the queries and
--                 GetConfigDetails; what a deletion leaves is in Management/Survivors; graph/model/models_gen.go in Management/Model and, for the texts of
--                 the enumerations, Management/Enums
--   System        the running program: the handlers, the rounds of polling and the mutations as calls on
--                 one state, in any order (`run`); below it, a file for each group of calls on what
--                 they do to a predicate on the state (Common/Invariants, Cache/Writes)
--   Tests         the theorems at concrete inputs
--
-- How the code is modelled. A call that changes a state S and may fail is an Act S A: it gives a
-- Result (a value, an error or a panic) and the state, changed up to the point of the failure. A
-- handler gives the list of its writes to the ResponseWriter. The cache is a parameter, an
-- implementation of the interface Cache over a state of its own; the in-memory cache is one, whose map
-- is an association list, and the order in which Go visits the map is an argument of Set. The clock is
-- an argument: one instant for each call of a handler, in nanoseconds since year 1. A duration in
-- seconds is multiplied to an int64 with its wrap-around. The counters of the cache are unbounded
-- integers, as are the other ints of the program: the wrap-around of a 64-bit counter is not modelled.
-- A request takes place alone: the mutexes make each operation of the selector and the cache one
-- step, and a history of the running program is a sequence of whole calls. Where one call is inside
-- another, as two requests that wait for an uplink, the order of their operations is not modelled.
-- Logging is left out.
--
-- The JSON codecs, hashes, time formats, URLs and HTTP exchanges are fields of the record Externals;
-- what a theorem needs of them stands in its hypotheses: RoundTrips (Unmarshal gives back what Marshal
-- was given), PrintsByKey (fmt prints a map in the order of its keys) and Inflates (zlib gives back
-- what was written). HTTP exchanges are functions of the request: in one history a service answers the
-- same request the same way each time. What os does is assumed for paths that name different files;
-- which those are is left to the disk. There is no fuel: every loop is over a list or counts down its attempts.
--
-- main.go gives three caches at most: their states are the parts of a pair, and each cache works on its
-- own part. A reload is a step relation: the goroutine that handles SIGHUP, the pollers and the process
-- interleave at the operations of the two channels, which have room for one value each. A poller is the
-- number of the configuration that it was started with, and it is there if StartPolling comes to a
-- loop with that configuration (`listens` of Polling/Schedule). StartPolling itself is a function of a
-- sequence of events: the ticker fires, or the stop channel gives a value; with cron expressions it is
-- followed up to the start of the schedule.
--
-- What LoadConfig reads is a Config; expandEnvInStruct walks over it as reflect shows it, as a tree of
-- kinds, and carries along whether a value can be set. The clauses for maps are there, although no
-- Config has a map.
--
-- Most calls are composed of others by the rules of the type Act. That a call keeps a predicate on the
-- state is the type Preserves, with a rule for each way to compose calls (Common/Invariants), and what
-- the program gives to Set is the type IsWrite of Cache/Writes: the key, the value and the duration of
-- each kind of entry, and for the items of pins what they were made of (IsPin). A call that panics leaves the state behind that it
-- had reached; net/http goes on with the next request, and the rounds of polling are taken to go on
-- too.
--
-- Not modelled: the command-line flags and the printing of the JSON schema, the ticker, which only says when a
-- round runs, the jobs of the cron library, which run in goroutines of their own, the decoder of YAML, net/http with the server that
-- StartServer starts and ShutdownServer stops, the generated GraphQL server, the logger. The go
-- statement of the back-fill in tiered_cache/ is not modelled beyond the list of caches that it is
-- given.
pub mod Common
pub mod Uplink
pub mod GraphRef
pub mod Config
pub mod Wire
pub mod Queries
pub mod Externals
pub mod Cache
pub mod FilesystemCache
pub mod Redis
pub mod Reload
pub mod Startup
pub mod System
pub mod TieredCache
pub mod PersistedQueries
pub mod Server
pub mod UplinkRequest
pub mod Schema
pub mod Entitlements
pub mod Proxy
pub mod Polling
pub mod Webhooks
pub mod Management
pub mod Pinning
mod Tests
