-- ===== src/Lib.antt =====
-- The agent of this repository gathers Kubernetes resources, removes what must not leave the cluster,
-- and uploads the rest. This library models these parts of it:
--
-- * pkg/datagatherer/k8sdynamic (K8sDynamic): informers send events to the handlers of cache.go, which
--   keep a cache of the resources by UID (Cache). `Fetch` of dynamic.go reads the cache, drops what is
--   in other namespaces or matches an exclusion pattern (Fetch), and redacts the objects (Redaction)
--   with the field lists of fieldfilter.go (FieldFilter). Validation is `validate` of its
--   configuration, and Setup makes a gatherer from it.
--   A Go pointer is an address of a heap, since redaction writes to the objects that the cache shares.
--   JSON objects are the data types of Values.
-- * pkg/agent/config.go (Agent.Config): `ValidateAndCombineConfig` chooses the output mode (Mode),
--   checks each section (Sections, Settings), and combines them (Combine), where
--   `validateCredsAndCreateClient` is `create_client`. An error of the Go code is a constructor of
--   `ConfigError`, in the order in which the code appends them. Gatherers decodes the sections by kind.
-- * pkg/client/client_cyberark.go (CyberArk): `convertDataReadings` and its extractors (Snapshot),
--   `minimizeSnapshot` (Minimize) and `PostDataReadingsWithOptions` (Publish); `PutSnapshot` of
--   internal/cyberark/dataupload (Upload). internal/cyberark/client.go puts these together with the next
--   three (Connect).
-- * internal/cyberark/servicediscovery (CyberArk.ServiceDiscovery) finds the services of a tenant,
--   internal/cyberark/identity (CyberArk.Identity) logs in and caches a token, and
--   internal/envelope/keyfetch (CyberArk.KeyFetch) uses it to fetch the key with which
--   internal/envelope/rsa encrypts (CyberArk.Envelope). Each call takes the instants at which it starts
--   and ends, in nanoseconds from Go's zero time.
-- * pkg/agent/run.go (Agent.Run): one round gathers and posts (Agent.Gather), the encryptor and the
--   gatherers are set up before the loop (Agent.Start), and `Run` goes round (Agent.Run). What the gatherers give in
--   each turn, and whether its wait ends with the context, is an explicit list of turns, so that the
--   loop is structural recursion on it; a loop that has not ended after them is `running`.
-- * pkg/client (Clients): the clients of Jetstack Secure with OAuth (Clients.Oauth), of Venafi Cloud
--   (Clients.VenafiCloud), of NGTS (Clients.Ngts) and of a VenafiConnection (Clients.VenConn), those
--   with an API token (Clients.ApiToken) and a file (Clients.File), with the requests, the instants and the private keys
--   that they share (Clients.Http, Clients.Instants, Clients.Keys). `Clients.Client` is the interface
--   that the main loop posts to, and api (Api) has the data that is posted, and its JSON (Api.Json).
-- * pkg/datagatherer/oidc (Gatherers.Oidc), pkg/datagatherer/k8sdiscovery and pkg/datagatherer/local
--   (Gatherers.Discovery): the gatherers that ask once, over the clients of the API server.
-- * pkg/permissions (Permissions): the RBAC manifests for the gatherers of a configuration.
--
-- Code that is not in the repository is a parameter: the helpers of package unstructured
-- (K8sDynamic.NestedFields, implemented over JSON values by K8sDynamic.JsonFields), go-cache
-- (K8sDynamic.ExpiringCache, implemented by K8sDynamic.MemoryCache), the rest of apimachinery, time and
-- JSON (K8sDynamic.Resources), URLs, patterns and the environment (Agent.Config), the PEM and
-- certificate decoders (CyberArk.Minimize), JSON (Api.Json), the parser of key sets, the servers and their answers
-- (CyberArk.ServiceDiscovery, CyberArk.Identity, CyberArk.KeyFetch), the web, forms, JSON, URLs and the
-- signatures of the clients (Clients.Http, Clients.Oauth, Clients.VenafiCloud, Clients.Ngts), the back-off
-- (Agent.Gather), and, for the configuration, the constructors of the clients.
--
-- `searchPEM` runs on fuel, one more than the size of its input: each block that is decoded shortens the
-- input. Everything else is structural recursion.
--
-- Not modelled: logging, the goroutines of the main loop and their shutdown, the transport of HTTP, the
-- declaration of the flags and the decoding of YAML, the run of the informers, the functions of
-- jwe, and the handler of a VenafiConnection.
pub mod Prelude
pub mod Api
pub mod Clients
pub mod Gatherers
pub mod Permissions
pub mod K8sDynamic
pub mod Agent
pub mod CyberArk
