-- ===== src/Lib.antt =====
-- sshhub: an SSH gateway. Agents on backends keep a tunnel to the hub; users open "direct-tcpip"
-- channels through the hub to the backends that their jump user was granted; the hub updates itself
-- from signed releases.
--
-- The parts and their files, with paths from the repository's root:
--   RateLimit   internal/ratelimit/ratelimit.go. The limiter is a map from keys to sources; each method
--               is a function of the limiter, the key and the time. RateLimit/Examples runs it.
--   Routing     internal/routing/routing.go: logins, rules, and the glob matcher (Routing/Glob).
--   Config      internal/config/config.go: the schema; Config/Routes the spellings of a route,
--               Config/Lookup the searches for a backend, Config/Validate the checks of a file.
--               Config/Manage is internal/config/manage.go.
--   Release     internal/release: signed manifests (release.go) and the trusted key (trustedkey.go).
--   HubTls      internal/hubtls/hubtls.go: the hub's certificate over restarts (Identity) and where it is
--               from (Origin), and the agent's check of its pin (Pin).
--   HubUpdate   internal/hubupdate/update.go: Version compares versions, Manifest fetches what is
--               signed, AutoUpdate decides when to install (Loop: over many checks), Download fetches and
--               installs, Latest looks up the latest release and puts one check of the updater together.
--   Control     internal/control: Registry (registry.go) holds the tunnels, Server (server.go) is what a
--               hub does with an agent's connection at one blow, with the token resolver of
--               cmd/sshhub/main.go, Listener is the same at the grain of the goroutines, with the slots,
--               Client (client.go) is the agent's end, with Streams for the tunnels it serves and Wire for
--               the messages (protocol.go). Refinement has the abstract account of ownership.
--   Proxy       internal/proxy/proxy.go: who gets through, and to which backend; Proxy/New makes the
--               server, Proxy/Serve is the accept loop with its slots, Proxy/Channels the loop over a
--               client's channels.
--   Gateway     cmd/sshhub/main.go: the TLS identity of the control plane; Boot is main up to the running
--               hub, System the hub as it runs, and EndToEnd goes from a client to an agent.
--   Admin       internal/admin/admin.go: the Unix socket with the hub's status.
--   Agent       cmd/sshhub-agent/main.go: the checks at the start, and the loop that reconnects.
--   Ctl         cmd/sshhub-ctl/main.go: Args reads the arguments; Add, Listing, Update and Pin are the
--               commands. Listing/Table is what "list" prints, Listing/Duration its time spans.
--   AgentUpdate cmd/sshhub-agent-update/main.go: when the helper installs an update of an agent, and
--               with which arguments (Carried: those of the unit).
--   SignTool    cmd/sshhub-sign/main.go: the signed manifest of a release, the key pairs (Keygen), and
--               the commands as a whole (Command).
--   Base, Text  shared helpers: tests, lists, maps, results, and Go's functions on strings.
--
-- How they interact: Proxy searches backends by Config/Lookup and opens streams by Control/Registry;
-- its `handle` releases the slot that RateLimit gave and records failures and successes there;
-- Control/Server resolves tokens by Config/Lookup and compares versions by HubUpdate/Version; HubUpdate
-- verifies manifests and artifacts by Release; Config/Validate gives the configurations that the others
-- work on. Control/Client's request is answered by Control/Server; Agent makes its TLS configuration by
-- HubTls and goes on with Control/Client. Ctl calls Config/Manage, HubUpdate, HubTls and the registry's
-- status, which Admin sends; Gateway makes the certificate whose pin Ctl shows, starts all parts of the
-- hub, and joins Control/Listener and Proxy/Channels by the registry that they share. SignTool signs
-- what Release verifies, and AgentUpdate fetches by HubUpdate/Manifest.
--
-- Conventions. A text is a list of bytes. A time is a number of nanoseconds, and 0 is Go's zero time; a
-- duration that may be negative is an integer. A Go map is an association list, or a function where the
-- order of its keys plays no part. A method under a mutex is one step. An early return with an error is
-- `err` of the component's own error type, in Base/Results. Goroutines are steps of a state: an event
-- says whose turn it is, and a run is a list of events, so a statement about every list is one about
-- every interleaving. An event for a connection that is not at that point changes nothing. The entries
-- of a state are those that hold a slot. Tokens of the limiter are whole parts of a token, `unit` parts
-- each, where the code has float64: rounding is not modelled.
--
-- The network, the clock, the file system, the archive reader, yamux, JSON, YAML, base64, hex, Ed25519,
-- SHA-256, X.509, PEM, the parser of authorized keys, the one of durations and the one of IP addresses
-- are parameters. What is relied on of them is a hypothesis: `CodecLaws` in Release/RoundTrip,
-- `CryptoLaws` in Ctl/Pin, `KeepsBackends` in Ctl/Add/Token, `PairLaws` in SignTool/Keygen,
-- `JsonLaws` in Control/Client/Wire, and `FromCallback` in Proxy/Access.
--
-- Fuel: the loop of the glob matcher has (len(value) + 1) * (len(pattern) + 1) rounds; that it always
-- answers within them is a result below. The digits of a number n have n + 1 rounds (Text/Decimal).
--
-- Not modelled: the update header of internal/control/protocol.go, which nothing sends, the copying of
-- bytes through tunnels, deadlines, the padding of the tables that cmd/sshhub-ctl prints, usage texts,
-- signals, restarts of services, and logging. The rendering of time spans divides exactly where the
-- code divides in float64; the two are the same below 4096 hours, which the result on it asks for.
-- internal/version is one string, an argument here.
pub mod Base
pub mod Text
pub mod RateLimit
pub mod Config
pub mod Routing
pub mod Release
pub mod HubTls
pub mod HubUpdate
pub mod Control
pub mod Proxy
pub mod Gateway
pub mod Agent
pub mod AgentUpdate
pub mod Admin
pub mod Ctl
pub mod SignTool
