-- ===== src/Lib.antt =====
-- A verification library for wgmesh: the NAT-traversal relay, the agent's choice between a direct
-- path and a relay, the control plane, the ports opened on a host's firewall, and the rate
-- limiter of the public endpoints.
--
-- Relay models internal/relay. Relay.Wire is `wgShaped` of internal/relay/relay.go, Relay.Pair
-- the `pair` with its two `forward` goroutines, Relay.Server the `Server` with `New`, `Allocate`,
-- `Observed`, `cleanupLoop` and `Close`, and Relay.Hub the `WSHub` of internal/relay/wshub.go.
-- Sockets are named by their ports and connections by numbers. A round of a forward goroutine,
-- and a method that runs under a mutex, is one step; the order of the steps is arbitrary.
--
-- Agent models cmd/agent/relay.go: Agent.Backoff its waiting times (and those of
-- cmd/agent/signal.go), Agent.Path the state that the reporter keeps of a peer, Agent.Probe the
-- direct probes of a relayed peer, Agent.Fallback the fallback of a silent peer to a relay. The
-- maps of the reporter from a peer's key are kept as one record for each peer. Agent.Sync is
-- `syncPeers` of cmd/agent/sync.go, with the device behind `wgBackend` as a parameter.
--
-- Control models what cmd/server coordinates between two peers: Control.PairKey the identifier,
-- the preshared key and the relay port that both derive (cmd/server/relayws.go,
-- internal/psk/psk.go, cmd/server/relay.go), Control.Punch the hole punches of
-- cmd/server/report.go, Control.Signal the hub of cmd/server/signal.go, and from
-- cmd/server/main.go Control.Candidates the endpoints that an agent is given for a peer and
-- Control.Entries its WireGuard peers and its ACL policy, and Control.ClientIp the address that
-- the server takes for a client's. The hashes are parameters. Control calls Store for what it
-- knows about peers; in Control.Punch those answers stand in the reports, in Control.Signal in an
-- argument.
--
-- Store models internal/store: Store itself the tables of cmd/server/schema.sql as lists of rows,
-- with the constraints that the engine enforces, Store.Address the allocation of overlay
-- addresses, Store.SetupKeys and Store.Enroll the life of setup keys, `Enroll` with its
-- repetition, and `listVisible`, Store.Peers and Store.Readdress the operations of admin.go,
-- static.go and exit.go on peers, Store.Acl the rules of acl.go, Store.Network the move to new
-- networks of network.go, Store.Telemetry the tokens and the reports of telemetry.go with the
-- connection events of connections.go, Store.Dns the DNS settings of dns.go, Store.Users the
-- accounts of users.go. A transaction is a function into a result with new tables, of which an
-- error has none; `transact` commits or rolls back. Store.Rows, Store.Uses and Store.Valid hold
-- the well-formedness of the tables. Random keys and the hashes of tokens are arguments.
--
-- Firewall models internal/firewall: the manager of firewall.go with its state file, and in
-- Firewall.Backends the commands of backends_linux.go. What a command does to the host is a
-- parameter.
--
-- RateLimiter models internal/httpx/ratelimit.go, with the token bucket as a parameter.
--
-- Times and durations are natural numbers: nanoseconds in Relay, Agent and RateLimiter, seconds
-- in Control, milliseconds in Store. The program's differences of times are signed, and are only
-- compared with waits above zero, so a difference that stops at zero gives the same answers.
-- Loops over lists and maps are recursions on the list, the loops over a port range and over a
-- network recur on the ports and addresses that are left: nothing needs fuel.
--
-- Not modelled: what crosses the network and the system (sockets, TLS, HTTP, netlink, DNS set-up,
-- services, the Windows user interface), logging, and the web interface. What such code answers
-- is a parameter of the definitions that ask.
pub mod Common
pub mod Relay
pub mod Agent
pub mod Control
pub mod Store
pub mod Firewall
pub mod RateLimiter
mod Tests
