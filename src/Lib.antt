-- ===== src/Lib.antt =====
-- Protogate: a tunnel server (src/) that reaches services behind a firewall through agents
-- (tunnel-agent/src/). Clients connect to the server; it passes their bytes in frames to the agent of
-- the tunnel, which connects to the target and passes the answers back.
--
-- The parts and the files that model them:
--   Wire       src/proxy/tcp_protocol.h, tcp_protocol.cpp: the five frames between server and agent.
--              A byte string is a list of numbers; Wire.Frames has one function for each `serialize`
--              and `deserialize`, an exception is an error value, and a read behind the buffer, which
--              C++ leaves undefined, is the error `out_of_bounds`. Wire.ConnectionId prints and reads
--              the ids of connections. `htonl` and its kin depend on the platform: they are the
--              parameter `ByteOrder`, of which Wire.Hosts has both instances.
--   Agent      tunnel-agent/src/client/http2_session.cpp: which bytes of a read are TCP frames, the
--              calls of the forwarder that they make, and the bytes that go on to the HTTP/2 library.
--              The loop runs on fuel, one unit for each byte: a frame has at least one. Agent.Stream
--              says which reads a frame is too short for, and how many bytes fit into the read buffer.
--   Allowlist  src/security/ip_allowlist.h, ip_allowlist.cpp: address ranges, their texts, and the
--              test of an address. `inet_pton` is the parameter `Pton`.
--   Models     src/models/tunnel.h, tunnel.cpp: a tunnel's configuration and its validation. The
--              regular expression of tunnel ids is a recogniser by clauses.
--   Storage    src/storage/cache.h, tunnel_registry.h, tunnel_registry.cpp: a cache with times to
--              live, and the registry of tunnels on top of it. The clock is an argument of each
--              operation; a mutex covers each of them whole, so that runs are sequences of calls.
--   Security   src/security/token_validator.h, token_validator.cpp: bearer tokens in such a cache.
--              SHA-256 is a parameter.
--   Proxy      src/proxy/tcp_proxy.h, tcp_proxy.cpp: the connections of clients, in a map from the texts
--              of their ids. Each function returns the new proxy and the calls of the agent's
--              connection; the completions of asynchronous calls are functions of their own, and
--              Proxy.Events runs the server's calls in any order. The look-up of an agent and the ids
--              that are drawn at random are arguments.
--   Multiplexer
--              src/proxy/protocol_multiplexer.h, protocol_multiplexer.cpp: the frames of the multiplexed
--              stream and the output buffer. Multiplexer.Output has a reader that takes one frame after
--              the other; its fuel is the number of frames.
--   Agent.Session, Agent.Requests
--              the same file: how the agent presents itself, and the requests that nghttp2's callbacks put
--              together, as events with the ids of their streams.
--   AgentProcess
--              tunnel-agent/src/main.cpp, config/agent_config.h, agent_config.cpp, utils/reconnect.h,
--              reconnect.cpp, health/heartbeat.h, heartbeat.cpp, and the reading of the local URL in
--              forwarder/request_forwarder.cpp: the configuration, the pauses between connections, the
--              timer's checks, and the addresses of the local service.
--   RateLimiter
--              src/security/rate_limiter.h, rate_limiter.cpp: token buckets. A `double` is the parameter
--              `Double` with the laws `IsDouble`, which numbers without fractions meet.
--   Router     src/api/router.h, router.cpp: patterns, the expressions that they are compiled to, and the
--              choice of a route. Router.Regex has the part of `std::regex` that these expressions use. The
--              loop over a pattern runs on fuel, one unit more than its characters; a turn takes two.
--   TcpServer  src/server/tcp_server.h, tcp_server.cpp: the tunnel of a TCP port, what becomes of a
--              connection, and the counts. It reads the tunnels that AgentServer registers.
--   Metrics    src/observability/metrics.h, metrics.cpp: counters, samples and statistics.
--   AgentConnection
--              src/agent/agent_connection.h, agent_connection.cpp: the server's side of an agent's
--              connection. A method returns what it calls, in order, and the new state; a callback is a
--              number; what nghttp2 and the socket return is an argument, and what nghttp2 calls while
--              it reads is a list of calls. AgentConnection.Answers runs methods and completions in any
--              order.
--   AgentRegistry
--              src/agent/agent_registry.h, agent_registry.cpp: the agents by their tunnels.
--   AgentServer
--              src/server/agent_server.cpp: the request with which an agent presents itself, and its
--              registration. The loops over lines and ports run on fuel, one unit for each character.
--   Http       src/proxy/http_proxy.h, http_proxy.cpp: HTTP requests and responses as text, the tunnel of
--              a host name, and the admission of a request. Http.Text has the reading of a stream; its
--              loop over the header lines runs on fuel, one unit for each character that is left, and a
--              line takes at least one.
--   Tunnels    src/api/tunnels_handler.h, tunnels_handler.cpp: the management of tunnels. A handler
--              returns its reply, what it asks of Key Vault, and the new caches and registry.
--   Forwarder  tunnel-agent/src/forwarder/tcp_forwarder.h, tcp_forwarder.cpp: the agent's connections to
--              the local service, as objects in a store to which the map and the callbacks refer, and
--              the frames that it builds from the platform's memory images (the parameter `Host`). A write
--              is a call of `async_write` with the place of its buffer, which has to outlast the call.
--   Base       what the parts share: tests, lists, results, maps with texts for keys.
--
-- Not modelled: sockets, threads and timers, the HTTP/2, JSON, TLS and Azure libraries and the code
-- that only calls them, logging, and the texts that export metrics.
pub mod Agent
pub mod AgentConnection
pub mod AgentProcess
pub mod AgentRegistry
pub mod AgentServer
pub mod Allowlist
pub mod Base
pub mod Forwarder
pub mod Http
pub mod Metrics
pub mod Models
pub mod Multiplexer
pub mod Proxy
pub mod RateLimiter
pub mod Router
pub mod Security
pub mod Storage
pub mod TcpServer
pub mod Tunnels
pub mod Wire
