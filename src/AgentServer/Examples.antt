-- ===== src/AgentServer/Examples.antt =====
-- An agent's request, and what the server keeps after it.
use protogate.AgentConnection.{AgentConnection, Outcome, new_connection}
use protogate.AgentRegistry.{AgentRegistry, get_agent, is_connected}
use protogate.AgentServer.Header.{HasAuthorization}
use protogate.AgentServer.Admission.{authenticate-accepted, on_agent_disconnect-connect_agent}
use protogate.AgentServer.{
  AuthHeaders, auth_lines, no_headers, Server, Authenticated, unauthorized, conflict, accepted,
  uncaught, connect_agent, authenticate, on_agent_disconnect, tcp_tunnel_key, turns_away,
  port_texts,
}
use protogate.Base.{
  ℕ, ◌≡◌, refl, arith, true, false, List, [], ◌∷◌, ◌++◌, none, some, length, codes, Text, Option,
  Bool,
}
use protogate.Proxy.Examples.{tunnels}
use protogate.Security.Tokens.{TokenCache, validate, success}
use protogate.Storage.Cache.{Cache, get}

abbrev pub hash : Text → Text
hash token = token

abbrev pub number : Text → Option ℕ
number t = some (length t)

abbrev pub tokens : TokenCache
tokens = record {
  entries =
      (
        codes "db",
        record { value = record { token_hash = codes "tnl_a"; expires_at = 90 }; expires_at = 90 },
      )
      ∷ [];
  default_ttl = 50;
}

abbrev hello : Text
hello =
    codes "CONNECT / HTTP/1.1"
    ++ (13
        ∷ 10
        ∷ (codes "Authorization: Bearer tnl_a"
            ++ (13 ∷ 10 ∷ (codes "X-TCP-Ports: 80, " ++ (13 ∷ 10 ∷ 13 ∷ 10 ∷ [])))))

abbrev pub server : Server
server = record { tunnel_cache = tunnels; agent_registry = record { max_agents = 50; agents = [] } }

abbrev outcome : List Outcome
outcome = (connect_agent 9 true (codes "db") server.agent_registry).0

admitted : (authenticate hash number 9 9 true hello tokens server).0 ≡ accepted (codes "db") outcome
unfolding authenticate validate protogate.Security.Tokens.extract_token
    protogate.Security.Tokens.has_prefix protogate.Base.text_eq auth_lines
    protogate.Http.Text.getline protogate.Http.Text.split_at protogate.AgentServer.auth_line
    protogate.Http.Text.pop_cr protogate.Security.Tokens.trim_right
    protogate.Security.Tokens.trim_left protogate.Security.Tokens.validate_token
    protogate.Security.Tokens.search_tokens protogate.Storage.Cache.for_each
    protogate.AgentServer.admit is_connected get_agent protogate.Base.find
    protogate.AgentServer.add_ports get port_texts protogate.AgentServer.register_ports
    protogate.Http.Text.trim protogate.Storage.Cache.live protogate.Security.Tokens.is_blank
admitted = refl

authenticate-accepted_example :
    ((value : Text) × HasAuthorization hello value
      × (validate hash 9 9 value tokens ≡ success (codes "db")))
    × (is_connected (codes "db") server.agent_registry ≡ false)
authenticate-accepted_example =
    authenticate-accepted hash number 9 9 true hello (codes "db") tokens server outcome admitted

-- The second agent of a tunnel.
abbrev taken : AgentRegistry
taken = record { max_agents = 50; agents = (codes "db", new_connection (codes "db")) ∷ [] }

on_agent_disconnect-connect_agent_example :
    (get_agent (codes "db") (connect_agent 9 true (codes "db") taken).1
      ≡ some (new_connection (codes "db")))
    × (get_agent
          (codes "db")
          (on_agent_disconnect (codes "db") (connect_agent 9 true (codes "db") taken).1)
        ≡ none)
unfolding protogate.Base.find get_agent protogate.Base.text_eq protogate.AgentRegistry.calls_back
    protogate.AgentConnection.start new_connection protogate.AgentConnection.start_session
    protogate.AgentConnection.send_pending_data
on_agent_disconnect-connect_agent_example =
    on_agent_disconnect-connect_agent 9 true (codes "db") (new_connection (codes "db")) taken
      (omega arith, (refl, tt)) refl refl

taken_test :
    get_agent (codes "db") (connect_agent 9 true (codes "db") taken).1
    ≡ some (new_connection (codes "db"))
unfolding get_agent protogate.Base.find connect_agent protogate.AgentRegistry.calls_back
    protogate.AgentConnection.start new_connection protogate.AgentConnection.start_session
    protogate.AgentConnection.send_pending_data protogate.AgentRegistry.register_agent
    protogate.Base.count_of protogate.Base.text_eq
taken_test = refl

ports_test : port_texts 9 (codes "80,,81 ,x") ≡ codes "80" ∷ [] ∷ codes "81 " ∷ codes "x" ∷ []
unfolding port_texts protogate.Http.Text.split_at
ports_test = refl
