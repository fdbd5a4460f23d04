-- ===== src/AgentServer/Presented.antt =====
-- The agent's own request at the server.
use protogate.Agent.Session.{auth_request}
use protogate.AgentConnection.{new_connection, start}
use protogate.AgentServer.Examples.{hash, tokens, server}
use protogate.AgentServer.Hello.{lacks, lacks→Lacks, authenticate-auth_request}
use protogate.AgentServer.{accepted, authenticate, tcp_tunnel, tcp_tunnel_key}
use protogate.Base.{ℕ, ◌≡◌, refl, arith, true, some, Option, Text, codes}
use protogate.Proxy.Examples.{db}
use protogate.Storage.Cache.{get}

-- Reads every text as the port that agents send.
abbrev number : Text → Option ℕ
number t = some 9100

authenticate-auth_request_example :
    let (answer, after) =
      authenticate hash number 9 9 true (auth_request (codes "tnl_a") (codes "x")) tokens server in
    (answer ≡ accepted (codes "db") (start 9 true (new_connection (codes "db"))).0)
    × (get 20 (tcp_tunnel_key (codes "db") 9100) after.tunnel_cache
        ≡ some (tcp_tunnel 9 (codes "db") db))
unfolding protogate.Security.Tokens.validate protogate.Security.Tokens.extract_token
    protogate.Security.Tokens.has_prefix protogate.Base.text_eq protogate.Security.Tokens.trim_right
    protogate.Security.Tokens.trim_left protogate.Security.Tokens.validate_token
    protogate.Security.Tokens.search_tokens protogate.Storage.Cache.for_each
    protogate.Storage.Cache.live protogate.Security.Tokens.is_blank
    protogate.AgentRegistry.is_connected protogate.AgentRegistry.get_agent protogate.Base.find get
authenticate-auth_request_example =
    authenticate-auth_request hash number 9 9 20 true (codes "tnl_a") (codes "x") (codes "db")
      tokens server db (lacks→Lacks 10 (codes "tnl_a") (unfold lacks in refl))
      (lacks→Lacks 10 (codes "x") (unfold lacks in refl)) refl refl refl refl (omega arith)
