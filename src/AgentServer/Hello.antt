-- ===== src/AgentServer/Hello.antt =====
-- The request of tunnel-agent/src/client/http2_session.cpp at src/server/agent_server.cpp.
use protogate.Agent.Session.{auth_request}
use protogate.AgentConnection.{new_connection, start}
use protogate.AgentRegistry.{is_connected}
use protogate.Models.Tunnel.{Tunnel}
use protogate.Storage.Cache.{Cache, get, put_ttl}
use protogate.Storage.CacheLaws.{get-put_ttl}
use protogate.AgentServer.{
  AuthHeaders, auth_line, auth_lines, no_headers, Server, Authenticated, unauthorized, accepted,
  admit, authenticate, add_ports, port_texts, register_ports, tcp_tunnel, tcp_tunnel_key, day,
  connect_agent,
}
use protogate.Base.{
  ◌<◌, ◌+◌, text_eq_refl, ℕ, suc, ◌≤◌, ◌≡◌, refl, ◌∙◌, ap, Bool, true, false, not, ◌&&◌, [], ◌∷◌,
  ◌++◌, ◌-◌, append_assoc, arith, Option, some, length, ◌==◌, All-append, Text, text_eq, codes,
}
use protogate.Http.Lines.{Lacks, getline-line, pop_cr-append}
use protogate.Http.Text.{getline, is_last, pop_cr, split_at, trim}
use protogate.Security.Tokens.{
  has_prefix, TokenCache, validate, success, invalid_format, invalid_token,
}

-- A test for a text that is written out.
unfoldable pub lacks : ℕ → Text → Bool
lacks c [] = true
lacks c (x ∷ s) = not (x == c) && lacks c s

pub lacks→Lacks : (c : ℕ) (s : Text) → lacks c s ≡ true → Lacks c s
unfolding lacks
lacks→Lacks c [] e = tt
lacks→Lacks c (x ∷ s) e = ground (arith, lacks→Lacks c s)

getline_cr :
    (s rest : Text) → Lacks 10 s → getline (s ++ (13 ∷ 10 ∷ rest)) ≡ some (s ++ (13 ∷ []), rest)
getline_cr s rest clean = rw (← append_assoc s (13 ∷ []) (10 ∷ rest)) (
    getline-line (s ++ (13 ∷ [])) rest
      (All-append (λ x. (x == 10) ≡ false) s (13 ∷ []) clean (refl, tt)))

-- One line with its end, in front of the others.
auth_lines-line :
    (n : ℕ) (s rest : Text) (h : AuthHeaders)
    → Lacks 10 s
    → is_last (s ++ (13 ∷ [])) ≡ false
    → auth_lines (suc n) (s ++ (13 ∷ 10 ∷ rest)) h
      ≡ auth_lines n rest (auth_line (s ++ (13 ∷ [])) h)
unfolding auth_lines
auth_lines-line n s rest h clean more = ground (arith, getline_cr s rest clean, more)

auth_lines-blank :
    (n : ℕ) (rest : Text) (h : AuthHeaders) → auth_lines (suc n) (13 ∷ 10 ∷ rest) h ≡ h
unfolding auth_lines getline text_eq protogate.Http.Text.split_at
auth_lines-blank n rest h = refl

auth_line-authorization :
    (token : Text) (h : AuthHeaders)
    → auth_line (codes "Authorization: Bearer " ++ (token ++ (13 ∷ []))) h
      ≡ record h { authorization = codes "Bearer " ++ token }
unfolding auth_line text_eq has_prefix
auth_line-authorization token h = rw (pop_cr-append (codes "Authorization: Bearer " ++ token)) refl

auth_line-tunnel_id :
    (id : Text) (h : AuthHeaders)
    → auth_line (codes "X-Tunnel-ID: " ++ (id ++ (13 ∷ []))) h ≡ record h { tunnel_id_header = id }
unfolding auth_line text_eq has_prefix
auth_line-tunnel_id id h = rw (pop_cr-append (codes "X-Tunnel-ID: " ++ id)) refl

-- The server reads from the agent's request its token and its tunnel's id, and port 9100.
pub auth_lines-auth_request :
    (n : ℕ) (token id : Text)
    → Lacks 10 token
    → Lacks 10 id
    → auth_lines (suc (suc (suc (suc (suc (suc (suc n))))))) (auth_request token id) no_headers
      ≡ record {
        authorization = codes "Bearer " ++ token;
        tunnel_id_header = id;
        tcp_ports = codes "9100";
      }
unfolding auth_request auth_line text_eq has_prefix pop_cr lacks
auth_lines-auth_request n token id clean_token clean_id =
    let blank : Text = 13 ∷ 10 ∷ [] in
    let ports : Text = codes "X-TCP-Ports: 9100" ++ (13 ∷ 10 ∷ blank) in
    let version : Text = codes "X-Agent-Version: 1.0.0" ++ (13 ∷ 10 ∷ ports) in
    let tunnel : Text = codes "X-Tunnel-ID: " ++ (id ++ (13 ∷ 10 ∷ version)) in
    let bearer : Text = codes "Authorization: Bearer " ++ (token ++ (13 ∷ 10 ∷ tunnel)) in
    let host : Text = codes "Host: tunnel-agent" ++ (13 ∷ 10 ∷ bearer) in
    let h1 : AuthHeaders = record no_headers { authorization = codes "Bearer " ++ token } in
    let h2 : AuthHeaders = record h1 { tunnel_id_header = id } in
    let h3 : AuthHeaders = record h2 { tcp_ports = codes "9100" } in
    auth_lines-line (suc (suc (suc (suc (suc (suc n)))))) (codes "CONNECT tunnel-agent HTTP/1.1")
      host no_headers (lacks→Lacks 10 (codes "CONNECT tunnel-agent HTTP/1.1") refl) refl
    ∙ auth_lines-line (suc (suc (suc (suc (suc n))))) (codes "Host: tunnel-agent") bearer no_headers
        (lacks→Lacks 10 (codes "Host: tunnel-agent") refl) refl
    ∙ auth_lines-line (suc (suc (suc (suc n)))) (codes "Authorization: Bearer " ++ token) tunnel
        no_headers
        (All-append (λ x. (x == 10) ≡ false) (codes "Authorization: Bearer ") token
          (lacks→Lacks 10 (codes "Authorization: Bearer ") refl) clean_token)
        refl
    ∙ ap (auth_lines (suc (suc (suc (suc n)))) tunnel) (auth_line-authorization token no_headers)
    ∙ auth_lines-line (suc (suc (suc n))) (codes "X-Tunnel-ID: " ++ id) version h1
        (All-append (λ x. (x == 10) ≡ false) (codes "X-Tunnel-ID: ") id
          (lacks→Lacks 10 (codes "X-Tunnel-ID: ") refl) clean_id)
        refl
    ∙ ap (auth_lines (suc (suc (suc n))) version) (auth_line-tunnel_id id h1)
    ∙ auth_lines-line (suc (suc n)) (codes "X-Agent-Version: 1.0.0") ports h2
        (lacks→Lacks 10 (codes "X-Agent-Version: 1.0.0") refl) refl
    ∙ auth_lines-line (suc n) (codes "X-TCP-Ports: 9100") blank h2
        (lacks→Lacks 10 (codes "X-TCP-Ports: 9100") refl) refl
    ∙ auth_lines-blank n [] h3

auth_lines-length :
    (token id : Text)
    → Lacks 10 token
    → Lacks 10 id
    → auth_lines (length (auth_request token id)) (auth_request token id) no_headers ≡ record {
      authorization = codes "Bearer " ++ token;
      tunnel_id_header = id;
      tcp_ports = codes "9100";
    }
auth_lines-length token id clean_token clean_id =
    let n = length (auth_request token id) in
    let enough : 7 ≤ n = unfold auth_request in omega arith in
    let same : suc (suc (suc (suc (suc (suc (suc (n - 7))))))) ≡ n = omega arith in
    rw (← same) (auth_lines-auth_request (n - 7) token id clean_token clean_id)

-- The validator decides, by the token that the agent has.
authenticate-validate :
    (compute_token_hash : Text → Text) (stoi : Text → Option ℕ) (now wall : ℕ) (ok : Bool)
    (token id : Text) (tokens : TokenCache) (s : Server)
    → Lacks 10 token
    → Lacks 10 id
    → authenticate compute_token_hash stoi now wall ok (auth_request token id) tokens s
      ≡ (elim (validate compute_token_hash now wall (codes "Bearer " ++ token) tokens) [
        | success tunnel_id ↦ admit compute_token_hash stoi now wall ok tunnel_id (codes "9100") s
        | invalid_format ↦ (unauthorized, s)
        | invalid_token ↦ (unauthorized, s)
      ])
unfolding authenticate
authenticate-validate compute_token_hash stoi now wall ok token id tokens s clean_token clean_id =
    let answer : AuthHeaders → Authenticated × Server = λ h.
      elim (validate compute_token_hash now wall h.authorization tokens) [
        | success tunnel_id ↦ admit compute_token_hash stoi now wall ok tunnel_id h.tcp_ports s
        | invalid_format ↦ (unauthorized, s)
        | invalid_token ↦ (unauthorized, s)
      ] in
    ap answer (auth_lines-length token id clean_token clean_id)

-- The port that every agent sends.
add_ports-9100 :
    (stoi : Text → Option ℕ) (now wall : ℕ) (id : Text) (existing : Tunnel) (tunnels : Cache Tunnel)
    → stoi (codes "9100") ≡ some 9100
    → get now id tunnels ≡ some existing
    → add_ports stoi now wall id (codes "9100") tunnels
      ≡ (true, put_ttl now (tcp_tunnel_key id 9100) (tcp_tunnel wall id existing) day tunnels)
unfolding add_ports port_texts split_at register_ports trim
add_ports-9100 stoi now wall id existing tunnels number found =
    rw (add_ports, found, register_ports, number) refl

-- An agent whose token and tunnel's id hold no newline is connected by its request for the tunnel for
-- which the validator accepts the token, whatever id it sent, if no connected agent is registered for
-- that tunnel, the cache holds the tunnel, and "9100" is read as the number. The connection is started,
-- and for a day the cache holds a tunnel of port 9100 with the target of the agent's.
pub authenticate-auth_request :
    (compute_token_hash : Text → Text) (stoi : Text → Option ℕ) (now wall later : ℕ) (ok : Bool)
    (token sent_id id : Text) (tokens : TokenCache) (s : Server) (existing : Tunnel)
    → Lacks 10 token
    → Lacks 10 sent_id
    → stoi (codes "9100") ≡ some 9100
    → validate compute_token_hash now wall (codes "Bearer " ++ token) tokens ≡ success id
    → is_connected id s.agent_registry ≡ false
    → get now id s.tunnel_cache ≡ some existing
    → later < now + day
    → let (answer, after) =
        authenticate compute_token_hash stoi now wall ok (auth_request token sent_id) tokens s in
      (answer ≡ accepted id (start now ok (new_connection id)).0)
      × (get later (tcp_tunnel_key id 9100) after.tunnel_cache ≡ some (tcp_tunnel wall id existing))
unfolding admit connect_agent
authenticate-auth_request compute_token_hash stoi now wall later ok token sent_id id tokens s
      existing clean_token clean_id number valid free found before =
    let key = tcp_tunnel_key id 9100 in
    let stored =
      get-put_ttl now later key key (tcp_tunnel wall id existing) day s.tunnel_cache
      ∙ ground (arith, text_eq_refl key, before) in
    rw
      (
        authenticate-validate compute_token_hash stoi now wall ok token sent_id tokens s clean_token
            clean_id,
        valid,
        admit,
        free,
        add_ports-9100 stoi now wall id existing s.tunnel_cache number found,
      )
      (refl, stored)
