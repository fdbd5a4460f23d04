-- ===== src/AgentProcess/Targets.antt =====
-- The two readings of the local service's address.
use protogate.AgentProcess.LocalUrl.{
  behind_scheme, host_and_port, path_prefix, parse_local_url, until_slash, tcp_target,
}
use protogate.Base.{
  ℕ, zero, suc, ◌+◌, ◌/◌, Bool-cases, inl, inr, ltb, ◌-◌, ◌%◌, ◌^◌, ◌<◌, ◌≡◌, refl, lt→ltb, false,
  [], ◌∷◌, ◌++◌, arith, Option, none, some, length, length-append, take_append_len, ◌==◌,
  All-append, Text, text_eq, codes, append_assoc, ap, ap,
}
use protogate.Http.Lines.{Lacks, split_at-first}
use protogate.Http.Response.{decimal, decimal_from}
use protogate.Http.Text.{split_at}
use protogate.Security.Tokens.{has_prefix}

behind_scheme-url :
    (scheme rest : Text)
    → Lacks 58 scheme
    → behind_scheme (scheme ++ (58 ∷ 47 ∷ 47 ∷ rest)) ≡ some rest
unfolding behind_scheme has_prefix text_eq
behind_scheme-url [] rest clean = refl
behind_scheme-url (c ∷ scheme) rest (other, clean) =
    ground (arith, other, behind_scheme-url scheme rest clean)

split_at-Lacks : (c : ℕ) (t : Text) → Lacks c t → split_at c t ≡ none
unfolding split_at
split_at-Lacks c [] clean = refl
split_at-Lacks c (x ∷ t) (other, clean) = ground (arith, other, split_at-Lacks c t clean)

-- `host:port/path`
abbrev pub with_port : Text → Text → Text → Text
with_port host port path = host ++ (58 ∷ (port ++ (47 ∷ path)))

split_at-slash :
    (host port path : Text)
    → Lacks 47 host
    → Lacks 47 port
    → split_at 47 (with_port host port path) ≡ some (host ++ (58 ∷ port), path)
split_at-slash host port path clean_host clean_port =
    rw (← append_assoc host (58 ∷ port) (47 ∷ path)) (
      split_at-first 47 (host ++ (58 ∷ port)) path
        (All-append (λ x. (x == 47) ≡ false) host (58 ∷ port) clean_host (refl, clean_port)))

port_length : (host port : Text) → length (host ++ (58 ∷ port)) - length host - 1 ≡ length port
port_length host port = omega (arith, length-append {0} host (58 ∷ port))

host_and_port-url :
    (host port path rest : Text)
    → host_and_port rest (some (host, port ++ (47 ∷ path))) (some (host ++ (58 ∷ port), path))
      ≡ (host, port)
unfolding host_and_port
host_and_port-url host port path rest =
    let shorter : length host < length (host ++ (58 ∷ port)) =
      omega (arith, length-append {0} host (58 ∷ port)) in
    rw (lt→ltb _ _ shorter, port_length host port)
      (ap (λ p. (host, p)) (take_append_len (length port) port (47 ∷ path) refl))

decimal_from-Lacks : (fuel n : ℕ) → Lacks 47 (decimal_from fuel n)
unfolding decimal_from
decimal_from-Lacks zero n = tt
decimal_from-Lacks (suc fuel) n = elim (Bool-cases (ltb n 10)) [
  | inl digit ↦ rw digit (ground arith, tt)
  | inr more ↦ rw more (
      All-append (λ x. (x == 47) ≡ false) (decimal_from fuel (n / 10)) ((48 + n % 10) ∷ [])
        (decimal_from-Lacks fuel (n / 10)) (ground arith, tt))
]

-- For a text `scheme://host:port/path` whose scheme has no colon, whose host has neither a colon nor a
-- slash, and whose port is a number below 2 ^ 16 in decimal digits, which `std::stoi` reads, HTTP
-- requests and TCP connections go to the same host and port, which are those of the text, and the path
-- is kept with its slash.
pub parse_local_url-tcp_target :
    (stoi : Text → Option ℕ) (scheme host path : Text) (port : ℕ)
    → Lacks 58 scheme
    → Lacks 58 host
    → Lacks 47 host
    → port < 2 ^ 16
    → stoi (decimal port) ≡ some port
    → (parse_local_url (scheme ++ (58 ∷ 47 ∷ 47 ∷ with_port host (decimal port) path))
        ≡ some (record {
          local_host = host;
          local_port = decimal port;
          local_path_prefix = 47 ∷ path;
        }))
      × (tcp_target stoi (scheme ++ (58 ∷ 47 ∷ 47 ∷ with_port host (decimal port) path))
          ≡ some (host, port))
unfolding parse_local_url tcp_target path_prefix until_slash
parse_local_url-tcp_target stoi scheme host path port clean_scheme no_colon no_slash small read =
    let text = decimal port in
    let clean_port = decimal_from-Lacks 20 port in
    let rest = with_port host text path in
    let behind = behind_scheme-url scheme rest clean_scheme in
    let at_colon = split_at-first 58 host (text ++ (47 ∷ path)) no_colon in
    let at_slash = split_at-slash host text path no_slash clean_port in
    let port_end = split_at-first 47 text path clean_port in
    let whole : port % 2 ^ 16 ≡ port = omega (arith, small) in
    (
      ground (arith, behind, at_colon, at_slash, host_and_port-url host text path rest),
      ground (arith, behind, at_colon, port_end, read, whole),
    )

-- For a text `scheme://host/path` with no other colon, whose host has no slash, HTTP requests go to
-- port 80 of that host, and TCP connections to port 8080 of `localhost`.
pub parse_local_url-no_port :
    (stoi : Text → Option ℕ) (scheme host path : Text)
    → Lacks 58 scheme
    → Lacks 58 (host ++ (47 ∷ path))
    → Lacks 47 host
    → (parse_local_url (scheme ++ (58 ∷ 47 ∷ 47 ∷ (host ++ (47 ∷ path))))
        ≡ some
            (record { local_host = host; local_port = codes "80"; local_path_prefix = 47 ∷ path }))
      × (tcp_target stoi (scheme ++ (58 ∷ 47 ∷ 47 ∷ (host ++ (47 ∷ path))))
          ≡ some (codes "localhost", 8080))
unfolding parse_local_url tcp_target path_prefix host_and_port
parse_local_url-no_port stoi scheme host path clean_scheme no_colon no_slash =
    let behind = behind_scheme-url scheme (host ++ (47 ∷ path)) clean_scheme in
    let at_colon = split_at-Lacks 58 (host ++ (47 ∷ path)) no_colon in
    let at_slash = split_at-first 47 host path no_slash in
    (ground (arith, behind, at_colon, at_slash), ground (arith, behind, at_colon))
