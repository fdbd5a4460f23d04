-- ===== src/AgentProcess/LocalUrl.antt =====
-- The address of the local service: `parse_local_url` of
-- tunnel-agent/src/forwarder/request_forwarder.cpp, and the one that `run_agent` of
-- tunnel-agent/src/main.cpp reads from the same text for the TCP forwarder. `std::stoi` is a parameter;
-- `none` is an exception.
use protogate.Base.{
  ℕ, ◌-◌, ◌%◌, ◌^◌, [], ◌∷◌, Option, none, some, length, take, drop, ltb, if◌then◌else◌, Text,
  codes,
}
use protogate.Http.Text.{split_at}
use protogate.Security.Tokens.{has_prefix}

-- What stands behind the first `://`.
unfoldable pub behind_scheme : Text → Option Text
behind_scheme [] = none
behind_scheme (c ∷ t) =
    if has_prefix (codes "://") (c ∷ t) then some (drop 3 (c ∷ t)) else behind_scheme t

pub record LocalUrl : Type 0 where
  pub local_host : Text
  pub local_port : Text
  pub local_path_prefix : Text

-- The host and the port, where the first colon, if there is one, and the first slash stand.
unfoldable pub host_and_port : Text → Option (Text × Text) → Option (Text × Text) → Text × Text
host_and_port rest none none = (rest, codes "80")
host_and_port rest none (some (before_slash, path)) = (before_slash, codes "80")
host_and_port rest (some (before_colon, behind)) none = (before_colon, behind)
host_and_port rest (some (before_colon, behind)) (some (before_slash, path)) =
    if ltb (length before_colon) (length before_slash)
    then (before_colon, take (length before_slash - length before_colon - 1) behind)
    else (before_slash, codes "80")

unfoldable pub path_prefix : Option (Text × Text) → Text
path_prefix none = codes "/"
path_prefix (some (before_slash, path)) = 47 ∷ path

unfoldable pub parse_local_url : Text → Option LocalUrl
parse_local_url url = elim (behind_scheme url) [
  | none ↦ none
  | some rest ↦
      let (host, port) = host_and_port rest (split_at 58 rest) (split_at 47 rest) in
      some (record {
        local_host = host;
        local_port = port;
        local_path_prefix = path_prefix (split_at 47 rest);
      })
]

-- The text up to a slash.
unfoldable pub until_slash : Text → Text
until_slash t = elim (split_at 47 t) [ none ↦ t | some (before, path) ↦ before ]

-- The target of the TCP forwarder, `localhost` and 8080 where the text has no colon.
unfoldable pub tcp_target : (Text → Option ℕ) → Text → Option (Text × ℕ)
tcp_target stoi local_url =
    let url : Text = elim (behind_scheme local_url) [ none ↦ local_url | some rest ↦ rest ] in
    elim (split_at 58 url) [
      | none ↦ some (codes "localhost", 8080)
      | some (host, behind) ↦ elim (stoi (until_slash behind)) [
        | none ↦ none
        | some port ↦ some (host, port % 2 ^ 16)
      ]
    ]
