-- ===== src/AgentProcess/Config.antt =====
-- tunnel-agent/src/config/agent_config.h, agent_config.cpp, and the choice of the configuration in
-- `main` of tunnel-agent/src/main.cpp. `from_json_file` reads with nlohmann's library and is a
-- parameter, as is `std::stoi`; `none` is an exception. Ints are not negative here, and the environment
-- is a function.
use protogate.Base.{
  ℕ, ◌%◌, ◌^◌, Bool, true, false, ◌||◌, List, [], ◌∷◌, ◌++◌, Option, none, some, length, ◌==◌, leb,
  if◌then◌else◌, Text, text_eq, codes, Result, ok, err, ◌>>◌, throw_if,
}
use protogate.Http.Text.{split_at}

pub record AgentConfig : Type 0 where
  pub host : Text
  pub port : ℕ
  pub verify_tls : Bool
  pub id : Text
  pub token : Text
  pub url : Text
  pub timeout_seconds : ℕ
  pub heartbeat_interval_seconds : ℕ
  pub heartbeat_timeout_seconds : ℕ
  pub initial_delay_seconds : ℕ
  pub max_delay_seconds : ℕ
  pub max_attempts : ℕ
  pub level : Text
  pub format : Text

-- The defaults of `from_cli_args` and of `from_environment`, which are the same.
unfoldable pub default_config : AgentConfig
default_config = record {
  host = codes "localhost";
  port = 8443;
  verify_tls = true;
  id = [];
  token = [];
  url = codes "http://localhost:3000";
  timeout_seconds = 1800;
  heartbeat_interval_seconds = 30;
  heartbeat_timeout_seconds = 60;
  initial_delay_seconds = 1;
  max_delay_seconds = 60;
  max_attempts = 0;
  level = codes "info";
  format = codes "json";
}

-- `url.substr(0, url.rfind(':') + 1) + port`, if there is a colon.
unfoldable pub replace_port : Text → Text → Option Text
replace_port port [] = none
replace_port port (c ∷ url) = elim (replace_port port url) [
  | some replaced ↦ some (c ∷ replaced)
  | none ↦ if c == 58 then some (c ∷ port) else none
]

-- What an argument is.
pub data Flag : Type 0 where
  config_file server token tunnel_id local_url no_verify_tls verify_tls : Flag
  server_host server_port target_host target_port log_file help unknown : Flag

unfoldable pub flag_of : Text → Flag
flag_of arg =
    if text_eq arg (codes "--config")
    then config_file
    else if text_eq arg (codes "--server")
    then server
    else if text_eq arg (codes "--token")
    then token
    else if text_eq arg (codes "--tunnel-id")
    then tunnel_id
    else if text_eq arg (codes "--local-url")
    then local_url
    else if text_eq arg (codes "--no-verify-tls")
    then no_verify_tls
    else if text_eq arg (codes "--verify-tls")
    then verify_tls
    else if text_eq arg (codes "--server-host")
    then server_host
    else if text_eq arg (codes "--server-port")
    then server_port
    else if text_eq arg (codes "--target-host")
    then target_host
    else if text_eq arg (codes "--target-port")
    then target_port
    else if text_eq arg (codes "--log-file")
    then log_file
    else if text_eq arg (codes "--help") || text_eq arg (codes "-h")
    then help
    else unknown

-- What the loop does next: it returns or throws, or goes on one or two arguments further.
pub data Step : Type 0 where
  leave : Option AgentConfig → Step
  one : AgentConfig → Step
  two : AgentConfig → Step

abbrev pub two_or_throw : Option AgentConfig → Step
two_or_throw none = leave none
two_or_throw (some config) = two config

-- An argument with nothing behind it.
unfoldable pub last_flag : Flag → AgentConfig → Step
last_flag no_verify_tls config = one (record config { verify_tls = false })
last_flag verify_tls config = one (record config { verify_tls = true })
last_flag help config = leave none
last_flag flag config = one config

module _ (from_json_file : Text → Option AgentConfig) (stoi : Text → Option ℕ) where
  -- The server's address, `host:port` or `host`.
  unfoldable pub set_server : Text → AgentConfig → Option AgentConfig
  set_server address config = elim (split_at 58 address) [
    | none ↦ some (record config { host = address })
    | some (before, after) ↦ elim (stoi after) [
      | none ↦ none
      | some n ↦ some (record config { host = before; port = n % 2 ^ 16 })
    ]
  ]

  unfoldable pub set_port : Text → AgentConfig → Option AgentConfig
  set_port text config = elim (stoi text) [
    | none ↦ none
    | some n ↦ some (record config { port = n % 2 ^ 16 })
  ]

  unfoldable pub set_target_port : Text → AgentConfig → AgentConfig
  set_target_port port config = elim (replace_port port config.url) [
    | none ↦ config
    | some url ↦ record config { url = url }
  ]

  -- An argument with this one behind it.
  unfoldable pub take_flag : Flag → Text → AgentConfig → Step
  take_flag config_file value config = leave (from_json_file value)
  take_flag server value config = two_or_throw (set_server value config)
  take_flag token value config = two (record config { token = value })
  take_flag tunnel_id value config = two (record config { id = value })
  take_flag local_url value config = two (record config { url = value })
  take_flag no_verify_tls value config = one (record config { verify_tls = false })
  take_flag verify_tls value config = one (record config { verify_tls = true })
  take_flag server_host value config = two (record config { host = value })
  take_flag server_port value config = two_or_throw (set_port value config)
  take_flag target_host value config =
      two (record config { url = codes "http://" ++ (value ++ codes ":3000") })
  take_flag target_port value config = two (set_target_port value config)
  take_flag log_file value config = two config
  take_flag help value config = leave none
  take_flag unknown value config = one config

  -- The loop over the arguments behind the program's name.
  unfoldable pub parse_args : List Text → AgentConfig → Option AgentConfig
  parse_args [] config = some config
  parse_args (arg ∷ []) config = elim (last_flag (flag_of arg) config) [
    | leave result ↦ result
    | one next ↦ some next
    | two next ↦ some next
  ]
  parse_args (arg ∷ value ∷ rest) config = elim (take_flag (flag_of arg) value config) [
    | leave result ↦ result
    | one next ↦ parse_args (value ∷ rest) next
    | two next ↦ parse_args rest next
  ]

  unfoldable pub from_cli_args : List Text → Option AgentConfig
  from_cli_args args = parse_args args default_config

  unfoldable pub from_environment : (Text → Option Text) → Option AgentConfig
  from_environment env =
      let with_server = elim (env (codes "TUNNEL_SERVER")) as (λ v. Option AgentConfig) [
        | none ↦ some default_config
        | some value ↦ set_server value default_config
      ] in
      elim with_server [
        | none ↦ none
        | some config ↦ some (record config {
          token = elim (env (codes "TUNNEL_TOKEN")) [ none ↦ config.token | some value ↦ value ];
          id = elim (env (codes "TUNNEL_ID")) [ none ↦ config.id | some value ↦ value ];
          url = elim (env (codes "LOCAL_URL")) [ none ↦ config.url | some value ↦ value ];
        })
      ]

  -- The arguments; if they throw, the environment; if that throws, the default file.
  unfoldable pub load_config : List Text → (Text → Option Text) → Option AgentConfig
  load_config args env = elim (from_cli_args args) [
    | some config ↦ some config
    | none ↦ elim (from_environment env) [
      | some config ↦ some config
      | none ↦ from_json_file (codes "config.json")
    ]
  ]

pub data ConfigError : Type 0 where
  no_host no_port no_tunnel_id no_token no_url no_timeout no_interval short_timeout : ConfigError
  unreadable : ConfigError

unfoldable pub validate_config : AgentConfig → Result ConfigError (Unit {0})
validate_config c = do
  throw_if (length c.host == 0) no_host
  throw_if (c.port == 0) no_port
  throw_if (length c.id == 0) no_tunnel_id
  throw_if (length c.token == 0) no_token
  throw_if (length c.url == 0) no_url
  throw_if (c.timeout_seconds == 0) no_timeout
  throw_if (c.heartbeat_interval_seconds == 0) no_interval
  throw_if (leb c.heartbeat_timeout_seconds c.heartbeat_interval_seconds) short_timeout

-- What `main` does before it runs the agent.
unfoldable pub configure :
    (Text → Option AgentConfig)
    → (Text → Option ℕ)
    → List Text
    → (Text → Option Text)
    → Result ConfigError AgentConfig
configure from_json_file stoi args env = elim (load_config from_json_file stoi args env) [
  | none ↦ err unreadable
  | some config ↦ validate_config config >> ok config
]
