-- ===== src/AgentProcess/Environment.antt =====
-- When the environment's variables reach the agent's configuration.
use protogate.AgentProcess.Config.{
  AgentConfig, default_config, Flag, config_file, server, token, server_port, target_port, help,
  flag_of, Step, leave, one, two, last_flag, take_flag, set_target_port, parse_args, from_cli_args,
  load_config, ConfigError, validate_config, configure,
}
use protogate.Base.{
  ℕ, ◌≡◌, refl, Bool, true, false, List, [], ◌∷◌, arith, Option, some, inl, inr, Text, All, ok, err,
  Result-cases, ◌⊎◌, ◌≢◌,
}

-- The options that give a token, leave the arguments for a file, or may throw.
abbrev pub is_quiet : Flag → Bool
is_quiet config_file = false
is_quiet server = false
is_quiet token = false
is_quiet server_port = false
is_quiet help = false
is_quiet _ = true

abbrev pub IsQuiet : Text → Type 0
IsQuiet arg = is_quiet (flag_of arg) ≡ true

-- The loop goes on, with no token.
abbrev GoesOn : Step → Type 0
GoesOn (leave result) = ⊥
GoesOn (one config) = config.token ≡ []
GoesOn (two config) = config.token ≡ []

GoesOn-cases :
    (s : Step)
    → GoesOn s
    → ((c : AgentConfig) × (s ≡ one c) × (c.token ≡ []))
      ⊎ ((c : AgentConfig) × (s ≡ two c) × (c.token ≡ []))
GoesOn-cases (leave result) h = absurd h
GoesOn-cases (one config) h = inl (config, refl, h)
GoesOn-cases (two config) h = inr (config, refl, h)

module _ (from_json_file : Text → Option AgentConfig) (stoi : Text → Option ℕ) where
  set_target_port-token :
      (port : Text) (c : AgentConfig) → (set_target_port from_json_file stoi port c).token ≡ c.token
  unfolding set_target_port
  set_target_port-token port c = ground arith

  last_flag-GoesOn :
      (flag : Flag) (c : AgentConfig)
      → is_quiet flag ≡ true
      → c.token ≡ []
      → GoesOn (last_flag flag c)
  unfolding last_flag
  last_flag-GoesOn help c q e = cc
  last_flag-GoesOn _ c q e = e

  take_flag-GoesOn :
      (flag : Flag) (value : Text) (c : AgentConfig)
      → is_quiet flag ≡ true
      → c.token ≡ []
      → GoesOn (take_flag from_json_file stoi flag value c)
  unfolding take_flag
  take_flag-GoesOn config_file value c q e = cc
  take_flag-GoesOn server value c q e = cc
  take_flag-GoesOn token value c q e = cc
  take_flag-GoesOn server_port value c q e = cc
  take_flag-GoesOn help value c q e = cc
  take_flag-GoesOn target_port value c q e = rw (set_target_port-token value c) e
  take_flag-GoesOn _ value c q e = e

  parse_args-token :
      (args : List Text) (c : AgentConfig)
      → All IsQuiet args
      → c.token ≡ []
      → (c' : AgentConfig) × (parse_args from_json_file stoi args c ≡ some c') × (c'.token ≡ [])
  unfolding parse_args
  parse_args-token [] c quiet e = (c, refl, e)
  parse_args-token (arg ∷ []) c (q, quiet) e =
      elim (GoesOn-cases (last_flag (flag_of arg) c) (last_flag-GoesOn (flag_of arg) c q e)) [
        | inl (next, step, none_yet) ↦ (next, ground (arith, step), none_yet)
        | inr (next, step, none_yet) ↦ (next, ground (arith, step), none_yet)
      ]
  parse_args-token (arg ∷ value ∷ rest) c (q, quiet) e =
      elim (GoesOn-cases (take_flag from_json_file stoi (flag_of arg) value c)
        (take_flag-GoesOn (flag_of arg) value c q e)) [
          | inl (next, step, none_yet) ↦
              let (c', result, no_token) = parse_args-token (value ∷ rest) next quiet none_yet in
              (c', ground (arith, step, result), no_token)
          | inr (next, step, none_yet) ↦
              let (c', result, no_token) = parse_args-token rest next quiet.1 none_yet in
              (c', ground (arith, step, result), no_token)
        ]

  from_cli_args-token :
      (args : List Text)
      → All IsQuiet args
      → (c : AgentConfig) × (from_cli_args from_json_file stoi args ≡ some c) × (c.token ≡ [])
  unfolding from_cli_args default_config
  from_cli_args-token args quiet = parse_args-token args default_config quiet refl

validate_config-token : (c : AgentConfig) → c.token ≡ [] → validate_config c ≢ ok tt
unfolding validate_config
validate_config-token c e = ground (arith, e)

-- If no argument is `--token`, nor one of those that read a file, may throw or ask for help, the agent
-- does not start: whatever the environment holds, also a token, its configuration is refused.
pub configure-quiet :
    (from_json_file : Text → Option AgentConfig) (stoi : Text → Option ℕ) (args : List Text)
    (env : Text → Option Text)
    → All IsQuiet args
    → (e : ConfigError) × (configure from_json_file stoi args env ≡ err e)
unfolding configure load_config
configure-quiet from_json_file stoi args env quiet =
    let (c, read, no_token) = from_cli_args-token from_json_file stoi args quiet in
    elim (Result-cases (validate_config c)) [
      | inl (u, valid) ↦ absurd (validate_config-token c no_token valid)
      | inr (e, refused) ↦ (e, ground (arith, read, refused))
    ]
