-- ===== src/AgentProcess/Examples.antt =====
-- The agent's process at concrete inputs.
use protogate.Http.Response.{decimal, decimal_from}
use protogate.Agent.Session.{Session, new_session}
use protogate.AgentProcess.Backoff.{expected, run_agent-expected}
use protogate.AgentProcess.Config.{
  AgentConfig, ConfigError, default_config, from_cli_args, configure, load_config,
}
use protogate.AgentProcess.Environment.{IsQuiet, configure-quiet}
use protogate.AgentProcess.Heartbeat.{
  Process, new_heartbeat, start_heartbeat, disconnected, pinged, processed,
}
use protogate.AgentProcess.LocalUrl.{parse_local_url, tcp_target}
use protogate.AgentProcess.Pings.{Tick, check_at, ack_at, run, PingsSince, run-start_heartbeat}
use protogate.AgentProcess.Reconnect.{Turn, new_manager, run_agent}
use protogate.AgentProcess.Targets.{with_port, parse_local_url-tcp_target}
use protogate.AgentServer.Hello.{lacks, lacks→Lacks}
use protogate.Base.{
  ◌+◌, ◌-◌, ◌*◌, ℕ, ◌*◌, ◌≡◌, refl, arith, true, false, List, [], ◌∷◌, ◌++◌, Option, none, some,
  length, All, Text, text_eq, codes, err,
}

abbrev failed : Turn
failed = record { connected = false; running = true }

abbrev turns : List Turn
turns =
    failed
    ∷ failed
    ∷ record { connected = true; running = true }
    ∷ failed
    ∷ record { connected = true; running = false }
    ∷ failed
    ∷ []

run_agent-expected_example :
    run_agent turns (new_manager 1000 60000) ≡ some (expected 1000 60000 0 turns)
run_agent-expected_example = run_agent-expected 1000 60000 turns (omega arith) (omega arith)

pauses : run_agent turns (new_manager 1000 60000) ≡ some (1000 ∷ 2000 ∷ 1000 ∷ 2000 ∷ [])
unfolding run_agent new_manager protogate.AgentProcess.Reconnect.reset
    protogate.AgentProcess.Reconnect.get_next_delay_ms
    protogate.AgentProcess.Reconnect.should_reconnect
pauses = refl

abbrev second : ℕ
second = 1000000000

abbrev process : Process
process = record {
  running = true;
  session = record new_session { active = true; has_session = true };
  heartbeat = new_heartbeat 30000 60000;
  scheduled = true;
}

abbrev ticks : List Tick
ticks =
    check_at (20 * second) true false
    ∷ check_at (31 * second) true false
    ∷ ack_at (32 * second)
    ∷ check_at (33 * second) true false
    ∷ check_at (95 * second) true false
    ∷ check_at (96 * second) true false
    ∷ []

run-start_heartbeat_example :
    All
      (PingsSince 30000 (1 * second))
      (run ticks (record process { heartbeat = start_heartbeat (1 * second) process.heartbeat }))
unfolding new_heartbeat
run-start_heartbeat_example = run-start_heartbeat (1 * second) ticks process

-- Two PINGs within two seconds, and the end once no acknowledgement has come for a minute.
checks :
    run ticks (record process { heartbeat = start_heartbeat (1 * second) process.heartbeat })
    ≡ (20 * second, processed ∷ [])
      ∷ (31 * second, pinged ∷ processed ∷ [])
      ∷ (33 * second, pinged ∷ processed ∷ [])
      ∷ (95 * second, pinged ∷ disconnected ∷ [])
      ∷ (96 * second, [])
      ∷ []
unfolding run protogate.AgentProcess.Heartbeat.heartbeat_check start_heartbeat
    protogate.AgentProcess.Heartbeat.should_send_ping protogate.AgentProcess.Heartbeat.is_timed_out
    protogate.AgentProcess.Heartbeat.ping_if_due protogate.AgentProcess.Heartbeat.record_ping_ack
    new_heartbeat new_session protogate.Agent.Session.send_ping protogate.Agent.Session.send_data
    protogate.Agent.Session.process_events protogate.Agent.Session.stop
checks = refl

abbrev files : Text → Option AgentConfig
files path = none

abbrev digits : Text → Option ℕ
digits t = some (length t)

abbrev args : List Text
args = codes "--tunnel-id" ∷ codes "db" ∷ codes "--no-verify-tls" ∷ []

abbrev env : Text → Option Text
env name = some (codes "tnl_a")

args-IsQuiet : All IsQuiet args
unfolding text_eq protogate.AgentProcess.Config.flag_of
args-IsQuiet = (refl, (refl, (refl, tt)))

configure-quiet_example : (e : ConfigError) × (configure files digits args env ≡ err e)
configure-quiet_example = configure-quiet files digits args env args-IsQuiet

abbrev scheme : Text
scheme = codes "http"

abbrev number_from : ℕ → Text → ℕ
number_from n [] = n
number_from n (c ∷ t) = number_from (10 * n + (c - 48)) t

abbrev number : Text → Option ℕ
number t = some (number_from 0 t)

parse_local_url-tcp_target_example :
    (parse_local_url (scheme ++ (58 ∷ 47 ∷ 47 ∷ with_port (codes "db") (decimal 80) (codes "a:b")))
      ≡ some (record {
        local_host = codes "db";
        local_port = decimal 80;
        local_path_prefix = 47 ∷ codes "a:b";
      }))
    × (tcp_target number
          (scheme ++ (58 ∷ 47 ∷ 47 ∷ with_port (codes "db") (decimal 80) (codes "a:b")))
        ≡ some (codes "db", 80))
unfolding decimal_from
parse_local_url-tcp_target_example =
    parse_local_url-tcp_target number scheme (codes "db") (codes "a:b") 80
      (lacks→Lacks 58 scheme (unfold lacks in refl))
      (lacks→Lacks 58 (codes "db") (unfold lacks in refl))
      (lacks→Lacks 47 (codes "db") (unfold lacks in refl)) (omega arith) refl
