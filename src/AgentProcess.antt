-- ===== src/AgentProcess.antt =====
-- The agent's process on the private side: tunnel-agent/src/main.cpp with its configuration
-- (config/agent_config.h, agent_config.cpp), the pauses between connections (utils/reconnect.h,
-- reconnect.cpp) and the heartbeat (health/heartbeat.h, heartbeat.cpp).
pub mod Reconnect
pub mod Backoff
pub mod Heartbeat
pub mod Pings
pub mod Config
pub mod Environment
pub mod LocalUrl
pub mod Targets
pub mod Examples
