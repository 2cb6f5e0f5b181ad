-- ===== src/Agents.antt =====
-- services/agent-service/src/agent_service.
pub mod Agent
pub mod Repository
pub mod CreateAgent
