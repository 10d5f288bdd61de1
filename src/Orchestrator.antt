-- ===== src/Orchestrator.antt =====
-- src/pkg/orchestrator: the front server of server.go and the manager of a remote node,
-- remote_manager.go. What is sent to the broadcaster is a list of events.
pub mod Remote
pub mod Server
