-- ===== src/Commands.antt =====
-- src/qcontrollerd/cmd: the commands that put the services together.
pub mod Gateway
pub mod Subscriber
pub mod Platform
pub mod Firewall
