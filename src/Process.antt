-- ===== src/Process.antt =====
-- src/pkg/protos/process.go and src/pkg/qemu/process: the service that runs the QEMU processes of a
-- node, the monitor of their sockets, and what the service reports of them.
pub mod Loop
pub mod Service
pub mod Monitor
pub mod Info
