-- ===== src/Events.antt =====
-- src/pkg/events/eventpublisher.go: the publisher's cache of VM infos and its bounded queue.
-- `equal` is `proto.Equal` on two infos, and `now` is `time.Now().Unix()`.
pub mod Publisher
pub mod Cache
pub mod Service
pub mod Pump
