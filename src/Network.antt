-- ===== src/Network.antt =====
-- src/pkg/utils/network: the hosts of a subnet, the frames of an ARP scan, the scan and the
-- resolver that repeats it.
pub mod Ip
pub mod Packets
pub mod Frame
pub mod Conn
pub mod Scan
pub mod Resolver
