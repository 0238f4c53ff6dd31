-- ===== src/Net.antt =====
-- client/net.go, client/bwlimit.go and core/netaddr.go: the connections to other nodes.
mod Examples
pub mod Message
pub mod Bandwidth
pub mod Address
pub mod Inventory
pub mod Version
