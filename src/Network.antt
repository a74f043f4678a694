-- ===== src/Network.antt =====
-- network/detectors: the packet detectors.
pub mod Counter
pub mod Syn
pub mod Icmp
pub mod Arp
pub mod Dns
pub mod Sensor
