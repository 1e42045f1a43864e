-- ===== src/Net.antt =====
-- kernel/net: Ethernet, ARP, IPv4, ICMP, UDP and the DNS client.
pub mod Bytes
pub mod Host
pub mod Checksum
pub mod Frame
pub mod Arp
pub mod Udp
pub mod Icmp
pub mod Ip
pub mod Stack
pub mod Dns
