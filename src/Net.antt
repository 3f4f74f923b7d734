-- ===== src/Net.antt =====
-- net/net.c: the network stack: ARP, IPv4, DHCP, DNS and one TCP connection for HTTP. The frames that it
-- hands to the card are kept in a list; the frames that the card delivers are arguments.
pub mod Wire
pub mod State
pub mod Tcp
pub mod Dns
pub mod Dhcp
pub mod Receive
mod Examples
