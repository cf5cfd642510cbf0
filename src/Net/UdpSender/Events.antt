-- ===== src/Net/UdpSender/Events.antt =====
-- networking/ETHERNET/_07_udp_sender/src/main.c: the handler of network events.
use zephyr_samples.Base.{Io, pure, ◌>>◌, call}
use zephyr_samples.Net.Address.{IfaceCall, print_event, Iface, MgmtEvent, net_event_ipv4_addr_add}

abbrev pub App : Type 0 → Type 0
App A = Io (Unit {0}) IfaceCall A

pub ip_event_handler : MgmtEvent → Iface → App (Unit {0})
ip_event_handler net_event_ipv4_addr_add iface = call print_event >> pure tt
ip_event_handler event iface = pure tt
