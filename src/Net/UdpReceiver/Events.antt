-- ===== src/Net/UdpReceiver/Events.antt =====
-- networking/ETHERNET/_08_udp_receiver/src/main.c: the handler of network events, the text of that
-- of _07_udp_sender.
use zephyr_samples.Net.Address.{Iface, MgmtEvent}
use zephyr_samples.Net.UdpSender.Events.{App}
use zephyr_samples.Net.UdpSender.Events

abbrev pub ip_event_handler : MgmtEvent → Iface → App (Unit {0})
ip_event_handler event iface = Events.ip_event_handler event iface
