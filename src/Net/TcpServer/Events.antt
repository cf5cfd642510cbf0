-- ===== src/Net/TcpServer/Events.antt =====
-- networking/ETHERNET/_06_tcp_server/src/main.c: the handler of network events, the text of that of
-- _05_tcp_client.
use zephyr_samples.Net.Address.{Iface, MgmtEvent}
use zephyr_samples.Net.TcpClient.Events.{App}
use zephyr_samples.Net.TcpClient.Events

abbrev pub ip_event_handler : MgmtEvent → Iface → App (Unit {0})
ip_event_handler event iface = Events.ip_event_handler event iface
