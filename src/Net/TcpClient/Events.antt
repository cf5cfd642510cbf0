-- ===== src/Net/TcpClient/Events.antt =====
-- networking/ETHERNET/_05_tcp_client/src/main.c: the handler of network events.
use zephyr_samples.Base.{ℕ, List, [], ◌∷◌, if◌then◌else◌, Io, pure, ◌>>◌, call}
use zephyr_samples.Net.Address.{
  IfaceCall, print_ready, IfAddr, Iface, MgmtEvent, net_event_ipv4_addr_add,
}
use zephyr_samples.Net.Address.StaticIp.{is_manual, show_address}

abbrev pub App : Type 0 → Type 0
App A = Io (Unit {0}) IfaceCall A

-- As in _03_static_ip, with a line more.
pub show_slot : ℕ → IfAddr → App (Unit {0})
show_slot gw slot =
    if is_manual slot.addr_type
    then show_address gw slot >> call print_ready >> pure tt
    else pure tt

-- The `for` loop over the slots.
pub show_slots : ℕ → List IfAddr → App (Unit {0})
show_slots gw [] = pure tt
show_slots gw (slot ∷ slots) = show_slot gw slot >> show_slots gw slots

pub ip_event_handler : MgmtEvent → Iface → App (Unit {0})
ip_event_handler net_event_ipv4_addr_add iface = show_slots iface.gw iface.unicast
ip_event_handler event iface = pure tt
