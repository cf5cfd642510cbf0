-- ===== src/Net/Address/Dhcp.antt =====
-- networking/ETHERNET/_04_dhcp/src/main.c
-- The handler of the addresses, the handler of the options, and `main`.
use zephyr_samples.Base.{
  ℕ, ◌/◌, Bool, true, false, List, [], ◌∷◌, if◌then◌else◌, Io, pure, ◌>>◌, call,
}
use zephyr_samples.Net.Address.{
  IfaceCall, net_mgmt_add_event_callback, net_dhcpv4_add_option_callback, net_dhcpv4_start,
  print_address, print_netmask, print_gateway, print_lease, print_option, AddrType, net_addr_dhcp,
  IfAddr, Iface, MgmtEvent, net_event_ipv4_addr_add,
}

abbrev pub App : Type 0 → Type 0
App A = Io (Unit {0}) IfaceCall A

abbrev pub dhcp_option_ntp : ℕ
dhcp_option_ntp = 42

pub start_dhcpv4_client : ℕ → App (Unit {0})
start_dhcpv4_client iface = call (net_dhcpv4_start iface) >> pure tt

-- `addr_type == NET_ADDR_DHCP`
unfoldable pub is_dhcp : AddrType → Bool
is_dhcp net_addr_dhcp = true
is_dhcp kind = false

unfoldable pub show_lease : Iface → IfAddr → App (Unit {0})
show_lease iface slot =
    call (print_address slot.address)
    >> call (print_netmask slot.netmask)
    >> call (print_gateway iface.gw)
    >> call (print_lease iface.lease_time (iface.lease_time / 86400))
    >> pure tt

-- The `for` loop over the slots.
unfoldable pub show_leases : Iface → List IfAddr → App (Unit {0})
show_leases iface [] = pure tt
show_leases iface (slot ∷ slots) = do
  if is_dhcp slot.addr_type then show_lease iface slot else pure tt
  show_leases iface slots

unfoldable pub handler : MgmtEvent → Iface → App (Unit {0})
handler net_event_ipv4_addr_add iface = show_leases iface iface.unicast
handler event iface = pure tt

-- Prints `cb->option` and `cb->data`.
pub option_handler : ℕ → List ℕ → App (Unit {0})
option_handler option bytes = call (print_option option bytes) >> pure tt

-- `net_if_foreach(start_dhcpv4_client, NULL)` over the interfaces of the system.
pub start_each : List ℕ → App (Unit {0})
start_each [] = pure tt
start_each (iface ∷ ifaces) = start_dhcpv4_client iface >> start_each ifaces

pub main : List ℕ → App (Unit {0})
main ifaces =
    call net_mgmt_add_event_callback
    >> call (net_dhcpv4_add_option_callback dhcp_option_ntp)
    >> start_each ifaces
