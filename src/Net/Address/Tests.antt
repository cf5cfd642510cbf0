-- ===== src/Net/Address/Tests.antt =====
-- The cable plugged in, pulled out and plugged in again; slots of three kinds.
use zephyr_samples.Base.{◌≡◌, refl, ℤ, pos, true, false, ◌&&◌, List, [], ◌∷◌, Env, map}
use zephyr_samples.Net.Address.{
  IfaceCall, Iface, net_addr_dhcp, net_addr_manual, net_addr_any, net_event_ipv4_addr_add,
  net_event_other, print_address, print_netmask, print_gateway, print_lease,
}
use zephyr_samples.Net.Address.StaticIp.{
  static_addr, program, ip_event_handler, show_slots, is_manual, show_address,
}
use zephyr_samples.Net.Address.StaticIp.Link.{assigned, link, Room, program-assigned}
use zephyr_samples.Net.Address.Dhcp.{handler, show_leases, is_dhcp, show_lease}

abbrev ready_env : Env IfaceCall
ready_env = record { result = λ log c. pos 1; bytes = λ log c. [] }

ready_env-Room : Room ready_env
unfolding Room
ready_env-Room log a prefix = refl

program-assigned_example :
    assigned static_addr (program (true ∷ false ∷ true ∷ []) ready_env tt []).2 ≡ (
      (program (true ∷ false ∷ true ∷ []) ready_env tt []).0
      && link false (true ∷ false ∷ true ∷ []))
program-assigned_example = program-assigned ready_env ready_env-Room (true ∷ false ∷ true ∷ []) tt

abbrev two_addresses : Iface
two_addresses = record {
  unicast =
      record { addr_type = net_addr_manual; address = 5; netmask = 255 }
      ∷ record { addr_type = net_addr_any; address = 0; netmask = 0 }
      ∷ record { addr_type = net_addr_dhcp; address = 7; netmask = 255 }
      ∷ [];
  gw = 1;
  lease_time = 172800;
}

calls : List (IfaceCall × ℤ) → List IfaceCall
calls log = map (λ p. p.0) log

handler_prints :
    calls (ip_event_handler net_event_ipv4_addr_add two_addresses ready_env tt []).2
    ≡ print_gateway 1 ∷ print_netmask 255 ∷ print_address 5 ∷ []
unfolding calls ip_event_handler show_slots is_manual show_address
handler_prints = refl

handler_leases :
    calls (handler net_event_ipv4_addr_add two_addresses ready_env tt []).2
    ≡ print_lease 172800 2 ∷ print_gateway 1 ∷ print_netmask 255 ∷ print_address 7 ∷ []
unfolding calls handler show_leases is_dhcp show_lease
handler_leases = refl

handler_other : calls (handler net_event_other two_addresses ready_env tt []).2 ≡ []
unfolding calls handler
handler_other = refl
