-- ===== src/Net/Address/StaticIp.antt =====
-- networking/ETHERNET/_03_static_ip/src/main.c
-- `main` up to its loop, and the callbacks; the texts without a value are left out.
pub mod Link
use zephyr_samples.Base.{
  ℕ, zero, suc, ◌+◌, ◌*◌, ◌^◌, ◌≡◌, refl, ℤ, Bool, true, false, ◌&&◌, not, List, [], ◌∷◌, Log, Env,
  if◌then◌else◌, ◌==◌, is_zero, length, Io, pure, ◌>>=◌, ◌>>◌, call, call_bytes, arith,
}
use zephyr_samples.Net.Address.{
  IfaceCall, net_if_get_default, net_mgmt_add_event_callback, net_if_get_link_addr, net_eth_get_phy,
  device_is_ready, phy_link_callback_set, net_if_ipv4_addr_add, net_if_ipv4_addr_rm, print_mac,
  print_no_mac, print_address, print_netmask, print_gateway, AddrType, net_addr_manual, IfAddr,
  Iface, MgmtEvent, net_event_ipv4_addr_add,
}

-- The program keeps nothing that changes.
abbrev pub App : Type 0 → Type 0
App A = Io (Unit {0}) IfaceCall A

abbrev pub mac_addr_len : ℕ
mac_addr_len = 6

-- 192.168.1.100, before `htonl`
abbrev pub static_addr : ℕ
static_addr = 192 * 2 ^ 24 + 168 * 2 ^ 16 + 1 * 2 ^ 8 + 100

-- Where the table has no room, this only prints.
pub assign_static_ip : App (Unit {0})
assign_static_ip = call (net_if_ipv4_addr_add static_addr 24) >> pure tt

pub remove_static_ip : App (Unit {0})
remove_static_ip = call (net_if_ipv4_addr_rm static_addr) >> pure tt

pub phy_link_state_changed : Bool → App (Unit {0})
phy_link_state_changed is_up = if is_up then assign_static_ip else remove_static_ip

-- `addr_type == NET_ADDR_MANUAL`
unfoldable pub is_manual : AddrType → Bool
is_manual net_addr_manual = true
is_manual kind = false

unfoldable pub show_address : ℕ → IfAddr → App (Unit {0})
show_address gw slot =
    call (print_address slot.address)
    >> call (print_netmask slot.netmask)
    >> call (print_gateway gw)
    >> pure tt

-- The `for` loop over the slots.
unfoldable pub show_slots : ℕ → List IfAddr → App (Unit {0})
show_slots gw [] = pure tt
show_slots gw (slot ∷ slots) = do
  if is_manual slot.addr_type then show_address gw slot else pure tt
  show_slots gw slots

unfoldable pub ip_event_handler : MgmtEvent → Iface → App (Unit {0})
ip_event_handler net_event_ipv4_addr_add iface = show_slots iface.gw iface.unicast
ip_event_handler event iface = pure tt

pub show_link_addr : ℤ × List ℕ → App (Unit {0})
show_link_addr (linkaddr, addr) =
    if not (is_zero linkaddr) && mac_addr_len == length addr
    then call (print_mac addr) >> pure tt
    else call print_no_mac >> pure tt

-- From `device_is_ready` on.
pub watch_phy : App Bool
watch_phy = do
  ready ← call device_is_ready
  if is_zero ready then pure false else (call phy_link_callback_set >> pure true)

-- From `net_mgmt_add_event_callback` on.
pub start_iface : App Bool
start_iface = do
  _ ← call net_mgmt_add_event_callback
  p ← call_bytes net_if_get_link_addr
  show_link_addr p
  phy_dev ← call net_eth_get_phy
  if is_zero phy_dev then pure false else watch_phy

-- `main` up to its loop; whether the loop is entered.
pub main : App Bool
main = do iface ← call net_if_get_default; if is_zero iface then pure false else start_iface

-- The changes of the link that the PHY reports while `main` sleeps.
pub link_changes : List Bool → App (Unit {0})
link_changes [] = pure tt
link_changes (is_up ∷ rest) = phy_link_state_changed is_up >> link_changes rest

pub program : List Bool → App Bool
program changes = do
  running ← main
  let rest = link_changes changes
  if running then (rest >> pure true) else pure false
