-- ===== src/Net/Address/Connection.antt =====
-- networking/ETHERNET/_01_basic_connection/src/main.c and _02_basic_connection_cb/src/main.c
-- The loop of the first takes its rounds as fuel.
pub mod Changes
mod Tests
use zephyr_samples.Base.{
  ℕ, zero, suc, ℤ, Bool, true, false, not, ◌||◌, ◌&&◌, List, if◌then◌else◌, is_zero, Io, pure,
  ◌>>=◌, ◌>>◌, call, call_bytes, get,
}
use zephyr_samples.Net.Address.{
  IfaceCall, net_if_get_default, net_if_get_link_addr, net_eth_get_phy, device_is_ready,
  phy_link_callback_set, net_if_is_up, k_sleep, print_link_up, print_link_down,
}
use zephyr_samples.Net.Address.StaticIp.{show_link_addr}

pub show_link : {S : Type 0} → Bool → Io S IfaceCall (Unit {0})
show_link true = call print_link_up >> pure tt
show_link false = call print_link_down >> pure tt

-- `last_state` of _01
abbrev pub App : Type 0 → Type 0
App A = Io Bool IfaceCall A

abbrev pub set_last : Bool → App (Unit {0})
set_last up env s log = (tt, up, log)

-- `a != b`
unfoldable pub differ : Bool → Bool → Bool
differ true b = not b
differ false b = b

pub report_change : Bool → App (Unit {0})
report_change up = do last ← get; if differ up last then (show_link up >> set_last up) else pure tt

pub poll_round : App (Unit {0})
poll_round = do
  up ← call net_if_is_up
  report_change (not (is_zero up))
  _ ← call (k_sleep 2)
  pure tt

pub poll_link : ℕ → App (Unit {0})
poll_link zero = pure tt
poll_link (suc n) = poll_round >> poll_link n

-- `show_link_addr` of _03, whose text this is, with no state of its own
pub show_mac : {S : Type 0} → Io S IfaceCall (Unit {0})
show_mac env s log =
    let (p, s', log') = call_bytes net_if_get_link_addr env s log in
    let (u, v, log2) = show_link_addr p env tt log' in (tt, s', log2)

-- `main` of _01, with the rounds of its loop; false where there is no interface
pub poll_main : ℕ → App Bool
poll_main n = do
  set_last false
  _ ← call (k_sleep 2)
  iface ← call net_if_get_default
  if is_zero iface then pure false else (show_mac >> poll_link n >> pure true)

-- _02
pub phy_link_state_changed : Bool → Io (Unit {0}) IfaceCall (Unit {0})
phy_link_state_changed is_up = show_link is_up

pub watch_phy : Io (Unit {0}) IfaceCall Bool
watch_phy = do
  ready ← call device_is_ready
  if is_zero ready then pure false else (call phy_link_callback_set >> pure true)

pub show_iface : Io (Unit {0}) IfaceCall Bool
show_iface = do
  show_mac
  phy_dev ← call net_eth_get_phy
  if is_zero phy_dev then pure false else watch_phy

-- `main` of _02 up to its loop; whether the loop is entered
pub callback_main : Io (Unit {0}) IfaceCall Bool
callback_main = do iface ← call net_if_get_default; if is_zero iface then pure false else show_iface
