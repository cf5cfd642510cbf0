-- ===== src/Net/Address.antt =====
-- networking/ETHERNET, _01 to _04: what the programs ask of the interface, and the
-- table of addresses that their handlers read, as do those of the socket programs, _05 to _10.
pub mod StaticIp
pub mod Dhcp
pub mod Connection
mod Tests
use zephyr_samples.Base.{ℕ, List}

-- A call that prints carries what it prints.
pub data IfaceCall : Type 0 where
  -- the default interface, 0 for NULL
  net_if_get_default : IfaceCall
  net_mgmt_add_event_callback : IfaceCall
  net_dhcpv4_add_option_callback : ℕ → IfaceCall
  -- the interface by its index
  net_dhcpv4_start : ℕ → IfaceCall
  -- 0 for NULL, and the bytes of the address
  net_if_get_link_addr : IfaceCall
  -- 0 for NULL
  net_eth_get_phy : IfaceCall
  device_is_ready : IfaceCall
  phy_link_callback_set : IfaceCall
  -- address in host order and prefix length; 0 for NULL
  net_if_ipv4_addr_add : ℕ → ℕ → IfaceCall
  net_if_ipv4_addr_rm : ℕ → IfaceCall
  print_mac : List ℕ → IfaceCall
  print_no_mac : IfaceCall
  print_address print_netmask print_gateway : ℕ → IfaceCall
  -- seconds and days
  print_lease : ℕ → ℕ → IfaceCall
  -- the option and its data
  print_option : ℕ → List ℕ → IfaceCall
  -- the texts without a value that end the handlers of the socket programs
  print_ready print_event : IfaceCall
  k_sem_give : IfaceCall
  -- 0 for a link that is down
  net_if_is_up : IfaceCall
  -- seconds
  k_sleep : ℕ → IfaceCall
  print_link_up print_link_down : IfaceCall

-- `enum net_addr_type`
pub data AddrType : Type 0 where
  net_addr_any net_addr_autoconf net_addr_dhcp net_addr_manual net_addr_overridable : AddrType

pub record IfAddr : Type 0 where
  pub addr_type : AddrType
  pub address : ℕ
  pub netmask : ℕ

-- `iface->config`: the slots of `ip.ipv4->unicast`, `ip.ipv4->gw` and `dhcpv4.lease_time`.
pub record Iface : Type 0 where
  pub unicast : List IfAddr
  pub gw : ℕ
  pub lease_time : ℕ

pub data MgmtEvent : Type 0 where
  net_event_ipv4_addr_add net_event_other : MgmtEvent
