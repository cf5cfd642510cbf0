-- ===== src/Net.antt =====
-- The calls that the samples under networking/ETHERNET make to Zephyr's network stack and kernel.
-- Descriptors are `int`s; a call that transmits carries the bytes `buf[0 .. len)`.
pub mod Protocol
pub mod Sniff
pub mod Address
pub mod TcpClient
pub mod TcpServer
pub mod UdpSender
pub mod UdpReceiver
pub mod HttpClient
pub mod HttpsClient
use zephyr_samples.Base.{ℕ, ℤ, List}

pub data SocketKind : Type 0 where
  stream dgram tls : SocketKind

pub data SocketOption : Type 0 where
  reuse_addr sec_tag_list tls_hostname : SocketOption

pub data Method : Type 0 where
  http_get http_post : Method

pub data NetCall : Type 0 where
  -- the default interface, 0 for NULL
  net_if_get_default : NetCall
  net_if_get_link_addr : NetCall
  net_mgmt_add_event_callback : NetCall
  conn_mgr_mon_resend_status : NetCall
  -- address in host order and prefix length; 0 for NULL
  net_if_ipv4_addr_add : ℕ → ℕ → NetCall
  net_if_ipv4_addr_rm : ℕ → NetCall
  net_if_ipv4_set_gw : ℕ → NetCall
  -- 0 for a link that is down
  net_if_is_up : NetCall
  net_eth_get_phy : NetCall
  device_is_ready : NetCall
  phy_link_callback_set : NetCall
  k_sem_take_forever : NetCall
  -- milliseconds
  k_sleep : ℕ → NetCall
  k_sleep_forever : NetCall
  inet_pton : List ℕ → NetCall
  tls_credential_add : ℕ → NetCall
  socket : SocketKind → NetCall
  setsockopt : ℤ → SocketOption → NetCall
  connect : ℤ → NetCall
  bind : ℤ → ℕ → NetCall
  listen : ℤ → ℕ → NetCall
  accept : ℤ → NetCall
  send : ℤ → List ℕ → NetCall
  -- descriptor and room
  recv : ℤ → ℕ → NetCall
  recvfrom : ℤ → ℕ → NetCall
  -- descriptor, method, body
  http_client_req : ℤ → Method → List ℕ → NetCall
  close : ℤ → NetCall
  -- the text of packet number n, by `snprintf` into a buffer
  snprintf_packet : ℕ → NetCall
