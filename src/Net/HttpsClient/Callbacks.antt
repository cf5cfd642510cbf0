-- ===== src/Net/HttpsClient/Callbacks.antt =====
-- networking/ETHERNET/_10_https_client: `response_cb` of main.c and `l4_event_handler` of
-- net_sample_common.c, with the texts of _09_http_client but for the name of the protocol.
use zephyr_samples.Base.{ℕ}
use zephyr_samples.Net.Address.{IfAddr}
use zephyr_samples.Net.HttpClient.Callbacks.{App, HttpResponse, FinalCall, L4Event}
use zephyr_samples.Net.HttpClient.Callbacks

abbrev pub response_cb : HttpResponse → FinalCall → App (Unit {0})
response_cb rsp final_data = Callbacks.response_cb rsp final_data

abbrev pub l4_event_handler : L4Event → IfAddr → ℕ → App (Unit {0})
l4_event_handler event slot gw = Callbacks.l4_event_handler event slot gw
