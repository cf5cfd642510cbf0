-- ===== src/Http.antt =====
-- networking/ETHERNET/_11_http_server_basic/src/main.c: the resources of the HTTP server and their
-- handlers, which networking/ETHERNET/_12_https_server_basic/src/main.c repeats. The server itself is
-- a library: it calls a handler once for each piece of a request, and sends the response.
pub mod Echo
pub mod Bounds
pub mod Secure
mod Tests
use zephyr_samples.Base.{
  ℕ, ℤ, pos, Bool, true, false, ◌||◌, not, List, [], ◌∷◌, Log, Env, if◌then◌else◌, is_neg, leb,
  to_ℕ, take, length, codes, Io, pure, ◌>>=◌, ◌>>◌, call, call_bytes, get,
}

-- What a credential is.
pub data Credential : Type 0 where
  server_certificate private_key psk psk_id : Credential

pub data HttpCall : Type 0 where
  k_uptime_get : HttpCall
  -- the formats of the device information and of the uptime, with the room and the uptime
  snprintf_info snprintf_uptime : ℕ → ℤ → HttpCall
  tls_credential_add : ℕ → Credential → HttpCall
  http_server_start : HttpCall

-- `enum http_data_status`: `more` is what is neither aborted nor final.
pub data Status : Type 0 where
  aborted more final : Status

-- `struct http_response_ctx`. `body` is the bytes that it names; `overrun` says whether its length
-- leaves the buffer.
pub record Response : Type 0 where
  pub body : List ℕ
  pub final_chunk : Bool
  pub overrun : Bool

abbrev pub App : Type 0 → Type 0
App A = Io Response HttpCall A

-- The return code of a handler; ENOMEM is a number of the C library.
pub data Rc : Type 0 where
  code : ℤ → Rc
  minus_enomem : Rc

-- `sizeof(info_buf)`
abbrev pub info_size : ℕ
info_size = 256

-- The body in a buffer of `size` bytes, of which `len` are sent: a negative `len` is a huge size_t.
abbrev pub set_body : ℕ → ℤ → List ℕ → App (Unit {0})
set_body size len buf env s log = (
  tt,
  record {
    body = take (to_ℕ len) buf;
    final_chunk = true;
    overrun = s.overrun || is_neg len || not (leb (to_ℕ len) size);
  },
  log,
)

-- What follows `snprintf` of the device information.
pub info_response : ℤ × List ℕ → App Rc
info_response (len, buf) =
    if is_neg len || leb info_size (to_ℕ len)
    then pure minus_enomem
    else (set_body info_size len buf >> pure (code (pos 0)))

pub format_info : App Rc
format_info = do
  uptime ← call k_uptime_get
  p ← call_bytes (snprintf_info info_size uptime)
  info_response p

-- The data of the request is not used.
pub device_info_handler : Status → List ℕ → App Rc
device_info_handler final bytes = format_info
device_info_handler more bytes = pure (code (pos 0))
device_info_handler aborted bytes = pure (code (pos 0))

pub set_echo : List ℕ → Bool → App (Unit {0})
set_echo bytes last env s log = (tt, record s { body = bytes; final_chunk = last }, log)

pub is_final : Status → Bool
is_final aborted = false
is_final more = false
is_final final = true

pub echo_handler : Status → List ℕ → App Rc
echo_handler aborted bytes = pure (code (pos 0))
echo_handler more bytes = set_echo bytes (is_final more) >> pure (code (pos 0))
echo_handler final bytes = set_echo bytes (is_final final) >> pure (code (pos 0))

-- `sizeof(STRINGIFY(INT64_MAX))` is a number of the compiler.
module _ (uptime_size : ℕ) where
  pub uptime_response : ℤ × List ℕ → App Rc
  uptime_response (ret, buf) =
      if is_neg ret then pure (code ret) else (set_body uptime_size ret buf >> pure (code (pos 0)))

  pub format_uptime : App Rc
  format_uptime = do
    uptime ← call k_uptime_get
    p ← call_bytes (snprintf_uptime uptime_size uptime)
    uptime_response p

  pub uptime_handler : Status → List ℕ → App Rc
  uptime_handler final bytes = format_uptime
  uptime_handler more bytes = pure (code (pos 0))
  uptime_handler aborted bytes = pure (code (pos 0))

-- A resource: a file, or a handler with whether it takes POST besides GET.
pub data Resource : Type 0 where
  static_file : List ℕ → Resource
  dynamic : Bool → (Status → List ℕ → App Rc) → Resource

abbrev pub http_server_port : ℕ
http_server_port = 8080

-- The two files are compiled in by the build.
module _ (index_html_gz main_js_gz : List ℕ) where
  pub resources : List (List ℕ × Resource)
  resources =
      (codes "/", static_file index_html_gz)
      ∷ (codes "/main.js", static_file main_js_gz)
      ∷ (codes "/device-info", dynamic false device_info_handler)
      ∷ (codes "/echo", dynamic true echo_handler)
      ∷ []

pub main : App ℕ
main = do _ ← call http_server_start; pure 0
