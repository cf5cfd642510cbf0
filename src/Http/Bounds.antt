-- ===== src/Http/Bounds.antt =====
-- The handlers that format a number.
use zephyr_samples.Base.{
  ℕ, ◌≡◌, refl, ℤ, pos, negsuc, Bool, true, false, ltb, if◌then◌else◌, take, List, ◌∷◌, Log, Env,
  to_ℕ, arith,
}
use zephyr_samples.Http.{
  HttpCall, Status, aborted, more, final, Response, Rc, code, minus_enomem, k_uptime_get,
  snprintf_info, info_size, info_response, format_info, device_info_handler,
}

-- A text of `len` bytes stands in `buf`, whole and with its NUL.
abbrev pub fits : ℤ → ℕ → Bool
fits (pos n) size = ltb n size
fits (negsuc n) size = false

-- How the handler answers a piece of a request, where the formatted text is `buf`, of `len` bytes:
-- a final one by the text, where it fits, and by an error that leaves the response as it was, where
-- it does not; any other one not at all.
abbrev pub Answered : ℤ → List ℕ → Status → Rc → Response → Response → Type 0
Answered len buf final rc s s' =
    if fits len info_size
    then (rc ≡ code (pos 0))
      × (s' ≡ record { body = take (to_ℕ len) buf; final_chunk = true; overrun = s.overrun })
    else (rc ≡ minus_enomem) × (s' ≡ s)
Answered len buf more rc s s' = (rc ≡ code (pos 0)) × (s' ≡ s)
Answered len buf aborted rc s s' = (rc ≡ code (pos 0)) × (s' ≡ s)

-- What `snprintf` returned and wrote.
response-Answered :
    (len : ℤ) (buf : List ℕ) (env : Env HttpCall) (s : Response) (log : Log HttpCall)
    → let (rc, s', log') = info_response (len, buf) env s log in Answered len buf final rc s s'
unfolding info_response
response-Answered (pos n) buf env s log = ground arith
response-Answered (negsuc n) buf env s log = (refl, refl)

module _ (env : Env HttpCall) where
  -- Whatever `snprintf` returns, the final piece of a request is answered by the whole text of the
  -- device information exactly where the text fits into its buffer with its NUL, with no byte from
  -- outside it; otherwise the handler fails with the response as it was. Other pieces are not answered.
  pub device_info_handler-bounds :
      (status : Status) (bytes : List ℕ) (s : Response) (log : Log HttpCall)
      → let log1 = (k_uptime_get, env.result log k_uptime_get) ∷ log in
        let c = snprintf_info info_size (env.result log k_uptime_get) in
        let (rc, s', log') = device_info_handler status bytes env s log in
        Answered (env.result log1 c) (env.bytes log1 c) status rc s s'
  unfolding device_info_handler format_info
  device_info_handler-bounds aborted bytes s log = (refl, refl)
  device_info_handler-bounds more bytes s log = (refl, refl)
  device_info_handler-bounds final bytes s log =
      let uptime = env.result log k_uptime_get in
      let log1 = (k_uptime_get, uptime) ∷ log in
      let len = env.result log1 (snprintf_info info_size uptime) in
      let buf = env.bytes log1 (snprintf_info info_size uptime) in
      response-Answered len buf env s ((snprintf_info info_size uptime, len) ∷ log1)
