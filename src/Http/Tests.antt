-- ===== src/Http/Tests.antt =====
-- Concrete requests.
use zephyr_samples.Base.{Log, ℕ, pos, ◌≡◌, refl, true, false, List, [], ◌∷◌, Env, codes}
use zephyr_samples.Http.{
  k_uptime_get, snprintf_info, info_size, HttpCall, final, aborted, device_info_handler,
  echo_handler, uptime_handler, format_uptime, uptime_response,
}
use zephyr_samples.Http.Echo.{respond, request, no_response, echo_handler-echo}
use zephyr_samples.Http.Bounds.{Answered, device_info_handler-bounds}

-- `snprintf` that wants 30 bytes.
abbrev wordy : Env HttpCall
wordy = record { result = λ log c. pos 30; bytes = λ log c. codes "0123456789" }

abbrev pieces : List (List ℕ)
pieces = codes "ab" ∷ codes "c" ∷ []

echo_handler-echo_example :
    (respond echo_handler wordy (request pieces (codes "d") final) [] ≡ (codes "abcd", true, []))
    × (respond echo_handler wordy (request pieces (codes "d") aborted) []
        ≡ (codes "abc", false, []))
echo_handler-echo_example = echo_handler-echo wordy pieces (codes "d") []

device_info_handler-bounds_example :
    let log1 : Log HttpCall = (k_uptime_get, wordy.result [] k_uptime_get) ∷ [] in
    let c = snprintf_info info_size (wordy.result [] k_uptime_get) in
    let (rc, s', log') = device_info_handler final [] wordy no_response [] in
    Answered (wordy.result log1 c) (wordy.bytes log1 c) final rc no_response s'
device_info_handler-bounds_example = device_info_handler-bounds wordy final [] no_response []

-- The uptime handler does not test for a length that leaves its buffer.
uptime_overrun : (uptime_handler 22 final [] wordy no_response []).1.overrun ≡ true
unfolding uptime_handler format_uptime uptime_response
uptime_overrun = refl
