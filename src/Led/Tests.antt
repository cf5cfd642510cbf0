-- ===== src/Led/Tests.antt =====
-- A device that takes every brightness.
use zephyr_samples.Base.{ℕ, ◌≤◌, ◌≡◌, refl, ℤ, pos, [], Env}
use zephyr_samples.Led.{LedCall, device_is_ready, State, update, fade_loop, main}
use zephyr_samples.Led.Fade.{levels, Ended, wave, main-wave}

abbrev answer : LedCall → ℤ
answer device_is_ready = pos 1
answer c = pos 0

abbrev lamp : Env LedCall
lamp = record { result = λ log c. answer c; bytes = λ log c. [] }

abbrev lit : State
lit = record { brightness = 7; direction = pos 9 }

main-wave_example :
    let (left, s', log') = main 120 lamp lit [] in
    (m : ℕ) × (m ≤ 120) × (levels log' ≡ wave m) × Ended left log' m 120
main-wave_example = main-wave lamp 120 lit

turning : (main 51 lamp lit []).1.brightness ≡ 98
unfolding main fade_loop update
turning = refl
