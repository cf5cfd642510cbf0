-- ===== src/Kernel/Tests.antt =====
-- Concrete numbers.
use zephyr_samples.Base.{pos, ◌≡◌, [], Env, arith}
use zephyr_samples.Kernel.Binary.{print_binary, read, digits, print_binary-read}
use zephyr_samples.Kernel.Random
use zephyr_samples.Kernel.Random.{RandCall, Fair, main-Fair}

print_binary-read_example :
    (read (print_binary 0xdead_beef []) ≡ 0xdead_beef) × (digits (print_binary 0xdead_beef []) ≡ 32)
print_binary-read_example = print_binary-read 0xdead_beef (omega arith)

-- A generator that returns one number again and again.
abbrev stuck : Env RandCall
stuck = record { result = λ log c. pos 4_294_967_299; bytes = λ log c. [] }

main-Fair_example : Fair (Random.main 2 stuck tt []).2
main-Fair_example = main-Fair stuck 2 tt [] tt
