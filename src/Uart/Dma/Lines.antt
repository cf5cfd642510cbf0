-- ===== src/Uart/Dma/Lines.antt =====
-- The loop of main of _08_rx_messages_with_dma, against the line assembler of Uart/Rx/Line.
use zephyr_samples.Base.{
  ℕ, zero, suc, ◌<◌, ◌≡◌, refl, ◌∙◌, List, [], ◌∷◌, ◌++◌, Option, none, some, Log, Env, take,
  length, length-append, arith, inl, inr, ◌==◌, Bool-cases,
}
use zephyr_samples.Uart.Rx.{get_at, set_at}
use zephyr_samples.Uart.Rx.Line.{feed, get_at-set_at, length-set_at, take-set_at, take-set_at-below}
use zephyr_samples.Uart.Dma.{
  DmaCall, UartRx, k_msgq_get, printk_message, print_line, process_stored, main_round, main_rounds,
}

-- The line under way after the bytes of a log, and the line that its last byte ended: `byte` is
-- what the queue gives after the calls made before.
abbrev pub line_of : (Log DmaCall → ℕ) → Log DmaCall → List ℕ
line_of byte [] = []
line_of byte ((k_msgq_get, r) ∷ log) = (feed (byte log) (line_of byte log)).0
line_of byte ((c, r) ∷ log) = line_of byte log

abbrev pub ended : (Log DmaCall → ℕ) → Log DmaCall → Option (List ℕ)
ended byte [] = none
ended byte ((k_msgq_get, r) ∷ log) = (feed (byte log) (line_of byte log)).1
ended byte ((c, r) ∷ log) = ended byte log

-- The messages printed, the latest first.
abbrev pub prints : Log DmaCall → List (List ℕ)
prints [] = []
prints ((printk_message m, r) ∷ log) = m ∷ prints log
prints ((c, r) ∷ log) = prints log

-- The buffer holds the line under way.
abbrev pub Holds : List ℕ → UartRx → Type 0
Holds line s =
    (s.counter ≡ length line)
    × (take (length line) s.buffer ≡ line)
    × (length s.buffer ≡ 50)
    × (length line < 50)

-- A line that is ended is printed once, with its NUL; otherwise nothing is printed.
abbrev pub Printed : Option (List ℕ) → Log DmaCall → Log DmaCall → Type 0
Printed none log log' = prints log' ≡ prints log
Printed (some line) log log' =
    (m : List ℕ) × (prints log' ≡ m ∷ prints log) × (take (suc (length line)) m ≡ line ++ 0 ∷ [])

Printed-from :
    (d : Option (List ℕ)) (log log1 log' : Log DmaCall)
    → prints log1 ≡ prints log
    → Printed d log1 log'
    → Printed d log log'
Printed-from none log log1 log' e h = h ∙ e
Printed-from (some line) log log1 log' e (m, h, h') = (m, h ∙ rw e, h')

-- The queue gives one byte to each call.
unfoldable pub Gives : Env DmaCall → (Log DmaCall → ℕ) → Type 0
Gives env byte = (log : Log DmaCall) → env.bytes log k_msgq_get ≡ byte log ∷ []

module _ (env : Env DmaCall) where
  -- The byte is stored behind the line.
  process_stored-feed :
      (s : UartRx) (log : Log DmaCall) (line : List ℕ) (b : ℕ)
      → Holds line s
      → let (_, s', log') =
          process_stored env (record s { buffer = set_at s.counter b s.buffer }) log in
        let (line', done) = feed b line in Holds line' s' × Printed done log log'
  unfolding process_stored print_line
  process_stored-feed s log line b (e0, e1, e2, lt) =
      let c = length line in
      let fits : c < length s.buffer = omega (arith, e2) in
      let xs = set_at c b s.buffer in
      let g = get_at-set_at c b s.buffer fits in
      let el = length-set_at c b s.buffer in
      let fits' : c < length xs = omega (arith, el) in
      let below = take-set_at-below c b s.buffer in
      elim (Bool-cases (b == 13)) [
        | inl e ↦
            rw (e0, g, e)
              (
                (refl, refl, length-set_at c 0 xs ∙ el ∙ e2, omega arith),
                (set_at c 0 xs, refl, take-set_at c 0 xs fits' ∙ rw (below, e1)),
              )
        | inr e ↦
            rw (e0, g, e)
              (ground (arith, take-set_at c b s.buffer fits, el, length-append line (b ∷ [])))
      ]

  process_stored-bytes :
      (byte : Log DmaCall → ℕ) (s : UartRx) (log : Log DmaCall)
      → let (_, s', log') = process_stored env s log in
        (line_of byte log' ≡ line_of byte log) × (ended byte log' ≡ ended byte log)
  unfolding process_stored print_line
  process_stored-bytes byte s log = ground arith

  main_round-line :
      (byte : Log DmaCall → ℕ)
      → Gives env byte
      → (s : UartRx) (log : Log DmaCall) → Holds (line_of byte log) s
      → let (_, s', log') = main_round env s log in
        Holds (line_of byte log') s' × Printed (ended byte log') log log'
  unfolding main_round Gives get_at
  main_round-line byte gives s log h =
      let b = byte log in
      let s1 = record s { buffer = set_at s.counter b s.buffer } in
      let log1 = (k_msgq_get, env.result log k_msgq_get) ∷ log in
      let (el, ee) = process_stored-bytes byte s1 log1 in
      let f = process_stored-feed s log1 (line_of byte log) b h in
      let log' = (process_stored env s1 log1).2 in
      let d = (feed b (line_of byte log)).1 in
      rw (gives log, el, ee) (f.0, Printed-from d log log1 log' refl f.1)

  main_rounds-Holds :
      (byte : Log DmaCall → ℕ)
      → Gives env byte
      → (n : ℕ) (s : UartRx) (log : Log DmaCall) → Holds (line_of byte log) s
      → let (_, s', log') = main_rounds n env s log in Holds (line_of byte log') s'
  unfolding main_rounds
  main_rounds-Holds byte gives zero s log h = h
  main_rounds-Holds byte gives (suc n) s log h =
      let (_, s', log') = main_round env s log in
      main_rounds-Holds byte gives n s' log' (main_round-line byte gives s log h).0

  -- Started with the line under way in the buffer, and where the queue gives one byte to each call,
  -- after any number of rounds the buffer holds the line under way, and the next round takes its byte
  -- as a line assembler does: a carriage return prints one message, the whole line with a NUL behind
  -- it, and any other byte prints nothing.
  pub main_rounds-lines :
      (byte : Log DmaCall → ℕ)
      → Gives env byte
      → (n : ℕ) (s : UartRx) (log : Log DmaCall) → Holds (line_of byte log) s
      → let (_, s1, log1) = main_rounds n env s log in
        let (_, s2, log2) = main_round env s1 log1 in
        Holds (line_of byte log1) s1
        × Holds (line_of byte log2) s2
        × Printed (ended byte log2) log1 log2
  main_rounds-lines byte gives n s log h =
      let (_, s1, log1) = main_rounds n env s log in
      let h1 = main_rounds-Holds byte gives n s log h in
      let (h2, p) = main_round-line byte gives s1 log1 h1 in (h1, h2, p)
