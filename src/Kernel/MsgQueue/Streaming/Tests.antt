-- ===== src/Kernel/MsgQueue/Streaming/Tests.antt =====
-- Two values from a thread and an interrupt; two structures.
use zephyr_samples.Base.{◌≡◌, List, [], ◌∷◌, ◌++◌}
use zephyr_samples.Kernel.MsgQueue.{queued}
use zephyr_samples.Kernel.MsgQueue.Draining.Tests.{ten, ten-Fifo}
use zephyr_samples.Kernel.MsgQueue.Streaming.{
  Turn, sender, receiver, interrupt, StructTurn, sender1, sender2, struct_receiver, struct_run,
}
use zephyr_samples.Kernel.MsgQueue.Streaming.Order.{shown, accepted}
use zephyr_samples.Kernel.MsgQueue.Streaming.Structs.{LinesFromSenders, struct_run-shown}

abbrev turns : List Turn
turns = sender ∷ receiver ∷ receiver ∷ interrupt ∷ sender ∷ receiver ∷ []

abbrev struct_turns : List StructTurn
struct_turns = sender2 ∷ sender1 ∷ struct_receiver ∷ []

struct_run-shown_example :
    let (_, _, log) = struct_run struct_turns ten 0 [] in
    (shown log ++ queued log ≡ accepted log) × LinesFromSenders log
struct_run-shown_example = struct_run-shown 10 ten ten-Fifo struct_turns 0
