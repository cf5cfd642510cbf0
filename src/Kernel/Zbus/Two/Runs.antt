-- ===== src/Kernel/Zbus/Two/Runs.antt =====
-- All schedules of the two threads of _07_two_messages_one_observer.
use zephyr_samples.Kernel.Zbus.Two.{Config}
use zephyr_samples.Kernel.Zbus.Two.Current.{Kept}

abbrev Holds : Config → Type 0
Holds c = Kept c.sub_point c.threads c.log
