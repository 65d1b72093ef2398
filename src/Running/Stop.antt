-- ===== src/Running/Stop.antt =====
-- What a stop of the server in src/rabbit_digger/running.rs comes to.
use rabbit_digger.Base.{Option, none, some}
use rabbit_digger.Running.Server.{Ended, Task, Server, end_task}

-- How a task ends that was told to stop: as it had ended, or else by the given end.
abbrev pub ends_as : Option Ended → Ended → Ended
ends_as (some r) _ = r
ends_as none r = r

abbrev settle_in : Option Ended → Ended → Task → Task
settle_in (some _) r t = t
settle_in none r t = end_task r t

abbrev pub settle : Ended → Task → Task
settle r t = settle_in t.ended r t
