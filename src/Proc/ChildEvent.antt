-- ===== src/Proc/ChildEvent.antt =====
-- `ChildState::Event` of include/proc/types.hxx.
use libcosmos.Prelude.{Bool, true, false}

-- The values of `Event`; `other` is a `CLD_` code that the enumeration does not name.
pub data Event : Type 0 where
  invalid exited killed dumped trapped stopped continued other : Event

abbrev pub is_exited : Event → Bool
is_exited Event.exited = true
is_exited _ = false

abbrev pub is_killed : Event → Bool
is_killed Event.killed = true
is_killed _ = false

abbrev pub is_dumped : Event → Bool
is_dumped Event.dumped = true
is_dumped _ = false

abbrev pub is_trapped : Event → Bool
is_trapped Event.trapped = true
is_trapped _ = false

abbrev pub is_stopped : Event → Bool
is_stopped Event.stopped = true
is_stopped _ = false

abbrev pub is_continued : Event → Bool
is_continued Event.continued = true
is_continued _ = false
