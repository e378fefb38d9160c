-- ===== src/Proc/WaitStatus/Tests.antt =====
-- A stopped and a killed child as status words, and the theorems at such children.
use libcosmos.Prelude.{◌≡◌, refl, none, some, arith}
use libcosmos.Proc.ChildEvent.{Event}
use libcosmos.Proc.ChildState.{ChildState}
use libcosmos.Proc.WaitStatus.{of_child_state}
use libcosmos.Proc.WaitStatus.Encoding.{reading, expected, reading-of_child_state}

abbrev segfaulted : ChildState
segfaulted = record {
  event = Event.dumped;
  child = record { pid = 20; uid = 0 };
  status = none;
  signal = some 11;
}

status_word : of_child_state segfaulted ≡ 139
unfolding of_child_state
status_word = refl

reading-of_child_state_example : reading (of_child_state segfaulted) ≡ expected Event.dumped 11
reading-of_child_state_example = reading-of_child_state segfaulted (omega arith)
