-- ===== src/Proc/Process/Tests.antt =====
-- Runs on small systems, and the theorems at these inputs.
use libcosmos.Prelude.{ℕ, suc, ◌≡◌, refl, false, true, List, [], ◌∷◌, none, some, codes, arith}
use libcosmos.Outcome.{Bytes, ok, throw, usage_error, runtime_error, Reply, done, failed}
use libcosmos.Proc.Process.{
  is_process_group_leader, is_caller_process_group_leader, get_supplementary_groups, exec, Vector,
  lacks_terminator,
}
use libcosmos.Proc.Process.Groups.{is_caller_process_group_leader_lem}
use libcosmos.Proc.Process.Execution.{Terminated}

-- The process 40 calls; it leads its group.
abbrev getpgid : ℕ → ℕ → Reply ℕ × ℕ
getpgid pid w = (done 40, w)

by_number : is_process_group_leader getpgid 40 0 ≡ (ok true, 0)
unfolding is_process_group_leader
by_number = refl

is_caller_process_group_leader_lem_example :
    is_caller_process_group_leader getpgid 0 ≡ (ok false, 0)
is_caller_process_group_leader_lem_example =
    is_caller_process_group_leader_lem getpgid 0 0 40 (omega arith) refl

-- More groups than any buffer holds.
abbrev many : ℕ → ℕ → Reply (List ℕ) × ℕ
many n w = (failed 22, suc w)

too_many :
    get_supplementary_groups many 12 0
    ≡ (throw (runtime_error "excess number of supplementary groups" []), 11)
unfolding get_supplementary_groups
too_many = refl

abbrev sys_exec : Bytes → Vector → Vector → ℕ → Reply (Unit {0}) × ℕ
sys_exec path argv envp w = (failed 2, suc w)

unterminated :
    exec sys_exec (none ∷ []) (codes "ls") (some (some (codes "ls") ∷ [])) none 0
    ≡ (throw (usage_error "argument vector without nullptr terminator encountered"), 0)
unfolding exec
unterminated = refl

terminated : Terminated (none ∷ [])
unfolding lacks_terminator
terminated = refl
