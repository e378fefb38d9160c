-- ===== src/Proc/Process/Execution.antt =====
-- Which vectors reach the calls that execute a program.
use libcosmos.Prelude.{◌≡◌, ◌⊎◌, inl, inr, refl, true, false, Option, none, some, Bool-cases}
use libcosmos.Outcome.{Bytes, file_error, usage_error, Outcome, throw, Reply, checked}
use libcosmos.Proc.Process.{Vector, exec, exec_wrapper, refuses, or_default, lacks_terminator}

-- The vector ends in its terminator.
abbrev pub Terminated : Vector → Type 0
Terminated v = lacks_terminator v ≡ false

Terminated-or :
    (v : Option Vector) (u : Vector)
    → refuses v ≡ false
    → Terminated u
    → Terminated (or_default v u)
Terminated-or none u h t = t
Terminated-or (some v) u h t = h

-- What comes of a program to execute: nothing is called if a vector has no terminator; else one call
-- is made, with vectors that have one, and its failure is the exception.
abbrev pub Executed :
    {W : Type 0}
    → (Bytes → Vector → Vector → W → Reply (Unit {0}) × W)
    → Bytes
    → Option Vector
    → Option Vector
    → W
    → Outcome (Unit {0}) × W
    → Type 0
Executed exec_func path args env w r =
    ((refuses args ≡ true)
      × (r ≡ (throw (usage_error "argument vector without nullptr terminator encountered"), w)))
    ⊎ ((refuses env ≡ true)
        × (r
            ≡ (throw (usage_error "environment vector without nullptr terminator encountered"), w)))
    ⊎ ((argv : Vector) × (envp : Vector) × Terminated argv
        × Terminated envp
        × (r ≡ checked (file_error path "execvpe()") (exec_func path argv envp w)))

-- `exec` calls execvpe(3) only with vectors that end in a null pointer: it throws a `UsageError`
-- for one that does not, and uses the path alone and the environment of the process where a vector
-- is not given. This holds whatever execvpe(3) does, if the environment of the process ends in a null pointer.
pub exec-Executed :
    {W : Type 0} (exec_func : Bytes → Vector → Vector → W → Reply (Unit {0}) × W) (environ : Vector)
    (path : Bytes) (args env : Option Vector) (w : W)
    → Terminated environ
    → Executed exec_func path args env w (exec exec_func environ path args env w)
unfolding exec exec_wrapper lacks_terminator
exec-Executed exec_func environ path args env w t = elim (Bool-cases (refuses args)) [
  | inl a ↦ rw a (inl (refl, refl))
  | inr a ↦ elim (Bool-cases (refuses env)) [
    | inl e ↦ rw (a, e) (inr (inl (refl, refl)))
    | inr e ↦
        rw (a, e)
          (inr (inr (_, _, Terminated-or args _ a refl, Terminated-or env environ e t, refl)))
  ]
]
