-- ===== src/Proc/ChildCloner/Arguments.antt =====
-- The executable and the arguments under the setters of include/proc/ChildCloner.hxx.
use libcosmos.Prelude.{
  ◌≡◌, refl, sym, subst, ◌∙◌, false, List, [], ◌∷◌, ◌++◌, ltb, length, is_empty, arith, Bool-cases,
  inl, inr,
}
use libcosmos.Outcome.{Bytes, ok}
use libcosmos.Proc.ChildCloner.{
  Settings, defaults, set_exe, set_no_exe, set_args, clear_args, add_arg, verify_args,
  exe_from_argv0, with_argv0, erase_second,
}

-- The calls that change the executable or the arguments.
pub data Change : Type 0 where
  to_exe : Bytes → Change
  to_no_exe : Change
  to_args : List Bytes → Change
  one_less : Change
  one_more : Bytes → Change

unfoldable pub change : Change → Settings → Settings
unfolding set_exe set_no_exe set_args clear_args add_arg
change (to_exe exe) s = set_exe exe s
change to_no_exe s = set_no_exe s
change (to_args sv) s = set_args sv s
change one_less s = clear_args s
change (one_more arg) s = add_arg arg s

unfoldable pub configure : List Change → Settings → Settings
unfolding change
configure [] s = s
configure (x ∷ xs) s = configure xs (change x s)

abbrev Aligned : Settings → Type 0
Aligned s = s.executable ≡ exe_from_argv0 s.argv

append-exe :
    (exe arg : Bytes) (argv : List Bytes)
    → is_empty exe ≡ false
    → exe ≡ exe_from_argv0 argv
    → exe ≡ exe_from_argv0 (argv ++ arg ∷ [])
append-exe [] arg [] n h = ground arith
append-exe (b ∷ bs) arg [] n h = ground arith
append-exe exe arg (a ∷ rest) n h = h

erase-exe : (argv : List Bytes) → exe_from_argv0 (erase_second argv) ≡ exe_from_argv0 argv
erase-exe [] = refl
erase-exe (a ∷ []) = refl
erase-exe (a ∷ b ∷ rest) = refl

with_argv0-exe : (exe : Bytes) (argv : List Bytes) → exe ≡ exe_from_argv0 (with_argv0 exe argv)
with_argv0-exe exe [] = refl
with_argv0-exe exe (a ∷ rest) = refl

clear_args-Aligned : (s : Settings) → Aligned s → Aligned (clear_args s)
unfolding clear_args
clear_args-Aligned s h = elim (Bool-cases (ltb 1 (length s.argv))) [
  | inl e ↦ rw e (h ∙ sym (erase-exe s.argv))
  | inr e ↦ rw e h
]

add_arg-Aligned : (arg : Bytes) (s : Settings) → Aligned s → Aligned (add_arg arg s)
unfolding add_arg set_exe
add_arg-Aligned arg s h = elim (Bool-cases (is_empty s.executable)) [
  | inl e ↦ rw e (with_argv0-exe arg s.argv)
  | inr e ↦ rw e (append-exe s.executable arg s.argv e h)
]

change-Aligned : (x : Change) (s : Settings) → Aligned s → Aligned (change x s)
unfolding change set_exe set_args set_no_exe
change-Aligned (to_exe exe) s h = with_argv0-exe exe s.argv
change-Aligned to_no_exe s h = h
change-Aligned (to_args sv) s h = refl
change-Aligned one_less s h = clear_args-Aligned s h
change-Aligned (one_more arg) s h = add_arg-Aligned arg s h

configure-Aligned : (xs : List Change) (s : Settings) → Aligned s → Aligned (configure xs s)
unfolding configure
configure-Aligned [] s h = h
configure-Aligned (x ∷ xs) s h = configure-Aligned xs (change x s) (change-Aligned x s h)

verified_exe :
    (s : Settings) → s.allow_no_exe ≡ false → verify_args s ≡ ok tt → is_empty s.executable ≡ false
unfolding verify_args
verified_exe s a v = ground arith

-- However the executable and the arguments are set from the defaults by `setExe`, `setNoExe`,
-- `setArgs`, `clearArgs` and `operator<<`: if `verifyArgs` accepts settings that want a program, the
-- first argument, which is what the child executes, is the executable, and it is not empty.
pub configure_lem :
    (xs : List Change) (s : Settings)
    → s ≡ configure xs defaults
    → s.allow_no_exe ≡ false
    → verify_args s ≡ ok tt
    → (exe_from_argv0 s.argv ≡ s.executable) × (is_empty (exe_from_argv0 s.argv) ≡ false)
unfolding defaults
configure_lem xs s e a v =
    let h = subst Aligned (sym e) (configure-Aligned xs defaults refl) in
    (sym h, subst (λ q. is_empty q ≡ false) h (verified_exe s a v))
