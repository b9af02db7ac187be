-- ===== src/Tests/TreeTests.antt =====
-- Runs of the process tree (kernel/proc/proc.c).
use abmp.Common.{
  ℕ, ◌+◌, ◌%◌, ◌≡◌, refl, inl, ◌⊎◌, ◌<◌, Bool, true, none, some, List, [], ◌∷◌, arith, ◌==◌,
  if◌then◌else◌,
}
use abmp.Proc.{PState, running, dead, Proc, Procs, _proc_getid, proc_create, proc_cleanup, taken}
use abmp.Proc.Pid.{Free, is_taken, getid-Free}
use abmp.Proc.Tree.{Ended, cleanup-Ended}
use abmp.Proc.Create.{Created, create-Created}
use abmp.Proc.Wait.{reaped, Disposed, any, do_waitpid, waitpid_first}

abbrev process : ℕ → ℕ → PState → List ℕ → Proc
process pid parent state children = record {
  pid = some pid;
  state = state;
  status = 9;
  pproc = some parent;
  children = children;
}

-- The idle process 0, the init process 1, and process 5, current, with the children 6, which runs,
-- and 7, which has ended; each stands at the address that is its pid.
abbrev family : Procs
family = record {
  proc = λ a.
      if a == 5
      then process 5 1 running (6 ∷ 7 ∷ [])
      else if a == 7
      then process 7 5 dead []
      else if a == 1
      then process 1 0 running (5 ∷ [])
      else process a 5 running [];
  listed = 0 ∷ 1 ∷ 5 ∷ 6 ∷ 7 ∷ [];
  curproc = some 5;
  initproc = some 1;
  next_pid = 6;
}

getid-Free_example :
    ((_proc_getid family ≡ some (none, family))
      × ((pid : ℕ) → pid < 65536 → is_taken family pid ≡ true))
    ⊎ ((pid : ℕ) × ((_proc_getid family
            ≡ some (some pid, record family { next_pid = (pid + 1) % 65536 }))
          × Free family pid))
getid-Free_example = getid-Free family (omega arith)

create-Created_example :
    (pid : ℕ) × ((s' : Procs) × ((proc_create (some 8) family ≡ some s')
        × (Free family pid × Created pid 8 5 family s')))
unfolding taken
create-Created_example =
    create-Created 8 5 8 family (omega arith) (omega arith) refl refl (inl refl) refl refl
      (omega arith)

cleanup-Ended_example : (s' : Procs) × ((proc_cleanup 5 3 family ≡ some s') × Ended 5 1 3 family s')
cleanup-Ended_example = cleanup-Ended 5 1 3 family (omega arith) refl refl refl

-- Every child can be disposed of.
abbrev all_clean : ℕ → Bool
all_clean d = true

waitpid_first_example :
    (s' : Procs) × ((do_waitpid all_clean [] 5 any family ≡ some (reaped (some 7) 9, s'))
      × Disposed 5 (6 ∷ []) [] (0 ∷ 1 ∷ 5 ∷ 6 ∷ []) [] family s')
waitpid_first_example =
    waitpid_first all_clean [] 5 7 (6 ∷ []) [] (0 ∷ 1 ∷ 5 ∷ 6 ∷ []) [] family refl refl refl refl
      refl refl refl
