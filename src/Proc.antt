-- ===== src/Proc.antt =====
-- kernel/proc/proc.c: process identifiers, the list of processes, and the tree of processes.
-- A process is named by its address, a number; the threads, files and page tables of a process are
-- left out. A pid is `none` for -1. `none` is a `KASSERT` that fails or a wait that never ends.
pub mod Pid
pub mod Tree
pub mod Wait
pub mod Create
use abmp.Common.{
  ℕ, zero, suc, ◌+◌, ◌%◌, Bool, true, false, not, ◌&&◌, ◌||◌, Option, none, some, List, [], ◌∷◌,
  ◌++◌, ◌==◌, if◌then◌else◌, ◌>>=◌, ◌>>◌, kassert,
}
use abmp.Sched.{update, erase}

-- PROC_RUNNING, PROC_DEAD
pub data PState : Type 0 where
  running dead : PState

pub record Proc : Type 0 where
  pub pid : Option ℕ
  pub state : PState
  pub status : ℕ
  pub pproc : Option ℕ
  pub children : List ℕ

pub record Procs : Type 0 where
  pub proc : ℕ → Proc
  pub listed : List ℕ
  pub curproc : Option ℕ
  pub initproc : Option ℕ
  pub next_pid : ℕ

abbrev pub has_pid : ℕ → Option ℕ → Bool
has_pid n none = false
has_pid n (some m) = m == n

-- The loop over `_proc_list` that looks for a pid.
unfoldable pub taken : (ℕ → Proc) → ℕ → List ℕ → Bool
taken proc pid [] = false
taken proc pid (a ∷ rest) =
    let more = taken proc pid rest in if has_pid pid (proc a).pid then true else more

-- A pass of the loop for each pid that is tried; there are PROC_MAX_COUNT of them.
unfoldable pub getid : ℕ → Procs → ℕ → Option (Option ℕ)
unfolding taken
getid zero s pid = none
getid (suc fuel) s pid =
    let next = getid fuel s ((pid + 1) % 65536) in
    if taken s.proc pid s.listed
    then (if (pid + 1) % 65536 == s.next_pid then some none else next)
    else some (some pid)

abbrev pub advance_pid : Option ℕ → Procs → Procs
advance_pid none s = s
advance_pid (some pid) s = record s { next_pid = (pid + 1) % 65536 }

unfoldable pub _proc_getid : Procs → Option (Option ℕ × Procs)
unfolding getid
_proc_getid s = getid 65536 s s.next_pid >>= λ pid. some (pid, advance_pid pid s)

unfoldable pub lookup_from : (ℕ → Proc) → ℕ → List ℕ → Option ℕ
lookup_from proc pid [] = none
lookup_from proc pid (a ∷ rest) =
    let more = lookup_from proc pid rest in if has_pid pid (proc a).pid then some a else more

unfoldable pub proc_lookup : Procs → ℕ → Option ℕ
unfolding lookup_from
proc_lookup s pid = lookup_from s.proc pid s.listed

abbrev pub set_proc : ℕ → Proc → Procs → Procs
set_proc a p s = record s { proc = update s.proc a p }

abbrev pub is_nil : List ℕ → Bool
is_nil [] = true
is_nil (x ∷ rest) = false

abbrev pub pid_of : Procs → Option ℕ → Option ℕ
pid_of s none = none
pid_of s (some a) = (s.proc a).pid

-- At the end of the current process's children, if there is a current process.
unfoldable pub adopt : Option ℕ → ℕ → Procs → Procs
adopt none child s = s
adopt (some p) child s =
    set_proc p (record (s.proc p) { children = (s.proc p).children ++ (child ∷ []) }) s

-- The new process stands at the address `new`, which the allocator hands out.
unfoldable pub created : Option ℕ → ℕ → Procs → Procs
unfolding adopt
created pid new s =
    let p : Proc = record {
      pid = pid;
      state = running;
      status = 0;
      pproc = s.curproc;
      children = [];
    } in
    let s₁ : Procs = record s {
      initproc = if has_pid 1 pid then some new else s.initproc;
      listed = s.listed ++ (new ∷ []);
    } in
    adopt s.curproc new (set_proc new p s₁)

-- `alloc` is what `slab_obj_alloc` returns, `none` for NULL.
unfoldable pub proc_create : Option ℕ → Procs → Option Procs
unfolding _proc_getid created
proc_create alloc s₀ = do
  (pid, s) ← _proc_getid s₀
  kassert (not (has_pid 0 pid) || is_nil s.listed)
  new ← alloc
  kassert (not (has_pid 1 pid) || has_pid 0 (pid_of s s.curproc))
  some (created pid new s)

-- A child of `p` made a child of the init process, the last one.
unfoldable pub hand_over : ℕ → ℕ → ℕ → Procs → Procs
unfolding adopt
hand_over p init c s =
    let s₁ = set_proc p (record (s.proc p) { children = erase c (s.proc p).children }) s in
    let s₂ = adopt (some init) c s₁ in set_proc c (record (s₂.proc c) { pproc = some init }) s₂

unfoldable pub reparent : ℕ → ℕ → List ℕ → Procs → Procs
unfolding hand_over
reparent p init [] s = s
reparent p init (c ∷ rest) s = reparent p init rest (hand_over p init c s)

abbrev pub positive : Option ℕ → Bool
positive none = false
positive (some n) = not (n == 0)

abbrev pub is_some : Option ℕ → Bool
is_some none = false
is_some (some a) = true

reparent_all : ℕ → Option ℕ → Procs → Option Procs
unfolding reparent
reparent_all p none s = if is_nil (s.proc p).children then some s else none
reparent_all p (some init) s = some (if p == init then s else reparent p init (s.proc p).children s)

-- Without the files, the working directory, the address space and the wake-up of the parent.
unfoldable pub proc_cleanup : ℕ → ℕ → Procs → Option Procs
unfolding reparent_all
proc_cleanup p status s = do
  kassert (positive (s.proc p).pid)
  s₁ ←
      reparent_all p s.initproc (set_proc p (record (s.proc p) { state = dead; status = status }) s)
  kassert (is_some (s.proc p).pproc)
  some s₁
