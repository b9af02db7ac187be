-- ===== src/Proc/Wait.antt =====
-- kernel/proc/proc.c, `do_waitpid`. A sleep lets other processes run: each of `sleeps` is what they do
-- to the processes until the caller wakes again.
use abmp.Common.{
  ℕ, zero, suc, ◌≡◌, refl, Bool, true, false, not, ◌&&◌, Option, none, some, List, [], ◌∷◌, ◌++◌,
  if◌then◌else◌, ◌>>=◌, ◌>>◌, ◌≢◌, ◌==◌, ◌∙◌, ap, inl, inr, Bool-cases, arith, kassert,
}
use abmp.Sched.{erase, member}
use abmp.Proc.{PState, running, dead, Proc, Procs, has_pid, set_proc, is_nil}

-- -1, a pid, or a negative number but -1.
pub data Target : Type 0 where
  any : Target
  the : ℕ → Target
  other : Target

-- What the call returns, with the status where it is written: a child that is disposed of, one that
-- is left as it is, or -ECHILD.
pub data Waited : Type 0 where
  reaped : Option ℕ → ℕ → Waited
  untouched : Option ℕ → Waited
  echild : Waited

abbrev pub is_dead : PState → Bool
is_dead running = false
is_dead dead = true

-- Off the list of processes and off the parent's list of children.
unfoldable pub dispose : ℕ → ℕ → Procs → Procs
dispose cur d s =
    record (set_proc cur (record (s.proc cur) { children = erase d (s.proc cur).children }) s) {
      listed = erase d s.listed;
    }

abbrev pub first_dead : (ℕ → Proc) → List ℕ → Option ℕ
first_dead proc [] = none
first_dead proc (c ∷ rest) =
    let more = first_dead proc rest in if is_dead (proc c).state then some c else more

abbrev pub with_pid : (ℕ → Proc) → ℕ → List ℕ → Option ℕ
with_pid proc pid [] = none
with_pid proc pid (c ∷ rest) =
    let more = with_pid proc pid rest in if has_pid pid (proc c).pid then some c else more

-- Whether the assertions on a child that is disposed of hold: each of its threads has exited, and it
-- has a page directory.
module _ (clean : ℕ → Bool) where
  unfoldable pub reap : ℕ → ℕ → Procs → Option (Waited × Procs)
  reap cur d s = do
    kassert (clean d)
    some (reaped (s.proc d).pid (s.proc d).status, dispose cur d s)

  -- The idle process does not dispose of process 2.
  unfoldable pub reap_any : ℕ → ℕ → Procs → Option (Waited × Procs)
  unfolding reap
  reap_any cur d s =
      if has_pid 0 (s.proc cur).pid && has_pid 2 (s.proc d).pid
      then some (untouched (s.proc d).pid, s)
      else reap cur d s

  -- `wait_to_die1`
  unfoldable pub wait_any : List (Procs → Procs) → ℕ → Procs → Option (Waited × Procs)
  unfolding reap_any
  wait_any [] cur s =
      if is_nil (s.proc cur).children
      then some (echild, s)
      else (first_dead s.proc (s.proc cur).children >>= λ d. reap_any cur d s)
  wait_any (f ∷ sleeps) cur s =
      let next = wait_any sleeps cur (f s) in
      if is_nil (s.proc cur).children
      then some (echild, s)
      else elim (first_dead s.proc (s.proc cur).children) [
        | none ↦ next
        | some d ↦ reap_any cur d s
      ]

  -- `wait_to_die2`
  unfoldable pub wait_child : List (Procs → Procs) → ℕ → ℕ → Procs → Option (Waited × Procs)
  unfolding reap
  wait_child [] cur d s = if is_dead (s.proc d).state then reap cur d s else none
  wait_child (f ∷ sleeps) cur d s =
      let next = wait_child sleeps cur d (f s) in
      if is_dead (s.proc d).state then reap cur d s else next

  wait_for : List (Procs → Procs) → ℕ → Target → Procs → Option (Waited × Procs)
  unfolding wait_any wait_child
  wait_for sleeps cur any s = wait_any sleeps cur s
  wait_for sleeps cur (the zero) s = none
  wait_for sleeps cur (the (suc n)) s = elim (with_pid s.proc (suc n) (s.proc cur).children) [
    | none ↦ some (echild, s)
    | some d ↦ wait_child sleeps cur d s
  ]
  wait_for sleeps cur other s = some (echild, s)

  -- The options are 0.
  unfoldable pub do_waitpid : List (Procs → Procs) → ℕ → Target → Procs → Option (Waited × Procs)
  unfolding wait_for
  do_waitpid sleeps cur target s =
      if is_nil (s.proc cur).children then some (echild, s) else wait_for sleeps cur target s

abbrev pub all_running : (ℕ → Proc) → List ℕ → Bool
all_running proc [] = true
all_running proc (c ∷ rest) = not (is_dead (proc c).state) && all_running proc rest

first_dead_lem :
    (proc : ℕ → Proc) (xs ys : List ℕ) (d : ℕ)
    → all_running proc xs ≡ true
    → (proc d).state ≡ dead
    → first_dead proc (xs ++ (d ∷ ys)) ≡ some d
first_dead_lem proc [] ys d h e = rw e refl
first_dead_lem proc (x ∷ xs) ys d h e =
    let p = first_dead_lem proc xs ys d (ground (arith, h)) e in ground (arith, h, p)

some_child : (xs ys : List ℕ) (d : ℕ) → is_nil (xs ++ (d ∷ ys)) ≡ false
some_child [] ys d = refl
some_child (x ∷ xs) ys d = refl

erase-append : (d : ℕ) (xs ys : List ℕ) → member d xs ≡ false → erase d (xs ++ (d ∷ ys)) ≡ xs ++ ys
erase-append d [] ys h = ground arith
erase-append d (x ∷ xs) ys h =
    let p = erase-append d xs ys (ground (arith, h)) in
    let q : (x == d) ≡ false = ground (arith, h) in rw (q, p) refl

running-member :
    (proc : ℕ → Proc) (d : ℕ) (xs : List ℕ)
    → all_running proc xs ≡ true
    → (proc d).state ≡ dead
    → member d xs ≡ false
running-member proc d [] h e = refl
running-member proc d (x ∷ xs) h e = elim (Bool-cases (x == d)) [
  | inl p ↦
      let a : x ≡ d = ground arith in
      let b : is_dead (proc x).state ≡ true = ap (λ z. is_dead (proc z).state) a ∙ ap is_dead e in
      absurd (ground (arith, h, b))
  | inr p ↦ let q = running-member proc d xs (ground (arith, h)) e in rw (p, q) refl
]

-- In `s'`, the process is gone from the children of `cur`, between `xs` and `ys`, and from the list of
-- processes, between `ls` and `rs`; nothing else has changed.
pub record Disposed (cur : ℕ) (xs ys ls rs : List ℕ) (s s' : Procs) : Type 0 where
  pub children : s'.proc cur ≡ record (s.proc cur) { children = xs ++ ys }
  pub others : (a : ℕ) → a ≢ cur → s'.proc a ≡ s.proc a
  pub listed : s'.listed ≡ ls ++ rs
  pub curproc : s'.curproc ≡ s.curproc
  pub initproc : s'.initproc ≡ s.initproc
  pub next_pid : s'.next_pid ≡ s.next_pid

dispose-Disposed :
    (cur d : ℕ) (xs ys ls rs : List ℕ) (s : Procs)
    → (s.proc cur).children ≡ xs ++ (d ∷ ys)
    → member d xs ≡ false
    → s.listed ≡ ls ++ (d ∷ rs)
    → member d ls ≡ false
    → Disposed cur xs ys ls rs s (dispose cur d s)
unfolding dispose
dispose-Disposed cur d xs ys ls rs s e h e' h' = record {
  children = rw (e, erase-append d xs ys h) ground arith;
  others = λ a n. ground (arith, n);
  listed = rw e' (erase-append d ls rs h');
  curproc = refl;
  initproc = refl;
  next_pid = refl;
}

-- Where `d` is the first dead child of a process that is not the idle one, its threads have exited
-- and it has a page directory, and it is on the list of processes, `do_waitpid` with -1
-- returns its pid and status at once, whatever the other processes would do during a sleep, and
-- takes it, and nothing else, off the list of processes and off the children.
pub waitpid_first :
    (clean : ℕ → Bool) (sleeps : List (Procs → Procs)) (cur d : ℕ) (xs ys ls rs : List ℕ)
    (s : Procs)
    → (s.proc cur).children ≡ xs ++ (d ∷ ys)
    → all_running s.proc xs ≡ true
    → (s.proc d).state ≡ dead
    → s.listed ≡ ls ++ (d ∷ rs)
    → member d ls ≡ false
    → has_pid 0 (s.proc cur).pid ≡ false
    → clean d ≡ true
    → (s' : Procs) × ((do_waitpid clean sleeps cur any s
          ≡ some (reaped (s.proc d).pid (s.proc d).status, s'))
        × Disposed cur xs ys ls rs s s')
unfolding do_waitpid wait_for wait_any reap_any reap
waitpid_first clean [] cur d xs ys ls rs s e hx hd el hl hp hc = (
  dispose cur d s,
  (
    rw (e, some_child xs ys d, first_dead_lem s.proc xs ys d hx hd, hp, hc) refl,
    dispose-Disposed cur d xs ys ls rs s e (running-member s.proc d xs hx hd) el hl,
  ),
)
waitpid_first clean (f ∷ sleeps) cur d xs ys ls rs s e hx hd el hl hp hc = (
  dispose cur d s,
  (
    rw (e, some_child xs ys d, first_dead_lem s.proc xs ys d hx hd, hp, hc) refl,
    dispose-Disposed cur d xs ys ls rs s e (running-member s.proc d xs hx hd) el hl,
  ),
)
