-- ===== src/Proc/Pid.antt =====
-- kernel/proc/proc.c: the identifier that `_proc_getid` finds.
use abmp.Common.{
  ℕ, zero, suc, ◌+◌, ◌-◌, ◌%◌, ◌<◌, ◌≡◌, refl, sym, ap, ◌∙◌, ◌⊎◌, inl, inr, Bool, true, false,
  Option, none, some, ◌==◌, Bool-cases, arith,
}
use abmp.Proc.{Procs, taken, getid, _proc_getid}

abbrev pub is_taken : Procs → ℕ → Bool
is_taken s pid = taken s.proc pid s.listed

-- The first free pid from `next_pid` on, in a cycle, and the one after it is `next_pid`.
pub record Free (s : Procs) (pid : ℕ) : Type 0 where
  pub steps : ℕ
  pub at : pid ≡ (s.next_pid + steps) % 65536
  pub free : is_taken s pid ≡ false
  pub skipped : (j : ℕ) → j < steps → is_taken s ((s.next_pid + j) % 65536) ≡ true

below-suc : (j k : ℕ) → j < suc k → (j < k) ⊎ (j ≡ k)
below-suc j k h = ground arith

-- Another pid tried.
also_taken :
    (s : Procs) (k : ℕ)
    → ((j : ℕ) → j < k → is_taken s ((s.next_pid + j) % 65536) ≡ true)
    → is_taken s ((s.next_pid + k) % 65536) ≡ true
    → (j : ℕ) → j < suc k
    → is_taken s ((s.next_pid + j) % 65536) ≡ true
also_taken s k ht e j hj = elim (below-suc j k hj) [ inl lt ↦ ht j lt | inr eq ↦ rw eq e ]

found :
    (s : Procs) (k : ℕ)
    → ((j : ℕ) → j < k → is_taken s ((s.next_pid + j) % 65536) ≡ true)
    → is_taken s ((s.next_pid + k) % 65536) ≡ false
    → Free s ((s.next_pid + k) % 65536)
found s k ht e = record { steps = k; at = refl; free = e; skipped = ht }

getid_lem :
    (fuel : ℕ) (s : Procs) (k : ℕ)
    → s.next_pid < 65536
    → k + suc fuel ≡ 65536
    → ((j : ℕ) → j < k → is_taken s ((s.next_pid + j) % 65536) ≡ true)
    → ((getid (suc fuel) s ((s.next_pid + k) % 65536) ≡ some none)
        × ((j : ℕ) → j < 65536 → is_taken s ((s.next_pid + j) % 65536) ≡ true))
      ⊎ ((pid : ℕ) × ((getid (suc fuel) s ((s.next_pid + k) % 65536) ≡ some (some pid))
            × Free s pid))
unfolding getid
getid_lem zero s k hn hk ht = elim (Bool-cases (is_taken s ((s.next_pid + k) % 65536))) [
  | inr e ↦ inr ((s.next_pid + k) % 65536, (rw e refl, found s k ht e))
  | inl e ↦
      let w : (((s.next_pid + k) % 65536 + 1) % 65536 == s.next_pid) ≡ true = ground arith in
      inl (rw (e, w) refl, λ j hj. also_taken s k ht e j (omega arith))
]
getid_lem (suc fuel) s k hn hk ht = elim (Bool-cases (is_taken s ((s.next_pid + k) % 65536))) [
  | inr e ↦ inr ((s.next_pid + k) % 65536, (rw e refl, found s k ht e))
  | inl e ↦
      let step : ((s.next_pid + k) % 65536 + 1) % 65536 ≡ (s.next_pid + suc k) % 65536 =
        omega arith in
      let w : (((s.next_pid + k) % 65536 + 1) % 65536 == s.next_pid) ≡ false = ground arith in
      rw (e, w, step) (getid_lem fuel s (suc k) hn (omega arith) (also_taken s k ht e))
]

start :
    (s : Procs) {r : Option (Option ℕ)}
    → s.next_pid < 65536
    → getid 65536 s ((s.next_pid + 0) % 65536) ≡ r
    → getid 65536 s s.next_pid ≡ r
start s hn p =
    let h : (s.next_pid + 0) % 65536 ≡ s.next_pid = omega arith in
    ap (λ pid. getid 65536 s pid) (sym h) ∙ p

-- A cycle goes through every pid.
every :
    (s : Procs)
    → s.next_pid < 65536
    → ((j : ℕ) → j < 65536 → is_taken s ((s.next_pid + j) % 65536) ≡ true)
    → (pid : ℕ) → pid < 65536
    → is_taken s pid ≡ true
every s hn all pid hp =
    let d = (pid + 65536 - s.next_pid) % 65536 in
    let h : (s.next_pid + d) % 65536 ≡ pid = omega arith in
    ap (λ p. is_taken s p) (sym h) ∙ all d (omega arith)

-- With `next_pid` in range, `_proc_getid` returns within the 65536 passes: -1, with nothing changed,
-- where all pids are taken, or else the first free pid from `next_pid` on, in a cycle, and
-- `next_pid` is then the one after it.
pub getid-Free :
    (s : Procs)
    → s.next_pid < 65536
    → ((_proc_getid s ≡ some (none, s)) × ((pid : ℕ) → pid < 65536 → is_taken s pid ≡ true))
      ⊎ ((pid : ℕ) × ((_proc_getid s ≡ some (some pid, record s { next_pid = (pid + 1) % 65536 }))
            × Free s pid))
unfolding _proc_getid
getid-Free s hn = elim (getid_lem 65535 s 0 hn refl (λ j hj. absurd (omega arith))) [
  | inl (p, all) ↦ inl (rw (start s hn p) refl, λ pid hp. every s hn all pid hp)
  | inr (pid, (p, free)) ↦ inr (pid, (rw (start s hn p) refl, free))
]
