-- ===== src/Kmutex/Owners.antt =====
-- kernel/proc/kmutex.c: a mutex is a queue of its owners to be, the holder first.
use abmp.Common.{
  ℕ, ◌≡◌, ◌≢◌, refl, ap, ◌∙◌, inl, inr, false, Option, none, some, List, [], ◌∷◌, ◌++◌, arith,
  length, All, List-cases, ◌>>=◌,
}
use abmp.Sched.{KtState, sleep, sleep_cancellable, Sched, front, last, put, drop, runq}
use abmp.Sched.Valid.{wchan-last, wake, wakeup_lem, wakeup-Valid, wake-members}
use abmp.Sched.Switch.{Running, Off, next_thread, asleep, sleep_resumes}
use abmp.Kmutex.{Kmutex, is_thread, kmutex_lock, kmutex_lock_cancellable, kmutex_unlock}

-- From the back of the queue, where the oldest stands.
abbrev pub oldest_first : List ℕ → List ℕ
oldest_first [] = []
oldest_first (x ∷ rest) = oldest_first rest ++ (x ∷ [])

-- The holder, then the threads that wait, in the order of their arrival.
abbrev pub owners_of : Option ℕ → List ℕ → List ℕ
owners_of none waiting = []
owners_of (some h) waiting = h ∷ oldest_first waiting

abbrev pub owners : Kmutex → Sched → List ℕ
owners m s = owners_of m.holder (s.queues m.waitq).members

-- A thread runs, and a mutex that nobody holds has nobody waiting.
pub record Ok (m : Kmutex) (s : Sched) : Type 0 where
  pub running : Running s
  pub waitq_off : m.waitq ≢ runq
  pub unheld : m.holder ≡ none → (s.queues m.waitq).members ≡ []

pub oldest_first-front :
    (x : ℕ) (rest : List ℕ) → oldest_first (x ∷ rest) ≡ last x rest ∷ oldest_first (front x rest)
oldest_first-front x [] = refl
oldest_first-front x (y ∷ rest) = ap (λ l. l ++ (x ∷ [])) (oldest_first-front y rest)

asleep-members :
    (q : ℕ) (st : KtState) (s : Sched)
    → ((asleep q st s).queues q).members ≡ s.curthr ∷ (s.queues q).members
unfolding put
asleep-members q st s = ground arith

-- Waking another thread leaves the current one running.
wake-Running :
    {s : Sched} (q x : ℕ) (rest : List ℕ)
    → Running s
    → (s.queues q).members ≡ x ∷ rest
    → Running (wake q (last x rest) (front x rest) s)
unfolding put drop
wake-Running {s} q x rest r e =
    let h = wchan-last q x rest r.valid.queues e in
    record {
      valid = wakeup-Valid q x rest r.valid e;
      off = ground (arith, r.off);
      runs = ground (arith, r.runs);
    }

-- The next holder is at the head of the run queue, before the others; without one nothing changed.
abbrev pub Ready : Option ℕ → Sched → Sched → Type 0
Ready none s s' = s' ≡ s
Ready (some t) s s' = (s'.queues runq).members ≡ t ∷ (s.queues runq).members

-- The holder of a mutex unlocks it: the call succeeds, the next owner in line is the holder, and
-- is put at the head of the run queue if there is one, and the mutex is well-formed again.
pub unlock-owners :
    (m : Kmutex) (s : Sched)
    → Ok m s
    → m.holder ≡ some s.curthr
    → (m' : Kmutex) × ((s' : Sched) × ((kmutex_unlock m s ≡ some (m', s'))
          × (Ok m' s' × ((owners m s ≡ s.curthr ∷ owners m' s') × Ready m'.holder s s'))))
unfolding kmutex_unlock
unlock-owners m s ok h = elim (List-cases (s.queues m.waitq).members) [
  | inl e ↦ (
    record m { holder = none },
    (
      s,
      (
        rw (h, ok.running.valid.queues.sized m.waitq, e) ground arith,
        (
          record { running = ok.running; waitq_off = ok.waitq_off; unheld = λ _. e },
          (rw (h, e) refl, refl),
        ),
      ),
    ),
  )
  | inr (x, (rest, e)) ↦
      let s' : Sched = wake m.waitq (last x rest) (front x rest) s in
      let (hm, hr) = wake-members m.waitq (last x rest) (front x rest) s ok.waitq_off in
      (
        record m { holder = some (last x rest) },
        (
          s',
          (
            rw
                (
                  h,
                  ok.running.valid.queues.sized m.waitq,
                  wakeup_lem m.waitq x rest ok.running.valid ok.waitq_off e,
                  e,
                )
                ground arith,
            (
              record {
                running = wake-Running m.waitq x rest ok.running e;
                waitq_off = ok.waitq_off;
                unheld = λ n. absurd (ground (arith, n));
              },
              (rw (h, e, hm) (ap (λ l. s.curthr ∷ l) (oldest_first-front x rest)), hr),
            ),
          ),
        ),
      )
]

-- A thread locks a mutex that another thread holds, and `sched_switch` has some thread to resume:
-- either way of locking comes back there, with the locking thread as the last owner in line, and
-- the mutex is well-formed again.
pub lock-owners :
    (intrs : List ℕ) (m : Kmutex) (s : Sched) (h t u : ℕ)
    → Ok m s
    → m.holder ≡ some h
    → h ≢ s.curthr
    → Off intrs
    → All (λ p. p ≢ m.waitq) intrs
    → next_thread (runq ∷ intrs) (asleep m.waitq sleep s) ≡ some t
    → next_thread (runq ∷ intrs) (asleep m.waitq sleep_cancellable s) ≡ some u
    → ((s' : Sched) × ((kmutex_lock intrs m s ≡ some (m, s'))
          × (Ok m s' × (owners m s' ≡ owners m s ++ (s.curthr ∷ [])))))
      × ((s' : Sched) × ((kmutex_lock_cancellable intrs m s ≡ some (m, s'))
            × (Ok m s' × (owners m s' ≡ owners m s ++ (s.curthr ∷ [])))))
unfolding kmutex_lock kmutex_lock_cancellable
lock-owners intrs m s h t u ok eh hne hi ha ht hu =
    let ((s₁, (p₁, (r₁, (_, k₁)))), (s₂, (p₂, (r₂, (_, k₂))))) =
      sleep_resumes intrs m.waitq s t u ok.running ok.waitq_off hi ht hu in
    let hh : is_thread m.holder s.curthr ≡ false = ground (arith, eh) in
    let back : (s' : Sched) → Running s' → Ok m s' = λ s' r. record {
      running = r;
      waitq_off = ok.waitq_off;
      unheld = λ n. absurd (ground (arith, eh, n));
    } in
    (
      (
        s₁,
        (
          rw (hh, eh, p₁) refl,
          (back s₁ r₁, rw (eh, k₁ m.waitq ok.waitq_off ha, asleep-members m.waitq sleep s) refl),
        ),
      ),
      (
        s₂,
        (
          rw (hh, eh, p₂) refl,
          (
            back s₂ r₂,
            rw (eh, k₂ m.waitq ok.waitq_off ha, asleep-members m.waitq sleep_cancellable s) refl,
          ),
        ),
      ),
    )

-- Locking a free mutex, in either way, and unlocking it leaves the mutex and the threads as they
-- were.
pub lock-unlock :
    (intrs : List ℕ) (m : Kmutex) (s : Sched)
    → Ok m s
    → m.holder ≡ none
    → ((kmutex_lock intrs m s >>= λ r. kmutex_unlock r.0 r.1) ≡ some (m, s))
      × ((kmutex_lock_cancellable intrs m s >>= λ r. kmutex_unlock r.0 r.1) ≡ some (m, s))
unfolding kmutex_lock kmutex_lock_cancellable kmutex_unlock
lock-unlock intrs m s ok h =
    let e : (s.queues m.waitq).size ≡ 0 =
      ok.running.valid.queues.sized m.waitq ∙ ap length (ok.unheld h) in
    (rw (h, e) ground arith, rw (h, e) ground arith)
