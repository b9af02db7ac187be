-- ===== src/Sched/Valid.antt =====
-- The invariant of kernel/proc/sched.c, and the operations that wake a thread.
use abmp.Common.{
  ℕ, ◌+◌, ◌≡◌, ◌≢◌, refl, Bool, true, false, not, Option, none, some, List, ◌∷◌, ◌==◌, arith,
  if◌then◌else◌, length,
}
use abmp.Sched.{
  KtState, run, Sched, set_state, front, last, ktqueue_enqueue, ktqueue_dequeue, take_last, put,
  drop, runq, sleeps, sched_make_runnable, sched_wakeup_on,
}
use abmp.Sched.Queues.{
  Queued, set_thread-Queued, put-Queued, drop-Queued, count, count-front, length-front, on-some,
}

abbrev pub is_run : KtState → Bool
is_run run = true
is_run _ = false

-- The state of a thread by what it waits on.
abbrev pub fits : Option ℕ → KtState → Bool
fits none st = not (sleeps st)
fits (some q) st = if q == runq then is_run st else sleeps st

pub record Valid (s : Sched) : Type 0 where
  pub queues : Queued s
  pub states : (t : ℕ) → fits (s.threads t).wchan (s.threads t).state ≡ true

-- `t` off the queue `q` and runnable.
abbrev pub wake : ℕ → ℕ → List ℕ → Sched → Sched
wake q t rest s = put runq t (set_state t run (drop q t rest s))

pub wake-Valid :
    {s : Sched} (q t : ℕ) (rest : List ℕ)
    → ((u : ℕ) → count u (s.queues q).members ≡ count u rest + (if t == u then 1 else 0))
    → length (s.queues q).members ≡ length rest + 1
    → Valid s
    → Valid (wake q t rest s)
unfolding put drop
wake-Valid {s} q t rest hc hl inv = record {
  queues =
      put-Queued _ runq t (ground arith)
        (set_thread-Queued (drop q t rest s) t _ refl (drop-Queued s q t rest hc hl inv.queues));
  states = λ u. ground (arith, inv.states u);
}

-- A thread on a queue waits on it.
pub wchan-last :
    {s : Sched} (q x : ℕ) (rest : List ℕ)
    → Queued s
    → (s.queues q).members ≡ x ∷ rest
    → (s.threads (last x rest)).wchan ≡ some q
wchan-last {s} q x rest inv e =
    on-some _ q (ground (arith, inv.queued q (last x rest), count-front (last x rest) x rest))

pub make_runnable_lem :
    (t : ℕ) (s : Sched)
    → (s.threads t).wchan ≡ none
    → sched_make_runnable t s ≡ some (put runq t (set_state t run s))
unfolding sched_make_runnable ktqueue_enqueue
make_runnable_lem t s e =
    let h : ((set_state t run s).threads t).wchan ≡ none = ground arith in rw (h, e) refl

pub drop-thread :
    (q t : ℕ) (rest : List ℕ) (s : Sched)
    → (((drop q t rest s).threads t).wchan ≡ none)
      × (((drop q t rest s).threads t).state ≡ (s.threads t).state)
unfolding drop
drop-thread q t rest s = (ground arith, ground arith)

-- A thread on a queue but the run queue sleeps.
pub last-Sleeps :
    {s : Sched} (q x : ℕ) (rest : List ℕ)
    → Valid s
    → q ≢ runq
    → (s.queues q).members ≡ x ∷ rest
    → sleeps (s.threads (last x rest)).state ≡ true
last-Sleeps {s} q x rest inv h e =
    ground (arith, wchan-last q x rest inv.queues e, inv.states (last x rest))

-- A wake-up takes the thread that has waited longest.
pub wakeup_lem :
    {s : Sched} (q x : ℕ) (rest : List ℕ)
    → Valid s
    → q ≢ runq
    → (s.queues q).members ≡ x ∷ rest
    → sched_wakeup_on q s ≡ some (some (last x rest), wake q (last x rest) (front x rest) s)
unfolding sched_wakeup_on ktqueue_dequeue take_last
wakeup_lem {s} q x rest inv h e =
    let (hw, hs) = drop-thread q (last x rest) (front x rest) s in
    rw
      (
        sched_wakeup_on,
        ktqueue_dequeue,
        e,
        hs,
        last-Sleeps q x rest inv h e,
        make_runnable_lem (last x rest) (drop q (last x rest) (front x rest) s) hw,
      )
      refl

pub wakeup-Valid :
    {s : Sched} (q x : ℕ) (rest : List ℕ)
    → Valid s
    → (s.queues q).members ≡ x ∷ rest
    → Valid (wake q (last x rest) (front x rest) s)
wakeup-Valid {s} q x rest inv e =
    wake-Valid q (last x rest) (front x rest) (λ u. rw e (count-front u x rest))
      (rw (e, length-front x rest) (omega arith)) inv

-- What a wake-up does to the queues.
pub wake-members :
    (q t : ℕ) (rest : List ℕ) (s : Sched)
    → q ≢ runq
    → (((wake q t rest s).queues q).members ≡ rest)
      × (((wake q t rest s).queues runq).members ≡ t ∷ (s.queues runq).members)
unfolding put drop
wake-members q t rest s h = (ground arith, ground arith)
