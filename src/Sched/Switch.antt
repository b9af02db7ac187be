-- ===== src/Sched/Switch.antt =====
-- kernel/proc/sched.c: the switch to another thread, with the wait for an interrupt that makes one
-- runnable, and the two kinds of sleep.
use abmp.Common.{
  ℕ, ◌≡◌, ◌≢◌, refl, ◌∙◌, inl, inr, true, Option, none, some, List, [], ◌∷◌, arith, All, List-cases,
}
use abmp.Sched.{
  KtState, run, sleep, sleep_cancellable, Sched, set_state, front, last, ktqueue_enqueue,
  ktqueue_dequeue, take_last, put, drop, runq, sleeps, sched_wakeup_on, sched_queue_empty,
  wait_runnable, sched_switch, sched_sleep_on, sched_cancellable_sleep_on,
}
use abmp.Sched.Queues.{set_thread-Queued, put-Queued, drop-Queued, count-front, length-front}
use abmp.Sched.Valid.{Valid, wake, wakeup_lem, wakeup-Valid, wake-members, wchan-last}

-- The current thread waits on nothing and is in the state `run`.
pub record Running (s : Sched) : Type 0 where
  pub valid : Valid s
  pub off : (s.threads s.curthr).wchan ≡ none
  pub runs : (s.threads s.curthr).state ≡ run

-- `t` taken off the run queue to be current.
abbrev pub resume : ℕ → List ℕ → Sched → Sched
resume x rest s = record (drop runq (last x rest) (front x rest) s) { curthr = last x rest }

pub resume-Running :
    {s : Sched} (x : ℕ) (rest : List ℕ)
    → Valid s
    → (s.queues runq).members ≡ x ∷ rest
    → Running (resume x rest s)
unfolding drop
resume-Running {s} x rest inv e =
    let h = wchan-last runq x rest inv.queues e in
    let q =
      drop-Queued s runq (last x rest) (front x rest) (λ u. rw e (count-front u x rest))
        (rw (e, length-front x rest) (omega arith)) inv.queues in
    record {
      valid = record {
        queues = record { queued = q.queued; sized = q.sized };
        states = λ u. ground (arith, inv.states u, inv.states (last x rest));
      };
      off = ground arith;
      runs = ground (arith, inv.states (last x rest));
    }

-- The current thread on the queue `q`, in a sleep of the kind `st`.
abbrev pub asleep : ℕ → KtState → Sched → Sched
asleep q st s = put q s.curthr (set_state s.curthr st s)

pub sleep-Valid :
    (s : Sched) (q t : ℕ) (st : KtState)
    → Valid s
    → (s.threads t).wchan ≡ none
    → q ≢ runq
    → sleeps st ≡ true
    → Valid (put q t (set_state t st s))
unfolding put
sleep-Valid s q t st inv hw h hs = record {
  queues =
      put-Queued (set_state t st s) q t (ground arith) (set_thread-Queued s t _ refl inv.queues);
  states = λ u. ground (arith, inv.states u);
}

pub asleep-Valid :
    {s : Sched} (q : ℕ) (st : KtState)
    → Running s
    → q ≢ runq
    → sleeps st ≡ true
    → Valid (asleep q st s)
asleep-Valid {s} q st r h hs = sleep-Valid s q s.curthr st r.valid r.off h hs

abbrev pub longest : List ℕ → Option ℕ
longest [] = none
longest (x ∷ rest) = some (last x rest)

-- The first of the two that is there.
abbrev pub or_else : Option ℕ → Option ℕ → Option ℕ
or_else none o = o
or_else (some t) o = some t

-- The thread that has waited longest on the first queue that is not empty.
abbrev pub next_thread : List ℕ → Sched → Option ℕ
next_thread [] s = none
next_thread (q ∷ qs) s = or_else (longest (s.queues q).members) (next_thread qs s)

-- A valid state in which `t` is next on the run queue.
abbrev pub Next : ℕ → Sched → Type 0
Next t s =
    Valid s
    × ((x : ℕ) × ((rest : List ℕ) × (((s.queues runq).members ≡ x ∷ rest) × (last x rest ≡ t))))

abbrev pub Off : List ℕ → Type 0
Off = All (λ q. q ≢ runq)

-- From `s` to `s'`, a queue keeps its threads if it is not the run queue and no interrupt names it.
abbrev pub Keeps : List ℕ → Sched → Sched → Type 0
Keeps intrs s s' =
    (q : ℕ) → q ≢ runq → All (λ p. p ≢ q) intrs → (s'.queues q).members ≡ (s.queues q).members

wakeup_empty :
    (q : ℕ) (s : Sched) → (s.queues q).members ≡ [] → sched_wakeup_on q s ≡ some (none, s)
unfolding sched_wakeup_on ktqueue_dequeue take_last
wakeup_empty q s e = rw (sched_wakeup_on, ktqueue_dequeue, e) refl

wake-others :
    (q p t : ℕ) (rest : List ℕ) (s : Sched)
    → p ≢ runq
    → q ≢ p
    → ((wake q t rest s).queues p).members ≡ (s.queues p).members
unfolding put drop
wake-others q p t rest s hp hq = ground arith

drop-others :
    (q p t : ℕ) (rest : List ℕ) (s : Sched)
    → p ≢ q
    → ((drop q t rest s).queues p).members ≡ (s.queues p).members
unfolding drop
drop-others q p t rest s hp = ground arith

wait_lem :
    (intrs : List ℕ) (s : Sched) (t : ℕ)
    → Valid s
    → Off intrs
    → next_thread (runq ∷ intrs) s ≡ some t
    → (s' : Sched) × ((wait_runnable intrs s ≡ some s') × (Next t s' × Keeps intrs s s'))
unfolding wait_runnable sched_queue_empty
wait_lem [] s t inv h n = elim (List-cases (s.queues runq).members) [
  | inl e ↦ absurd (ground (arith, e))
  | inr (x, (rest, e)) ↦
      (s, (rw e refl, ((inv, (x, (rest, (e, ground (arith, e))))), λ p hp ha. refl)))
]
wait_lem (q ∷ intrs) s t inv h n = elim (List-cases (s.queues runq).members) [
  | inr (x, (rest, e)) ↦
      (s, (rw e refl, ((inv, (x, (rest, (e, ground (arith, e))))), λ p hp ha. refl)))
  | inl e ↦ elim (List-cases (s.queues q).members) [
    | inl eq ↦
        let (s', (p, (v, k))) = wait_lem intrs s t inv h.1 (ground (arith, e, eq)) in
        (s', (rw (e, wakeup_empty q s eq) p, (v, λ p hp ha. k p hp ha.1)))
    | inr (x, (rest, eq)) ↦
        let s₁ : Sched = wake q (last x rest) (front x rest) s in
        let hr = (wake-members q (last x rest) (front x rest) s h.0).1 in
        let ht : last x rest ≡ t = ground (arith, e, eq) in
        let (s', (p, (v, k))) =
          wait_lem intrs s₁ t (wakeup-Valid q x rest inv eq) h.1 (rw (hr, e, ht) refl) in
        (
          s',
          (
            rw (e, wakeup_lem q x rest inv h.0 eq) p,
            (v, λ p hp ha. k p hp ha.1 ∙ wake-others q p (last x rest) (front x rest) s hp ha.0),
          ),
        )
  ]
]

wait_none :
    (intrs : List ℕ) (s : Sched)
    → next_thread (runq ∷ intrs) s ≡ none
    → wait_runnable intrs s ≡ none
unfolding wait_runnable sched_queue_empty
wait_none [] s n = elim (List-cases (s.queues runq).members) [
  | inl e ↦ rw e refl
  | inr (x, (rest, e)) ↦ absurd (ground (arith, e))
]
wait_none (q ∷ intrs) s n = elim (List-cases (s.queues runq).members) [
  | inr (x, (rest, e)) ↦ absurd (ground (arith, e))
  | inl e ↦ elim (List-cases (s.queues q).members) [
    | inl eq ↦ rw (e, wakeup_empty q s eq) (wait_none intrs s (ground (arith, e, eq)))
    | inr (x, (rest, eq)) ↦ absurd (ground (arith, e, eq))
  ]
]

-- In a valid state, with interrupts that do not wake the run queue itself, `sched_switch` resumes the
-- thread that has waited longest on the run queue, or, if that is empty, on the queue of the first
-- interrupt whose queue is not; the state is valid, the thread runs and waits on nothing, and the queues that no
-- interrupt names, the run queue apart, keep their threads.
pub switch_resumes :
    (intrs : List ℕ) (s : Sched) (t : ℕ)
    → Valid s
    → Off intrs
    → next_thread (runq ∷ intrs) s ≡ some t
    → (s' : Sched) × ((sched_switch intrs s ≡ some s')
        × (Running s' × ((s'.curthr ≡ t) × Keeps intrs s s')))
unfolding sched_switch ktqueue_dequeue take_last
switch_resumes intrs s t inv h n =
    let (s₁, (p, ((v, (x, (rest, (e, ht)))), k))) = wait_lem intrs s t inv h n in
    (
      resume x rest s₁,
      (
        rw (p, ktqueue_dequeue, e) refl,
        (
          resume-Running x rest v e,
          (ht, λ q hq ha. drop-others runq q (last x rest) (front x rest) s₁ hq ∙ k q hq ha),
        ),
      ),
    )

-- `sched_switch` never comes back if no thread is runnable and the interrupts wake none.
pub switch_none :
    (intrs : List ℕ) (s : Sched) → next_thread (runq ∷ intrs) s ≡ none → sched_switch intrs s ≡ none
unfolding sched_switch
switch_none intrs s n = rw (wait_none intrs s n) refl

asleep_lem :
    (q : ℕ) (st : KtState) (s : Sched)
    → (s.threads s.curthr).wchan ≡ none
    → ktqueue_enqueue q s.curthr (set_state s.curthr st s) ≡ some (asleep q st s)
unfolding ktqueue_enqueue
asleep_lem q st s e =
    let h : ((set_state s.curthr st s).threads s.curthr).wchan ≡ none = ground arith in
    rw (h, e) refl

-- The current thread, which runs and waits on nothing in a valid state, goes to sleep on a queue
-- other than the run queue, in either way of sleeping, and the call comes back in the thread that
-- `sched_switch` has to resume from the state in which the sleeper stands at the head of its queue;
-- the state is valid, the resumed thread runs and waits on nothing, and the queues that no
-- interrupt names, the run queue apart, keep their threads.
pub sleep_resumes :
    (intrs : List ℕ) (q : ℕ) (s : Sched) (t u : ℕ)
    → Running s
    → q ≢ runq
    → Off intrs
    → next_thread (runq ∷ intrs) (asleep q sleep s) ≡ some t
    → next_thread (runq ∷ intrs) (asleep q sleep_cancellable s) ≡ some u
    → ((s' : Sched) × ((sched_sleep_on intrs q s ≡ some s')
          × (Running s' × ((s'.curthr ≡ t) × Keeps intrs (asleep q sleep s) s'))))
      × ((s' : Sched) × ((sched_cancellable_sleep_on intrs q s ≡ some s')
            × (Running s' × ((s'.curthr ≡ u) × Keeps intrs (asleep q sleep_cancellable s) s'))))
unfolding sched_sleep_on sched_cancellable_sleep_on
sleep_resumes intrs q s t u r h hi ht hu =
    let (s₁, (p₁, v₁)) =
      switch_resumes intrs (asleep q sleep s) t (asleep-Valid q sleep r h refl) hi ht in
    let (s₂, (p₂, v₂)) =
      switch_resumes intrs (asleep q sleep_cancellable s) u
        (asleep-Valid q sleep_cancellable r h refl) hi hu in
    (
      (s₁, (rw (sched_sleep_on, asleep_lem q sleep s r.off) p₁, v₁)),
      (s₂, (rw (sched_cancellable_sleep_on, asleep_lem q sleep_cancellable s r.off) p₂, v₂)),
    )
