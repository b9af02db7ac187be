-- ===== src/Sched/Wake.antt =====
-- kernel/proc/sched.c: waking one thread, waking them all, and cancelling a thread.
use abmp.Common.{
  ℕ, zero, suc, ◌≡◌, ◌≢◌, refl, ◌∙◌, inl, inr, Bool, true, false, Option, none, some, List, [], ◌∷◌,
  ◌++◌, arith, if◌then◌else◌, length, List-cases,
}
use abmp.Sched.{
  KtState, no_state, run, sleep, sleep_cancellable, exited, Sched, Thread, set_thread, front, last,
  member, erase, ktqueue_remove, put, drop, runq, sched_wakeup_on, broadcast, sched_broadcast_on,
  sched_queue_empty, is_live, wake_cancelled, sched_cancel, set_cancelled,
}
use abmp.Sched.Queues.{
  set_thread-Queued, length-front, front-append, last-append, count-erase, length-erase,
  count-member,
}
use abmp.Sched.Valid.{
  Valid, wake, wake-Valid, wakeup_lem, wakeup-Valid, wake-members, make_runnable_lem, drop-thread,
}

-- In a valid state, waking a thread of a queue other than the run queue returns the thread at the
-- list's tail, which has waited longest; it is then at the head of the run queue, the others keep
-- their order, and the state is valid.
pub wakeup_longest :
    (s : Sched) (q t : ℕ) (xs : List ℕ)
    → Valid s
    → q ≢ runq
    → (s.queues q).members ≡ xs ++ (t ∷ [])
    → (s' : Sched) × ((sched_wakeup_on q s ≡ some (some t, s'))
        × (Valid s'
            × (((s'.queues q).members ≡ xs)
                × ((s'.queues runq).members ≡ t ∷ (s.queues runq).members))))
wakeup_longest s q t [] inv h e = (
  wake q t [] s,
  (wakeup_lem q t [] inv h e, (wakeup-Valid q t [] inv e, wake-members q t [] s h)),
)
wakeup_longest s q t (x ∷ xs) inv h e =
    let (hf, hl) = front-append xs x t in
    let lem = wakeup_lem q x (xs ++ (t ∷ [])) inv h e in
    let v = wakeup-Valid q x (xs ++ (t ∷ [])) inv e in
    (wake q t (x ∷ xs) s, (rw (← hl, ← hf) lem, (rw (← hl, ← hf) v, wake-members q t (x ∷ xs) s h)))

pub broadcast_lem :
    (fuel q : ℕ) (s : Sched)
    → Valid s
    → q ≢ runq
    → length (s.queues q).members ≡ fuel
    → (s' : Sched) × ((broadcast fuel q s ≡ some s')
        × (Valid s'
            × (((s'.queues q).members ≡ [])
                × ((s'.queues runq).members ≡ (s.queues q).members ++ (s.queues runq).members))))
unfolding broadcast sched_queue_empty
broadcast_lem zero q s inv h hl = elim (List-cases (s.queues q).members) [
  | inl e ↦ (s, (rw e refl, (inv, (e, rw e refl))))
  | inr (x, (rest, e)) ↦ absurd (ground (arith, e))
]
broadcast_lem (suc fuel) q s inv h hl = elim (List-cases (s.queues q).members) [
  | inl e ↦ absurd (ground (arith, e))
  | inr (x, (rest, e)) ↦
      let s₁ : Sched = wake q (last x rest) (front x rest) s in
      let (hq, hr) = wake-members q (last x rest) (front x rest) s h in
      let (s', (p, (v, (p₁, p₂)))) =
        broadcast_lem fuel q s₁ (wakeup-Valid q x rest inv e) h
          (rw hq (ground (arith, e, length-front x rest))) in
      (
        s',
        (
          rw (e, wakeup_lem q x rest inv h e) p,
          (v, (p₁, p₂ ∙ rw (hq, hr, e) (last-append x rest (s.queues runq).members))),
        ),
      )
]

-- In a valid state, broadcasting on a queue other than the run queue comes to an end: the queue is
-- empty, its threads stand before the others on the run queue, in the order that they had, and the
-- state is valid.
pub broadcast_all :
    (s : Sched) (q : ℕ)
    → Valid s
    → q ≢ runq
    → (s' : Sched) × ((sched_broadcast_on q s ≡ some s')
        × (Valid s'
            × (((s'.queues q).members ≡ [])
                × ((s'.queues runq).members ≡ (s.queues q).members ++ (s.queues runq).members))))
unfolding sched_broadcast_on
broadcast_all s q inv h = broadcast_lem (length (s.queues q).members) q s inv h refl

pub set_thread-Valid :
    (s : Sched) (t : ℕ) (v : Thread)
    → v.wchan ≡ (s.threads t).wchan
    → v.state ≡ (s.threads t).state
    → Valid s
    → Valid (set_thread t v s)
set_thread-Valid s t v ew es inv = record {
  queues = set_thread-Queued s t v ew inv.queues;
  states = λ u. ground (arith, inv.states u, inv.states t);
}

abbrev pub is_cancellable : KtState → Bool
is_cancellable sleep_cancellable = true
is_cancellable _ = false

-- `s'` after cancelling `t` in `s`.
pub record Cancelled (t : ℕ) (s s' : Sched) : Type 0 where
  pub valid : Valid s'
  pub flagged : (s'.threads t).cancelled ≡ true
  pub moved :
      (s'.threads t).wchan
      ≡ (if is_cancellable (s.threads t).state then some runq else (s.threads t).wchan)
  pub others : (u : ℕ) → u ≢ t → s'.threads u ≡ s.threads u

flag-Cancelled :
    (t : ℕ) (s : Sched)
    → Valid s
    → is_cancellable (s.threads t).state ≡ false
    → Cancelled t s (set_cancelled t s)
unfolding set_cancelled
flag-Cancelled t s inv h = record {
  valid = set_thread-Valid s t _ refl refl inv;
  flagged = ground arith;
  moved = ground arith;
  others = λ u hu. ground arith;
}

wake-Cancelled :
    (q t : ℕ) (s : Sched)
    → Valid s
    → (s.threads t).state ≡ sleep_cancellable
    → member t (s.queues q).members ≡ true
    → Cancelled t s (wake q t (erase t (s.queues q).members) (set_cancelled t s))
unfolding put drop set_cancelled
wake-Cancelled q t s inv h hm = record {
  valid =
      wake-Valid {s = set_cancelled t s} q t _ (λ u. count-erase u t (s.queues q).members hm)
        (length-erase t (s.queues q).members hm) (set_thread-Valid s t _ refl refl inv);
  flagged = ground arith;
  moved = ground arith;
  others = λ u hu. ground arith;
}

cancel_woken :
    (q t : ℕ) (s : Sched)
    → member t (s.queues q).members ≡ true
    → wake_cancelled sleep_cancellable (some q) t (set_cancelled t s)
      ≡ some (wake q t (erase t (s.queues q).members) (set_cancelled t s))
unfolding wake_cancelled ktqueue_remove set_cancelled put
cancel_woken q t s hm =
    rw
      (
        hm,
        make_runnable_lem t (drop q t (erase t (s.queues q).members) (set_cancelled t s))
            (drop-thread q t _ (set_cancelled t s)).0,
      )
      refl

-- Cancelling a live thread in a valid state succeeds: its flag is set, the state is valid, no other
-- thread changes, and a thread in a cancellable sleep is on the run queue, while any other thread
-- stays where it is.
pub cancel-Cancelled :
    (t : ℕ) (s : Sched)
    → Valid s
    → is_live (s.threads t).state ≡ true
    → (s' : Sched) × ((sched_cancel t s ≡ some s') × Cancelled t s s')
unfolding sched_cancel wake_cancelled
cancel-Cancelled t s inv h = go (s.threads t).state (s.threads t).wchan refl refl
  where
    go :
        (st : KtState) (w : Option ℕ)
        → (s.threads t).state ≡ st
        → (s.threads t).wchan ≡ w
        → (s' : Sched) × ((sched_cancel t s ≡ some s') × Cancelled t s s')
    go no_state w es ew = absurd (ground arith)
    go exited w es ew = absurd (ground arith)
    go run w es ew =
        (set_cancelled t s, (rw (sched_cancel, es) refl, flag-Cancelled t s inv (rw es refl)))
    go sleep w es ew =
        (set_cancelled t s, (rw (sched_cancel, es) refl, flag-Cancelled t s inv (rw es refl)))
    go sleep_cancellable none es ew = absurd (ground (arith, inv.states t))
    go sleep_cancellable (some q) es ew =
        let hm = count-member t (s.queues q).members (ground (arith, inv.queues.queued q t)) in
        (_, (rw (sched_cancel, es, ew) (cancel_woken q t s hm), wake-Cancelled q t s inv es hm))
