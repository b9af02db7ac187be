-- ===== src/Tests/ProcTests.antt =====
-- Runs of the scheduler and the mutexes (kernel/proc).
use abmp.Common.{ℕ, ◌≡◌, refl, false, Option, none, some, [], ◌∷◌, arith, if◌then◌else◌, ◌==◌}
use abmp.Sched.{
  no_state, run, sleep, sleep_cancellable, Sched, put, set_state, runq, sched_wakeup_on,
  sched_broadcast_on, sched_cancel, sched_switch, sched_sleep_on, sched_cancellable_sleep_on,
}
use abmp.Sched.Valid.{Valid}
use abmp.Sched.Wake.{wakeup_longest, broadcast_all, Cancelled, cancel-Cancelled}
use abmp.Sched.Switch.{Running, sleep-Valid, asleep, Keeps, switch_resumes, sleep_resumes}
use abmp.Kmutex.{Kmutex, kmutex_lock, kmutex_lock_cancellable, kmutex_unlock}
use abmp.Kmutex.Owners.{Ok, owners, Ready, lock-owners, unlock-owners}

-- Thread 1 is current, and there are no others.
abbrev alone : Sched
alone = record {
  threads = λ t.
      if t == 1
      then record { state = run; wchan = none; cancelled = false }
      else record { state = no_state; wchan = none; cancelled = false };
  queues = λ q. record { members = []; size = 0 };
  curthr = 1;
}

alone-Valid : Valid alone
alone-Valid = record {
  queues = record { queued = λ q t. ground arith; sized = λ q. refl };
  states = λ t. ground arith;
}

-- Threads 2 and 3 sleep on queue 5; thread 2 came first.
abbrev one_asleep : Sched
one_asleep = put 5 2 (set_state 2 sleep alone)

abbrev two_asleep : Sched
two_asleep = put 5 3 (set_state 3 sleep_cancellable one_asleep)

one_asleep-Valid : Valid one_asleep
one_asleep-Valid = sleep-Valid alone 5 2 sleep alone-Valid refl (omega arith) refl

two_asleep-Valid : Valid two_asleep
unfolding put
two_asleep-Valid =
    sleep-Valid one_asleep 5 3 sleep_cancellable one_asleep-Valid refl (omega arith) refl

two_asleep-Running : Running two_asleep
unfolding put
two_asleep-Running = record { valid = two_asleep-Valid; off = refl; runs = refl }

wakeup_longest_example :
    (s' : Sched) × ((sched_wakeup_on 5 two_asleep ≡ some (some 2, s'))
      × (Valid s' × (((s'.queues 5).members ≡ 3 ∷ []) × ((s'.queues runq).members ≡ 2 ∷ []))))
unfolding put
wakeup_longest_example = wakeup_longest two_asleep 5 2 (3 ∷ []) two_asleep-Valid (omega arith) refl

broadcast_all_example :
    (s' : Sched) × ((sched_broadcast_on 5 two_asleep ≡ some s')
      × (Valid s' × (((s'.queues 5).members ≡ []) × ((s'.queues runq).members ≡ 3 ∷ 2 ∷ []))))
unfolding put
broadcast_all_example = broadcast_all two_asleep 5 two_asleep-Valid (omega arith)

cancel-Cancelled_example :
    (s' : Sched) × ((sched_cancel 3 two_asleep ≡ some s') × Cancelled 3 two_asleep s')
unfolding put
cancel-Cancelled_example = cancel-Cancelled 3 two_asleep two_asleep-Valid refl

-- An interrupt on queue 5 wakes thread 2.
switch_resumes_example :
    (s' : Sched) × ((sched_switch (5 ∷ []) two_asleep ≡ some s')
      × (Running s' × ((s'.curthr ≡ 2) × Keeps (5 ∷ []) two_asleep s')))
unfolding put
switch_resumes_example =
    switch_resumes (5 ∷ []) two_asleep 2 two_asleep-Valid (omega arith, tt) refl

sleep_resumes_example :
    ((s' : Sched) × ((sched_sleep_on (5 ∷ []) 7 two_asleep ≡ some s')
        × (Running s' × ((s'.curthr ≡ 2) × Keeps (5 ∷ []) (asleep 7 sleep two_asleep) s'))))
    × ((s' : Sched) × ((sched_cancellable_sleep_on (5 ∷ []) 7 two_asleep ≡ some s')
          × (Running s'
              × ((s'.curthr ≡ 2) × Keeps (5 ∷ []) (asleep 7 sleep_cancellable two_asleep) s'))))
unfolding put
sleep_resumes_example =
    sleep_resumes (5 ∷ []) 7 two_asleep 2 2 two_asleep-Running (omega arith) (omega arith, tt) refl
      refl

-- A mutex whose wait queue is 7, free or held by a thread.
abbrev mutex : Option ℕ → Kmutex
mutex h = record { waitq = 7; holder = h }

abbrev mutex5 : Kmutex
mutex5 = record { waitq = 5; holder = some 1 }

mutex-Ok : (h : Option ℕ) → Ok (mutex h) two_asleep
unfolding put
mutex-Ok h = record { running = two_asleep-Running; waitq_off = omega arith; unheld = λ n. refl }

mutex5-Ok : Ok mutex5 two_asleep
unfolding put
mutex5-Ok = record {
  running = two_asleep-Running;
  waitq_off = omega arith;
  unheld = λ n. absurd (ground (arith, n));
}

unlock-owners_example :
    (m' : Kmutex) × ((s' : Sched) × ((kmutex_unlock mutex5 two_asleep ≡ some (m', s'))
        × (Ok m' s'
            × ((owners mutex5 two_asleep ≡ 1 ∷ owners m' s') × Ready m'.holder two_asleep s'))))
unfolding put
unlock-owners_example = unlock-owners mutex5 two_asleep mutex5-Ok refl

lock-owners_example :
    ((s' : Sched) × ((kmutex_lock (5 ∷ []) (mutex (some 9)) two_asleep ≡ some (mutex (some 9), s'))
        × (Ok (mutex (some 9)) s' × (owners (mutex (some 9)) s' ≡ 9 ∷ 1 ∷ []))))
    × ((s' : Sched) × ((kmutex_lock_cancellable (5 ∷ []) (mutex (some 9)) two_asleep
            ≡ some (mutex (some 9), s'))
          × (Ok (mutex (some 9)) s' × (owners (mutex (some 9)) s' ≡ 9 ∷ 1 ∷ []))))
unfolding put
lock-owners_example =
    lock-owners (5 ∷ []) (mutex (some 9)) two_asleep 9 2 2 (mutex-Ok (some 9)) refl (omega arith)
      (omega arith, tt) (omega arith, tt) refl refl
