-- ===== src/Kmutex.antt =====
-- kernel/proc/kmutex.c. A mutex names its wait queue `km_waitq` by number. Where a call sleeps, its
-- result is the state at the switch to another thread.
pub mod Owners
use abmp.Common.{
  ℕ, ◌+◌, ◌≡◌, Bool, true, false, not, Option, none, some, ◌==◌, if◌then◌else◌, ◌>>=◌, ◌>>◌,
  kassert, List,
}
use abmp.Sched.{
  Sched, Queue, sched_queue_init, sched_sleep_on, sched_cancellable_sleep_on, sched_wakeup_on,
  is_none,
}

pub record Kmutex : Type 0 where
  pub waitq : ℕ
  pub holder : Option ℕ

unfoldable pub kmutex_init : ℕ → Sched → Kmutex × Sched
kmutex_init q s = (record { waitq = q; holder = none }, sched_queue_init q s)

abbrev pub is_thread : Option ℕ → ℕ → Bool
is_thread none t = false
is_thread (some h) t = h == t

unfoldable pub kmutex_lock : List ℕ → Kmutex → Sched → Option (Kmutex × Sched)
kmutex_lock intrs m s =
    kassert (not (is_thread m.holder s.curthr))
    >> (if is_none m.holder
        then some (record m { holder = some s.curthr }, s)
        else (sched_sleep_on intrs m.waitq s >>= λ s'. some (m, s')))

-- A locked mutex: the result of the sleep is `sleep_result`, once the thread is current again.
unfoldable pub kmutex_lock_cancellable : List ℕ → Kmutex → Sched → Option (Kmutex × Sched)
kmutex_lock_cancellable intrs m s =
    kassert (not (is_thread m.holder s.curthr))
    >> (if is_none m.holder
        then some (record m { holder = some s.curthr }, s)
        else (sched_cancellable_sleep_on intrs m.waitq s >>= λ s'. some (m, s')))

unfoldable pub kmutex_unlock : Kmutex → Sched → Option (Kmutex × Sched)
kmutex_unlock m s =
    kassert (is_thread m.holder s.curthr)
    >> (if (s.queues m.waitq).size == 0
        then some (record m { holder = none }, s)
        else (sched_wakeup_on m.waitq s >>= λ r. some (record m { holder = r.0 }, r.1)))
