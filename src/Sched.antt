-- ===== src/Sched.antt =====
-- kernel/proc/sched.c: threads, the queues that they wait on, and the run queue.
-- A thread and a queue are numbers; queue 0 is `kt_runq`. `none` is a call that does not come back:
-- a `KASSERT` that fails, or a wait for an interrupt that never comes.
-- Both run queue operations mask the interrupts, so an interrupt strikes in `intr_wait` only; its
-- handler wakes a thread of some queue.
pub mod Queues
pub mod Valid
pub mod Wake
pub mod Switch
use abmp.Common.{
  ℕ, zero, suc, ◌+◌, ◌-◌, ◌≡◌, Bool, true, false, not, ◌&&◌, ◌||◌, Option, none, some, List, [],
  ◌∷◌, ◌==◌, if◌then◌else◌, ◌>>=◌, ◌>>◌, kassert, length,
}

-- KT_NO_STATE to KT_EXITED
pub data KtState : Type 0 where
  no_state run sleep sleep_cancellable exited : KtState

-- The fields of `kthread_t` that the scheduler reads.
pub record Thread : Type 0 where
  pub state : KtState
  pub wchan : Option ℕ
  pub cancelled : Bool

-- `ktqueue_t`: the list from `l_next` on, and `tq_size`.
pub record Queue : Type 0 where
  pub members : List ℕ
  pub size : ℕ

pub record Sched : Type 0 where
  pub threads : ℕ → Thread
  pub queues : ℕ → Queue
  pub curthr : ℕ

abbrev pub runq : ℕ
runq = 0

abbrev pub update {ℓ} : {A : Type ℓ} → (ℕ → A) → ℕ → A → ℕ → A
update f i v j = if i == j then v else f j

abbrev pub set_thread : ℕ → Thread → Sched → Sched
set_thread t v s = record s { threads = update s.threads t v }

abbrev pub set_queue : ℕ → Queue → Sched → Sched
set_queue q v s = record s { queues = update s.queues q v }

abbrev pub set_wchan : ℕ → Option ℕ → Sched → Sched
set_wchan t w s = set_thread t (record (s.threads t) { wchan = w }) s

abbrev pub set_state : ℕ → KtState → Sched → Sched
set_state t st s = set_thread t (record (s.threads t) { state = st }) s

abbrev pub is_none : Option ℕ → Bool
is_none none = true
is_none (some q) = false

-- `t` at the head of the queue `q`, and waiting on it.
unfoldable pub put : ℕ → ℕ → Sched → Sched
put q t s =
    set_wchan t (some q)
      (set_queue q (record { members = t ∷ (s.queues q).members; size = (s.queues q).size + 1 }) s)

-- `t` waiting on nothing, and off the queue `q`, which leaves `rest`.
unfoldable pub drop : ℕ → ℕ → List ℕ → Sched → Sched
drop q t rest s =
    set_wchan t none (set_queue q (record { members = rest; size = (s.queues q).size - 1 }) s)

unfoldable pub ktqueue_enqueue : ℕ → ℕ → Sched → Option Sched
ktqueue_enqueue q t s = kassert (is_none (s.threads t).wchan) >> some (put q t s)

-- All but the last of a list that begins with `x`, and the last.
abbrev pub front : ℕ → List ℕ → List ℕ
front x [] = []
front x (y ∷ rest) = x ∷ front y rest

abbrev pub last : ℕ → List ℕ → ℕ
last x [] = x
last x (y ∷ rest) = last y rest

take_last : ℕ → List ℕ → Sched → Option (ℕ × Sched)
take_last q [] s = none
take_last q (x ∷ rest) s = some (last x rest, drop q (last x rest) (front x rest) s)

-- From the tail (`l_prev`) of the list; `none` is NULL.
unfoldable pub ktqueue_dequeue : ℕ → Sched → Option (ℕ × Sched)
unfolding take_last
ktqueue_dequeue q s = take_last q (s.queues q).members s

abbrev pub member : ℕ → List ℕ → Bool
member t [] = false
member t (x ∷ rest) = x == t || member t rest

abbrev pub erase : ℕ → List ℕ → List ℕ
erase t [] = []
erase t (x ∷ rest) = if x == t then rest else x ∷ erase t rest

-- The only caller passes the queue that the thread waits on, so that its link is on that list.
unfoldable pub ktqueue_remove : ℕ → ℕ → Sched → Option Sched
ktqueue_remove q t s =
    kassert (member t (s.queues q).members) >> some (drop q t (erase t (s.queues q).members) s)

unfoldable pub sched_queue_init : ℕ → Sched → Sched
sched_queue_init q s = set_queue q (record { members = []; size = 0 }) s

abbrev pub is_nil : List ℕ → Bool
is_nil [] = true
is_nil (x ∷ rest) = false

unfoldable pub sched_queue_empty : ℕ → Sched → Bool
sched_queue_empty q s = is_nil (s.queues q).members

abbrev pub on_runq : Option ℕ → Bool
on_runq none = false
on_runq (some q) = q == runq

unfoldable pub sched_make_runnable : ℕ → Sched → Option Sched
unfolding ktqueue_enqueue
sched_make_runnable t s =
    kassert (not (on_runq (s.threads t).wchan)) >> ktqueue_enqueue runq t (set_state t run s)

abbrev pub sleeps : KtState → Bool
sleeps sleep = true
sleeps sleep_cancellable = true
sleeps _ = false

-- The thread that was woken, `none` for NULL.
unfoldable pub sched_wakeup_on : ℕ → Sched → Option (Option ℕ × Sched)
unfolding ktqueue_dequeue sched_make_runnable
sched_wakeup_on q s = elim (ktqueue_dequeue q s) [
  | none ↦ some (none, s)
  | some (t, s₁) ↦ do
    kassert (sleeps (s₁.threads t).state)
    s₂ ← sched_make_runnable t s₁
    some (some t, s₂)
]

-- The fuel is the number of threads on the queue.
unfoldable pub broadcast : ℕ → ℕ → Sched → Option Sched
broadcast zero q s = if sched_queue_empty q s then some s else none
broadcast (suc fuel) q s =
    let next = (sched_wakeup_on q s >>= λ r. broadcast fuel q r.1) in
    if sched_queue_empty q s then some s else next

unfoldable pub sched_broadcast_on : ℕ → Sched → Option Sched
unfolding broadcast
sched_broadcast_on q s = broadcast (length (s.queues q).members) q s

abbrev pub is_live : KtState → Bool
is_live no_state = false
is_live exited = false
is_live _ = true

unfoldable pub set_cancelled : ℕ → Sched → Sched
set_cancelled t s = set_thread t (record (s.threads t) { cancelled = true }) s

wake_cancelled : KtState → Option ℕ → ℕ → Sched → Option Sched
unfolding ktqueue_remove sched_make_runnable
wake_cancelled sleep_cancellable (some q) t s =
    ktqueue_remove q t s >>= λ s₁. sched_make_runnable t s₁
wake_cancelled sleep_cancellable none t s = none
wake_cancelled _ w t s = some s

unfoldable pub sched_cancel : ℕ → Sched → Option Sched
unfolding wake_cancelled
sched_cancel t s = do
  kassert (is_live (s.threads t).state)
  wake_cancelled (s.threads t).state (s.threads t).wchan t (set_cancelled t s)

-- `while (sched_queue_empty(&kt_runq)) intr_wait`, under the interrupts that are to come: each
-- names the queue on which its handler wakes a thread.
unfoldable pub wait_runnable : List ℕ → Sched → Option Sched
wait_runnable [] s = if sched_queue_empty runq s then none else some s
wait_runnable (q ∷ intrs) s =
    let next = (sched_wakeup_on q s >>= λ r. wait_runnable intrs r.1) in
    if sched_queue_empty runq s then next else some s

-- `sched_switch` up to `context_switch`: another thread is current.
unfoldable pub sched_switch : List ℕ → Sched → Option Sched
unfolding wait_runnable ktqueue_dequeue
sched_switch intrs s = do
  s₁ ← wait_runnable intrs s
  (t, s₂) ← ktqueue_dequeue runq s₁
  some (record s₂ { curthr = t })

unfoldable pub sched_sleep_on : List ℕ → ℕ → Sched → Option Sched
unfolding ktqueue_enqueue sched_switch
sched_sleep_on intrs q s = do
  s₁ ← ktqueue_enqueue q s.curthr (set_state s.curthr sleep s)
  sched_switch intrs s₁

unfoldable pub sched_cancellable_sleep_on : List ℕ → ℕ → Sched → Option Sched
unfolding ktqueue_enqueue sched_switch
sched_cancellable_sleep_on intrs q s = do
  s₁ ← ktqueue_enqueue q s.curthr (set_state s.curthr sleep_cancellable s)
  sched_switch intrs s₁

-- What the cancellable sleep returns, once its thread is current again: 0 or EINTR.
unfoldable pub sleep_result : Sched → ℕ
sleep_result s = if (s.threads s.curthr).cancelled then 4 else 0
