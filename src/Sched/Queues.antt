-- ===== src/Sched/Queues.antt =====
-- The queue operations of kernel/proc/sched.c keep each thread on the queue that its `kt_wchan`
-- names, once, and on no other; and `tq_size` right.
use abmp.Common.{
  ℕ, suc, ◌+◌, ◌<◌, ◌≡◌, refl, ap, Bool, true, false, Option, none, some, List, [], ◌∷◌, ◌++◌, ◌==◌,
  arith, if◌then◌else◌, length,
}
use abmp.Sched.{Sched, Thread, set_thread, put, drop, front, last, member, erase}

abbrev pub count : ℕ → List ℕ → ℕ
count t [] = 0
count t (x ∷ rest) = let n = count t rest in if x == t then suc n else n

pub count-front :
    (t x : ℕ) (rest : List ℕ)
    → count t (x ∷ rest) ≡ count t (front x rest) + (if last x rest == t then 1 else 0)
count-front t x [] = ground arith
count-front t x (y ∷ rest) = ground (arith, count-front t y rest)

pub length-front : (x : ℕ) (rest : List ℕ) → length (front x rest) ≡ length rest
length-front x [] = refl
length-front x (y ∷ rest) = ap suc (length-front y rest)

pub last-append : (x : ℕ) (rest ys : List ℕ) → front x rest ++ (last x rest ∷ ys) ≡ (x ∷ rest) ++ ys
last-append x [] ys = refl
last-append x (y ∷ rest) ys = ap (λ l. x ∷ l) (last-append y rest ys)

pub front-append :
    (xs : List ℕ) (x y : ℕ) → (front x (xs ++ (y ∷ [])) ≡ x ∷ xs) × (last x (xs ++ (y ∷ [])) ≡ y)
front-append [] x y = (refl, refl)
front-append (z ∷ xs) x y = let (p, q) = front-append xs z y in (ap (λ l. x ∷ l) p, q)

pub count-erase :
    (u t : ℕ) (xs : List ℕ)
    → member t xs ≡ true
    → count u xs ≡ count u (erase t xs) + (if t == u then 1 else 0)
count-erase u t [] h = cc
count-erase u t (x ∷ rest) h = ground (arith, count-erase u t rest)

pub length-erase : (t : ℕ) (xs : List ℕ) → member t xs ≡ true → length xs ≡ length (erase t xs) + 1
length-erase t [] h = cc
length-erase t (x ∷ rest) h = ground (arith, length-erase t rest)

pub count-member : (t : ℕ) (xs : List ℕ) → 0 < count t xs → member t xs ≡ true
count-member t [] h = absurd (omega arith)
count-member t (x ∷ rest) h = ground (arith, count-member t rest)

abbrev pub on : Option ℕ → ℕ → Bool
on none q = false
on (some p) q = p == q

pub record Queued (s : Sched) : Type 0 where
  pub queued :
      (q t : ℕ) → count t (s.queues q).members ≡ (if on (s.threads t).wchan q then 1 else 0)
  pub sized : (q : ℕ) → (s.queues q).size ≡ length (s.queues q).members

pub set_thread-Queued :
    (s : Sched) (t : ℕ) (v : Thread)
    → v.wchan ≡ (s.threads t).wchan
    → Queued s
    → Queued (set_thread t v s)
set_thread-Queued s t v e inv = record {
  queued = λ q u. ground (arith, inv.queued q u);
  sized = inv.sized;
}

pub put-Queued : (s : Sched) (q t : ℕ) → (s.threads t).wchan ≡ none → Queued s → Queued (put q t s)
unfolding put
put-Queued s q t e inv = record {
  queued = λ p u. ground (arith, inv.queued p u);
  sized = λ p. ground (arith, inv.sized p);
}

pub drop-Queued :
    (s : Sched) (q t : ℕ) (rest : List ℕ)
    → ((u : ℕ) → count u (s.queues q).members ≡ count u rest + (if t == u then 1 else 0))
    → length (s.queues q).members ≡ length rest + 1
    → Queued s
    → Queued (drop q t rest s)
unfolding drop
drop-Queued s q t rest hc hl inv = record {
  queued = λ p u. ground (arith, inv.queued p u, inv.queued q u, inv.queued q t, hc u, hc t);
  sized = λ p. ground (arith, inv.sized p, inv.sized q);
}

pub on-some : (w : Option ℕ) (q : ℕ) → on w q ≡ true → w ≡ some q
on-some none q h = cc
on-some (some p) q h = ground arith
