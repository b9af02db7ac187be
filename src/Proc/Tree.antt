-- ===== src/Proc/Tree.antt =====
-- kernel/proc/proc.c: creating a process, and ending one whose children pass to the init process.
use abmp.Common.{
  ℕ, ◌≡◌, ◌≢◌, refl, sym, ap, ◌∙◌, ◌⊎◌, inl, inr, true, false, some, List, [], ◌∷◌, ◌++◌,
  append_assoc, append-nil, ◌==◌, arith, All,
}
use abmp.Proc.{
  dead, Procs, set_proc, adopt, hand_over, reparent, reparent_all, positive, is_some, proc_cleanup,
}

-- What a change of the tree leaves alone.
pub record Same (s s' : Procs) : Type 0 where
  pub pids : (a : ℕ) → (s'.proc a).pid ≡ (s.proc a).pid
  pub states : (a : ℕ) → (s'.proc a).state ≡ (s.proc a).state
  pub statuses : (a : ℕ) → (s'.proc a).status ≡ (s.proc a).status

hand_over-Same : (p init c : ℕ) (s : Procs) → Same s (hand_over p init c s)
unfolding hand_over adopt
hand_over-Same p init c s = record {
  pids = λ a. ground arith;
  states = λ a. ground arith;
  statuses = λ a. ground arith;
}

hand_over-pproc :
    (p init c d : ℕ) (s : Procs)
    → (c ≡ d) ⊎ ((s.proc d).pproc ≡ some init)
    → ((hand_over p init c s).proc d).pproc ≡ some init
unfolding hand_over adopt
hand_over-pproc p init c d s (inl e) = ground arith
hand_over-pproc p init c d s (inr e) = ground arith

hand_over-children :
    (p init c : ℕ) (rest : List ℕ) (s : Procs)
    → p ≢ init
    → (s.proc p).children ≡ c ∷ rest
    → (((hand_over p init c s).proc p).children ≡ rest)
      × (((hand_over p init c s).proc init).children ≡ (s.proc init).children ++ (c ∷ []))
unfolding hand_over adopt
hand_over-children p init c rest s h e = (ground (arith, e), ground arith)

reparent-Same : (p init : ℕ) (cs : List ℕ) (s : Procs) → Same s (reparent p init cs s)
unfolding reparent
reparent-Same p init [] s = record { pids = λ a. refl; states = λ a. refl; statuses = λ a. refl }
reparent-Same p init (c ∷ rest) s =
    let r = reparent-Same p init rest (hand_over p init c s) in
    let h = hand_over-Same p init c s in
    record {
      pids = λ a. r.pids a ∙ h.pids a;
      states = λ a. r.states a ∙ h.states a;
      statuses = λ a. r.statuses a ∙ h.statuses a;
    }

-- A child of the init process stays one.
reparent-kept :
    (p init c : ℕ) (cs : List ℕ) (s : Procs)
    → (s.proc c).pproc ≡ some init
    → ((reparent p init cs s).proc c).pproc ≡ some init
unfolding reparent
reparent-kept p init c [] s h = h
reparent-kept p init c (d ∷ rest) s h =
    reparent-kept p init c rest (hand_over p init d s) (hand_over-pproc p init d c s (inr h))

reparent_parents :
    (p init : ℕ) (cs : List ℕ) (s : Procs)
    → All (λ c. ((reparent p init cs s).proc c).pproc ≡ some init) cs
unfolding reparent
reparent_parents p init [] s = tt
reparent_parents p init (c ∷ rest) s = (
  reparent-kept p init c rest (hand_over p init c s) (hand_over-pproc p init c c s (inl refl)),
  reparent_parents p init rest (hand_over p init c s),
)

reparent_children :
    (p init : ℕ) (cs : List ℕ) (s : Procs)
    → p ≢ init
    → (s.proc p).children ≡ cs
    → (((reparent p init cs s).proc p).children ≡ [])
      × (((reparent p init cs s).proc init).children ≡ (s.proc init).children ++ cs)
unfolding reparent
reparent_children p init [] s h e = (e, sym (append-nil (s.proc init).children))
reparent_children p init (c ∷ rest) s h e =
    let (h₁, h₂) = hand_over-children p init c rest s h e in
    let (p₁, p₂) = reparent_children p init rest (hand_over p init c s) h h₁ in
    (p₁, p₂ ∙ ap (λ l. l ++ rest) h₂ ∙ append_assoc (s.proc init).children (c ∷ []) rest)

-- `s` after `p` has ended with the status `status` under the init process `init`.
pub record Ended (p init status : ℕ) (s s' : Procs) : Type 0 where
  pub gone : (s'.proc p).state ≡ dead
  pub code : (s'.proc p).status ≡ status
  pub childless : (s'.proc p).children ≡ []
  pub passed : (s'.proc init).children ≡ (s.proc init).children ++ (s.proc p).children
  pub parents : All (λ c. (s'.proc c).pproc ≡ some init) (s.proc p).children
  pub others :
      (a : ℕ) → a ≢ p → ((s'.proc a).state ≡ (s.proc a).state) × ((s'.proc a).pid ≡ (s.proc a).pid)

same_children :
    (p status : ℕ) (s : Procs)
    → ((set_proc p (record (s.proc p) { state = dead; status = status }) s).proc p).children
      ≡ (s.proc p).children
same_children p status s = ground arith

-- A process that is not the init process, has a positive pid and a parent, ends: `proc_cleanup`
-- succeeds, the process is dead with its status and without children, its children are the last
-- ones of the init process, in their order, and have it as their parent, and no other process
-- changes its state or pid.
pub cleanup-Ended :
    (p init status : ℕ) (s : Procs)
    → p ≢ init
    → s.initproc ≡ some init
    → positive (s.proc p).pid ≡ true
    → is_some (s.proc p).pproc ≡ true
    → (s' : Procs) × ((proc_cleanup p status s ≡ some s') × Ended p init status s s')
unfolding proc_cleanup reparent_all
cleanup-Ended p init status s h hi hp hq =
    let m : Procs = set_proc p (record (s.proc p) { state = dead; status = status }) s in
    let cs = (s.proc p).children in
    let r = reparent-Same p init cs m in
    let (c₁, c₂) = reparent_children p init cs m h (ground arith) in
    let hne : (p == init) ≡ false = ground arith in
    (
      reparent p init cs m,
      (
        rw (hp, hi, hne, hq, same_children p status s) refl,
        record {
          gone = r.states p ∙ ground arith;
          code = r.statuses p ∙ ground arith;
          childless = c₁;
          passed = c₂ ∙ ground arith;
          parents = reparent_parents p init cs m;
          others = λ a ha. (r.states a ∙ ground arith, r.pids a ∙ ground arith);
        },
      ),
    )
