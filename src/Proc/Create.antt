-- ===== src/Proc/Create.antt =====
-- kernel/proc/proc.c: a process that is created is found by its pid.
use abmp.Common.{
  ℕ, ◌+◌, ◌%◌, ◌<◌, ◌≡◌, ◌≢◌, refl, sym, ap, ◌∙◌, ◌⊎◌, inl, inr, Bool, true, false, not, ◌||◌,
  Option, none, some, List, [], ◌∷◌, ◌++◌, ◌==◌, Bool-cases, arith,
}
use abmp.Sched.{member}
use abmp.Proc.{
  Proc, Procs, has_pid, taken, lookup_from, proc_lookup, pid_of, adopt, created, proc_create,
}
use abmp.Proc.Pid.{Free, is_taken, getid-Free}

lookup-ext :
    (f g : ℕ → Proc) (n : ℕ) (xs : List ℕ)
    → ((a : ℕ) → member a xs ≡ true → (f a).pid ≡ (g a).pid)
    → lookup_from f n xs ≡ lookup_from g n xs
unfolding lookup_from
lookup-ext f g n [] h = refl
lookup-ext f g n (x ∷ xs) h =
    rw (h x (ground arith), lookup-ext f g n xs (λ a ha. h a (ground arith))) refl

lookup-append :
    (f : ℕ → Proc) (n a : ℕ) (xs : List ℕ)
    → has_pid n (f a).pid ≡ false
    → lookup_from f n (xs ++ (a ∷ [])) ≡ lookup_from f n xs
unfolding lookup_from
lookup-append f n a [] h = rw h refl
lookup-append f n a (x ∷ xs) h = rw (lookup-append f n a xs h) refl

lookup-new :
    (f : ℕ → Proc) (n a : ℕ) (xs : List ℕ)
    → taken f n xs ≡ false
    → has_pid n (f a).pid ≡ true
    → lookup_from f n (xs ++ (a ∷ [])) ≡ some a
unfolding lookup_from taken
lookup-new f n a [] ht h = rw h refl
lookup-new f n a (x ∷ xs) ht h =
    let hx : has_pid n (f x).pid ≡ false = ground (arith, ht) in
    rw (hx, lookup-new f n a xs (ground (arith, ht)) h) refl

taken-ext :
    (f g : ℕ → Proc) (n : ℕ) (xs : List ℕ)
    → ((a : ℕ) → member a xs ≡ true → (f a).pid ≡ (g a).pid)
    → taken f n xs ≡ taken g n xs
unfolding taken
taken-ext f g n [] h = refl
taken-ext f g n (x ∷ xs) h =
    rw (h x (ground arith), taken-ext f g n xs (λ a ha. h a (ground arith))) refl

adopt-pid : (o : Option ℕ) (new a : ℕ) (s : Procs) → ((adopt o new s).proc a).pid ≡ (s.proc a).pid
unfolding adopt
adopt-pid none new a s = refl
adopt-pid (some c) new a s = ground arith

adopt-listed : (o : Option ℕ) (new : ℕ) (s : Procs) → (adopt o new s).listed ≡ s.listed
unfolding adopt
adopt-listed none new s = refl
adopt-listed (some c) new s = refl

created-pid :
    (pid : Option ℕ) (new : ℕ) (s : Procs)
    → (((created pid new s).proc new).pid ≡ pid)
      × ((created pid new s).listed ≡ s.listed ++ (new ∷ []))
unfolding created
created-pid pid new s = (adopt-pid s.curproc new new _ ∙ ground arith, adopt-listed s.curproc new _)

created-others :
    (pid : Option ℕ) (new a : ℕ) (s : Procs)
    → a ≢ new
    → ((created pid new s).proc a).pid ≡ (s.proc a).pid
unfolding created
created-others pid new a s h = adopt-pid s.curproc new a _ ∙ ground arith

created-children :
    (pid : Option ℕ) (new c : ℕ) (s : Procs)
    → s.curproc ≡ some c
    → c ≢ new
    → ((created pid new s).proc c).children ≡ (s.proc c).children ++ (new ∷ [])
unfolding created adopt
created-children pid new c s e h = ground (arith, e)

-- In `s'`, the process `new` has the pid `pid`, is found by it and is the last child of `c`.
pub record Created (pid new c : ℕ) (s s' : Procs) : Type 0 where
  pub found : proc_lookup s' pid ≡ some new
  pub others : (n : ℕ) → n ≢ pid → proc_lookup s' n ≡ proc_lookup s n
  pub child : (s'.proc c).children ≡ (s.proc c).children ++ (new ∷ [])

created-Created :
    (pid new c : ℕ) (s : Procs)
    → is_taken s pid ≡ false
    → member new s.listed ≡ false
    → s.curproc ≡ some c
    → c ≢ new
    → Created pid new c s (created (some pid) new s)
unfolding proc_lookup
created-Created pid new c s hf hm hc hn =
    let s' : Procs = created (some pid) new s in
    let (hp, hl) = created-pid (some pid) new s in
    let same : (a : ℕ) → member a s.listed ≡ true → (s'.proc a).pid ≡ (s.proc a).pid =
      λ a ha. created-others (some pid) new a s (λ e. absurd (ground (arith, e))) in
    record {
      found = rw hl (
          lookup-new s'.proc pid new s.listed (taken-ext s'.proc s.proc pid s.listed same ∙ hf)
            (rw hp (ground arith)));
      others = λ n h. rw hl (
          lookup-append s'.proc n new s.listed (rw hp (ground arith))
          ∙ lookup-ext s'.proc s.proc n s.listed same);
      child = created-children (some pid) new c s hc hn;
    }

or-true : (b : Bool) → (b || true) ≡ true
or-true true = refl
or-true false = refl

free-differs :
    (s : Procs) (n pid : ℕ) → is_taken s n ≡ true → is_taken s pid ≡ false → (pid == n) ≡ false
free-differs s n pid h h' = elim (Bool-cases (pid == n)) [
  | inr e ↦ e
  | inl e ↦ let p : pid ≡ n = ground arith in e ∙ sym h ∙ sym (ap (λ m. is_taken s m) p) ∙ h'
]

-- Some pid is free, pid 0 is taken, and pid 1 is taken unless the current process is the idle one:
-- then the creation of a process at a new address that the allocator finds succeeds, and with the first free pid from
-- `next_pid` on the process is found by `proc_lookup`, which finds the others as before; it is
-- the last child of the current process.
pub create-Created :
    (new c n : ℕ) (s : Procs)
    → s.next_pid < 65536
    → n < 65536
    → is_taken s n ≡ false
    → is_taken s 0 ≡ true
    → (is_taken s 1 ≡ true) ⊎ (has_pid 0 (s.proc c).pid ≡ true)
    → member new s.listed ≡ false
    → s.curproc ≡ some c
    → c ≢ new
    → (pid : ℕ) × ((s' : Procs) × ((proc_create (some new) s ≡ some s')
          × (Free s pid × Created pid new c s s')))
unfolding proc_create proc_lookup
create-Created new c n s hn hn' hf h0 h1 hm hc hne = elim (getid-Free s hn) [
  | inl (e, all) ↦ let h : true ≡ false = sym (all n hn') ∙ hf in cc
  | inr (pid, (e, free)) ↦
      let s₁ : Procs = record s { next_pid = (pid + 1) % 65536 } in
      let c₀ : has_pid 0 (some pid) ≡ false = free-differs s 0 pid h0 free.free in
      let c₁ : (not (has_pid 1 (some pid)) || has_pid 0 (pid_of s₁ s₁.curproc)) ≡ true = elim h1 [
        | inl t ↦ rw (free-differs s 1 pid t free.free) refl
        | inr t ↦ rw (hc, t) (or-true (not (has_pid 1 (some pid))))
      ] in
      let r = created-Created pid new c s₁ free.free hm hc hne in
      (
        pid,
        (
          created (some pid) new s₁,
          (
            rw (e, c₀, c₁) refl,
            (free, record { found = r.found; others = r.others; child = r.child }),
          ),
        ),
      )
]
