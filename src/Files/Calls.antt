-- ===== src/Files/Calls.antt =====
-- kernel/fs/vfs_syscall.c: closing and duplicating descriptors.
use abmp.Common.{
  ℕ, zero, suc, ◌+◌, ◌<◌, ◌≡◌, ◌≢◌, refl, ap, ◌∙◌, inl, inr, ltb, true, false, Option, none, some,
  List, [], ◌∷◌, ◌==◌, set, length, arith, Option-cases,
}
use abmp.Files.{
  Fds, ok, err, slot, is_some, count_to, set_fd, get_empty_fd, close_open, do_close, share,
  dup_open, do_dup, move, dup2_open, do_dup2,
}
use abmp.Files.Refs.{
  refs, slot-length, slot-refs, slot-set_same, slot-set_other, Held, count_to-Alike, count_to-puts,
  fget_lem, fget-Held, fput_lem, puts_after, puts_after-many, clear-Held, fill-Held,
}

-- Every open descriptor is counted: `do_close` on one succeeds, clears this descriptor alone, hands
-- the file's vnode to `vput` exactly if no other descriptor names the file, and the counts are
-- right again.
pub close-Held :
    (fd f : ℕ) (s : Fds)
    → Held none s
    → slot s.fds fd ≡ some f
    → (s' : Fds) × ((do_close fd s ≡ some (ok 0, s'))
        × (Held none s'
            × ((s'.fds ≡ set s.fds fd none)
                × (s'.puts ≡ puts_after (refs f s.fds) (s.file f).vnode s.puts))))
unfolding do_close close_open
close-Held fd f s inv e =
    let s₁ : Fds = count_to f ((s.file f).refcount + 1) s in
    let a₁ = count_to-Alike f ((s.file f).refcount + 1) s in
    let h₁ = fget-Held fd f s inv e in
    let (s₂, (p₂, u₂)) = fput_lem f s₁ h₁ in
    let t₂ : s₂.fds ≡ s.fds = u₂.alike.table ∙ a₁.table in
    let e₂ : slot s₂.fds fd ≡ some f = rw t₂ e in
    let s₃ : Fds = set_fd fd none s₂ in
    let (s₄, (p₄, u₄)) = fput_lem f s₃ (clear-Held fd f s₂ u₂.held e₂) in
    let many : 1 < (s₁.file f).refcount =
      ground (arith, h₁.counts f, a₁.table, slot-refs s.fds fd f e) in
    let c₂ : (s₂.file f).refcount ≡ refs f s.fds = u₂.held.counts f ∙ (rw t₂ (omega arith)) in
    (
      s₄,
      (
        rw (e, fget_lem fd f s inv e, p₂, p₄) refl,
        (
          u₄.held,
          (
            u₄.alike.table ∙ ap (λ l. set l fd none) t₂,
            u₄.puts
                ∙ rw
                    (
                      c₂,
                      u₂.alike.vnodes f ∙ a₁.vnodes f,
                      u₂.puts
                          ∙ puts_after-many (s₁.file f).refcount (s₁.file f).vnode s₁.puts many
                          ∙ count_to-puts f ((s.file f).refcount + 1) s,
                    )
                    refl,
          ),
        ),
      ),
    )

abbrev pub UsedBelow : ℕ → List (Option ℕ) → Type 0
UsedBelow n xs = (e : ℕ) → e < n → is_some (slot xs e) ≡ true

-- `get_empty_fd` finds the lowest free descriptor.
pub empty_fd_lem :
    (xs : List (Option ℕ)) (n : ℕ)
    → get_empty_fd xs ≡ some n
    → (n < length xs) × ((slot xs n ≡ none) × UsedBelow n xs)
empty_fd_lem [] n h = cc
empty_fd_lem (none ∷ xs) zero h = (omega arith, (refl, λ e he. absurd (omega arith)))
empty_fd_lem (none ∷ xs) (suc n) h = absurd (ground (arith, h))
empty_fd_lem (some f ∷ xs) n h = elim (Option-cases (get_empty_fd xs)) [
  | inl e ↦ absurd (ground (arith, e, h))
  | inr (m, e) ↦
      let (l, (s, u)) = empty_fd_lem xs m e in
      let hn : suc m ≡ n = ground (arith, e, h) in rw⁻¹ hn (omega arith, (s, below m xs f u))
]
  where
    below :
        (m : ℕ) (xs : List (Option ℕ)) (f : ℕ) → UsedBelow m xs → UsedBelow (suc m) (some f ∷ xs)
    below m xs f u zero he = refl
    below m xs f u (suc e) he = u e (omega arith)

-- With every count right and the lowest free descriptor another than 0, `do_dup` of an open
-- descriptor returns that one; it then names the same file, no other descriptor changes, and the
-- counts are right again.
pub dup-Held :
    (fd f n : ℕ) (s : Fds)
    → Held none s
    → slot s.fds fd ≡ some f
    → get_empty_fd s.fds ≡ some (suc n)
    → (s' : Fds) × ((do_dup fd s ≡ some (ok (suc n), s'))
        × (Held none s'
            × ((s'.fds ≡ set s.fds (suc n) (some f))
                × ((slot s.fds (suc n) ≡ none) × UsedBelow (suc n) s.fds))))
unfolding do_dup dup_open share
dup-Held fd f n s inv e hn =
    let s₁ : Fds = count_to f ((s.file f).refcount + 1) s in
    let a₁ = count_to-Alike f ((s.file f).refcount + 1) s in
    let (l, (free, used)) = empty_fd_lem s.fds (suc n) hn in
    (
      set_fd (suc n) (some f) s₁,
      (
        rw (e, fget_lem fd f s inv e, hn) refl,
        (
          fill-Held (suc n) f s₁ (fget-Held fd f s inv e) (rw⁻¹ inv.table l) (rw a₁.table free),
          (ap (λ t. set t (suc n) (some f)) a₁.table, (free, used)),
        ),
      ),
    )

-- With every count right and descriptor 0 free, `do_dup` of an open descriptor fails with EMFILE and
-- changes no descriptor, although there is a free one; the counts are right again.
pub dup_zero-Held :
    (fd f : ℕ) (s : Fds)
    → Held none s
    → slot s.fds fd ≡ some f
    → get_empty_fd s.fds ≡ some 0
    → (s' : Fds) × ((do_dup fd s ≡ some (err 24, s')) × (Held none s' × (s'.fds ≡ s.fds)))
unfolding do_dup dup_open share
dup_zero-Held fd f s inv e hn =
    let s₁ : Fds = count_to f ((s.file f).refcount + 1) s in
    let a₁ = count_to-Alike f ((s.file f).refcount + 1) s in
    let (s₂, (p₂, u₂)) = fput_lem f s₁ (fget-Held fd f s inv e) in
    (s₂, (rw (e, fget_lem fd f s inv e, hn, p₂) refl, (u₂.held, u₂.alike.table ∙ a₁.table)))

move-Held :
    (ofd nfd f : ℕ) (s : Fds)
    → Held none s
    → slot s.fds ofd ≡ some f
    → nfd < 32
    → slot s.fds nfd ≡ none
    → (s' : Fds) × ((move ofd nfd s ≡ some (ok nfd, s'))
        × (Held none s' × (s'.fds ≡ set s.fds nfd (some f))))
unfolding move
move-Held ofd nfd f s inv e hn hf =
    let s₁ : Fds = count_to f ((s.file f).refcount + 1) s in
    let a₁ = count_to-Alike f ((s.file f).refcount + 1) s in
    (
      set_fd nfd (some f) s₁,
      (
        rw (fget_lem ofd f s inv e) refl,
        (
          fill-Held nfd f s₁ (fget-Held ofd f s inv e) hn (rw a₁.table hf),
          ap (λ t. set t nfd (some f)) a₁.table,
        ),
      ),
    )

set-set : (xs : List (Option ℕ)) (i : ℕ) (o p : Option ℕ) → set (set xs i o) i p ≡ set xs i p
set-set [] i o p = refl
set-set (x ∷ xs) zero o p = refl
set-set (x ∷ xs) (suc i) o p = ap (λ l. x ∷ l) (set-set xs i o p)

-- With every count right, `do_dup2` of an open descriptor onto another one within the table closes
-- that one if it is open and returns it; it then names the same file, no other descriptor changes,
-- and the counts are right again.
pub dup2-Held :
    (ofd nfd f : ℕ) (s : Fds)
    → Held none s
    → slot s.fds ofd ≡ some f
    → nfd < 32
    → ofd ≢ nfd
    → (s' : Fds) × ((do_dup2 ofd nfd s ≡ some (ok nfd, s'))
        × (Held none s' × (s'.fds ≡ set s.fds nfd (some f))))
unfolding do_dup2 dup2_open
dup2-Held ofd nfd f s inv e hn hne = elim (Option-cases (slot s.fds nfd)) [
  | inl ef ↦
      let (s₁, (p₁, r₁)) = move-Held ofd nfd f s inv e hn ef in
      (s₁, (rw (e, in_range, differs, ef) p₁, r₁))
  | inr (g, eg) ↦
      let (s₁, (p₁, (i₁, (t₁, _)))) = close-Held nfd g s inv eg in
      let (s₂, (p₂, (i₂, t₂))) =
        move-Held ofd nfd f s₁ i₁ (rw t₁ (slot-set_other s.fds nfd ofd none hne ∙ e)) hn
          (rw t₁ (slot-set_same s.fds nfd none (slot-length s.fds nfd g eg))) in
      (
        s₂,
        (
          rw (e, in_range, differs, p₁, eg) p₂,
          (i₂, t₂ ∙ ap (λ t. set t nfd (some f)) t₁ ∙ set-set s.fds nfd none (some f)),
        ),
      )
]
  where
    in_range : ltb nfd 32 ≡ true
    in_range = ground arith

    differs : (ofd == nfd) ≡ false
    differs = ground arith
