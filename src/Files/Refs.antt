-- ===== src/Files/Refs.antt =====
-- The reference counts of kernel/fs/file.c: a file's count is the number of descriptors that name it.
use abmp.Common.{
  ℕ, zero, suc, ◌+◌, ◌-◌, ◌<◌, ◌≡◌, ◌≢◌, refl, ap, ◌∙◌, inl, inr, ltb, Bool, true, false, ◌||◌,
  Option, none, some, List, [], ◌∷◌, ◌==◌, if◌then◌else◌, set, length, length-set, arith,
  Bool-cases,
}
use abmp.Files.{
  Fds, slot, is_some, set_file, count_to, set_fd, pos_ok, fref, fref_open, fget, add_put, fput,
}

abbrev pub here : ℕ → Option ℕ → ℕ
here f none = 0
here f (some g) = if g == f then 1 else 0

-- The number of descriptors that name `f`.
abbrev pub refs : ℕ → List (Option ℕ) → ℕ
refs f [] = 0
refs f (o ∷ rest) = here f o + refs f rest

pub refs-set :
    (f : ℕ) (xs : List (Option ℕ)) (fd : ℕ) (o : Option ℕ)
    → fd < length xs
    → refs f (set xs fd o) + here f (slot xs fd) ≡ refs f xs + here f o
refs-set f [] fd o h = absurd (omega arith)
refs-set f (x ∷ xs) zero o h = omega arith
refs-set f (x ∷ xs) (suc fd) o h = omega (arith, refs-set f xs fd o (omega arith))

pub slot-length : (xs : List (Option ℕ)) (fd f : ℕ) → slot xs fd ≡ some f → fd < length xs
slot-length [] fd f h = cc
slot-length (x ∷ xs) zero f h = omega arith
slot-length (x ∷ xs) (suc fd) f h = omega (arith, slot-length xs fd f h)

pub slot-refs : (xs : List (Option ℕ)) (fd f : ℕ) → slot xs fd ≡ some f → 0 < refs f xs
slot-refs [] fd f h = cc
slot-refs (x ∷ xs) zero f h = ground (arith, h)
slot-refs (x ∷ xs) (suc fd) f h = omega (arith, slot-refs xs fd f h)

pub slot-set_same :
    (xs : List (Option ℕ)) (fd : ℕ) (o : Option ℕ) → fd < length xs → slot (set xs fd o) fd ≡ o
slot-set_same [] fd o h = absurd (omega arith)
slot-set_same (x ∷ xs) zero o h = refl
slot-set_same (x ∷ xs) (suc fd) o h = slot-set_same xs fd o (omega arith)

pub slot-set_other :
    (xs : List (Option ℕ)) (fd e : ℕ) (o : Option ℕ) → e ≢ fd → slot (set xs fd o) e ≡ slot xs e
slot-set_other [] fd e o h = refl
slot-set_other (x ∷ xs) zero zero o h = absurd (h refl)
slot-set_other (x ∷ xs) zero (suc e) o h = refl
slot-set_other (x ∷ xs) (suc fd) zero o h = refl
slot-set_other (x ∷ xs) (suc fd) (suc e) o h = slot-set_other xs fd e o (λ p. h (ap suc p))

-- Each file's count is the number of its descriptors, and one more for `held`.
pub record Held (held : Option ℕ) (s : Fds) : Type 0 where
  pub table : length s.fds ≡ 32
  pub counts : (f : ℕ) → (s.file f).refcount ≡ refs f s.fds + here f held
  pub modes : (f : ℕ) → ltb (s.file f).mode 8 ≡ true
  pub places : (f : ℕ) → pos_ok (s.file f).pos ≡ true
  pub vnodes : (f : ℕ) → 0 < (s.file f).refcount → is_some (s.file f).vnode ≡ true

-- What no count changes.
pub record Alike (s s' : Fds) : Type 0 where
  pub table : s'.fds ≡ s.fds
  pub vnodes : (g : ℕ) → (s'.file g).vnode ≡ (s.file g).vnode
  pub positions : (g : ℕ) → (s'.file g).pos ≡ (s.file g).pos

pub count_to-Alike : (f n : ℕ) (s : Fds) → Alike s (count_to f n s)
unfolding count_to set_file
count_to-Alike f n s = record {
  table = refl;
  vnodes = λ g. ground arith;
  positions = λ g. ground arith;
}

up-Held :
    (f : ℕ) (s : Fds)
    → 0 < (s.file f).refcount
    → Held none s
    → Held (some f) (count_to f ((s.file f).refcount + 1) s)
unfolding count_to set_file
up-Held f s h inv = record {
  table = inv.table;
  counts = λ g. ground (arith, inv.counts g);
  modes = λ g. ground (arith, inv.modes g, inv.modes f);
  places = λ g. ground (arith, inv.places g, inv.places f);
  vnodes = λ g hg. ground (arith, inv.vnodes g, inv.vnodes f, h);
}

down-Held : (f : ℕ) (s : Fds) → Held (some f) s → Held none (count_to f ((s.file f).refcount - 1) s)
unfolding count_to set_file
down-Held f s inv = record {
  table = inv.table;
  counts = λ g. ground (arith, inv.counts g);
  modes = λ g. ground (arith, inv.modes g, inv.modes f);
  places = λ g. ground (arith, inv.places g, inv.places f);
  vnodes = λ g hg. ground (arith, inv.vnodes g, inv.vnodes f);
}

pub fget_lem :
    (fd f : ℕ) (s : Fds)
    → Held none s
    → slot s.fds fd ≡ some f
    → fget fd s ≡ some (some f, count_to f ((s.file f).refcount + 1) s)
unfolding fget fref_open fref count_to
fget_lem fd f s inv e =
    let hr = slot-refs s.fds fd f e in
    let hv = inv.vnodes f (ground (arith, inv.counts f)) in
    rw (e, inv.modes f, inv.places f, hv) ground arith

pub fget-Held :
    (fd f : ℕ) (s : Fds)
    → Held none s
    → slot s.fds fd ≡ some f
    → Held (some f) (count_to f ((s.file f).refcount + 1) s)
fget-Held fd f s inv e =
    let hr = slot-refs s.fds fd f e in up-Held f s (ground (arith, inv.counts f)) inv

-- The vnodes handed to `vput` once the count has been lowered from `n`.
abbrev pub puts_after : ℕ → Option ℕ → List ℕ → List ℕ
puts_after n none puts = puts
puts_after n (some v) puts = if n == 1 then v ∷ puts else puts

pub count_to-puts : (f n : ℕ) (s : Fds) → (count_to f n s).puts ≡ s.puts
unfolding count_to set_file
count_to-puts f n s = refl

or-true : (b : Bool) → (b || true) ≡ true
or-true true = refl
or-true false = refl

-- `fput` of a reference that is held.
pub record Put (f : ℕ) (s s' : Fds) : Type 0 where
  pub held : Held none s'
  pub alike : Alike s s'
  pub puts : s'.puts ≡ puts_after (s.file f).refcount (s.file f).vnode s.puts

add_put-Put :
    (o : Option ℕ) (n : ℕ) (f : ℕ) (s s₁ : Fds)
    → Held none s₁
    → Alike s s₁
    → s₁.puts ≡ s.puts
    → (s.file f).vnode ≡ o
    → (s.file f).refcount ≡ n
    → Put f s (if n == 1 then add_put o s₁ else s₁)
add_put-Put none n f s s₁ inv al hp ho hn = elim (Bool-cases (n == 1)) [
  | inl e ↦ rw e (record { held = inv; alike = al; puts = rw ho hp })
  | inr e ↦ rw e (record { held = inv; alike = al; puts = rw ho hp })
]
add_put-Put (some v) n f s s₁ inv al hp ho hn = elim (Bool-cases (n == 1)) [
  | inl e ↦ rw e (record {
    held = record {
      table = inv.table;
      counts = inv.counts;
      modes = inv.modes;
      places = inv.places;
      vnodes = inv.vnodes;
    };
    alike = record { table = al.table; vnodes = al.vnodes; positions = al.positions };
    puts = rw (ho, hn, e, hp) refl;
  })
  | inr e ↦ rw e (record { held = inv; alike = al; puts = rw (ho, hn, e) hp })
]

pub fput_lem :
    (f : ℕ) (s : Fds) → Held (some f) s → (s' : Fds) × ((fput f s ≡ some s') × Put f s s')
unfolding fput
fput_lem f s inv =
    let s₁ : Fds = count_to f ((s.file f).refcount - 1) s in
    let h₀ : ((s.file f).refcount == 0) ≡ false = ground (arith, inv.counts f) in
    let h₁ = inv.vnodes f (ground (arith, inv.counts f)) in
    let h₂ : ((s.file f).refcount == 1 || true) ≡ true = or-true ((s.file f).refcount == 1) in
    (
      _,
      (
        rw (inv.modes f, inv.places f, h₀, h₁, h₂) refl,
        add_put-Put (s.file f).vnode (s.file f).refcount f s s₁ (down-Held f s inv)
            (count_to-Alike f ((s.file f).refcount - 1) s)
            (count_to-puts f ((s.file f).refcount - 1) s) refl refl,
      ),
    )

pub puts_after-many : (n : ℕ) (o : Option ℕ) (puts : List ℕ) → 1 < n → puts_after n o puts ≡ puts
puts_after-many n none puts h = refl
puts_after-many n (some v) puts h = ground arith

-- A descriptor cleared leaves its reference held.
pub clear-Held :
    (fd f : ℕ) (s : Fds) → Held none s → slot s.fds fd ≡ some f → Held (some f) (set_fd fd none s)
clear-Held fd f s inv e = record {
  table = length-set s.fds fd none ∙ inv.table;
  counts = λ g.
      let h = refs-set g s.fds fd none (slot-length s.fds fd f e) in
      ground (arith, h, e, inv.counts g);
  modes = inv.modes;
  places = inv.places;
  vnodes = inv.vnodes;
}

-- A held reference passes to a free descriptor.
pub fill-Held :
    (fd f : ℕ) (s : Fds)
    → Held (some f) s
    → fd < 32
    → slot s.fds fd ≡ none
    → Held none (set_fd fd (some f) s)
fill-Held fd f s inv h e = record {
  table = length-set s.fds fd (some f) ∙ inv.table;
  counts = λ g.
      let h = refs-set g s.fds fd (some f) (rw inv.table h) in ground (arith, h, e, inv.counts g);
  modes = inv.modes;
  places = inv.places;
  vnodes = inv.vnodes;
}
