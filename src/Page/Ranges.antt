-- ===== src/Page/Ranges.antt =====
-- kernel/mm/page.c: a range of pages handed to the allocator.
use abmp.Common.{
  ℕ, zero, suc, ◌+◌, ◌-◌, ◌*◌, ◌/◌, ◌%◌, ◌^◌, ◌≤◌, ◌<◌, ◌≡◌, refl, ap, sym, subst, inl, inr, true,
  false, leb, ltb, List, [], ◌∷◌, ◌++◌, map, map-append, if◌then◌else◌, ◌==◌, Bool-cases, arith,
  All, All-append, ◌∙◌, u32,
}
use abmp.Page.{Pages}
use abmp.Page.Buddy.{Group, insert}
use abmp.Page.Create.{empty_group, put_rest, put_largest, group_create, group_end, page_add_range}
use abmp.Page.Sums.{block, cover}
use abmp.Page.Valid.{Valid, Placed, odd}
use abmp.Page.Steps.{Moves, no_pages, insert-Valid}
use abmp.Page.Join.{flipped_top}
use abmp.Page.Walk.{free_at, free_at-append}
use abmp.Page.Count.{
  AllValid, extent, Apart, Separate, span, free_total-append, free_total-span, upto, upto_move,
  upto_zero, upto_inside, block-shift,
}
use abmp.Page.Release.{Separate-sym}
use abmp.Page.Maps.{Fits, range-Fits}
use abmp.Page.Fill.{group_create-free}

pub empty_group-Valid : (b n : ℕ) → Valid (empty_group b n)
unfolding odd cover
empty_group-Valid b n = ((λ o i l c. cc), ((λ p. omega arith), (λ o q l. refl)))

block_longer :
    (m p c : ℕ) → block (128 * suc m) p c ≡ block (2 ^ 7) p c + block (128 * m) p (c + 128)
unfolding block
block_longer m p c = ground arith

block_zero : (p c : ℕ) → block (128 * 0) p c ≡ 0
unfolding block
block_zero p c = ground arith

block_before : (s p c : ℕ) → p < c → block s p c ≡ 0
unfolding block
block_before s p c h = ground arith

block_after : (s p c : ℕ) → c + s ≤ p → block s p c ≡ 0
unfolding block
block_after s p c h = ground arith

block_most : (s p c : ℕ) → block s p c ≤ 1
unfolding block
block_most s p c = ground arith

insert_largest :
    (c : ℕ) (g : Group)
    → Valid g
    → Placed g.npages 7 c
    → ((p : ℕ) → c ≤ p → cover g p ≡ 0)
    → Valid (insert 7 c g) × Moves (λ p. block (2 ^ 7) p c) no_pages g (insert 7 c g)
insert_largest c g v a z =
    let P : Group → Type 0 = λ g'. Valid g' × Moves (λ p. block (2 ^ 7) p c) no_pages g g' in
    let d : (p : ℕ) → cover g p + block (2 ^ 7) p c ≤ 1 = λ p. elim (Bool-cases (leb c p)) [
      | inl e ↦ omega (arith, z p (ground arith), block_most (2 ^ 7) p c)
      | inr e ↦ omega (arith, v.1.0 p, block_before (2 ^ 7) p c (ground arith))
    ] in
    subst P (flipped_top 7 c (insert 7 c g) refl) (insert-Valid 7 c g (omega arith) v a d)

put_largest-Valid :
    (m c e : ℕ) (g : Group)
    → e ≡ c + 128 * m
    → Valid g
    → e ≤ g.npages
    → c / 128 * 128 ≡ c
    → ((p : ℕ) → c ≤ p → cover g p ≡ 0)
    → Valid (put_largest m c e g)
      × Moves (λ p. block (128 * m) p c) no_pages g (put_largest m c e g)
unfolding put_largest
put_largest-Valid zero c e g h v l a z = (v, (refl, (refl, (λ p. omega (arith, block_zero p c)))))
put_largest-Valid (suc m) c e g h v l a z =
    let (v', (b, (n, k))) = insert_largest c g v (a, omega arith) z in
    let g' = insert 7 c g in
    let t : ltb c e ≡ true = ground arith in
    let (w, (b', (n', k'))) =
      put_largest-Valid m (c + 128) e g' (omega arith) v' (omega (arith, n)) (omega arith)
        (λ p q. omega (arith, k p, z p (omega arith), block_after (2 ^ 7) p c q)) in
    rw t (w, (b' ∙ b, (n' ∙ n, (λ p. omega (arith, k p, k' p, block_longer m p c)))))

low_bits : (n o : ℕ) → n % 128 ≡ 0 → o < 7 → ((n / 2 ^ o) % 2 == 1) ≡ false
low_bits n zero h l = ground arith
low_bits n (suc zero) h l = ground arith
low_bits n (suc (suc zero)) h l = ground arith
low_bits n (suc (suc (suc zero))) h l = ground arith
low_bits n (suc (suc (suc (suc zero)))) h l = ground arith
low_bits n (suc (suc (suc (suc (suc zero))))) h l = ground arith
low_bits n (suc (suc (suc (suc (suc (suc zero)))))) h l = ground arith
low_bits n (suc (suc (suc (suc (suc (suc (suc o))))))) h l = absurd (omega arith)

-- A number of pages that blocks of the order 7 fill.
put_rest_none :
    (k o n : ℕ) (g : Group) → g.npages % 128 ≡ 0 → k + o ≤ 7 → put_rest k o (n, g) ≡ (n, g)
unfolding put_rest
put_rest_none zero o n g h l = refl
put_rest_none (suc k) o n g h l =
    rw (low_bits g.npages o h (omega arith)) (put_rest_none k (suc o) n g h (omega arith))

cover_empty : (b n p : ℕ) → cover (empty_group b n) p ≡ 0
unfolding cover
cover_empty b n p = omega arith

pub group_create-Valid :
    (first n : ℕ)
    → n % 128 ≡ 0
    → Valid (group_create first n)
      × Moves (λ p. block n p 0) no_pages (empty_group first n) (group_create first n)
unfolding group_create
group_create-Valid first n h =
    let e : 128 * (n / 128) ≡ n = omega (arith, h) in
    let g = empty_group first n in
    let w =
      put_largest-Valid (n / 128) 0 n g (omega arith) (empty_group-Valid first n) (omega arith) refl
        (λ p _. cover_empty first n p) in
    rw (put_rest_none 7 0 n g h (omega arith)) (
      subst
        (λ z.
          Valid (put_largest (n / 128) 0 n g)
          × Moves (λ p. block z p 0) no_pages g (put_largest (n / 128) 0 n g))
        e w)

Apart-snoc :
    (gs : List Group) (g : Group)
    → Apart (map extent gs)
    → All (Separate (extent g)) (map extent gs)
    → Apart (map extent (gs ++ (g ∷ [])))
Apart-snoc [] g h k = (tt, tt)
Apart-snoc (x ∷ gs) g h k =
    let y =
      All-append (Separate (extent x)) (map extent gs) (extent g ∷ []) h.0
        (Separate-sym (extent g) (extent x) k.0, tt) in
    (
      subst (All (Separate (extent x))) (sym (map-append extent gs (g ∷ []))) y,
      Apart-snoc gs g h.1 k.1,
    )

span_snoc :
    (gs : List Group) (g : Group)
    → span (map extent (gs ++ (g ∷ []))) ≡ span (map extent gs) + g.npages
span_snoc [] g = omega arith
span_snoc (x ∷ gs) g = omega (arith, span_snoc gs g)

-- What is free in a new group.
group_create-cover : (first n : ℕ) (p : ℕ) → cover (group_create first n) p ≡ block n p 0
group_create-cover first n p =
    omega (arith, (group_create-free first n).1.1 p, cover_empty first n p)

group_create_count : (first n : ℕ) → 1 ≤ n → upto n (cover (group_create first n)) ≡ n
group_create_count first n l =
    let c =
      upto_move n no_pages (cover (group_create first n)) (λ p. block n p 0) no_pages
        (λ p. omega (arith, group_create-cover first n p)) in
    omega (arith, c, upto_zero n, upto_inside n n 0 l (omega arith))

-- `page_add_range` of a range of two pages at least, below 2 ^ 32, whose pages, less those of the bit
-- maps, are a multiple of 128, apart from the groups of a valid state, the pages of all together fewer
-- than 2 ^ 32: the state is valid, the bit maps have room behind the pages, exactly these pages
-- become free, and they are counted.
pub page_add_range-AllValid :
    (first last : ℕ) (s : Pages)
    → AllValid s
    → first + 2 ≤ last
    → last * 4096 < 4294967296
    → (group_end first last - first) % 128 ≡ 0
    → All (Separate (first, group_end first last - first)) (map extent s.groups)
    → span (map extent s.groups) + (group_end first last - first) < 4294967296
    → AllValid (page_add_range first last s)
      × (Fits first last
          × (((page_add_range first last s).freecount
                ≡ s.freecount + (group_end first last - first))
              × ((p : ℕ)
                  → free_at (page_add_range first last s).groups p
                    ≡ free_at s.groups p + block (group_end first last - first) p first)))
unfolding page_add_range
page_add_range-AllValid first last s v l₀ l₁ h a k =
    let fit = range-Fits first last l₀ l₁ in
    let l : first < group_end first last = fit.some_page in
    let n = group_end first last - first in
    let g = group_create first n in
    let (w, (b, (m, _))) = group_create-Valid first n h in
    let e : extent g ≡ (first, n) = rw (b, m) refl in
    let t : ltb first (group_end first last) ≡ true = ground arith in
    let c = group_create_count first n (omega arith) in
    let c' : upto g.npages (cover g) ≡ n = ap (λ z. upto z (cover g)) m ∙ c in
    let f = free_total-append s.groups (g ∷ []) in
    let u : u32 (s.freecount + n) ≡ s.freecount + n =
      omega (arith, k, free_total-span s.groups v.0, v.1.1.1) in
    rw t (
      (
        All-append Valid s.groups (g ∷ []) v.0 (w, tt),
        (
          Apart-snoc s.groups g v.1.0
              (subst (λ z. All (Separate z) (map extent s.groups)) (sym e) a),
          (omega (arith, span_snoc s.groups g, m, k), omega (arith, u, f, c', v.1.1.1)),
        ),
      ),
      (
        fit,
        (
          u,
          (λ p.
              let q = free_at-append s.groups (g ∷ []) p in
              let d = ap (λ z. if leb z p then cover g (p - z) else 0) b in
              let y = block-shift n first 0 p in
              let y' : block n p first ≡ block n p (first + 0) = ap (block n p) (omega arith) in
              ground (arith, q, d, y, y', group_create-cover first n (p - first))),
        ),
      ),
    )
