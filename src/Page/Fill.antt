-- ===== src/Page/Fill.antt =====
-- kernel/mm/page.c, `_pagegroup_create`: every page of a new group is free.
use abmp.Common.{
  ℕ, zero, suc, ◌+◌, ◌-◌, ◌*◌, ◌/◌, ◌%◌, ◌^◌, ◌≤◌, ◌<◌, ◌≡◌, refl, ap, sym, subst, inl, inr, true,
  false, leb, ltb, [], ◌∷◌, if◌then◌else◌, ◌==◌, Bool-cases, arith, ◌∙◌,
}
use abmp.Page.{Pages}
use abmp.Page.Buddy.{Group, insert}
use abmp.Page.Create.{empty_group, put_rest, put_largest, group_create, group_end, page_add_range}
use abmp.Page.Sums.{block, cover}
use abmp.Page.Walk.{free_at, free_at-append}
use abmp.Page.Count.{block-shift}
use abmp.Page.Maps.{Fits, range-Fits}
use abmp.Page.Steps.{Moves, no_pages, set_free-Moves}

insert-Moves :
    (o i : ℕ) (g : Group) → o < 8 → Moves (λ p. block (2 ^ o) p i) no_pages g (insert o i g)
unfolding insert
insert-Moves o i g l =
    set_free-Moves o (i ∷ g.free o) g (λ p. block (2 ^ o) p i) no_pages l (λ p. omega arith)

-- The bit of a number at `o`.
bit_lem :
    (n o : ℕ)
    → o < 7
    → n % 2 ^ suc o ≡ (if (n / 2 ^ o) % 2 == 1 then n % 2 ^ o + 2 ^ o else n % 2 ^ o)
bit_lem n zero l = ground arith
bit_lem n (suc zero) l = ground arith
bit_lem n (suc (suc zero)) l = ground arith
bit_lem n (suc (suc (suc zero))) l = ground arith
bit_lem n (suc (suc (suc (suc zero)))) l = ground arith
bit_lem n (suc (suc (suc (suc (suc zero))))) l = ground arith
bit_lem n (suc (suc (suc (suc (suc (suc zero)))))) l = ground arith
bit_lem n (suc (suc (suc (suc (suc (suc (suc o))))))) l = absurd (omega arith)

-- What a block below the pages that are free adds.
block_below : (s t e p : ℕ) → t ≤ e → block s p e + block t p (e - t) ≡ block (s + t) p (e - t)
unfolding block
block_below s t e p h = ground (arith, h)

block_above : (s t c p : ℕ) → block s p c + block t p (c + s) ≡ block (s + t) p c
unfolding block
block_above s t c p = ground arith

-- The pages from `e` on are free, and no others.
record Filled (base n m : ℕ) (r : ℕ × Group) : Type 0 where
  based : r.1.base ≡ base
  sized : r.1.npages ≡ n
  rest : r.0 + m ≡ n
  filled : (p : ℕ) → cover r.1 p ≡ block m p r.0

insert-Filled :
    (o base n : ℕ) (r : ℕ × Group)
    → o < 7
    → Filled base n (n % 2 ^ o) r
    → 2 ^ o ≤ r.0
    → Filled base n (n % 2 ^ o + 2 ^ o) (r.0 - 2 ^ o, insert o (r.0 - 2 ^ o) r.1)
insert-Filled o base n r h f l =
    let (b, (m, w)) = insert-Moves o (r.0 - 2 ^ o) r.1 (omega (arith, h)) in
    record {
      based = b ∙ f.based;
      sized = m ∙ f.sized;
      rest = omega (arith, f.rest, l);
      filled = λ p. omega (arith, w p, f.filled p, block_below (n % 2 ^ o) (2 ^ o) r.0 p l);
    }

bit_room : (n o : ℕ) → o < 7 → ((n / 2 ^ o) % 2 == 1) ≡ true → n % 2 ^ o + 2 ^ o ≤ n
bit_room n zero l h = ground (arith, h)
bit_room n (suc zero) l h = ground (arith, h)
bit_room n (suc (suc zero)) l h = ground (arith, h)
bit_room n (suc (suc (suc zero))) l h = ground (arith, h)
bit_room n (suc (suc (suc (suc zero)))) l h = ground (arith, h)
bit_room n (suc (suc (suc (suc (suc zero))))) l h = ground (arith, h)
bit_room n (suc (suc (suc (suc (suc (suc zero)))))) l h = ground (arith, h)
bit_room n (suc (suc (suc (suc (suc (suc (suc o))))))) l h = absurd (omega arith)

put_rest-Filled :
    (k o base n : ℕ) (r : ℕ × Group)
    → k + o ≡ 7
    → Filled base n (n % 2 ^ o) r
    → Filled base n (n % 128) (put_rest k o r)
unfolding put_rest
put_rest-Filled zero o base n r h f =
    let e : o ≡ 7 = omega (arith, h) in subst (λ z. Filled base n (n % 2 ^ z) r) e f
put_rest-Filled (suc k) o base n r h f =
    let b = bit_lem n o (omega (arith, h)) in
    elim (Bool-cases ((n / 2 ^ o) % 2 == 1)) [
      | inl e ↦
          let e' : ((r.1.npages / 2 ^ o) % 2 == 1) ≡ true = rw f.sized e in
          let c : n % 2 ^ suc o ≡ n % 2 ^ o + 2 ^ o = rw b (rw e refl) in
          let f' =
            insert-Filled o base n r (omega (arith, h)) f
              (omega (arith, f.rest, bit_room n o (omega (arith, h)) e)) in
          rw e' (
            put_rest-Filled k (suc o) base n (r.0 - 2 ^ o, insert o (r.0 - 2 ^ o) r.1)
              (omega (arith, h))
              (subst (λ z. Filled base n z (r.0 - 2 ^ o, insert o (r.0 - 2 ^ o) r.1)) (sym c) f'))
      | inr e ↦
          let e' : ((r.1.npages / 2 ^ o) % 2 == 1) ≡ false = rw f.sized e in
          let c : n % 2 ^ o ≡ n % 2 ^ suc o = sym (b ∙ rw e refl) in
          rw e' (
            put_rest-Filled k (suc o) base n r (omega (arith, h))
              (subst (λ z. Filled base n z r) c f))
    ]

block_none : (p c : ℕ) → block (128 * 0) p c ≡ 0
unfolding block
block_none p c = ground arith

block_longer : (m p c : ℕ) → block 128 p c + block (128 * m) p (c + 128) ≡ block (128 * suc m) p c
unfolding block
block_longer m p c = ground arith

put_largest-Moves :
    (m c e : ℕ) (g : Group)
    → e ≡ c + 128 * m
    → Moves (λ p. block (128 * m) p c) no_pages g (put_largest m c e g)
unfolding put_largest
put_largest-Moves zero c e g h = (refl, (refl, (λ p. omega (arith, block_none p c))))
put_largest-Moves (suc m) c e g h =
    let (b, (n, k)) = insert-Moves 7 c g (omega arith) in
    let (b', (n', k')) = put_largest-Moves m (c + 128) e (insert 7 c g) (omega (arith, h)) in
    let t : ltb c e ≡ true = ground (arith, h) in
    rw t (b' ∙ b, (n' ∙ n, (λ p. omega (arith, k p, k' p, block_longer m p c))))

none_free : (p c : ℕ) → 0 ≡ block (c % 2 ^ 0) p c
unfolding block
none_free p c = ground arith

whole :
    (e n p : ℕ) → e + n % 128 ≡ n → block (128 * (e / 128)) p 0 + block (n % 128) p e ≡ block n p 0
unfolding block
whole e n p h = ground (arith, h)

cover_empty : (b n p : ℕ) → cover (empty_group b n) p ≡ 0
unfolding cover
cover_empty b n p = omega arith

-- The group of `n` pages: it has that base and number, and each of its pages is free once.
pub group_create-free :
    (first n : ℕ) → Moves (λ p. block n p 0) no_pages (empty_group first n) (group_create first n)
unfolding group_create cover
group_create-free first n =
    let z : Filled first n (n % 2 ^ 0) (n, empty_group first n) = record {
      based = refl;
      sized = refl;
      rest = omega arith;
      filled = λ p. none_free p n;
    } in
    let f = put_rest-Filled 7 0 first n (n, empty_group first n) refl z in
    let r = put_rest 7 0 (n, empty_group first n) in
    let (b, (m, k)) = put_largest-Moves (r.0 / 128) 0 r.0 r.1 (omega (arith, f.rest)) in
    (b ∙ f.based, (m ∙ f.sized, (λ p. omega (arith, k p, f.filled p, whole r.0 n p f.rest))))

-- `page_add_range` of two pages at least, below 2 ^ 32: the group is the last one, it begins at the
-- range's first page and ends before its last, with room for its record and the bit maps behind it,
-- exactly its pages become free, each once, and they are counted.
pub page_add_range-Added :
    (first last : ℕ) (s : Pages)
    → first + 2 ≤ last
    → last * 4096 < 4294967296
    → Fits first last
      × (((page_add_range first last s).freecount
            ≡ (s.freecount + (group_end first last - first)) % 4294967296)
          × ((p : ℕ)
              → free_at (page_add_range first last s).groups p
                ≡ free_at s.groups p + block (group_end first last - first) p first))
unfolding page_add_range
page_add_range-Added first last s h l =
    let w = range-Fits first last h l in
    let n = group_end first last - first in
    let g = group_create first n in
    let (b, (m, k)) = group_create-free first n in
    let t : ltb first (group_end first last) ≡ true = ground (arith, w.some_page) in
    rw t (
      w,
      (
        refl,
        (λ p.
            let q = free_at-append s.groups (g ∷ []) p in
            let d = ap (λ z. if leb z p then cover g (p - z) else 0) b in
            let y = block-shift n first 0 p in
            let y' : block n p first ≡ block n p (first + 0) = ap (block n p) (omega arith) in
            ground (arith, q, d, y, y', k (p - first), cover_empty first n (p - first))),
      ),
    )
