-- ===== src/Page/Maps.antt =====
-- kernel/mm/page.c, `_pagegroup_create`: the room that the bit maps take at the end of a range.
use abmp.Common.{ℕ, zero, suc, ◌+◌, ◌-◌, ◌*◌, ◌/◌, ◌^◌, ◌≤◌, ◌<◌, ◌≡◌, refl, arith, u32}
use abmp.Page.Create.{minus, map_bytes, below_maps, group_end}

minus_lem : (a b : ℕ) → b ≤ a → a < 4294967296 → minus a b ≡ a - b
minus_lem a b h l = ground (arith, h, l)

-- Bytes enough for a bit each of `c` blocks, and fewer than one more.
abbrev bytes_for : ℕ → ℕ
bytes_for c = u32 (minus c 1 / 8 * 8 + 8) / 8

bytes_for-enough : (c : ℕ) → c < 4294967280 → c ≤ 8 * bytes_for c
bytes_for-enough c h = ground (arith, h)

bytes_for-least : (c : ℕ) → c < 4294967280 → 8 * bytes_for c ≤ c + 7
bytes_for-least c h = ground (arith, h)

map_bytes_lem : (o n : ℕ) → map_bytes o n ≡ bytes_for (n / 2 ^ o)
unfolding map_bytes
map_bytes_lem o n = refl

-- All bytes of `k` orders from `o` up.
abbrev maps : ℕ → ℕ → ℕ → ℕ
maps zero o n = 0
maps (suc k) o n = map_bytes o n + maps k (suc o) n

below_maps_lem :
    (k o n e : ℕ) → maps k o n ≤ e → e < 4294967296 → below_maps k o n e + maps k o n ≡ e
unfolding below_maps
below_maps_lem zero o n e h l = omega arith
below_maps_lem (suc k) o n e h l =
    let m = minus_lem e (map_bytes o n) (omega (arith, h)) l in
    let r = below_maps_lem k (suc o) n (e - map_bytes o n) (omega (arith, h)) (omega (arith, l)) in
    rw m (omega (arith, r, h))

-- The record of a group, of 112 bytes, and for each order from 1 to 7 a bit for each block of the
-- range, are between the end of the group and the end of the range.
pub record Fits (first last : ℕ) : Type 0 where
  pub bytes : ℕ → ℕ
  pub wide : (o : ℕ) → o < 8 → (last - first) / 2 ^ o ≤ 8 * bytes o
  pub room :
      group_end first last * 4096
        + (112 + (bytes 1 + (bytes 2 + (bytes 3 + (bytes 4 + (bytes 5 + (bytes 6 + bytes 7)))))))
      ≤ last * 4096
  pub some_page : first < group_end first last
  pub below : group_end first last ≤ last

maps_most : (n : ℕ) → n < 1048576 → 8 * maps 7 1 n ≤ n + 49
maps_most n h =
    let a₁ = bytes_for-least (n / 2 ^ 1) (omega (arith, h)) in
    let a₂ = bytes_for-least (n / 2 ^ 2) (omega (arith, h)) in
    let a₃ = bytes_for-least (n / 2 ^ 3) (omega (arith, h)) in
    let a₄ = bytes_for-least (n / 2 ^ 4) (omega (arith, h)) in
    let a₅ = bytes_for-least (n / 2 ^ 5) (omega (arith, h)) in
    let a₆ = bytes_for-least (n / 2 ^ 6) (omega (arith, h)) in
    let a₇ = bytes_for-least (n / 2 ^ 7) (omega (arith, h)) in
    omega (
      arith,
      map_bytes_lem 1 n,
      map_bytes_lem 2 n,
      map_bytes_lem 3 n,
      map_bytes_lem 4 n,
      map_bytes_lem 5 n,
      map_bytes_lem 6 n,
      map_bytes_lem 7 n,
    )

quotient_most : (n o : ℕ) → o < 8 → n / 2 ^ o ≤ n
quotient_most n zero h = omega arith
quotient_most n (suc zero) h = omega arith
quotient_most n (suc (suc zero)) h = omega arith
quotient_most n (suc (suc (suc zero))) h = omega arith
quotient_most n (suc (suc (suc (suc zero)))) h = omega arith
quotient_most n (suc (suc (suc (suc (suc zero))))) h = omega arith
quotient_most n (suc (suc (suc (suc (suc (suc zero)))))) h = omega arith
quotient_most n (suc (suc (suc (suc (suc (suc (suc zero))))))) h = omega arith
quotient_most n (suc (suc (suc (suc (suc (suc (suc (suc o)))))))) h = absurd (omega arith)

-- A range of two pages at least, below 2 ^ 32.
pub range-Fits : (first last : ℕ) → first + 2 ≤ last → last * 4096 < 4294967296 → Fits first last
unfolding group_end
range-Fits first last h l =
    let n = last - first in
    let e = minus (last * 4096) 112 in
    let p : e ≡ last * 4096 - 112 = minus_lem (last * 4096) 112 (omega (arith, h)) l in
    let q : minus (last * 4096) (first * 4096) / 4096 ≡ n =
      omega (arith, minus_lem (last * 4096) (first * 4096) (omega (arith, h)) l) in
    let m = maps_most n (omega (arith, l)) in
    let b = below_maps_lem 7 1 n e (omega (arith, p, m, h)) (omega (arith, p, l)) in
    let g : group_end first last ≡ below_maps 7 1 n e / 4096 = rw q refl in
    record {
      bytes = λ o. map_bytes o n;
      wide = λ o k.
          rw (map_bytes_lem o n)
            (bytes_for-enough (n / 2 ^ o) (omega (arith, quotient_most n o k, l)));
      room = omega (arith, g, b, p, h);
      some_page = omega (arith, g, b, p, m, h);
      below = omega (arith, g, b, p, h);
    }
