-- ===== src/Vmmap/Remove/Cut.antt =====
-- What unmapping a range leaves of each area, as a recursion over the list, and which areas hold
-- a page then.
use mathlib.Core.Option
use abmp.Common.{
  ℕ, ◌+◌, ◌-◌, ◌≤◌, ◌<◌, ◌≡◌, refl, ◌&&◌, Bool, false, true, Option, some, List, [], ◌∷◌, ◌++◌, map,
  arith, ltb, leb, u32, if◌then◌else◌, All, All-append,
}
use abmp.Vmmap.{Vmarea, vmmap_lookup, sub32}
use abmp.Vmmap.Hits.{holds, hits, hits-append, Proper, last_or}
use abmp.Vmmap.Remove.{case_of, split, shorten, advance, unlink, keep}

module _ (lo n : ℕ) where
  abbrev pub lower_piece : Vmarea → Vmarea
  lower_piece a = record a { end = lo }

  abbrev pub moved_piece : Vmarea → Vmarea
  moved_piece a = record a { off = sub32 (a.off + lo + n) a.start; start = u32 (lo + n) }

  abbrev pub upper_piece : Vmarea → Vmarea
  upper_piece a = record a { start = u32 (lo + n); off = u32 (a.off + n); mapped = true }

  unfoldable pub pieces : Vmarea → List Vmarea
  unfolding case_of
  pieces a = elim (case_of lo (lo + n) a) [
    | split ↦ lower_piece a ∷ upper_piece a ∷ []
    | shorten ↦ lower_piece a ∷ []
    | advance ↦ moved_piece a ∷ []
    | unlink ↦ []
    | keep ↦ a ∷ []
  ]

  unfoldable pub cut : List Vmarea → List Vmarea
  cut [] = []
  cut (a ∷ rest) = pieces a ++ cut rest

  abbrev pub in_range : ℕ → Bool
  in_range vfn = leb lo vfn && ltb vfn (lo + n)

module _ (lo n : ℕ) where
  -- The piece of `a` that holds `vfn`, a page outside the range.
  abbrev pub piece_at : ℕ → Vmarea → Vmarea
  piece_at vfn a =
      if ltb a.start lo && ltb (lo + n) a.end
      then if ltb vfn lo then lower_piece lo n a else upper_piece lo n a
      else if ltb a.start lo
      then if leb lo a.end then lower_piece lo n a else a
      else if ltb (lo + n) a.end && leb a.start (lo + n)
      then moved_piece lo n a
      else a

module _ (lo n vfn : ℕ) (small : lo + n < 4294967296) where
  pub hits-pieces_in : (a : Vmarea) → in_range lo n vfn ≡ true → hits (pieces lo n a) vfn ≡ []
  unfolding pieces
  hits-pieces_in a e = ground arith

  pub hits-pieces_out :
      (a : Vmarea)
      → in_range lo n vfn ≡ false
      → hits (pieces lo n a) vfn ≡ (if holds a vfn then piece_at lo n vfn a ∷ [] else [])
  unfolding pieces
  hits-pieces_out a e = ground arith

  pub hits-cut_in :
      (areas : List Vmarea) → in_range lo n vfn ≡ true → hits (cut lo n areas) vfn ≡ []
  unfolding cut
  hits-cut_in [] e = refl
  hits-cut_in (a ∷ rest) e =
      rw (hits-append (pieces lo n a) (cut lo n rest) vfn, hits-pieces_in a e, hits-cut_in rest e)

  pub hits-cut_out :
      (areas : List Vmarea)
      → in_range lo n vfn ≡ false
      → hits (cut lo n areas) vfn ≡ map (piece_at lo n vfn) (hits areas vfn)
  unfolding cut
  hits-cut_out [] e = refl
  hits-cut_out (a ∷ rest) e =
      rw (hits-append (pieces lo n a) (cut lo n rest) vfn, hits-pieces_out a e, hits-cut_out rest e)
        (ground arith)

module _ (lo n : ℕ) (small : lo + n < 4294967296) where
  pub Proper-pieces : (a : Vmarea) → Proper a → All Proper (pieces lo n a)
  unfolding pieces
  Proper-pieces a p = ground arith

  pub Proper-cut : (areas : List Vmarea) → All Proper areas → All Proper (cut lo n areas)
  unfolding cut
  Proper-cut [] p = tt
  Proper-cut (a ∷ rest) p =
      All-append Proper (pieces lo n a) (cut lo n rest) (Proper-pieces a p.0) (Proper-cut rest p.1)

  -- The upper part is not cut again.
  pub piece_at-upper :
      (vfn : ℕ) (a : Vmarea)
      → lo + n < a.end
      → piece_at lo n vfn (upper_piece lo n a) ≡ upper_piece lo n a
  piece_at-upper vfn a h = ground arith

-- What an area says of a page beside its place in the object: protection, flags and object.
abbrev pub Terms : Type 0
Terms = ℕ × ℕ × Option ℕ

abbrev pub terms : Vmarea → Terms
terms a = (a.prot, a.flags, a.obj)

abbrev pub terms_at : List Vmarea → ℕ → Option Terms
terms_at areas vfn = Option.map terms (vmmap_lookup areas vfn)

-- The page of its object that an area maps at `vfn`.
abbrev pub object_page : Vmarea → ℕ → ℕ
object_page a vfn = a.off + (vfn - a.start)

module _ (lo n vfn : ℕ) (small : lo + n < 4294967296) where
  pub last_or-piece_at :
      (found found' : Option Vmarea) (areas : List Vmarea)
      → Option.map terms found ≡ Option.map terms found'
      → Option.map terms (last_or found (map (piece_at lo n vfn) areas))
        ≡ Option.map terms (last_or found' areas)
  last_or-piece_at found found' [] e = e
  last_or-piece_at found found' (a ∷ rest) e =
      last_or-piece_at (some (piece_at lo n vfn a)) (some a) rest (ground arith)

  pub last_or-map :
      (found : Option Vmarea) (areas : List Vmarea)
      → last_or (Option.map (piece_at lo n vfn) found) (map (piece_at lo n vfn) areas)
        ≡ Option.map (piece_at lo n vfn) (last_or found areas)
  last_or-map found [] = refl
  last_or-map found (a ∷ rest) = last_or-map (some a) rest

  pub object_page-piece_at :
      (a : Vmarea)
      → in_range lo n vfn ≡ false
      → a.start ≤ vfn
      → vfn < a.end
      → a.off + a.end < 4294967296
      → object_page (piece_at lo n vfn a) vfn
          + (if ltb a.start lo && leb (lo + n) vfn then lo - a.start else 0)
        ≡ object_page a vfn
  object_page-piece_at a out h k fits = ground arith
