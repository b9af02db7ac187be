-- ===== src/Vmmap/Remove/Left.antt =====
-- What `vmmap_remove` (kernel/vm/vmmap.c) leaves of a valid map.
use abmp.Common.{
  ℕ, ◌+◌, ◌≤◌, ◌<◌, ◌≡◌, refl, ◌∙◌, false, true, List, [], ◌∷◌, ◌++◌, map, arith, ltb, All,
  All-append, length, append-nil, append_assoc, inl, inr, Bool-cases, length-append,
}
use abmp.Vmmap.{Vmarea}
use abmp.Vmmap.Hits.{
  holds, hits, hits-append, Proper, Inserted-All, Inserted-hits_in, Inserted-hits_out,
}
use abmp.Vmmap.Remove.{case_of, split}
use abmp.Vmmap.Remove.Cut.{
  pieces, cut, lower_piece, upper_piece, in_range, piece_at, hits-pieces_in, hits-pieces_out,
  hits-cut_in, hits-cut_out, Proper-pieces, Proper-cut, piece_at-upper,
}
use abmp.Vmmap.Remove.Loop.{Behind, split_bounds}

-- Lists of which one alone may hold something, and not more than once.
one_hit {ℓ} :
    {A : Type ℓ} (xs : List A) (a : A) (ys : List A)
    → length (xs ++ (a ∷ ys)) ≤ 1
    → (xs ≡ []) × (ys ≡ [])
one_hit [] a [] h = (refl, refl)
one_hit [] a (y ∷ ys) h = absurd (omega arith)
one_hit (x ∷ xs) a ys h = absurd (omega (arith, length-append xs (a ∷ ys)))

module _ (lo n : ℕ) (small : lo + n < 4294967296) where
  -- What the loop leaves, from a state of it.
  pub record Leaves (seen rest t : List Vmarea) : Type 0 where
    pub proper : All Proper seen → All Proper rest → All Proper t
    pub inside : (vfn : ℕ) → in_range lo n vfn ≡ true → hits seen vfn ≡ [] → hits t vfn ≡ []
    pub outside :
        (vfn : ℕ)
        → in_range lo n vfn ≡ false
        → length (hits seen vfn ++ hits rest vfn) ≤ 1
        → hits t vfn ≡ hits seen vfn ++ map (piece_at lo n vfn) (hits rest vfn)

  pub cut-Leaves : (seen rest : List Vmarea) → Leaves seen rest (seen ++ cut lo n rest)
  cut-Leaves seen rest = record {
    proper = λ p q. All-append Proper seen (cut lo n rest) p (Proper-cut lo n small rest q);
    inside =
        λ vfn e h. rw (hits-append seen (cut lo n rest) vfn, h, hits-cut_in lo n vfn small rest e);
    outside =
        λ vfn e h. rw (hits-append seen (cut lo n rest) vfn, hits-cut_out lo n vfn small rest e);
  }

  outside_step :
      (seen : List Vmarea) (a : Vmarea) (rest t : List Vmarea)
      → Leaves (seen ++ pieces lo n a) rest t
      → (vfn : ℕ) → in_range lo n vfn ≡ false
      → length (hits seen vfn ++ hits (a ∷ rest) vfn) ≤ 1
      → hits t vfn ≡ hits seen vfn ++ map (piece_at lo n vfn) (hits (a ∷ rest) vfn)
  outside_step seen a rest t l vfn e h =
      let one = hits-append seen (pieces lo n a) vfn in
      let two = hits-pieces_out lo n vfn small a e in
      elim (Bool-cases (holds a vfn)) [
        | inl held ↦
            let p : Vmarea = piece_at lo n vfn a in
            let three : hits (seen ++ pieces lo n a) vfn ≡ hits seen vfn ++ (p ∷ []) =
              rw (one, two, held) in
            rw held (
              l.outside vfn e (
                rw three (
                  omega (
                    arith,
                    rw held at h,
                    length-append (hits seen vfn) (a ∷ hits rest vfn),
                    length-append (hits seen vfn) (p ∷ []),
                    length-append (hits seen vfn ++ (p ∷ [])) (hits rest vfn),
                  )))
              ∙ rw three
                  (append_assoc (hits seen vfn) (p ∷ []) (map (piece_at lo n vfn) (hits rest vfn))))
        | inr free ↦
            let three : hits (seen ++ pieces lo n a) vfn ≡ hits seen vfn =
              rw (one, two, free) (append-nil (hits seen vfn)) in
            rw free (l.outside vfn e (rw three (rw free at h)) ∙ rw three)
      ]

  pub step-Leaves :
      (seen : List Vmarea) (a : Vmarea) (rest t : List Vmarea)
      → Leaves (seen ++ pieces lo n a) rest t
      → Leaves seen (a ∷ rest) t
  step-Leaves seen a rest t l = record {
    proper = λ p q. l.proper (All-append Proper seen _ p (Proper-pieces lo n small a q.0)) q.1;
    inside = λ vfn e h.
        l.inside vfn e
          (rw (hits-append seen (pieces lo n a) vfn, h, hits-pieces_in lo n vfn small a e));
    outside = outside_step seen a rest t l;
  }

  Behind-hits_out :
      (new : Vmarea) (seen rest seen' rest' : List Vmarea) (vfn : ℕ)
      → Behind new seen rest (seen', rest')
      → holds new vfn ≡ false
      → (hits seen' vfn ≡ hits seen vfn) × (hits rest' vfn ≡ hits rest vfn)
  Behind-hits_out new seen rest seen' rest' vfn (inl (i, e)) free =
      (Inserted-hits_out i vfn free, rw e)
  Behind-hits_out new seen rest seen' rest' vfn (inr (e, i)) free =
      (rw e, Inserted-hits_out i vfn free)

  Behind-hits_in :
      (new : Vmarea) (seen rest seen' rest' : List Vmarea) (vfn : ℕ)
      → Behind new seen rest (seen', rest')
      → holds new vfn ≡ true
      → hits seen vfn ≡ []
      → hits rest vfn ≡ []
      → piece_at lo n vfn new ≡ new
      → hits seen' vfn ++ map (piece_at lo n vfn) (hits rest' vfn) ≡ new ∷ []
  Behind-hits_in new seen rest seen' rest' vfn (inl (i, e)) held s r fixed =
      rw (Inserted-hits_in i vfn held s, e, r)
  Behind-hits_in new seen rest seen' rest' vfn (inr (e, i)) held s r fixed =
      rw (Inserted-hits_in i vfn held r, e, s, fixed)

  pub Behind-rest {ℓ} :
      (P : Vmarea → Type ℓ) (new : Vmarea) (seen rest seen' rest' : List Vmarea)
      → Behind new seen rest (seen', rest')
      → P new
      → All P rest
      → All P rest'
  Behind-rest P new seen rest seen' rest' (inl (i, e)) p r = rw e r
  Behind-rest P new seen rest seen' rest' (inr (e, i)) p r = Inserted-All i P p r

  Behind-All {ℓ} :
      (P : Vmarea → Type ℓ) (new : Vmarea) (seen rest seen' rest' : List Vmarea)
      → Behind new seen rest (seen', rest')
      → P new
      → All P seen
      → All P rest
      → All P seen' × All P rest'
  Behind-All P new seen rest seen' rest' (inl (i, e)) p s r = (Inserted-All i P p s, rw e r)
  Behind-All P new seen rest seen' rest' (inr (e, i)) p s r = (rw e s, Inserted-All i P p r)

  module _ (seen : List Vmarea) (a : Vmarea) (rest seen' rest' : List Vmarea)
      (e : case_of lo (lo + n) a ≡ split)
      (b : Behind
        (upper_piece lo n a)
        (seen ++ (lower_piece lo n a ∷ []))
        rest
        (seen', rest')) where
    split_outside :
        (vfn : ℕ)
        → in_range lo n vfn ≡ false
        → length (hits seen vfn ++ hits (a ∷ rest) vfn) ≤ 1
        → hits seen' vfn ++ map (piece_at lo n vfn) (hits rest' vfn)
          ≡ hits seen vfn ++ map (piece_at lo n vfn) (hits (a ∷ rest) vfn)
    split_outside vfn out h =
        let lower : Vmarea = lower_piece lo n a in
        let upper : Vmarea = upper_piece lo n a in
        let (below, above) = split_bounds lo n small a e in
        let parts = hits-append seen (lower ∷ []) vfn in
        let moved = Behind-hits_out upper (seen ++ (lower ∷ [])) rest seen' rest' vfn b in
        elim (Bool-cases (holds a vfn)) [
          | inl held ↦
              let (hs, hr) = one_hit (hits seen vfn) a (hits rest vfn) (rw held at h) in
              elim (Bool-cases (ltb vfn lo)) [
                | inl early ↦
                    let (p, q) = moved (ground arith) in
                    rw (held, p, q, parts, hs, hr) (ground arith)
                | inr late ↦
                    let lower_free : hits (seen ++ (lower ∷ [])) vfn ≡ [] =
                      rw (parts, hs) (ground arith) in
                    rw (held, hs, hr)
                      (Behind-hits_in upper (seen ++ (lower ∷ [])) rest seen' rest' vfn b
                          (ground arith) lower_free hr (piece_at-upper lo n small vfn a above)
                        ∙ ground arith)
              ]
          | inr free ↦
              let (p, q) = moved (ground arith) in
              let lower_free : holds lower vfn ≡ false = ground arith in
              rw (free, p, q, parts, lower_free, append-nil (hits seen vfn))
        ]

    split_inside : (vfn : ℕ) → in_range lo n vfn ≡ true → hits seen vfn ≡ [] → hits seen' vfn ≡ []
    split_inside vfn ins h =
        let (p, q) =
          Behind-hits_out (upper_piece lo n a) (seen ++ (lower_piece lo n a ∷ [])) rest seen' rest'
            vfn b (ground arith) in
        rw (p, hits-append seen (lower_piece lo n a ∷ []) vfn, h) (ground arith)

    split-Proper :
        All Proper seen → Proper a → All Proper rest → All Proper seen' × All Proper rest'
    split-Proper s p r =
        let (below, above) = split_bounds lo n small a e in
        Behind-All Proper (upper_piece lo n a) (seen ++ (lower_piece lo n a ∷ [])) rest seen' rest'
          b (omega arith, omega arith, omega arith)
          (All-append Proper seen _ s ((omega arith, omega arith, omega arith), tt)) r

    pub split-Leaves : Leaves seen (a ∷ rest) (seen' ++ cut lo n rest')
    split-Leaves =
        let l = cut-Leaves seen' rest' in
        record {
          proper = λ p q. let (p', q') = split-Proper p q.0 q.1 in l.proper p' q';
          inside = λ vfn ins h. l.inside vfn ins (split_inside vfn ins h);
          outside = λ vfn out h.
              rw (hits-append seen' (cut lo n rest') vfn, hits-cut_out lo n vfn small rest' out)
                (split_outside vfn out h);
        }
