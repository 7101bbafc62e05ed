-- ===== src/TimeEvent/Heap/Removal.antt =====
-- Deletion from the heap: the invariant, the blocks that are left, and the earliest event first.
use toppers_hrp3_gr_rose.Common.{
  ℕ, ◌+◌, ◌-◌, ◌≤◌, ◌<◌, ◌≡◌, refl, sym, subst, ◌≢◌, ◌↔◌, inl, inr, true, false, ◌&&◌, arith,
  Bool-cases, leb, ltb, if◌then◌else◌, ◌==◌,
}
use toppers_hrp3_gr_rose.TimeEvent.Heap.{
  Store, evttim_advance, evttim_lt, evttim_at, move_node, parent, tmevt_up, tmevt_down,
  tmevtb_delete, tmevtb_delete_top, place_last,
}
use toppers_hrp3_gr_rose.TimeEvent.Heap.Order.{IsHeap, IsHole, Sifted, Registered, move_node-Sifted}
use toppers_hrp3_gr_rose.TimeEvent.Heap.Sift.{
  Ready, Ready-move, rise-IsHole, rise-Below, tmevt_up-Ready, tmevt_down-Ready, tmevt_down_leaf,
}
use toppers_hrp3_gr_rose.TimeEvent.Heap.Laws.{fill-IsHeap, fill-Registered, root_least}

abbrev pub cut : Store → Store
cut s = record s { p_last = s.p_last - 1 }

module _ (boundary : ℕ) where
  -- What deletion does to the heap.
  pub record Deleted (x : ℕ) (s s' : Store) : Type 0 where
    pub heap : IsHeap boundary s'
    pub size : s'.p_last + 1 ≡ s.p_last
    pub times : s'.evttim ≡ s.evttim
    pub members : (y : ℕ) → Registered s' y ↔ (Registered s y × (y ≢ x))

  module _ (s : Store) (x : ℕ) (v : IsHeap boundary s) (in_heap : Registered s x) where
    cut-IsHole : IsHole boundary (cut s) (s.p_tmevtn x)
    cut-IsHole = record {
      edges = λ c p q w u. v.order c p (omega arith);
      bridge = λ c p q w. ground (arith, v.order c, v.order (parent c));
      placed = λ i p q w. v.placed i p (omega arith);
    }

    -- The last block, at the time that the search was for, fills the hole that was found.
    fill-Deleted :
        (s' : Store) (n : ℕ)
        → s.p_tmevtn x < s.p_last
        → Ready boundary (cut s) (s.p_tmevtn x) (evttim_at s s.p_last) s' n
        → Deleted x s (place_last (s', n))
    unfolding place_last move_node
    fill-Deleted s' n early r =
        let e : ℕ = s.p_tmevtb s.p_last in
        let last : s'.p_last + 1 ≡ s.p_last = ground (arith, r.sifted.same_last) in
        let e_same : s'.p_tmevtb (s'.p_last + 1) ≡ e =
          rw last (r.sifted.outside s.p_last (omega arith)) in
        let e_at : s.p_tmevtn e ≡ s.p_last = v.placed s.p_last (omega arith) (omega arith) in
        let time : s'.evttim e ≡ evttim_at s s.p_last = ground (arith, r.sifted.same_time) in
        let fresh : (i : ℕ) → 1 ≤ i → i ≤ s'.p_last → i ≢ n → s'.p_tmevtb i ≢ e = λ i p q w eq.
          let at : s'.p_tmevtn e ≡ i = ground (arith, r.hole.placed i p q w) in
          let old = r.sifted.only e (ground arith, (omega arith, omega arith, ground arith)) in
          omega arith in
        let fits : n ≤ s'.p_last = r.sifted.fits s'.p_last (omega arith) (omega arith) in
        rw e_same (record {
          heap =
              fill-IsHeap boundary s' n e r.sifted.inside fresh r.hole
                (λ c p q w. rw time (r.below c p q w)) (λ p. rw time (r.above p));
          size = last;
          times = r.sifted.same_time;
          members = λ y. (
            λ p. elim ((fill-Registered s' n e y r.sifted.inside fits).0 p) [
              | inl eq ↦ (ground arith, λ eq'. ground arith)
              | inr q ↦
                  let old = r.sifted.only y q in
                  ((old.1.0, omega arith, old.1.2), λ eq'. ground arith)
            ],
            λ p. (fill-Registered s' n e y r.sifted.inside fits).1 (elim (Bool-cases (y == e)) [
              | inl eq ↦ inl (ground arith)
              | inr ne ↦ inr (r.sifted.kept y (λ at. ground arith, (p.0.0, ground arith, p.0.2)))
            ]),
          );
        })

    -- The search of tmevtb_delete ends at a place for the last block.
    search : Store × ℕ
    search =
        let p_tmevtn = s.p_tmevtn x in
        let up =
          tmevt_up boundary (parent p_tmevtn) (evttim_at s s.p_last)
            (move_node (parent p_tmevtn) p_tmevtn (cut s)) in
        let down = tmevt_down boundary p_tmevtn (evttim_at s s.p_last) (cut s) in
        if ltb 1 p_tmevtn
          && evttim_lt boundary (evttim_at s s.p_last) (evttim_at s (parent p_tmevtn))
        then up
        else down

    search-Ready :
        s.p_tmevtn x < s.p_last
        → Ready boundary (cut s) (s.p_tmevtn x) (evttim_at s s.p_last) search.0 search.1
    unfolding search
    search-Ready early =
        let n = s.p_tmevtn x in
        let t = evttim_at s s.p_last in
        elim (Bool-cases (ltb 1 n && evttim_lt boundary t (evttim_at s (parent n)))) [
          | inl climb ↦
              let inner : 1 < n = ground arith in
              let moved : Sifted (cut s) n (move_node (parent n) n (cut s)) (parent n) =
                move_node-Sifted (cut s) (parent n) n (omega arith) (omega arith) (omega arith)
                  (omega arith) (omega arith) (v.placed (parent n) (omega arith) (omega arith)) in
              rw climb (
                Ready-move boundary (cut s) (parent n) n t _ _ moved (
                  tmevt_up-Ready boundary (parent n) t (move_node (parent n) n (cut s))
                    (omega arith) (unfold move_node in omega arith)
                    (rise-IsHole boundary (cut s) n inner (omega arith) cut-IsHole)
                    (rise-Below boundary (cut s) n t inner (omega arith) cut-IsHole
                      (unfold evttim_lt in ground arith))))
          | inr sink ↦ rw sink (
              tmevt_down-Ready boundary n t (cut s) in_heap.0 cut-IsHole
                (λ p. unfold evttim_lt in ground arith))
        ]

    -- The last block itself is taken off: its node is found again.
    search_last : 1 < s.p_last → s.p_tmevtn x ≡ s.p_last → search ≡ (cut s, s.p_last)
    unfolding search evttim_lt
    search_last more last =
        let n = s.p_tmevtn x in
        let t = evttim_at s s.p_last in
        let stay : (ltb 1 n && evttim_lt boundary t (evttim_at s (parent n))) ≡ false =
          ground (arith, v.order s.p_last more) in
        rw stay (rw last (tmevt_down_leaf boundary s.p_last t (cut s) (omega arith) (omega arith)))

    cut-Deleted : s.p_last ≡ 1 → Deleted x s (cut s)
    cut-Deleted one = record {
      heap = record {
        order = λ c p q. absurd (omega arith);
        placed = λ i p q. absurd (omega arith);
      };
      size = omega arith;
      times = refl;
      members = λ y. (
        λ p. absurd (omega arith),
        λ p. absurd (p.1 (let here : s.p_tmevtn y ≡ s.p_tmevtn x = omega arith in ground arith)),
      );
    }

    stay-Deleted :
        1 < s.p_last → s.p_tmevtn x ≡ s.p_last → Deleted x s (place_last (cut s, s.p_last))
    unfolding place_last move_node
    stay-Deleted more last =
        let whole : s.p_last - 1 + 1 ≡ s.p_last = omega arith in
        let same : s.p_tmevtb s.p_last ≡ x = ground arith in
        rw (whole, same)
          (record {
            heap = record {
              order = λ c p q. ground (arith, v.order c p);
              placed = λ i p q. ground (arith, v.placed i p);
            };
            size = whole;
            times = refl;
            members = λ y. elim (Bool-cases (x == y)) [
              | inl e ↦ (λ p. absurd (ground arith), λ p. absurd (ground arith))
              | inr ne ↦ (
                λ p. ((ground arith, ground arith, ground arith), λ e. ground arith),
                λ p. (ground arith, ground arith, ground arith),
              )
            ];
          })

  -- Deletion of a block that is in a heap keeps the heap in order, makes it smaller by one, keeps
  -- the times, and leaves in it the blocks that were in it but that one.
  pub tmevtb_delete_correct :
      (s : Store) (x : ℕ)
      → IsHeap boundary s
      → Registered s x
      → Deleted x s (tmevtb_delete boundary x s)
  unfolding tmevtb_delete search
  tmevtb_delete_correct s x v in_heap = elim (Bool-cases (ltb (s.p_last - 1) 1)) [
    | inl single ↦ rw single (cut-Deleted s x v in_heap (ground arith))
    | inr more ↦ elim (Bool-cases (ltb (s.p_tmevtn x) s.p_last)) [
      | inl early ↦
          let lt : s.p_tmevtn x < s.p_last = ground arith in
          rw more (fill-Deleted s x v in_heap _ _ lt (search-Ready s x v in_heap lt))
      | inr late ↦
          let at : s.p_tmevtn x ≡ s.p_last = ground arith in
          let two : 1 < s.p_last = ground arith in
          rw more (
            subst (λ r. Deleted x s (place_last r)) (sym (search_last s x v in_heap two at))
              (stay-Deleted s x v in_heap two at))
    ]
  ]

  -- Whatever holds of the blocks left also holds of the earliest one.
  pub record Popped (s : Store) (r : Store × ℕ) : Type 0 where
    pub earliest :
        (y : ℕ)
        → Registered s y
        → evttim_advance boundary (s.evttim r.1) ≤ evttim_advance boundary (s.evttim y)
    pub found : Registered s r.1
    pub deleted : Deleted r.1 s r.0

  -- Where the block in the root of the heap knows its node, tmevtb_delete_top is tmevtb_delete of
  -- that block.
  pub tmevtb_delete_top-eq-delete :
      (s : Store)
      → s.p_tmevtn (s.p_tmevtb 1) ≡ 1
      → tmevtb_delete_top boundary s ≡ (tmevtb_delete boundary (s.p_tmevtb 1) s, s.p_tmevtb 1)
  unfolding tmevtb_delete_top tmevtb_delete
  tmevtb_delete_top-eq-delete s at = rw at (elim (Bool-cases (leb 1 (s.p_last - 1))) [
    | inl more ↦ let none_less : ltb (s.p_last - 1) 1 ≡ false = ground arith in rw (more, none_less)
    | inr single ↦ let less : ltb (s.p_last - 1) 1 ≡ true = ground arith in rw (single, less)
  ])

  -- From a heap that is not empty, tmevtb_delete_top takes a block of the heap whose event is the
  -- earliest, and deletes it.
  pub tmevtb_delete_top_correct :
      (s : Store) → IsHeap boundary s → 1 ≤ s.p_last → Popped s (tmevtb_delete_top boundary s)
  tmevtb_delete_top_correct s v h =
      let at : s.p_tmevtn (s.p_tmevtb 1) ≡ 1 = v.placed 1 (omega arith) h in
      let found : Registered s (s.p_tmevtb 1) = (ground arith, ground arith, ground arith) in
      subst (Popped s) (sym (tmevtb_delete_top-eq-delete s at)) (record {
        earliest = λ y r. ground (arith, root_least boundary s (s.p_tmevtn y) v);
        found = found;
        deleted = tmevtb_delete_correct s (s.p_tmevtb 1) v found;
      })
