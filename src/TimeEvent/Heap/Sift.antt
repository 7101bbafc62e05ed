-- ===== src/TimeEvent/Heap/Sift.antt =====
-- tmevt_up and tmevt_down: the loops end, with a hole where the event belongs.
use toppers_hrp3_gr_rose.Common.{
  ℕ, zero, suc, ◌+◌, ◌≤◌, ◌<◌, ◌≡◌, ◌≢◌, ◌⊎◌, inl, inr, arith, Bool-cases, leb, ltb, if◌then◌else◌,
}
use toppers_hrp3_gr_rose.TimeEvent.Heap.{
  Store, evttim_advance, evttim_le, evttim_lt, evttim_at, move_node, parent, lchild, up_loop,
  tmevt_up, earlier_child, down_loop, tmevt_down,
}
use toppers_hrp3_gr_rose.TimeEvent.Heap.Order.{
  key, IsHole, Below, Above, Sifted, Sifted-refl, Sifted-trans, move_node-Sifted,
}

module _ (boundary : ℕ) where
  -- What both loops reach: a hole into which an event at time `t` fits.
  pub record Ready (s : Store) (n t : ℕ) (s' : Store) (n' : ℕ) : Type 0 where
    pub hole : IsHole boundary s' n'
    pub below : Below boundary s' n' t
    pub above : Above boundary s' n' t
    pub sifted : Sifted s n s' n'

  pub Ready-move :
      (s : Store) (m n t : ℕ) (s' : Store) (n' : ℕ)
      → Sifted s n (move_node m n s) m
      → Ready (move_node m n s) m t s' n'
      → Ready s n t s' n'
  Ready-move s m n t s' n' f r = record {
    hole = r.hole;
    below = r.below;
    above = r.above;
    sifted = Sifted-trans s n (move_node m n s) m s' n' f r.sifted;
  }

  pub rise-IsHole :
      (s : Store) (n : ℕ)
      → 1 < n
      → n ≤ s.p_last
      → IsHole boundary s n
      → IsHole boundary (move_node (parent n) n s) (parent n)
  unfolding move_node
  rise-IsHole s n h hL v = record {
    edges = λ c p q r w. ground (arith, v.edges c, v.bridge c, v.edges (parent c));
    bridge = λ c p q w. ground (arith, v.edges c, v.edges (parent n), v.bridge c);
    placed = λ i p q w. ground (arith, v.placed i, v.placed (parent n));
  }

  pub rise-Below :
      (s : Store) (n t : ℕ)
      → 1 < n
      → n ≤ s.p_last
      → IsHole boundary s n
      → evttim_advance boundary t < key boundary s (parent n)
      → Below boundary (move_node (parent n) n s) (parent n) t
  unfolding move_node
  rise-Below s n t h hL v lt c p q w = ground (arith, v.edges c)

  up_loop-Ready :
      (fuel n t : ℕ) (s : Store)
      → n ≤ fuel
      → 1 ≤ n
      → n ≤ s.p_last
      → IsHole boundary s n
      → Below boundary s n t
      → Ready s n t (up_loop boundary fuel n t s).0 (up_loop boundary fuel n t s).1
  unfolding up_loop
  up_loop-Ready zero n t s hf h hL v w = absurd (omega arith)
  up_loop-Ready (suc fuel) n t s hf h hL v w = elim (Bool-cases (ltb 1 n)) [
    | inl more ↦ elim (Bool-cases (evttim_le boundary (evttim_at s (parent n)) t)) [
      | inl stop ↦
          rw (more, stop)
            (record {
              hole = v;
              below = w;
              above = λ p. unfold evttim_le in ground arith;
              sifted = Sifted-refl s n h;
            })
      | inr go ↦
          let gt : 1 < n = ground arith in
          let lt : evttim_advance boundary t < key boundary s (parent n) =
            unfold evttim_le in ground arith in
          let moved : Sifted s n (move_node (parent n) n s) (parent n) =
            move_node-Sifted s (parent n) n (omega arith) (omega arith) (omega arith) h hL
              (v.placed (parent n) (omega arith) (omega arith) (omega arith)) in
          rw (more, go)
            (Ready-move s (parent n) n t _ _ moved (
              up_loop-Ready fuel (parent n) t (move_node (parent n) n s) (omega arith) (omega arith)
                (unfold move_node in omega arith) (rise-IsHole s n gt hL v)
                (rise-Below s n t gt hL v lt)))
    ]
    | inr last ↦ rw last (record {
      hole = v;
      below = w;
      above = λ p. absurd (ground arith);
      sifted = Sifted-refl s n h;
    })
  ]

  -- tmevt_up from a hole inside the heap.
  pub tmevt_up-Ready :
      (n t : ℕ) (s : Store)
      → 1 ≤ n
      → n ≤ s.p_last
      → IsHole boundary s n
      → Below boundary s n t
      → Ready s n t (tmevt_up boundary n t s).0 (tmevt_up boundary n t s).1
  unfolding tmevt_up
  tmevt_up-Ready n t s h hL v w = up_loop-Ready n n t s (omega arith) h hL v w

  -- The child that the loop of tmevt_down picks: a child, and none is earlier.
  record Picked (s : Store) (n m : ℕ) : Type 0 where
    child : parent m ≡ n
    inside : m ≤ s.p_last
    least : (c : ℕ) → c ≤ s.p_last → parent c ≡ n → key boundary s m ≤ key boundary s c

  earlier_child-Picked :
      (s : Store) (n : ℕ)
      → 1 ≤ n
      → lchild n ≤ s.p_last
      → Picked s n (earlier_child boundary (lchild n) s)
  unfolding earlier_child evttim_lt
  earlier_child-Picked s n h hL = record {
    child = ground arith;
    inside = ground arith;
    least = λ c p q. elim (children c q) [ inl e ↦ rw e (ground arith) | inr e ↦ ground arith ];
  }
    where
      children : (c : ℕ) → parent c ≡ n → (c ≡ lchild n) ⊎ (c ≡ lchild n + 1)
      children c q = omega arith

  sink-IsHole :
      (s : Store) (m n : ℕ)
      → 1 ≤ n
      → Picked s n m
      → IsHole boundary s n
      → IsHole boundary (move_node m n s) m
  unfolding move_node
  sink-IsHole s m n h k v = record {
    edges = λ c p q r w. ground (arith, k.child, k.inside, k.least c q, v.edges c p q, v.bridge m);
    bridge = λ c p q w. ground (arith, k.child, k.inside, v.edges c);
    placed = λ i p q w. ground (arith, k.child, k.inside, v.placed i, v.placed m);
  }

  sink-Above :
      (s : Store) (m n t : ℕ)
      → 1 ≤ n
      → Picked s n m
      → key boundary s m < evttim_advance boundary t
      → Above boundary (move_node m n s) m t
  unfolding move_node
  sink-Above s m n t h k lt p = ground (arith, k.child, k.inside)

  -- One round of tmevt_down, with the rest of the loop given.
  down_step :
      (fuel n t : ℕ) (s : Store) (m : ℕ)
      → s.p_last < n + suc fuel
      → 1 ≤ n
      → IsHole boundary s n
      → Above boundary s n t
      → Picked s n m
      → (r : Store × ℕ)
      → ((move_node m n s).p_last < m + fuel
          → 1 ≤ m
          → IsHole boundary (move_node m n s) m
          → Above boundary (move_node m n s) m t
          → Ready (move_node m n s) m t r.0 r.1)
      → let out = if evttim_le boundary t (evttim_at s m) then (s, n) else r in
        Ready s n t out.0 out.1
  down_step fuel n t s m hf h v w k r ih =
      elim (Bool-cases (evttim_le boundary t (evttim_at s m))) [
        | inl stop ↦ rw stop (record {
          hole = v;
          below = λ c p q e. unfold evttim_le in ground (arith, k.least c q e);
          above = w;
          sifted = Sifted-refl s n h;
        })
        | inr go ↦
            let apart : m ≢ n = omega (arith, k.child) in
            let moved : Sifted s n (move_node m n s) m =
              move_node-Sifted s m n apart (omega (arith, k.child)) k.inside h
                (omega (arith, k.child, k.inside))
                (v.placed m (omega (arith, k.child)) k.inside apart) in
            rw go (
              Ready-move s m n t _ _ moved (
                ih (unfold move_node in omega (arith, k.child)) (omega (arith, k.child))
                  (sink-IsHole s m n h k v)
                  (sink-Above s m n t h k (unfold evttim_le in ground arith))))
      ]

  down_loop-Ready :
      (fuel n t : ℕ) (s : Store)
      → s.p_last < n + fuel
      → 1 ≤ n
      → IsHole boundary s n
      → Above boundary s n t
      → Ready s n t (down_loop boundary fuel n t s).0 (down_loop boundary fuel n t s).1
  unfolding down_loop
  down_loop-Ready zero n t s hf h v w = record {
    hole = v;
    below = λ c p q r. absurd (omega arith);
    above = w;
    sifted = Sifted-refl s n h;
  }
  down_loop-Ready (suc fuel) n t s hf h v w = elim (Bool-cases (leb (lchild n) s.p_last)) [
    | inl more ↦
        let k : Picked s n (earlier_child boundary (lchild n) s) =
          earlier_child-Picked s n h (ground arith) in
        rw more (
          down_step fuel n t s (earlier_child boundary (lchild n) s) hf h v w k _ (
            down_loop-Ready fuel (earlier_child boundary (lchild n) s) t
              (move_node (earlier_child boundary (lchild n) s) n s)))
    | inr last ↦ rw last (record {
      hole = v;
      below = λ c p q r. absurd (ground arith);
      above = w;
      sifted = Sifted-refl s n h;
    })
  ]

  -- tmevt_down from a hole in the heap, or just past its end.
  pub tmevt_down-Ready :
      (n t : ℕ) (s : Store)
      → 1 ≤ n
      → IsHole boundary s n
      → Above boundary s n t
      → Ready s n t (tmevt_down boundary n t s).0 (tmevt_down boundary n t s).1
  unfolding tmevt_down
  tmevt_down-Ready n t s h v w = down_loop-Ready s.p_last n t s (omega arith) h v w

  -- From a node without children tmevt_down moves nothing.
  pub tmevt_down_leaf :
      (n t : ℕ) (s : Store)
      → 1 ≤ s.p_last
      → s.p_last < lchild n
      → tmevt_down boundary n t s ≡ (s, n)
  unfolding tmevt_down
  tmevt_down_leaf n t s h leaf = go s.p_last h leaf
    where
      go : (fuel : ℕ) → 1 ≤ fuel → s.p_last < lchild n → down_loop boundary fuel n t s ≡ (s, n)
      go zero p q = absurd (omega arith)
      go (suc fuel) p q = unfold down_loop in ground arith
