-- ===== src/TimeEvent/Heap/Laws.antt =====
-- Insertion into and deletion from the heap: the invariant, the blocks held, the earliest one.
use toppers_hrp3_gr_rose.Common.{
  ℕ, zero, suc, ◌+◌, ◌≤◌, ◌<◌, ◌≡◌, ◌≢◌, ◌⊎◌, ◌↔◌, inl, inr, arith, Bool-cases, update, ◌==◌,
}
use toppers_hrp3_gr_rose.TimeEvent.Heap.{Store, parent, tmevtb_insert}
use toppers_hrp3_gr_rose.TimeEvent.Heap.Order.{
  key, IsHeap, IsHole, Below, Above, RegisteredBut, Registered,
}
use toppers_hrp3_gr_rose.TimeEvent.Heap.Sift.{Ready, tmevt_up-Ready}

-- `*p_tmevtn` is set to the block, and the block's back pointer to the node.
abbrev pub fill : Store → ℕ → ℕ → Store
fill s n x = record s { p_tmevtb = update s.p_tmevtb n x; p_tmevtn = update s.p_tmevtn x n }

pub fill-Registered :
    (s : Store) (n x y : ℕ)
    → 1 ≤ n
    → n ≤ s.p_last
    → Registered (fill s n x) y ↔ ((y ≡ x) ⊎ RegisteredBut s n y)
fill-Registered s n x y h hL = elim (Bool-cases (x == y)) [
  | inl same ↦ (λ r. inl (ground arith), λ r. (ground arith, ground arith, ground arith))
  | inr other ↦
      let ne : y ≢ x = ground arith in
      (
        λ r. inr (λ e. ground arith, (ground arith, ground arith, ground arith)),
        λ r. (ground arith, ground arith, ground arith),
      )
]

module _ (boundary : ℕ) where
  -- A block that is in no other node fills the hole.
  pub fill-IsHeap :
      (s : Store) (n x : ℕ)
      → 1 ≤ n
      → ((i : ℕ) → 1 ≤ i → i ≤ s.p_last → i ≢ n → s.p_tmevtb i ≢ x)
      → IsHole boundary s n
      → Below boundary s n (s.evttim x)
      → Above boundary s n (s.evttim x)
      → IsHeap boundary (fill s n x)
  fill-IsHeap s n x h fresh v below above = record {
    order = λ c p q. ground (arith, v.edges c p q, below c p q, above);
    placed = λ i p q. ground (arith, v.placed i p q, fresh i p q);
  }

  -- The same by induction on a bound of the node.
  root_least_below :
      (k : ℕ) (s : Store) (i : ℕ)
      → IsHeap boundary s
      → i < k
      → 1 ≤ i
      → i ≤ s.p_last
      → key boundary s 1 ≤ key boundary s i
  root_least_below zero s i v f p q = absurd (omega arith)
  root_least_below (suc k) s i v f p q =
      ground (arith, v.order i, root_least_below k s (parent i) v)

  -- In a heap in order the event in the root is at least as early as that in every other node.
  pub root_least :
      (s : Store) (i : ℕ)
      → IsHeap boundary s
      → 1 ≤ i
      → i ≤ s.p_last
      → key boundary s 1 ≤ key boundary s i
  root_least s i v p q = root_least_below (suc i) s i v (omega arith) p q

  -- What insertion does to the heap.
  pub record Inserted (x : ℕ) (s s' : Store) : Type 0 where
    pub heap : IsHeap boundary s'
    pub size : s'.p_last ≡ s.p_last + 1
    pub times : s'.evttim ≡ s.evttim
    pub members : (y : ℕ) → Registered s' y ↔ ((y ≡ x) ⊎ Registered s y)

  -- A search for the place of a block that is not in the heap leaves a place for it.
  fill-Inserted :
      (s : Store) (x : ℕ)
      → IsHeap boundary s
      → ¬ Registered s x
      → (s' : Store) (n : ℕ)
      → Ready boundary (record s { p_last = s.p_last + 1 }) (s.p_last + 1) (s.evttim x) s' n
      → Inserted x s (fill s' n x)
  fill-Inserted s x v new s' n r =
      let grown : Store = record s { p_last = s.p_last + 1 } in
      let outside : (y : ℕ) → RegisteredBut grown (s.p_last + 1) y → Registered s y =
        λ y p. (p.1.0, omega arith, p.1.2) in
      let fresh : (i : ℕ) → 1 ≤ i → i ≤ s'.p_last → i ≢ n → s'.p_tmevtb i ≢ x = λ i p q w e. new (
        outside x (
          r.sifted.only x (
            let at : s'.p_tmevtn x ≡ i = ground (arith, r.hole.placed i p q w) in
            (ground arith, (omega arith, omega arith, ground arith))))) in
      let fits : n ≤ s'.p_last = ground (arith, r.sifted.fits (s.p_last + 1)) in
      record {
        heap =
            fill-IsHeap s' n x r.sifted.inside fresh r.hole
              (λ c p q w. ground (arith, r.below c p q w)) (λ p. ground (arith, r.above p));
        size = r.sifted.same_last;
        times = r.sifted.same_time;
        members = λ y. (
          λ p. elim ((fill-Registered s' n x y r.sifted.inside fits).0 p) [
            | inl e ↦ inl e
            | inr q ↦ inr (outside y (r.sifted.only y q))
          ],
          λ p. (fill-Registered s' n x y r.sifted.inside fits).1 (elim p [
            | inl e ↦ inl e
            | inr q ↦ inr (r.sifted.kept y (omega arith, (q.0, omega arith, q.2)))
          ]),
        );
      }

  -- Insertion of a block that is not in a heap keeps the heap in order, makes it larger by one,
  -- keeps the times, and leaves in it that block and those that were in it.
  pub tmevtb_insert_correct :
      (s : Store) (x : ℕ)
      → IsHeap boundary s
      → ¬ Registered s x
      → Inserted x s (tmevtb_insert boundary x s)
  unfolding tmevtb_insert
  tmevtb_insert_correct s x v new =
      let grown : Store = record s { p_last = s.p_last + 1 } in
      fill-Inserted s x v new _ _ (
        tmevt_up-Ready boundary (s.p_last + 1) (s.evttim x) grown (omega arith) (omega arith)
          (record {
            edges = λ c p q w u. v.order c p (omega arith);
            bridge = λ c p q w. absurd (omega arith);
            placed = λ i p q w. v.placed i p (omega arith);
          })
          (λ c p q w. absurd (omega arith)))
