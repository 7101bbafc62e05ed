-- ===== src/TimeEvent/Heap/Order.antt =====
-- The invariants of the heap of kernel/time_event.c, and what moving its hole keeps.
use toppers_hrp3_gr_rose.Common.{ℕ, ◌≤◌, ◌<◌, ◌≡◌, refl, ◌≢◌, arith}
use toppers_hrp3_gr_rose.TimeEvent.Heap.{Store, evttim_advance, evttim_at, move_node, parent}

-- The block is in the heap: its back pointer leads to a node that leads back.
abbrev pub Registered : Store → ℕ → Type 0
Registered s y = (1 ≤ s.p_tmevtn y) × (s.p_tmevtn y ≤ s.p_last) × (s.p_tmevtb (s.p_tmevtn y) ≡ y)

-- The same, the hole left out.
abbrev pub RegisteredBut : Store → ℕ → ℕ → Type 0
RegisteredBut s n y = (s.p_tmevtn y ≢ n) × Registered s y

module _ (boundary : ℕ) where
  abbrev pub key : Store → ℕ → ℕ
  key s i = evttim_advance boundary (evttim_at s i)

  -- No event is earlier than that of its parent, and each block knows its node.
  pub record IsHeap (s : Store) : Type 0 where
    pub order : (c : ℕ) → 1 < c → c ≤ s.p_last → key s (parent c) ≤ key s c
    pub placed : (i : ℕ) → 1 ≤ i → i ≤ s.p_last → s.p_tmevtn (s.p_tmevtb i) ≡ i

  -- The same round the hole `n`.
  pub record IsHole (s : Store) (n : ℕ) : Type 0 where
    pub edges : (c : ℕ) → 1 < c → c ≤ s.p_last → c ≢ n → parent c ≢ n → key s (parent c) ≤ key s c
    pub bridge : (c : ℕ) → c ≤ s.p_last → parent c ≡ n → 1 < n → key s (parent n) ≤ key s c
    pub placed : (i : ℕ) → 1 ≤ i → i ≤ s.p_last → i ≢ n → s.p_tmevtn (s.p_tmevtb i) ≡ i

  -- An event at time `t` is not later than those below the hole, nor earlier than the one above.
  abbrev pub Below : Store → ℕ → ℕ → Type 0
  Below s n t = (c : ℕ) → 1 < c → c ≤ s.p_last → parent c ≡ n → evttim_advance boundary t ≤ key s c

  abbrev pub Above : Store → ℕ → ℕ → Type 0
  Above s n t = 1 < n → key s (parent n) ≤ evttim_advance boundary t

-- `s'` with the hole `n'` holds the blocks of `s` with the hole `n`, in other nodes.
pub record Sifted (s : Store) (n : ℕ) (s' : Store) (n' : ℕ) : Type 0 where
  pub same_time : s'.evttim ≡ s.evttim
  pub same_last : s'.p_last ≡ s.p_last
  pub inside : 1 ≤ n'
  pub fits : (m : ℕ) → n ≤ m → s.p_last ≤ m → n' ≤ m
  pub outside : (i : ℕ) → s.p_last < i → s'.p_tmevtb i ≡ s.p_tmevtb i
  pub kept : (y : ℕ) → RegisteredBut s n y → RegisteredBut s' n' y
  pub only : (y : ℕ) → RegisteredBut s' n' y → RegisteredBut s n y

pub Sifted-refl : (s : Store) (n : ℕ) → 1 ≤ n → Sifted s n s n
Sifted-refl s n h = record {
  same_time = refl;
  same_last = refl;
  inside = h;
  fits = λ m p q. p;
  outside = λ i p. refl;
  kept = λ y r. r;
  only = λ y r. r;
}

pub Sifted-trans :
    (s : Store) (n : ℕ) (s' : Store) (n' : ℕ) (s'' : Store) (n'' : ℕ)
    → Sifted s n s' n'
    → Sifted s' n' s'' n''
    → Sifted s n s'' n''
Sifted-trans s n s' n' s'' n'' f g = record {
  same_time = ground arith;
  same_last = ground arith;
  inside = g.inside;
  fits = λ m p q. g.fits m (f.fits m p q) (ground arith);
  outside = λ i p. ground (arith, f.outside i, g.outside i);
  kept = λ y r. g.kept y (f.kept y r);
  only = λ y r. f.only y (g.only y r);
}

-- One round of either loop: the block of `m` moves into the hole `n`, and `m` is the new hole.
pub move_node-Sifted :
    (s : Store) (m n : ℕ)
    → m ≢ n
    → 1 ≤ m
    → m ≤ s.p_last
    → 1 ≤ n
    → n ≤ s.p_last
    → s.p_tmevtn (s.p_tmevtb m) ≡ m
    → Sifted s n (move_node m n s) m
unfolding move_node
move_node-Sifted s m n ne hm mL hn nL back = record {
  same_time = refl;
  same_last = refl;
  inside = hm;
  fits = λ k p q. ground arith;
  outside = λ i p. ground arith;
  kept = λ y r. (ground arith, (ground arith, ground arith, ground arith));
  only = λ y r. (ground arith, (ground arith, ground arith, ground arith));
}
