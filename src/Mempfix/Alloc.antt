-- ===== src/Mempfix/Alloc.antt =====
-- The blocks of kernel/mempfix.c: which are handed out, and which are free.
use toppers_hrp3_gr_rose.Common.{
  ℕ, ◌+◌, ◌-◌, ◌≤◌, ◌<◌, ◌≡◌, refl, sym, subst, fun_ext, Bool, true, false, not, ◌&&◌, ◌||◌, List,
  [], ◌∷◌, arith, ltb, ◌==◌, ==_refl, update, update_self, has, distinct, length, if◌then◌else◌,
}
use toppers_hrp3_gr_rose.Kernel.{Kernel}
use toppers_hrp3_gr_rose.Mempfix.{
  mpfinib_of, index_null, index_alloc, block_address, take_block, get_mpf_block, put_block,
}

-- The list of free blocks that starts at `p`.
abbrev pub Linked : (ℕ → ℕ) → ℕ → List ℕ → Type 0
Linked next p [] = p ≡ index_null
Linked next p (x ∷ xs) = (p ≡ x) × Linked next (next x) xs

abbrev pub all_below : ℕ → List ℕ → Bool
all_below n [] = true
all_below n (x ∷ xs) = ltb x n && all_below n xs

-- The management area of a pool agrees with a list of free blocks.
pub record IsPool (i : ℕ) (k : Kernel) (free : List ℕ) : Type 0 where
  pub linked : Linked (k.mpf.next i) (k.mpf.freelist i) free
  pub free_distinct : distinct free ≡ true
  pub below : all_below (k.mpf.unused i) free ≡ true
  pub marks : (j : ℕ) → j < k.mpf.unused i → has j free ≡ not (k.mpf.next i j == index_alloc)
  pub count : k.mpf.fblkcnt i + k.mpf.unused i ≡ (mpfinib_of i k).blkcnt + length free
  pub unused_le : k.mpf.unused i ≤ (mpfinib_of i k).blkcnt
  pub small : (mpfinib_of i k).blkcnt < index_alloc

-- The block is handed out.
unfoldable pub is_allocated : ℕ → Kernel → ℕ → Bool
is_allocated i k j = ltb j (k.mpf.unused i) && (k.mpf.next i j == index_alloc)

Linked-update :
    (next : ℕ → ℕ) (p j v : ℕ) (xs : List ℕ)
    → has j xs ≡ false
    → Linked next p xs
    → Linked (update next j v) p xs
Linked-update next p j v [] h l = l
Linked-update next p j v (x ∷ xs) h l =
    let same : update next j v x ≡ next x = ground arith in
    let rest = Linked-update next (next x) j v xs (ground arith) l.1 in (l.0, rw same rest)

all_below-suc : (n : ℕ) (xs : List ℕ) → all_below n xs ≡ true → all_below (n + 1) xs ≡ true
all_below-suc n [] h = refl
all_below-suc n (x ∷ xs) h = ground (arith, all_below-suc n xs)

all_below-has : (n j : ℕ) (xs : List ℕ) → all_below n xs ≡ true → n ≤ j → has j xs ≡ false
all_below-has n j [] h l = refl
all_below-has n j (x ∷ xs) h l = ground (arith, all_below-has n j xs)

-- What get_mpf_block does to a pool: the block was not handed out before, and is now.
pub record Got (i : ℕ) (k : Kernel) (blkidx : ℕ) (free : List ℕ) (r : ℕ × Kernel) : Type 0 where
  pub address : r.0 ≡ block_address i blkidx k
  pub in_pool : blkidx < (mpfinib_of i k).blkcnt
  pub was_free : is_allocated i k blkidx ≡ false
  pub pool : IsPool i r.1 free
  pub allocated : (j : ℕ) → is_allocated i r.1 j ≡ ((blkidx == j) || is_allocated i k j)

-- The pool after the block `blkidx` has been marked as handed out.
abbrev pub marked : ℕ → ℕ → ℕ → ℕ → Kernel → Kernel
marked i blkidx unused freelist k = record k {
  mpf = record {
    fblkcnt = update k.mpf.fblkcnt i (k.mpf.fblkcnt i - 1);
    unused = update k.mpf.unused i unused;
    freelist = update k.mpf.freelist i freelist;
    next = update k.mpf.next i (update (k.mpf.next i) blkidx index_alloc);
  };
}

update_same : (f : ℕ → ℕ) (i : ℕ) → update f i (f i) ≡ f
update_same f i = fun_ext (λ j. ground arith)

pub get_fresh :
    (i : ℕ) (k : Kernel)
    → k.mpf.freelist i ≡ index_null
    → get_mpf_block i k ≡ (
      block_address i (k.mpf.unused i) k,
      marked i (k.mpf.unused i) (k.mpf.unused i + 1) (k.mpf.freelist i) k,
    )
unfolding get_mpf_block take_block
get_fresh i k e = rw (update_same k.mpf.freelist i) (rw (e, take_block) refl)

pub get_freed :
    (i : ℕ) (k : Kernel)
    → (k.mpf.freelist i == index_null) ≡ false
    → get_mpf_block i k ≡ (
      block_address i (k.mpf.freelist i) k,
      marked i (k.mpf.freelist i) (k.mpf.unused i) (k.mpf.next i (k.mpf.freelist i)) k,
    )
unfolding get_mpf_block take_block
get_freed i k e = rw (update_same k.mpf.unused i) (rw (e, take_block) refl)

module _ (i : ℕ) (k : Kernel) (room : 0 < k.mpf.fblkcnt i) where
  get_unused : IsPool i k [] → Got i k (k.mpf.unused i) [] (get_mpf_block i k)
  unfolding is_allocated
  get_unused v = rw (get_fresh i k v.linked) (record {
    address = refl;
    in_pool = ground (arith, v.count);
    was_free = ground arith;
    pool = record {
      linked = ground (arith, v.linked);
      free_distinct = refl;
      below = refl;
      marks = λ j h. ground (arith, v.marks j);
      count = ground (arith, v.count);
      unused_le = ground (arith, v.count);
      small = v.small;
    };
    allocated = λ j. ground (arith, v.marks j);
  })

  get_first : (x : ℕ) (xs : List ℕ) → IsPool i k (x ∷ xs) → Got i k x xs (get_mpf_block i k)
  unfolding is_allocated
  get_first x xs v =
      let first : k.mpf.freelist i ≡ x = v.linked.0 in
      let below : x < k.mpf.unused i = ground (arith, v.below) in
      let fresh : has x xs ≡ false = ground (arith, v.free_distinct) in
      let not_null : (k.mpf.freelist i == index_null) ≡ false =
        ground (arith, v.unused_le, v.small) in
      let relinked =
        Linked-update (k.mpf.next i) (k.mpf.next i x) x index_alloc xs fresh v.linked.1 in
      rw (get_freed i k not_null) (
        rw first (record {
          address = refl;
          in_pool = omega (arith, v.unused_le);
          was_free = ground (arith, v.marks x);
          pool = record {
            linked = rw (==_refl i) relinked;
            free_distinct = ground (arith, v.free_distinct);
            below = ground (arith, v.below);
            marks = λ j h. ground (arith, v.marks j);
            count = ground (arith, v.count);
            unused_le = ground (arith, v.unused_le);
            small = v.small;
          };
          allocated = λ j. ground (arith, v.marks j);
        }))

-- From a pool with a free block, whose management area agrees with a list of free blocks,
-- get_mpf_block gives the address of a block of the pool that was not handed out, which is handed
-- out then while the other blocks are as they were, and the area agrees with a list of free blocks
-- again.
pub get_mpf_block_correct :
    (i : ℕ) (free : List ℕ) (k : Kernel)
    → IsPool i k free
    → 0 < k.mpf.fblkcnt i
    → (blkidx : ℕ) × ((free1 : List ℕ) × Got i k blkidx free1 (get_mpf_block i k))
get_mpf_block_correct i [] k v room = (k.mpf.unused i, ([], get_unused i k room v))
get_mpf_block_correct i (x ∷ xs) k v room = (x, (xs, get_first i k room x xs v))

-- The head of the list is not the mark of a block that is handed out.
not_alloc :
    (i : ℕ) (free : List ℕ) (k : Kernel)
    → IsPool i k free
    → (k.mpf.freelist i == index_alloc) ≡ false
not_alloc i [] k v = ground (arith, v.linked)
not_alloc i (x ∷ xs) k v = ground (arith, v.linked.0, v.below, v.unused_le, v.small)

-- A block that is handed out goes back: it is free then, the other blocks are as they were, and
-- the management area agrees with the list of free blocks with that block before the others.
pub put_block_correct :
    (i blkidx : ℕ) (free : List ℕ) (k : Kernel)
    → IsPool i k free
    → is_allocated i k blkidx ≡ true
    → IsPool i (put_block i blkidx k) (blkidx ∷ free)
      × ((j : ℕ)
          → is_allocated i (put_block i blkidx k) j
            ≡ (if blkidx == j then false else is_allocated i k j))
unfolding put_block is_allocated
put_block_correct i blkidx free k v a =
    let held : has blkidx free ≡ false = ground (arith, v.marks blkidx) in
    let next = update (k.mpf.next i) blkidx (k.mpf.freelist i) in
    let at : next blkidx ≡ k.mpf.freelist i = ground arith in
    let head_free = not_alloc i free k v in
    let relinked : Linked next blkidx (blkidx ∷ free) = (
      refl,
      rw at (
          Linked-update (k.mpf.next i) (k.mpf.freelist i) blkidx (k.mpf.freelist i) free held
            v.linked),
    ) in
    let e1 : (put_block i blkidx k).mpf.freelist i ≡ blkidx = update_self k.mpf.freelist i blkidx in
    let e2 : (put_block i blkidx k).mpf.next i ≡ next = update_self k.mpf.next i next in
    (
      record {
        linked =
            subst (λ (p : ℕ). Linked ((put_block i blkidx k).mpf.next i) p (blkidx ∷ free)) (sym e1)
              (subst (λ (f : ℕ → ℕ). Linked f blkidx (blkidx ∷ free)) (sym e2) relinked);
        free_distinct = ground (arith, v.free_distinct);
        below = ground (arith, v.below);
        marks = λ j h. ground (arith, v.marks j, head_free);
        count = ground (arith, v.count);
        unused_le = v.unused_le;
        small = v.small;
      },
      λ j. ground (arith, v.marks j, head_free),
    )
