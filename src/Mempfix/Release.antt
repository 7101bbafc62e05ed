-- ===== src/Mempfix/Release.antt =====
-- Which blocks rel_mpf of kernel/mempfix.c takes back, and where they go.
use toppers_hrp3_gr_rose.Common.{
  ℕ, ◌+◌, ◌-◌, ◌*◌, ◌<◌, ◌≡◌, refl, ap, ◌∙◌, ◌⊎◌, inl, inr, Bool, ◌&&◌, true, false, not, List, [],
  ◌∷◌, arith, ltb, leb, has, ◌==◌, if◌then◌else◌, update, Bool-cases,
}
use native.Mathlib.Nat.{mul-mod_right, mul-div_right}
use toppers_hrp3_gr_rose.Kernel.{
  Kernel, Svc, e_ok, e_par, wercd, returned, check, violate_acptn, valid_id, in_task_unlocked,
  lock_cpu, unlock_cpu, dispatch_if_needed, head?, queue_delete_next, mpf_wait_queue,
  tstat_suspended, ts_suspended, ts_runnable,
}
use toppers_hrp3_gr_rose.Wait.{wait_complete}
use toppers_hrp3_gr_rose.Wait.Complete.{wait_complete-IsCompleted, dispatch_if_needed-IsCompleted}
use toppers_hrp3_gr_rose.Mempfix.{index_mpf, mpfinib_of, index_alloc, block_address, put_block}
use toppers_hrp3_gr_rose.Mempfix.Alloc.{IsPool, is_allocated, put_block_correct}
use toppers_hrp3_gr_rose.Mempfix.Calls.{rel_mpf, rel_mpf_locked}

check_both :
    (a b : Bool) (k : Kernel) (rest : Svc)
    → check a e_par k (check b e_par k rest) ≡ (if a && b then rest else returned e_par k)
unfolding check
check_both true true k rest = refl
check_both true false k rest = refl
check_both false b k rest = refl

queue-cases : (xs : List ℕ) → (xs ≡ []) ⊎ ((t : ℕ) × ((ts : List ℕ) × (xs ≡ t ∷ ts)))
queue-cases [] = inl refl
queue-cases (t ∷ ts) = inr (t, (ts, refl))

-- The checks of rel_mpf on the address of a block.
rel_mpf_checks :
    (mpfid blkidx : ℕ) (k : Kernel)
    → in_task_unlocked k ≡ true
    → valid_id mpfid k.cfg.tmax_mpfid ≡ true
    → violate_acptn (mpfinib_of (index_mpf mpfid) k).acvct.acptn2 k ≡ false
    → 0 < (mpfinib_of (index_mpf mpfid) k).blksz
    → rel_mpf mpfid (block_address (index_mpf mpfid) blkidx k) k ≡ (
        if is_allocated (index_mpf mpfid) k blkidx
        then rel_mpf_locked
            (index_mpf mpfid)
            (block_address (index_mpf mpfid) blkidx k)
            blkidx
            (lock_cpu k)
        else returned e_par k)
unfolding rel_mpf check is_allocated
rel_mpf_checks mpfid blkidx k ctx id acp size =
    let i = index_mpf mpfid in
    let mpf = (mpfinib_of i k).mpf in
    let blksz = (mpfinib_of i k).blksz in
    let offset : mpf + blksz * blkidx - mpf ≡ blksz * blkidx = omega arith in
    let above : leb mpf (mpf + blksz * blkidx) ≡ true = ground arith in
    rw (ctx, id, acp, above, offset, mul-mod_right blksz blkidx, mul-div_right blkidx size)
      (check_both (ltb blkidx (k.mpf.unused i)) (k.mpf.next i blkidx == index_alloc) k _)

-- The block is free again: the first in the list of free blocks, and no other has changed.
abbrev pub IsFreed : ℕ → ℕ → List ℕ → Kernel → Kernel → Type 0
IsFreed i blkidx free k k' =
    IsPool i k' (blkidx ∷ free)
    × ((j : ℕ) → is_allocated i k' j ≡ (if blkidx == j then false else is_allocated i k j))

-- The block goes to the first task that waits for one, whose wait is over, and the pool stays as
-- it is.
pub record IsPassed (i t : ℕ) (ts : List ℕ) (blk : ℕ) (k k' : Kernel) : Type 0 where
  pub waited : k.queue (mpf_wait_queue i) ≡ t ∷ ts
  pub left : k'.queue (mpf_wait_queue i) ≡ ts
  pub block : k'.wblk t ≡ blk
  pub result : k'.winfo t ≡ wercd e_ok
  pub state : k'.tstat t ≡ (if tstat_suspended (k.tstat t) then ts_suspended else ts_runnable)
  pub pool : k'.mpf ≡ k.mpf

rel_mpf_locked-none :
    (i blk blkidx : ℕ) (k : Kernel)
    → k.queue (mpf_wait_queue i) ≡ []
    → rel_mpf_locked i blk blkidx k ≡ returned e_ok (unlock_cpu (put_block i blkidx k))
unfolding rel_mpf_locked
rel_mpf_locked-none i blk blkidx k e = rw (ap (λ (xs : List ℕ). head? xs) e, rel_mpf_locked) refl

-- The pool of the kernel with its lock given back.
unlocked-IsFreed :
    (i blkidx : ℕ) (free : List ℕ) (k : Kernel)
    → IsPool i k free
    → is_allocated i k blkidx ≡ true
    → IsFreed i blkidx free k (unlock_cpu (put_block i blkidx (lock_cpu k)))
unfolding put_block is_allocated
unlocked-IsFreed i blkidx free k v a =
    let (p, others) = put_block_correct i blkidx free k v a in
    (
      record {
        linked = p.linked;
        free_distinct = p.free_distinct;
        below = p.below;
        marks = p.marks;
        count = p.count;
        unused_le = p.unused_le;
        small = p.small;
      },
      others,
    )

rel_mpf_locked-first :
    (i blk blkidx t : ℕ) (ts : List ℕ) (k : Kernel)
    → k.queue (mpf_wait_queue i) ≡ t ∷ ts
    → (k' : Kernel) × ((rel_mpf_locked i blk blkidx (lock_cpu k) ≡ returned e_ok k')
        × IsPassed i t ts blk k k')
unfolding rel_mpf_locked queue_delete_next
rel_mpf_locked-first i blk blkidx t ts k e =
    let q = mpf_wait_queue i in
    let k1 = queue_delete_next q (lock_cpu k) in
    let k2 = record k1 { wblk = update k1.wblk t blk } in
    let done =
      dispatch_if_needed-IsCompleted t k2 (wait_complete t k2) (wait_complete-IsCompleted k2 t) in
    (
      unlock_cpu (dispatch_if_needed (wait_complete t k2)),
      (
        rw (ap (λ (xs : List ℕ). head? xs) e, rel_mpf_locked) refl,
        record {
          waited = e;
          left = ground (arith, done.objects q);
          block = ground (arith, done.blocks);
          result = ground (arith, done.info t);
          state = ground (arith, done.states t);
          pool = done.pools;
        },
      ),
    )

-- For the address of a block of a pool whose management area agrees with a list of free blocks,
-- once the checks of the caller have passed: where the block has been handed out, being one of the
-- used blocks and not in the list, rel_mpf returns E_OK; where no task waits for a block, it is
-- then the first of the free blocks while the others are as they were; or else the first task that
-- waits has its address with the result E_OK, is runnable or, if it was suspended, suspended, and
-- has left the queue, while the pool is as it was. For a block that has been returned already or
-- has never been handed out, rel_mpf returns E_PAR and changes nothing. Blocks are not empty.
pub rel_mpf-is_allocated :
    (mpfid blkidx : ℕ) (free : List ℕ) (k : Kernel)
    → in_task_unlocked k ≡ true
    → valid_id mpfid k.cfg.tmax_mpfid ≡ true
    → violate_acptn (mpfinib_of (index_mpf mpfid) k).acvct.acptn2 k ≡ false
    → 0 < (mpfinib_of (index_mpf mpfid) k).blksz
    → IsPool (index_mpf mpfid) k free
    → (((ltb blkidx (k.mpf.unused (index_mpf mpfid)) && not (has blkidx free)) ≡ true)
        × ((k' : Kernel) × ((rel_mpf mpfid (block_address (index_mpf mpfid) blkidx k) k
                ≡ returned e_ok k')
              × (((k.queue (mpf_wait_queue (index_mpf mpfid)) ≡ [])
                    × IsFreed (index_mpf mpfid) blkidx free k k')
                  ⊎ ((t : ℕ) × ((ts : List ℕ) × IsPassed
                          (index_mpf mpfid)
                          t
                          ts
                          (block_address (index_mpf mpfid) blkidx k)
                          k
                          k'))))))
      ⊎ (((ltb blkidx (k.mpf.unused (index_mpf mpfid)) && not (has blkidx free)) ≡ false)
          × (rel_mpf mpfid (block_address (index_mpf mpfid) blkidx k) k ≡ returned e_par k))
unfolding is_allocated
rel_mpf-is_allocated mpfid blkidx free k ctx id acp size v =
    let i = index_mpf mpfid in
    let blk = block_address i blkidx k in
    let checks = rel_mpf_checks mpfid blkidx k ctx id acp size in
    elim (Bool-cases (is_allocated i k blkidx)) [
      | inr a ↦ inr (ground (arith, v.marks blkidx), checks ∙ rw a refl)
      | inl a ↦
          let held : (ltb blkidx (k.mpf.unused i) && not (has blkidx free)) ≡ true =
            ground (arith, v.marks blkidx) in
          let passed = checks ∙ rw a refl in
          inl (
            held,
            elim (queue-cases (k.queue (mpf_wait_queue i))) [
              | inl e ↦ (
                unlock_cpu (put_block i blkidx (lock_cpu k)),
                (
                  passed ∙ rel_mpf_locked-none i blk blkidx (lock_cpu k) e,
                  inl (e, unlocked-IsFreed i blkidx free k v a),
                ),
              )
              | inr (t, (ts, e)) ↦
                  let (k', (ret, p)) = rel_mpf_locked-first i blk blkidx t ts k e in
                  (k', (passed ∙ ret, inr (t, (ts, p))))
            ],
          )
    ]
