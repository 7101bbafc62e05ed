-- ===== src/Mempfix.antt =====
-- kernel/mempfix.c: fixed-sized memory pools. The service calls are in Mempfix/Calls.
pub mod Calls
pub mod Alloc
pub mod Release
use toppers_hrp3_gr_rose.Common.{ℕ, zero, suc, ◌+◌, ◌-◌, ◌*◌, [], ◌==◌, if◌then◌else◌, update}
use toppers_hrp3_gr_rose.Kernel.{Kernel, Mpfinib, mpf_wait_queue}

-- INDEX_MPF.
abbrev pub index_mpf : ℕ → ℕ
index_mpf mpfid = mpfid - 1

abbrev pub mpfinib_of : ℕ → Kernel → Mpfinib
mpfinib_of i k = k.cfg.mpfinib i

-- `(uint_t)(-1)` and `(uint_t)(-2)`.
abbrev pub index_null : ℕ
index_null = 0xffff_ffff

abbrev pub index_alloc : ℕ
index_alloc = 0xffff_fffe

-- The loop of initialize_mempfix, over the pools below `n`.
unfoldable initialize_mempfix : ℕ → Kernel → Kernel
initialize_mempfix zero k = k
initialize_mempfix (suc i) k = initialize_mempfix i (record k {
  queue = update k.queue (mpf_wait_queue i) [];
  mpf = record (k.mpf) {
    fblkcnt = update k.mpf.fblkcnt i (mpfinib_of i k).blkcnt;
    unused = update k.mpf.unused i 0;
    freelist = update k.mpf.freelist i index_null;
  };
})

-- The index of the block that get_mpf_block takes, and the pool without it, before the counter
-- and the mark of the block.
unfoldable pub take_block : ℕ → Kernel → ℕ × Kernel
take_block i k =
    let free = k.mpf.freelist i in
    if free == index_null
    then (
      k.mpf.unused i,
      record k { mpf = record (k.mpf) { unused = update k.mpf.unused i (k.mpf.unused i + 1) } },
    )
    else (
      free,
      record k { mpf = record (k.mpf) { freelist = update k.mpf.freelist i (k.mpf.next i free) } },
    )

-- The address that goes to `*p_blk`.
abbrev pub block_address : ℕ → ℕ → Kernel → ℕ
block_address i blkidx k = (mpfinib_of i k).mpf + (mpfinib_of i k).blksz * blkidx

unfoldable pub get_mpf_block : ℕ → Kernel → ℕ × Kernel
unfolding take_block
get_mpf_block i k =
    let (blkidx, k1) = take_block i k in
    (
      block_address i blkidx k,
      record k1 {
        mpf = record (k1.mpf) {
          fblkcnt = update k1.mpf.fblkcnt i (k1.mpf.fblkcnt i - 1);
          next = update k1.mpf.next i (update (k1.mpf.next i) blkidx index_alloc);
        };
      },
    )

-- The block goes back to the free list.
unfoldable pub put_block : ℕ → ℕ → Kernel → Kernel
put_block i blkidx k = record k {
  mpf = record (k.mpf) {
    fblkcnt = update k.mpf.fblkcnt i (k.mpf.fblkcnt i + 1);
    next = update k.mpf.next i (update (k.mpf.next i) blkidx (k.mpf.freelist i));
    freelist = update k.mpf.freelist i blkidx;
  };
}
