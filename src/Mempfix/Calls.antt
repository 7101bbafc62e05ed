-- ===== src/Mempfix/Calls.antt =====
-- The service calls of kernel/mempfix.c.
use toppers_hrp3_gr_rose.Common.{
  ℕ, ◌-◌, ◌/◌, ◌%◌, Bool, not, none, some, [], ◌∷◌, ltb, leb, ◌==◌, if◌then◌else◌, update,
}
use toppers_hrp3_gr_rose.Kernel.{
  Kernel, e_ok, e_ctx, e_id, e_par, e_oacv, e_macv, e_tmout, e_raster, wercd, p_tmevtb, Svc,
  returned, returned_out, waits, fault, check, violate_acptn, valid_id, with_runtsk, can_dispatch,
  in_task_unlocked, wait_tskid, lock_cpu, unlock_cpu, dispatch, dispatch_if_needed, mpf_wait_queue,
  head?, queue_delete_next, ts_waiting_mpf,
}
use toppers_hrp3_gr_rose.Wait.{
  wait_complete, wobj_make_wait, wobj_make_wait_tmout, init_wait_queue, tmo_pol, valid_tmout,
}
use toppers_hrp3_gr_rose.Mempfix.{
  index_mpf, mpfinib_of, index_null, index_alloc, get_mpf_block, put_block,
}

-- The branches of a call that acquires: `blocked` is what follows a pool without a free block.
unfoldable pub try_get : ℕ → (Kernel → Svc) → Kernel → Svc
unfolding get_mpf_block
try_get i blocked k =
    if ltb 0 (k.mpf.fblkcnt i)
    then (let (blk, k1) = get_mpf_block i k in returned_out e_ok (blk ∷ []) (unlock_cpu k1))
    else blocked k

unfoldable pub get_mpf_locked : ℕ → ℕ → Kernel → Svc
unfolding try_get
get_mpf_locked i me k =
    if k.raster me
    then returned e_raster (unlock_cpu k)
    else try_get i
        (λ k1.
          waits me (unlock_cpu (dispatch (wobj_make_wait (mpf_wait_queue i) ts_waiting_mpf me k1))))
        k

-- `writable` is what the probe of the memory behind p_blk says.
unfoldable pub get_mpf : ℕ → Bool → Kernel → Svc
get_mpf mpfid writable k =
    let i = index_mpf mpfid in
    check (can_dispatch k) e_ctx k (
      check (valid_id mpfid k.cfg.tmax_mpfid) e_id k (
        check writable e_macv k (
          check (not (violate_acptn (mpfinib_of i k).acvct.acptn1 k)) e_oacv k
            (with_runtsk k (λ me. get_mpf_locked i me (lock_cpu k))))))

unfoldable pub pget_mpf : ℕ → Bool → Kernel → Svc
unfolding try_get
pget_mpf mpfid writable k =
    let i = index_mpf mpfid in
    check (in_task_unlocked k) e_ctx k (
      check (valid_id mpfid k.cfg.tmax_mpfid) e_id k (
        check writable e_macv k (
          check (not (violate_acptn (mpfinib_of i k).acvct.acptn1 k)) e_oacv k
            (try_get i (λ k1. returned e_tmout (unlock_cpu k1)) (lock_cpu k)))))

unfoldable pub tget_mpf_locked : ℕ → ℕ → ℕ → Kernel → Svc
unfolding try_get
tget_mpf_locked i tmout me k =
    if k.raster me
    then returned e_raster (unlock_cpu k)
    else try_get i
        (λ k1.
          if tmout == tmo_pol
          then returned e_tmout (unlock_cpu k1)
          else waits me (
              unlock_cpu
                (dispatch (wobj_make_wait_tmout (mpf_wait_queue i) ts_waiting_mpf tmout me k1))))
        k

unfoldable pub tget_mpf : ℕ → ℕ → Bool → Kernel → Svc
tget_mpf mpfid tmout writable k =
    let i = index_mpf mpfid in
    check (can_dispatch k) e_ctx k (
      check (valid_id mpfid k.cfg.tmax_mpfid) e_id k (
        check writable e_macv k (
          check (valid_tmout tmout) e_par k (
            check (not (violate_acptn (mpfinib_of i k).acvct.acptn1 k)) e_oacv k
              (with_runtsk k (λ me. tget_mpf_locked i tmout me (lock_cpu k)))))))

-- What get_mpf and tget_mpf return when the task runs again.
unfoldable resumed_mpf : ℕ → Kernel → Svc
resumed_mpf t k = elim (k.winfo t) [
  | wercd e_ok ↦ returned_out e_ok (k.wblk t ∷ []) k
  | wercd e ↦ returned e k
  | p_tmevtb _ ↦ fault
]

unfoldable pub rel_mpf_locked : ℕ → ℕ → ℕ → Kernel → Svc
unfolding put_block
rel_mpf_locked i blk blkidx k = elim (head? (k.queue (mpf_wait_queue i))) [
  | some t ↦
      let k1 = queue_delete_next (mpf_wait_queue i) k in
      returned e_ok (
        unlock_cpu
          (dispatch_if_needed (wait_complete t (record k1 { wblk = update k1.wblk t blk }))))
  | none ↦ returned e_ok (unlock_cpu (put_block i blkidx k))
]

unfoldable pub rel_mpf : ℕ → ℕ → Kernel → Svc
unfolding rel_mpf_locked
rel_mpf mpfid blk k =
    let i = index_mpf mpfid in
    let blksz = (mpfinib_of i k).blksz in
    let blkoffset = blk - (mpfinib_of i k).mpf in
    let blkidx = blkoffset / blksz in
    check (in_task_unlocked k) e_ctx k (
      check (valid_id mpfid k.cfg.tmax_mpfid) e_id k (
        check (not (violate_acptn (mpfinib_of i k).acvct.acptn2 k)) e_oacv k (
          check (leb (mpfinib_of i k).mpf blk) e_par k (
            check (blkoffset % blksz == 0) e_par k (
              check (ltb blkidx (k.mpf.unused i)) e_par k (
                check (k.mpf.next i blkidx == index_alloc) e_par k
                  (rel_mpf_locked i blk blkidx (lock_cpu k))))))))

unfoldable pub ini_mpf_locked : ℕ → Kernel → Svc
ini_mpf_locked i k =
    let k1 = init_wait_queue (mpf_wait_queue i) k in
    returned e_ok (
      unlock_cpu (
        dispatch_if_needed (record k1 {
          mpf = record (k1.mpf) {
            fblkcnt = update k1.mpf.fblkcnt i (mpfinib_of i k).blkcnt;
            unused = update k1.mpf.unused i 0;
            freelist = update k1.mpf.freelist i index_null;
          };
        })))

unfoldable pub ini_mpf : ℕ → Kernel → Svc
ini_mpf mpfid k =
    let i = index_mpf mpfid in
    check (in_task_unlocked k) e_ctx k (
      check (valid_id mpfid k.cfg.tmax_mpfid) e_id k (
        check (not (violate_acptn (mpfinib_of i k).acvct.acptn3 k)) e_oacv k
          (ini_mpf_locked i (lock_cpu k))))

unfoldable ref_mpf : ℕ → Bool → Kernel → Svc
ref_mpf mpfid writable k =
    let i = index_mpf mpfid in
    check (in_task_unlocked k) e_ctx k (
      check (valid_id mpfid k.cfg.tmax_mpfid) e_id k (
        check writable e_macv k (
          check (not (violate_acptn (mpfinib_of i k).acvct.acptn4 k)) e_oacv k (
            returned_out e_ok
              (wait_tskid (head? (k.queue (mpf_wait_queue i))) ∷ k.mpf.fblkcnt i ∷ [])
              (unlock_cpu (lock_cpu k))))))
