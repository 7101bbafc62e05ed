-- ===== src/System/Pools.antt =====
-- The service calls of kernel/mempfix.c, over steady kernels.
use toppers_hrp3_gr_rose.Common.{
  ℕ, ◌≡◌, refl, inl, inr, Bool, true, some, arith, ltb, ◌==◌, update, if◌then◌else◌, if-both,
  Bool-cases, Option-cases,
}
use toppers_hrp3_gr_rose.Kernel.{
  Kernel, Svc, returned, waits, head?, queue_delete_next, lock_cpu, unlock_cpu, dispatch, e_ok,
  e_tmout, ts_waiting_mpf, tstat_wait_wobj, mpf_wait_queue,
}
use toppers_hrp3_gr_rose.Wait.{
  wait_complete, tmo_pol, wobj_make_wait, wobj_make_wait_tmout, init_wait_queue,
}
use toppers_hrp3_gr_rose.Service.{Leaves, with_runtsk-Leaves}
use toppers_hrp3_gr_rose.Mempfix.{index_mpf, index_null, get_mpf_block, put_block}
use toppers_hrp3_gr_rose.Mempfix.Alloc.{get_fresh, get_freed}
use toppers_hrp3_gr_rose.Mempfix.Calls.{
  try_get, get_mpf, get_mpf_locked, pget_mpf, tget_mpf, tget_mpf_locked, rel_mpf, rel_mpf_locked,
  ini_mpf, ini_mpf_locked,
}
use toppers_hrp3_gr_rose.System.Moves.{
  IsSound, first-not_runnable, first-IsSound, first-IsFree, end_wait-IsSound,
}
use toppers_hrp3_gr_rose.System.Releases.{init_wait_queue-IsSound}
use toppers_hrp3_gr_rose.System.Steady.{
  IsSteady, IsSteady-IsSound, core-IsSound, core-IsSteady, dispatch_if_needed-IsSteady,
  lock-IsSteady, unlock-IsSteady, check-IsSteady, check3-IsSteady,
}
use toppers_hrp3_gr_rose.System.Transfers.{
  raster-IsSteady, poll-IsSteady, limit-IsSteady, wait-IsSteady, wait_tmout-IsSteady,
}

kind : tstat_wait_wobj ts_waiting_mpf ≡ true
unfolding tstat_wait_wobj
kind = refl

module _ (k : Kernel) (i : ℕ) (v : IsSteady k) where
  sound : IsSound k
  sound = IsSteady-IsSound k v

  get_mpf_block-IsSteady : IsSteady (get_mpf_block i k).1
  get_mpf_block-IsSteady = elim (Bool-cases (k.mpf.freelist i == index_null)) [
    | inl e ↦ rw (get_fresh i k (ground arith)) (core-IsSteady k _ refl refl refl v)
    | inr e ↦ rw (get_freed i k e) (core-IsSteady k _ refl refl refl v)
  ]

  try_get-IsSteady :
      (blocked : Kernel → Svc) → Leaves IsSteady (blocked k) → Leaves IsSteady (try_get i blocked k)
  unfolding try_get Leaves
  try_get-IsSteady blocked h =
      if-both (Leaves IsSteady) (ltb 0 (k.mpf.fblkcnt i))
        (unlock-IsSteady (get_mpf_block i k).1 get_mpf_block-IsSteady) h

  get_mpf_locked-IsSteady : (me : ℕ) → Leaves IsSteady (get_mpf_locked i me k)
  unfolding get_mpf_locked
  get_mpf_locked-IsSteady me = if-both (Leaves IsSteady) (k.raster me) (raster-IsSteady k v) (
      try_get-IsSteady
        (λ k1.
          waits me (unlock_cpu (dispatch (wobj_make_wait (mpf_wait_queue i) ts_waiting_mpf me k1))))
        (wait-IsSteady k sound (mpf_wait_queue i) me ts_waiting_mpf (omega arith) kind
          (omega arith)))

  tget_mpf_locked-IsSteady : (tmout me : ℕ) → Leaves IsSteady (tget_mpf_locked i tmout me k)
  unfolding tget_mpf_locked
  tget_mpf_locked-IsSteady tmout me =
      if-both (Leaves IsSteady) (k.raster me) (raster-IsSteady k v) (
        try_get-IsSteady
          (λ k1.
            if tmout == tmo_pol
            then returned e_tmout (unlock_cpu k1)
            else waits me (
                unlock_cpu
                  (dispatch (wobj_make_wait_tmout (mpf_wait_queue i) ts_waiting_mpf tmout me k1))))
          (limit-IsSteady k v tmout _ (
            wait_tmout-IsSteady k sound (mpf_wait_queue i) me ts_waiting_mpf (omega arith) kind
              (omega arith) tmout)))

  rel_mpf_locked-IsSteady : (blk blkidx : ℕ) → Leaves IsSteady (rel_mpf_locked i blk blkidx k)
  unfolding rel_mpf_locked put_block queue_delete_next Leaves wait_complete
  rel_mpf_locked-IsSteady blk blkidx = elim (Option-cases (head? (k.queue (mpf_wait_queue i)))) [
    | inl e ↦ rw (e, Leaves) (core-IsSteady k _ refl refl refl v)
    | inr (t, e) ↦
        let q = mpf_wait_queue i in
        let k1 = queue_delete_next q k in
        rw (e, Leaves)
          (dispatch_if_needed-IsSteady _ (
            end_wait-IsSound (record k1 { wblk = update k1.wblk t blk }) t e_ok
              (core-IsSound k1 _ refl (first-IsSound k q (omega arith) sound))
              (first-IsFree k q t sound e) (first-not_runnable k q t sound (omega arith) e)))
  ]

  ini_mpf_locked-IsSteady : Leaves IsSteady (ini_mpf_locked i k)
  unfolding ini_mpf_locked Leaves
  ini_mpf_locked-IsSteady = dispatch_if_needed-IsSteady _ (
      core-IsSound (init_wait_queue (mpf_wait_queue i) k) _ refl
        (init_wait_queue-IsSound (mpf_wait_queue i) k (omega arith) sound))

module _ (k : Kernel) (mpfid : ℕ) (v : IsSteady k) where
  i : ℕ
  i = index_mpf mpfid

  locked : IsSteady (lock_cpu k)
  locked = lock-IsSteady k v

  pub pget_mpf-IsSteady : (writable : Bool) → Leaves IsSteady (pget_mpf mpfid writable k)
  unfolding pget_mpf i
  pget_mpf-IsSteady writable = check3-IsSteady _ _ _ _ _ _ k _ v (
      check-IsSteady _ _ k _ v (
        try_get-IsSteady (lock_cpu k) i locked (λ k1. returned e_tmout (unlock_cpu k1))
          (poll-IsSteady (lock_cpu k) locked)))

  pub rel_mpf-IsSteady : (blk : ℕ) → Leaves IsSteady (rel_mpf mpfid blk k)
  unfolding rel_mpf i
  rel_mpf-IsSteady blk = check3-IsSteady _ _ _ _ _ _ k _ v (
      check3-IsSteady _ _ _ _ _ _ k _ v
        (check-IsSteady _ _ k _ v (rel_mpf_locked-IsSteady (lock_cpu k) i locked blk _)))

  pub ini_mpf-IsSteady : Leaves IsSteady (ini_mpf mpfid k)
  unfolding ini_mpf i
  ini_mpf-IsSteady =
      check3-IsSteady _ _ _ _ _ _ k _ v (ini_mpf_locked-IsSteady (lock_cpu k) i locked)

  module _ (me : ℕ) (run : k.p_runtsk ≡ some me) (writable : Bool) where
    pub get_mpf-IsSteady : Leaves IsSteady (get_mpf mpfid writable k)
    unfolding get_mpf i
    get_mpf-IsSteady = check3-IsSteady _ _ _ _ _ _ k _ v (
        check-IsSteady _ _ k _ v (
          with_runtsk-Leaves IsSteady k me _ run
            (get_mpf_locked-IsSteady (lock_cpu k) i locked me)))

    pub tget_mpf-IsSteady : (tmout : ℕ) → Leaves IsSteady (tget_mpf mpfid tmout writable k)
    unfolding tget_mpf i
    tget_mpf-IsSteady tmout = check3-IsSteady _ _ _ _ _ _ k _ v (
        check-IsSteady _ _ k _ v (
          check-IsSteady _ _ k _ v (
            with_runtsk-Leaves IsSteady k me _ run
              (tget_mpf_locked-IsSteady (lock_cpu k) i locked tmout me))))
