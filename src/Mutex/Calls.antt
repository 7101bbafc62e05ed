-- ===== src/Mutex/Calls.antt =====
-- The service calls of kernel/mutex.c.
use toppers_hrp3_gr_rose.Common.{
  ℕ, Bool, not, none, some, [], ◌∷◌, ◌==◌, if◌then◌else◌, update, same_ptr, is_null,
}
use toppers_hrp3_gr_rose.Kernel.{
  Kernel, e_ok, e_ctx, e_id, e_par, e_oacv, e_macv, e_obj, e_iluse, e_tmout, e_raster, Svc,
  returned, returned_out, waits, check, violate_acptn, valid_id, with_runtsk, can_dispatch,
  in_task_unlocked, wait_tskid, lock_cpu, unlock_cpu, dispatch, dispatch_if_needed, mtx_wait_queue,
  head?, ts_waiting_mtx,
}
use toppers_hrp3_gr_rose.Wait.{
  wobj_make_wait, wobj_make_wait_tmout, init_wait_queue, tmo_pol, valid_tmout,
}
use toppers_hrp3_gr_rose.Mutex.{
  index_mtx, mtxinib_of, violates_ceiling, mutex_acquire, mutex_drop_priority, mutex_release,
  unlink_mutex,
}

-- The branches of a call that locks: `blocked` is what follows a mutex that another task has
-- locked.
unfoldable pub try_lock : ℕ → ℕ → (Kernel → Svc) → Kernel → Svc
unfolding violates_ceiling mutex_acquire
try_lock i me blocked k =
    if violates_ceiling (k.bpriority me) i k
    then returned e_iluse (unlock_cpu k)
    else if is_null (k.mtx.p_loctsk i)
    then returned e_ok (unlock_cpu (mutex_acquire me i k))
    else if same_ptr (k.mtx.p_loctsk i) (some me)
    then returned e_obj (unlock_cpu k)
    else blocked k

unfoldable pub loc_mtx_locked : ℕ → ℕ → Kernel → Svc
unfolding try_lock
loc_mtx_locked i me k =
    if k.raster me
    then returned e_raster (unlock_cpu k)
    else try_lock i me
        (λ k1.
          waits me (unlock_cpu (dispatch (wobj_make_wait (mtx_wait_queue i) ts_waiting_mtx me k1))))
        k

unfoldable pub loc_mtx : ℕ → Kernel → Svc
loc_mtx mtxid k =
    let i = index_mtx mtxid in
    check (can_dispatch k) e_ctx k (
      check (valid_id mtxid k.cfg.tmax_mtxid) e_id k (
        check (not (violate_acptn (mtxinib_of i k).acvct.acptn1 k)) e_oacv k
          (with_runtsk k (λ me. loc_mtx_locked i me (lock_cpu k)))))

unfoldable pub ploc_mtx_locked : ℕ → ℕ → Kernel → Svc
unfolding try_lock
ploc_mtx_locked i me k = try_lock i me (λ k1. returned e_tmout (unlock_cpu k1)) k

unfoldable pub ploc_mtx : ℕ → Kernel → Svc
ploc_mtx mtxid k =
    let i = index_mtx mtxid in
    check (in_task_unlocked k) e_ctx k (
      check (valid_id mtxid k.cfg.tmax_mtxid) e_id k (
        check (not (violate_acptn (mtxinib_of i k).acvct.acptn1 k)) e_oacv k
          (with_runtsk k (λ me. ploc_mtx_locked i me (lock_cpu k)))))

unfoldable pub tloc_mtx_locked : ℕ → ℕ → ℕ → Kernel → Svc
unfolding try_lock
tloc_mtx_locked i tmout me k =
    if k.raster me
    then returned e_raster (unlock_cpu k)
    else try_lock i me
        (λ k1.
          if tmout == tmo_pol
          then returned e_tmout (unlock_cpu k1)
          else waits me (
              unlock_cpu
                (dispatch (wobj_make_wait_tmout (mtx_wait_queue i) ts_waiting_mtx tmout me k1))))
        k

unfoldable pub tloc_mtx : ℕ → ℕ → Kernel → Svc
tloc_mtx mtxid tmout k =
    let i = index_mtx mtxid in
    check (can_dispatch k) e_ctx k (
      check (valid_id mtxid k.cfg.tmax_mtxid) e_id k (
        check (valid_tmout tmout) e_par k (
          check (not (violate_acptn (mtxinib_of i k).acvct.acptn1 k)) e_oacv k
            (with_runtsk k (λ me. tloc_mtx_locked i tmout me (lock_cpu k))))))

-- What happens to a mutex that is the last that the task has locked.
unfoldable pub unlock_last : ℕ → ℕ → Kernel → Kernel
unfolding mutex_drop_priority mutex_release
unlock_last me i k =
    mutex_release i (
      mutex_drop_priority me i (record k { p_lastmtx = update k.p_lastmtx me (k.mtx.p_prevmtx i) }))

unfoldable pub unl_mtx_locked : ℕ → ℕ → Kernel → Svc
unfolding unlock_last
unl_mtx_locked i me k =
    if same_ptr (k.p_lastmtx me) (some i)
    then returned e_ok (unlock_cpu (dispatch_if_needed (unlock_last me i k)))
    else returned e_obj (unlock_cpu k)

unfoldable pub unl_mtx : ℕ → Kernel → Svc
unl_mtx mtxid k =
    let i = index_mtx mtxid in
    check (in_task_unlocked k) e_ctx k (
      check (valid_id mtxid k.cfg.tmax_mtxid) e_id k (
        check (not (violate_acptn (mtxinib_of i k).acvct.acptn1 k)) e_oacv k
          (with_runtsk k (λ me. unl_mtx_locked i me (lock_cpu k)))))

-- What ini_mtx does to the task that has locked the mutex.
unfoldable pub unlock_holder : ℕ → Kernel → Kernel
unfolding unlink_mutex mutex_drop_priority
unlock_holder i k = elim (k.mtx.p_loctsk i) [
  | none ↦ k
  | some t ↦ mutex_drop_priority t i (
      unlink_mutex t i
        (record k { mtx = record (k.mtx) { p_loctsk = update k.mtx.p_loctsk i none } }))
]

unfoldable pub ini_mtx_locked : ℕ → Kernel → Svc
unfolding unlock_holder
ini_mtx_locked i k =
    returned e_ok
      (unlock_cpu (dispatch_if_needed (unlock_holder i (init_wait_queue (mtx_wait_queue i) k))))

unfoldable pub ini_mtx : ℕ → Kernel → Svc
ini_mtx mtxid k =
    let i = index_mtx mtxid in
    check (in_task_unlocked k) e_ctx k (
      check (valid_id mtxid k.cfg.tmax_mtxid) e_id k (
        check (not (violate_acptn (mtxinib_of i k).acvct.acptn3 k)) e_oacv k
          (ini_mtx_locked i (lock_cpu k))))

unfoldable ref_mtx : ℕ → Bool → Kernel → Svc
ref_mtx mtxid writable k =
    let i = index_mtx mtxid in
    check (in_task_unlocked k) e_ctx k (
      check (valid_id mtxid k.cfg.tmax_mtxid) e_id k (
        check writable e_macv k (
          check (not (violate_acptn (mtxinib_of i k).acvct.acptn4 k)) e_oacv k (
            returned_out e_ok
              (wait_tskid (k.mtx.p_loctsk i) ∷ wait_tskid (head? (k.queue (mtx_wait_queue i))) ∷ [])
              (unlock_cpu (lock_cpu k))))))
