-- ===== src/Semaphore.antt =====
-- kernel/semaphore.c: counting semaphores.

pub mod Count
pub mod Release
use toppers_hrp3_gr_rose.Common.{
  ℕ, zero, suc, ◌+◌, ◌-◌, Bool, true, false, not, ◌&&◌, ◌||◌, Option, none, some, List, [], ◌∷◌,
  ltb, leb, ◌==◌, if◌then◌else◌, update,
}
use toppers_hrp3_gr_rose.Kernel.{
  Kernel, Seminib, Er, e_ok, e_ctx, e_id, e_par, e_oacv, e_macv, e_qovr, e_tmout, e_raster, Svc,
  returned, returned_out, waits, check, violate_acptn, valid_id, with_runtsk, can_dispatch,
  in_task_unlocked, wait_tskid, lock_cpu, unlock_cpu, dispatch, dispatch_if_needed,
  dispatch_or_request, sem_wait_queue, head?, queue_delete_next, ts_waiting_sem,
}
use toppers_hrp3_gr_rose.Wait.{
  wait_complete, wobj_make_wait, wobj_make_wait_tmout, init_wait_queue, tmo_pol, valid_tmout,
}

-- INDEX_SEM.
abbrev pub index_sem : ℕ → ℕ
index_sem semid = semid - 1

abbrev pub seminib_of : ℕ → Kernel → Seminib
seminib_of i k = k.cfg.seminib i

-- The loop of initialize_semaphore, over the semaphores below `n`.
pub initialize_semaphore : ℕ → Kernel → Kernel
initialize_semaphore zero k = k
initialize_semaphore (suc i) k = initialize_semaphore i (record k {
  queue = update k.queue (sem_wait_queue i) [];
  semcnt = update k.semcnt i (k.cfg.seminib i).isemcnt;
})

-- sig_sem between lock_cpu and its return.
unfoldable pub sig_sem_locked : ℕ → Kernel → Svc
sig_sem_locked i k = elim (head? (k.queue (sem_wait_queue i))) [
  | some t ↦
      returned e_ok (
        unlock_cpu (dispatch_or_request (wait_complete t (queue_delete_next (sem_wait_queue i) k))))
  | none ↦
      if ltb (k.semcnt i) (seminib_of i k).maxsem
      then returned e_ok (unlock_cpu (record k { semcnt = update k.semcnt i (k.semcnt i + 1) }))
      else returned e_qovr (unlock_cpu k)
]

unfoldable pub sig_sem : ℕ → Kernel → Svc
sig_sem semid k =
    let i = index_sem semid in
    check (not k.cpu_locked) e_ctx k (
      check (valid_id semid k.cfg.tmax_semid) e_id k (
        check (not (violate_acptn (seminib_of i k).acvct.acptn1 k)) e_oacv k
          (sig_sem_locked i (lock_cpu k))))

-- `p_semcb->semcnt -= 1`.
abbrev pub take_sem : ℕ → Kernel → Kernel
take_sem i k = record k { semcnt = update k.semcnt i (k.semcnt i - 1) }

unfoldable pub wai_sem_locked : ℕ → ℕ → Kernel → Svc
wai_sem_locked i me k =
    if k.raster me
    then returned e_raster (unlock_cpu k)
    else if leb 1 (k.semcnt i)
    then returned e_ok (unlock_cpu (take_sem i k))
    else waits me (unlock_cpu (dispatch (wobj_make_wait (sem_wait_queue i) ts_waiting_sem me k)))

unfoldable pub wai_sem : ℕ → Kernel → Svc
wai_sem semid k =
    let i = index_sem semid in
    check (can_dispatch k) e_ctx k (
      check (valid_id semid k.cfg.tmax_semid) e_id k (
        check (not (violate_acptn (seminib_of i k).acvct.acptn2 k)) e_oacv k
          (with_runtsk k (λ me. wai_sem_locked i me (lock_cpu k)))))

unfoldable pub pol_sem_locked : ℕ → Kernel → Svc
pol_sem_locked i k =
    if leb 1 (k.semcnt i)
    then returned e_ok (unlock_cpu (take_sem i k))
    else returned e_tmout (unlock_cpu k)

unfoldable pub pol_sem : ℕ → Kernel → Svc
pol_sem semid k =
    let i = index_sem semid in
    check (in_task_unlocked k) e_ctx k (
      check (valid_id semid k.cfg.tmax_semid) e_id k (
        check (not (violate_acptn (seminib_of i k).acvct.acptn2 k)) e_oacv k
          (pol_sem_locked i (lock_cpu k))))

unfoldable pub twai_sem_locked : ℕ → ℕ → ℕ → Kernel → Svc
twai_sem_locked i tmout me k =
    if k.raster me
    then returned e_raster (unlock_cpu k)
    else if leb 1 (k.semcnt i)
    then returned e_ok (unlock_cpu (take_sem i k))
    else if tmout == tmo_pol
    then returned e_tmout (unlock_cpu k)
    else waits me
        (unlock_cpu (dispatch (wobj_make_wait_tmout (sem_wait_queue i) ts_waiting_sem tmout me k)))

unfoldable pub twai_sem : ℕ → ℕ → Kernel → Svc
twai_sem semid tmout k =
    let i = index_sem semid in
    check (can_dispatch k) e_ctx k (
      check (valid_id semid k.cfg.tmax_semid) e_id k (
        check (valid_tmout tmout) e_par k (
          check (not (violate_acptn (seminib_of i k).acvct.acptn2 k)) e_oacv k
            (with_runtsk k (λ me. twai_sem_locked i tmout me (lock_cpu k))))))

unfoldable pub ini_sem_locked : ℕ → Kernel → Svc
ini_sem_locked i k =
    let k1 = init_wait_queue (sem_wait_queue i) k in
    returned e_ok (
      unlock_cpu
        (dispatch_if_needed (record k1 { semcnt = update k1.semcnt i (seminib_of i k1).isemcnt })))

unfoldable pub ini_sem : ℕ → Kernel → Svc
ini_sem semid k =
    let i = index_sem semid in
    check (in_task_unlocked k) e_ctx k (
      check (valid_id semid k.cfg.tmax_semid) e_id k (
        check (not (violate_acptn (seminib_of i k).acvct.acptn3 k)) e_oacv k
          (ini_sem_locked i (lock_cpu k))))

-- `writable` is what KERNEL_PROBE_MEM_WRITE says of the packet.
unfoldable pub ref_sem : ℕ → Bool → Kernel → Svc
ref_sem semid writable k =
    let i = index_sem semid in
    check (in_task_unlocked k) e_ctx k (
      check (valid_id semid k.cfg.tmax_semid) e_id k (
        check writable e_macv k (
          check (not (violate_acptn (seminib_of i k).acvct.acptn4 k)) e_oacv k (
            returned_out e_ok (wait_tskid (head? (k.queue (sem_wait_queue i))) ∷ k.semcnt i ∷ [])
              (unlock_cpu (lock_cpu k))))))
