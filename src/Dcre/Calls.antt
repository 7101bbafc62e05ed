-- ===== src/Dcre/Calls.antt =====
-- The service calls of extension/dcre/kernel/semaphore.c on a semaphore that may not exist.
use toppers_hrp3_gr_rose.Common.{ℕ, Bool, not, [], ◌∷◌, ◌==◌, if◌then◌else◌}
use toppers_hrp3_gr_rose.Kernel.{
  Kernel, e_ok, e_ctx, e_id, e_par, e_oacv, e_macv, e_noexs, Svc, returned, returned_out, check,
  violate_acptn, valid_id, with_runtsk, can_dispatch, in_task_unlocked, wait_tskid, head?, lock_cpu,
  unlock_cpu, sem_wait_queue,
}
use toppers_hrp3_gr_rose.Wait.{valid_tmout}
use toppers_hrp3_gr_rose.Semaphore.{
  index_sem, seminib_of, sig_sem_locked, wai_sem_locked, pol_sem_locked, twai_sem_locked,
  ini_sem_locked,
}
use toppers_hrp3_gr_rose.Dcre.{sematr_of, ta_noexs}

-- The checks that the service calls make with the CPU locked: E_NOEXS, and E_OACV.
unfoldable pub with_semcb : ℕ → ℕ → Kernel → Svc → Svc
with_semcb i acptn k body =
    if sematr_of i k == ta_noexs
    then returned e_noexs (unlock_cpu k)
    else if violate_acptn acptn k
    then returned e_oacv (unlock_cpu k)
    else body

unfoldable pub dcre_sig_sem : ℕ → Kernel → Svc
unfolding with_semcb sig_sem_locked
dcre_sig_sem semid k =
    let i = index_sem semid in
    check (not k.cpu_locked) e_ctx k (
      check (valid_id semid k.cfg.tmax_semid) e_id k
        (with_semcb i (seminib_of i k).acvct.acptn1 (lock_cpu k) (sig_sem_locked i (lock_cpu k))))

unfoldable pub dcre_wai_sem : ℕ → Kernel → Svc
unfolding with_semcb
dcre_wai_sem semid k =
    let i = index_sem semid in
    check (can_dispatch k) e_ctx k (
      check (valid_id semid k.cfg.tmax_semid) e_id k (
        with_runtsk k (λ me.
          with_semcb i (seminib_of i k).acvct.acptn2 (lock_cpu k)
            (wai_sem_locked i me (lock_cpu k)))))

unfoldable pub dcre_pol_sem : ℕ → Kernel → Svc
unfolding with_semcb
dcre_pol_sem semid k =
    let i = index_sem semid in
    check (in_task_unlocked k) e_ctx k (
      check (valid_id semid k.cfg.tmax_semid) e_id k
        (with_semcb i (seminib_of i k).acvct.acptn2 (lock_cpu k) (pol_sem_locked i (lock_cpu k))))

unfoldable pub dcre_twai_sem : ℕ → ℕ → Kernel → Svc
unfolding with_semcb
dcre_twai_sem semid tmout k =
    let i = index_sem semid in
    check (can_dispatch k) e_ctx k (
      check (valid_id semid k.cfg.tmax_semid) e_id k (
        check (valid_tmout tmout) e_par k (
          with_runtsk k (λ me.
            with_semcb i (seminib_of i k).acvct.acptn2 (lock_cpu k)
              (twai_sem_locked i tmout me (lock_cpu k))))))

unfoldable pub dcre_ini_sem : ℕ → Kernel → Svc
unfolding with_semcb
dcre_ini_sem semid k =
    let i = index_sem semid in
    check (in_task_unlocked k) e_ctx k (
      check (valid_id semid k.cfg.tmax_semid) e_id k
        (with_semcb i (seminib_of i k).acvct.acptn3 (lock_cpu k) (ini_sem_locked i (lock_cpu k))))

unfoldable dcre_ref_sem : ℕ → Bool → Kernel → Svc
unfolding with_semcb
dcre_ref_sem semid writable k =
    let i = index_sem semid in
    check (in_task_unlocked k) e_ctx k (
      check (valid_id semid k.cfg.tmax_semid) e_id k (
        check writable e_macv k (
          with_semcb i (seminib_of i k).acvct.acptn4 (lock_cpu k) (
            returned_out e_ok (wait_tskid (head? (k.queue (sem_wait_queue i))) ∷ k.semcnt i ∷ [])
              (unlock_cpu (lock_cpu k))))))
