-- ===== src/TaskSync.antt =====
-- kernel/task_sync.c: sleeping, waking, suspending and releasing tasks.
use toppers_hrp3_gr_rose.Common.{
  ℕ, ◌-◌, Bool, true, false, not, ◌&&◌, some, leb, ◌==◌, if◌then◌else◌, update, bit_or, same_ptr,
}
use toppers_hrp3_gr_rose.TimeEvent
use toppers_hrp3_gr_rose.Kernel.{
  Kernel, e_ok, e_ctx, e_id, e_par, e_oacv, e_obj, e_qovr, e_tmout, e_rlwai, e_raster, value, Svc,
  returned, waits, check, violate_acptn, valid_id, with_runtsk, can_dispatch, in_task_unlocked,
  lock_cpu, unlock_cpu, dispatch, dispatch_if_needed, dispatch_or_request, tstat_dormant,
  tstat_runnable, tstat_waiting, tstat_suspended, tstat_wait_slp, without_suspended, ts_runnable,
  ts_suspended, ts_waiting_slp, ts_waiting_dly,
}
use toppers_hrp3_gr_rose.Task.{make_runnable, make_non_runnable}
use toppers_hrp3_gr_rose.Wait.{
  make_wait, make_wait_tmout, register_wait, make_non_wait, wait_complete, wait_dequeue_tmevtb,
  wait_dequeue_wobj, set_tstat, set_wercd, tmo_pol, valid_tmout, tmax_reltim,
}

-- INDEX_TSK.
abbrev pub index_tsk : ℕ → ℕ
index_tsk tskid = tskid - 1

abbrev pub tsk_self : ℕ
tsk_self = 0

-- The task that an ID names, where TSK_SELF is the running task if `self` holds. The body is
-- given the index of the task.
unfoldable pub with_task : Bool → ℕ → Kernel → (ℕ → Svc) → Svc
with_task self tskid k body =
    if (tskid == tsk_self) && self
    then with_runtsk k body
    else check (valid_id tskid k.cfg.tmax_tskid) e_id k (body (index_tsk tskid))

abbrev set_wupque : ℕ → Bool → Kernel → Kernel
set_wupque t b k = record k { wupque = update k.wupque t b }

unfoldable pub slp_tsk_locked : ℕ → Kernel → Svc
slp_tsk_locked me k =
    if k.raster me
    then returned e_raster (unlock_cpu k)
    else if k.wupque me
    then returned e_ok (unlock_cpu (set_wupque me false k))
    else waits me (unlock_cpu (dispatch (make_wait ts_waiting_slp me k)))

unfoldable pub slp_tsk : Kernel → Svc
slp_tsk k = check (can_dispatch k) e_ctx k (with_runtsk k (λ me. slp_tsk_locked me (lock_cpu k)))

unfoldable pub tslp_tsk_locked : ℕ → ℕ → Kernel → Svc
tslp_tsk_locked tmout me k =
    if k.raster me
    then returned e_raster (unlock_cpu k)
    else if k.wupque me
    then returned e_ok (unlock_cpu (set_wupque me false k))
    else if tmout == tmo_pol
    then returned e_tmout (unlock_cpu k)
    else waits me (unlock_cpu (dispatch (make_wait_tmout ts_waiting_slp tmout me k)))

unfoldable pub tslp_tsk : ℕ → Kernel → Svc
tslp_tsk tmout k = check (can_dispatch k) e_ctx k (
    check (valid_tmout tmout) e_par k (with_runtsk k (λ me. tslp_tsk_locked tmout me (lock_cpu k))))

unfoldable pub wup_tsk_locked : ℕ → Kernel → Svc
wup_tsk_locked t k =
    if tstat_dormant (k.tstat t)
    then returned e_obj (unlock_cpu k)
    else if tstat_wait_slp (k.tstat t)
    then returned e_ok (unlock_cpu (dispatch_or_request (wait_complete t k)))
    else if not (k.wupque t)
    then returned e_ok (unlock_cpu (set_wupque t true k))
    else returned e_qovr (unlock_cpu k)

unfoldable pub wup_tsk : ℕ → Kernel → Svc
unfolding with_task
wup_tsk tskid k = check (not k.cpu_locked) e_ctx k (
    with_task (not k.nontask_context) tskid k (λ t.
      check (not (violate_acptn (k.cfg.tinib t).acvct.acptn1 k)) e_oacv k
        (wup_tsk_locked t (lock_cpu k))))

unfoldable pub can_wup_locked : ℕ → Kernel → Svc
can_wup_locked t k =
    if tstat_dormant (k.tstat t)
    then returned e_obj (unlock_cpu k)
    else returned (value (if k.wupque t then 1 else 0)) (unlock_cpu (set_wupque t false k))

unfoldable pub can_wup : ℕ → Kernel → Svc
unfolding with_task
can_wup tskid k = check (in_task_unlocked k) e_ctx k (
    with_task true tskid k (λ t.
      check (not (violate_acptn (k.cfg.tinib t).acvct.acptn1 k)) e_oacv k
        (can_wup_locked t (lock_cpu k))))

-- The hook of kernel/messagebuf.c is an argument, as in Wait.
module _ (mbfhook_dequeue_wobj : ℕ → Kernel → Kernel) where
  unfoldable pub rel_wai_locked : ℕ → Kernel → Svc
  rel_wai_locked t k =
      if not (tstat_waiting (k.tstat t))
      then returned e_obj (unlock_cpu k)
      else returned e_ok (
          unlock_cpu (
            dispatch_or_request (
              make_non_wait t (
                set_wercd t e_rlwai
                  (wait_dequeue_tmevtb t (wait_dequeue_wobj mbfhook_dequeue_wobj t k))))))

  unfoldable pub rel_wai : ℕ → Kernel → Svc
  rel_wai tskid k =
      let t = index_tsk tskid in
      check (not k.cpu_locked) e_ctx k (
        check (valid_id tskid k.cfg.tmax_tskid) e_id k (
          check (not (violate_acptn (k.cfg.tinib t).acvct.acptn2 k)) e_oacv k
            (rel_wai_locked t (lock_cpu k))))

unfoldable pub sus_tsk_locked : ℕ → Kernel → Svc
sus_tsk_locked t k =
    if same_ptr (some t) k.p_runtsk && not k.dspflg
    then returned e_ctx (unlock_cpu k)
    else if tstat_dormant (k.tstat t)
    then returned e_obj (unlock_cpu k)
    else if k.raster t
    then returned e_raster (unlock_cpu k)
    else if tstat_runnable (k.tstat t)
    then returned e_ok
        (unlock_cpu (dispatch_if_needed (make_non_runnable t (set_tstat t ts_suspended k))))
    else if tstat_suspended (k.tstat t)
    then returned e_qovr (unlock_cpu k)
    else returned e_ok (unlock_cpu (set_tstat t (bit_or (k.tstat t) ts_suspended) k))

unfoldable pub sus_tsk : ℕ → Kernel → Svc
unfolding with_task
sus_tsk tskid k = check (in_task_unlocked k) e_ctx k (
    with_task true tskid k (λ t.
      check (not (violate_acptn (k.cfg.tinib t).acvct.acptn2 k)) e_oacv k
        (sus_tsk_locked t (lock_cpu k))))

unfoldable pub rsm_tsk_locked : ℕ → Kernel → Svc
rsm_tsk_locked t k =
    if not (tstat_suspended (k.tstat t))
    then returned e_obj (unlock_cpu k)
    else if not (tstat_waiting (k.tstat t))
    then returned e_ok
        (unlock_cpu (dispatch_if_needed (make_runnable t (set_tstat t ts_runnable k))))
    else returned e_ok (unlock_cpu (set_tstat t (without_suspended (k.tstat t)) k))

unfoldable pub rsm_tsk : ℕ → Kernel → Svc
rsm_tsk tskid k =
    let t = index_tsk tskid in
    check (in_task_unlocked k) e_ctx k (
      check (valid_id tskid k.cfg.tmax_tskid) e_id k (
        check (not (violate_acptn (k.cfg.tinib t).acvct.acptn2 k)) e_oacv k
          (rsm_tsk_locked t (lock_cpu k))))

unfoldable pub dly_tsk_locked : ℕ → ℕ → Kernel → Svc
unfolding register_wait
dly_tsk_locked dlytim me k =
    if k.raster me
    then returned e_raster (unlock_cpu k)
    else waits me (
        unlock_cpu (
          dispatch (
            register_wait me TimeEvent.wait_tmout_ok dlytim
              (make_non_runnable me (set_tstat me ts_waiting_dly k)))))

unfoldable pub dly_tsk : ℕ → Kernel → Svc
dly_tsk dlytim k = check (can_dispatch k) e_ctx k (
    check (leb dlytim tmax_reltim) e_par k
      (with_runtsk k (λ me. dly_tsk_locked dlytim me (lock_cpu k))))
