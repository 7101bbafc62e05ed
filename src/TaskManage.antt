-- ===== src/TaskManage.antt =====
-- kernel/task_manage.c, and task_terminate and initialize_task of kernel/task.c.
use toppers_hrp3_gr_rose.Common.{
  ℕ, ◌+◌, ◌-◌, Bool, true, false, not, ◌&&◌, ◌||◌, none, some, List, [], ◌∷◌, leb, ◌==◌,
  if◌then◌else◌, update, bit_and, same_ptr, is_null,
}
use toppers_hrp3_gr_rose.Kernel.{
  Kernel, e_ok, e_ctx, e_par, e_oacv, e_macv, e_obj, e_iluse, e_qovr, value, Svc, returned,
  returned_out, check, violate_acptn, in_task_unlocked, lock_cpu, unlock_cpu, dispatch_if_needed,
  dispatch_or_request, tstat_dormant, tstat_runnable, tstat_waiting, tstat_suspended, with_runtsk,
  without_suspended, ts_waiting_mtx, tdom_kernel,
}
use toppers_hrp3_gr_rose.Task.{make_non_runnable, make_dormant, make_active}
use toppers_hrp3_gr_rose.Wait.{wait_dequeue_tmevtb, wait_dequeue_wobj, change_priority}
use toppers_hrp3_gr_rose.TaskSync.{with_task}

abbrev ta_act : ℕ
ta_act = 0x01

abbrev ta_noactque : ℕ
ta_noactque = 0x02

-- The body of the loop of initialize_task for one task. `dominib_index` is the entry of the
-- table of domains for a user domain; the kernel domain has entry 0.
unfoldable initialize_tcb : (ℕ → ℕ) → ℕ → Kernel → Kernel
initialize_tcb get_dominib j k =
    let domid = (k.cfg.tinib j).domid in
    let dom = if domid == tdom_kernel then 0 else get_dominib domid in
    let k1 = record k {
      p_dominib = update k.p_dominib j dom;
      p_schedcb = update k.p_schedcb j (k.cfg.dominib dom).p_schedcb;
      actque = update k.actque j false;
    } in
    let k2 = make_dormant j k1 in
    let k3 = record k2 { p_lastmtx = update k2.p_lastmtx j none } in
    if not (bit_and (k.cfg.tinib j).tskatr ta_act == 0) then make_active j k3 else k3

-- The loop over torder_table.
unfoldable initialize_tcbs : (ℕ → ℕ) → List ℕ → Kernel → Kernel
unfolding initialize_tcb
initialize_tcbs get_dominib [] k = k
initialize_tcbs get_dominib (j ∷ js) k =
    initialize_tcbs get_dominib js (initialize_tcb get_dominib j k)

unfoldable initialize_task : (ℕ → ℕ) → List ℕ → Kernel → Kernel
unfolding initialize_tcbs
initialize_task get_dominib torder k =
    initialize_tcbs get_dominib torder
      (record k { p_runtsk = none; p_schedtsk = none; enadsp = true; dspflg = true })

-- The hooks of kernel/mutex.c and kernel/messagebuf.c are arguments.
module _ (mbfhook_dequeue_wobj : ℕ → Kernel → Kernel)
    (mtxhook_release_all : ℕ → Kernel → Kernel) where
  unfoldable pub task_terminate : ℕ → Kernel → Kernel
  task_terminate t k =
      let k1 =
        if tstat_runnable (k.tstat t)
        then make_non_runnable t k
        else if tstat_waiting (k.tstat t)
        then wait_dequeue_tmevtb t (wait_dequeue_wobj mbfhook_dequeue_wobj t k)
        else k in
      let k2 = if is_null (k1.p_lastmtx t) then k1 else mtxhook_release_all t k1 in
      let k3 = make_dormant t k2 in
      if k3.actque t then make_active t (record k3 { actque = update k3.actque t false }) else k3

unfoldable pub act_tsk_locked : ℕ → Kernel → Svc
act_tsk_locked t k =
    if tstat_dormant (k.tstat t)
    then returned e_ok (unlock_cpu (dispatch_or_request (make_active t k)))
    else if not (bit_and (k.cfg.tinib t).tskatr ta_noactque == 0) || k.actque t
    then returned e_qovr (unlock_cpu k)
    else returned e_ok (unlock_cpu (record k { actque = update k.actque t true }))

unfoldable pub act_tsk : ℕ → Kernel → Svc
act_tsk tskid k = check (not k.cpu_locked) e_ctx k (
    with_task (not k.nontask_context) tskid k (λ t.
      check (not (violate_acptn (k.cfg.tinib t).acvct.acptn1 k)) e_oacv k
        (act_tsk_locked t (lock_cpu k))))

unfoldable pub can_act_locked : ℕ → Kernel → Svc
can_act_locked t k =
    returned (value (if k.actque t then 1 else 0))
      (unlock_cpu (record k { actque = update k.actque t false }))

unfoldable pub can_act : ℕ → Kernel → Svc
can_act tskid k = check (in_task_unlocked k) e_ctx k (
    with_task true tskid k (λ t.
      check (not (violate_acptn (k.cfg.tinib t).acvct.acptn1 k)) e_oacv k
        (can_act_locked t (lock_cpu k))))

abbrev tts_run : ℕ
tts_run = 0x01

abbrev tts_rdy : ℕ
tts_rdy = 0x02

abbrev tts_wai : ℕ
tts_wai = 0x04

abbrev tts_sus : ℕ
tts_sus = 0x08

abbrev tts_was : ℕ
tts_was = 0x0c

abbrev tts_dmt : ℕ
tts_dmt = 0x10

-- The state that get_tst reports.
unfoldable pub tskstat : ℕ → Kernel → ℕ
tskstat t k =
    let tstat = k.tstat t in
    if tstat_dormant tstat
    then tts_dmt
    else if tstat_suspended tstat
    then (if tstat_waiting tstat then tts_was else tts_sus)
    else if tstat_waiting tstat
    then tts_wai
    else if same_ptr (some t) k.p_runtsk
    then tts_run
    else tts_rdy

unfoldable get_tst : ℕ → Bool → Kernel → Svc
get_tst tskid writable k = check (in_task_unlocked k) e_ctx k (
    with_task true tskid k (λ t. check writable e_macv k (
      check (not (violate_acptn (k.cfg.tinib t).acvct.acptn4 k)) e_oacv k
        (returned_out e_ok (tskstat t k ∷ []) (unlock_cpu (lock_cpu k))))))

abbrev tpri_ini : ℕ
tpri_ini = 0

-- VALID_TPRI.
abbrev pub valid_tpri : ℕ → Bool
valid_tpri tskpri = leb 1 tskpri && leb tskpri 16

module _ (mtxhook_check_ceilpri : ℕ → ℕ → Kernel → Bool)
    (mtxhook_scan_ceilmtx : ℕ → Kernel → Bool) where
  unfoldable pub chg_pri_locked : ℕ → ℕ → Kernel → Svc
  chg_pri_locked t newbpri k =
      let holds = not (is_null (k.p_lastmtx t)) in
      if tstat_dormant (k.tstat t)
      then returned e_obj (unlock_cpu k)
      else if (holds || (without_suspended (k.tstat t) == ts_waiting_mtx))
          && not (mtxhook_check_ceilpri t newbpri k)
      then returned e_iluse (unlock_cpu k)
      else (let k1 = record k { bpriority = update k.bpriority t newbpri } in
          if not holds || not (mtxhook_scan_ceilmtx t k1)
          then returned e_ok (unlock_cpu (dispatch_if_needed (change_priority t newbpri false k1)))
          else returned e_ok (unlock_cpu k1))

  unfoldable pub chg_pri : ℕ → ℕ → Kernel → Svc
  unfolding chg_pri_locked
  chg_pri tskid tskpri k = check (in_task_unlocked k) e_ctx k (
      with_task true tskid k (λ t.
        check (not (violate_acptn (k.cfg.tinib t).acvct.acptn2 k)) e_oacv k (
          if tskpri == tpri_ini
          then chg_pri_locked t (k.cfg.tinib t).ipriority (lock_cpu k)
          else check (valid_tpri tskpri) e_par k (chg_pri_locked t (tskpri - 1) (lock_cpu k)))))

unfoldable get_pri : ℕ → Bool → Kernel → Svc
get_pri tskid writable k = check (in_task_unlocked k) e_ctx k (
    with_task true tskid k (λ t. check writable e_macv k (
      check (not (violate_acptn (k.cfg.tinib t).acvct.acptn4 k)) e_oacv k (
        if tstat_dormant (k.tstat t)
        then returned e_obj (unlock_cpu (lock_cpu k))
        else returned_out e_ok ((k.priority t + 1) ∷ []) (unlock_cpu (lock_cpu k))))))

-- `writable` is what the probe of the memory behind p_exinf says.
unfoldable get_inf : Bool → Kernel → Svc
get_inf writable k = check (in_task_unlocked k) e_ctx k (
    check writable e_macv k
      (with_runtsk k (λ me. returned_out e_ok ((k.cfg.tinib me).exinf ∷ []) k)))
