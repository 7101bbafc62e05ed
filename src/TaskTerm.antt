-- ===== src/TaskTerm.antt =====
-- kernel/task_term.c: ends of tasks and requests for them.
use toppers_hrp3_gr_rose.Common.{
  ℕ, Bool, true, false, not, ◌&&◌, none, some, if◌then◌else◌, update, same_ptr,
}
use toppers_hrp3_gr_rose.Kernel.{
  Kernel, e_ok, e_ctx, e_id, e_oacv, e_obj, e_iluse, e_raster, Svc, returned, exited, check,
  violate_acptn, valid_id, with_runtsk, in_task_unlocked, lock_cpu, unlock_cpu, dispatch,
  dispatch_if_needed, tstat_dormant, tstat_runnable, tstat_waiting, ts_runnable,
}
use toppers_hrp3_gr_rose.Task.{make_runnable}
use toppers_hrp3_gr_rose.Wait.{wait_dequeue_tmevtb, wait_dequeue_wobj, set_tstat, set_wercd}
use toppers_hrp3_gr_rose.Mutex.{mutex_release_all}
use toppers_hrp3_gr_rose.Messagebuf.{messagebuf_dequeue_wobj}
use toppers_hrp3_gr_rose.TaskManage.{task_terminate}
use toppers_hrp3_gr_rose.TaskSync.{index_tsk}

-- task_terminate with the hooks that initialize_mutex and initialize_messagebuf install.
abbrev pub terminate : ℕ → Kernel → Kernel
terminate = task_terminate messagebuf_dequeue_wobj mutex_release_all

-- exit_and_dispatch, after which the CPU is unlocked for the task that runs next.
abbrev pub exit_and_dispatch : Kernel → Svc
exit_and_dispatch k = exited (unlock_cpu (dispatch k))

-- set_dspflg of kernel/domain.c is an argument, which is in Domain/Windows.
module _ (set_dspflg : Kernel → Kernel) where
  unfoldable pub ext_tsk_locked : ℕ → Kernel → Svc
  ext_tsk_locked me k =
      let k1 = if k.dspflg then k else set_dspflg (record k { enadsp = true }) in
      exit_and_dispatch (terminate me k1)

  unfoldable pub ext_tsk : Kernel → Svc
  unfolding ext_tsk_locked
  ext_tsk k =
      check (not k.nontask_context) e_ctx k (with_runtsk k (λ me. ext_tsk_locked me (lock_cpu k)))

-- A task that waits, or is suspended, runs again to see that it is to end.
unfoldable pub wake_to_end : ℕ → Kernel → Kernel
wake_to_end t k =
    let k1 =
      if tstat_waiting (k.tstat t)
      then set_wercd t e_raster
          (wait_dequeue_tmevtb t (wait_dequeue_wobj messagebuf_dequeue_wobj t k))
      else k in
    make_runnable t (set_tstat t ts_runnable k1)

unfoldable pub ras_ter_locked : ℕ → Kernel → Svc
unfolding wake_to_end
ras_ter_locked t k =
    if tstat_dormant (k.tstat t)
    then returned e_obj (unlock_cpu k)
    else if k.enater t
    then returned e_ok (unlock_cpu (dispatch_if_needed (terminate t k)))
    else (let k1 = record k { raster = update k.raster t true } in
        if not (tstat_runnable (k.tstat t))
        then returned e_ok (unlock_cpu (dispatch_if_needed (wake_to_end t k1)))
        else returned e_ok (unlock_cpu k1))

unfoldable pub ras_ter : ℕ → Kernel → Svc
ras_ter tskid k =
    let t = index_tsk tskid in
    check (in_task_unlocked k) e_ctx k (
      check (valid_id tskid k.cfg.tmax_tskid) e_id k (
        check (not (violate_acptn (k.cfg.tinib t).acvct.acptn2 k)) e_oacv k
          (check (not (same_ptr (some t) k.p_runtsk)) e_iluse k (ras_ter_locked t (lock_cpu k)))))

-- The access vector of the domain of a task.
abbrev pub violates_domain2 : ℕ → Kernel → Bool
violates_domain2 t k = violate_acptn (k.cfg.dominib (k.p_dominib t)).acvct.acptn2 k

unfoldable pub dis_ter : Kernel → Svc
dis_ter k = check (in_task_unlocked k) e_ctx k (
    with_runtsk k (λ me.
      check (not (violates_domain2 me k)) e_oacv k
        (returned e_ok (unlock_cpu (record (lock_cpu k) { enater = update k.enater me false })))))

unfoldable pub ena_ter_locked : ℕ → Kernel → Svc
ena_ter_locked me k =
    if k.raster me && k.dspflg
    then exit_and_dispatch (terminate me k)
    else returned e_ok (unlock_cpu (record k { enater = update k.enater me true }))

unfoldable pub ena_ter : Kernel → Svc
unfolding ena_ter_locked
ena_ter k = check (in_task_unlocked k) e_ctx k (
    with_runtsk k
      (λ me. check (not (violates_domain2 me k)) e_oacv k (ena_ter_locked me (lock_cpu k))))

unfoldable pub sns_ter : Kernel → Bool
sns_ter k = elim k.p_runtsk [ none ↦ true | some me ↦ not (k.enater me) ]

unfoldable pub ter_tsk_locked : ℕ → Kernel → Svc
ter_tsk_locked t k =
    if tstat_dormant (k.tstat t)
    then returned e_obj (unlock_cpu k)
    else returned e_ok (unlock_cpu (dispatch_if_needed (terminate t k)))

unfoldable pub ter_tsk : ℕ → Kernel → Svc
unfolding ter_tsk_locked
ter_tsk tskid k =
    let t = index_tsk tskid in
    check (in_task_unlocked k) e_ctx k (
      check (valid_id tskid k.cfg.tmax_tskid) e_id k (
        check (not (violate_acptn (k.cfg.tinib t).acvct.acptn3 k)) e_oacv k
          (check (not (same_ptr (some t) k.p_runtsk)) e_iluse k (ter_tsk_locked t (lock_cpu k)))))
