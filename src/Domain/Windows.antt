-- ===== src/Domain/Windows.antt =====
-- kernel/domain.c: the switches of the system cycle and of the time windows, and
-- tmevt_proc_top of kernel/time_event.c.
use toppers_hrp3_gr_rose.Common.{
  ℕ, zero, suc, ◌+◌, ◌-◌, ◌%◌, Bool, true, false, not, Option, none, some, ltb, ◌==◌, if◌then◌else◌,
  update, is_null,
}
use toppers_hrp3_gr_rose.TimeEvent.{
  Cback, tmevtb_enqueue, take_due, tmevt_heap_kernel, tmevt_heap_idle, update_current_evttim,
  calc_current_evttim_ub,
}
use toppers_hrp3_gr_rose.TimeEvent.Heap.{evttim_mod}
use toppers_hrp3_gr_rose.Kernel.{
  Kernel, e_ok, e_ctx, e_id, e_oacv, e_obj, Svc, returned, check, violate_acptn, tacp_kernel,
  valid_id, in_task_unlocked, lock_cpu, unlock_cpu, dispatch_if_needed, schedcb_kernel,
  schedcb_idle,
}
use toppers_hrp3_gr_rose.Task.{update_schedtsk}
use toppers_hrp3_gr_rose.Wait.{on_tmevt}
use toppers_hrp3_gr_rose.Domain.{
  scyc_tmevtb, sominib_of, twdinib_of, twdtimer_start, twdtimer_stop, suspend_proc_tmevt,
}

-- The callbacks of time events, and the handlers of the application for the start of a window and
-- for an overrun of the cycle, are arguments.
module _ (run : Cback → ℕ → Kernel → Kernel) (twd_nfyhdr : ℕ → Kernel → Kernel)
    (scycovr : Kernel → Kernel) where
  unfoldable pub tmevt_proc_top : ℕ → Kernel → Bool × Kernel
  tmevt_proc_top h k =
      let k1 = on_tmevt update_current_evttim k in
      let (due, (b, m)) = take_due h k1.tmevt in
      if due
      then (true, run (m.callback b) (m.cback_arg b) (record k1 { tmevt = m }))
      else (false, k1)

  -- The loop of twd_start, with fuel.
  unfoldable pub proc_loop : ℕ → ℕ → Kernel → Kernel
  unfolding tmevt_proc_top suspend_proc_tmevt
  proc_loop zero h k = k
  proc_loop (suc fuel) h k =
      let (suspended, k1) = suspend_proc_tmevt k in
      let (called, k2) = tmevt_proc_top h k1 in
      elim suspended [ true ↦ k1 | false ↦ elim called [ true ↦ proc_loop fuel h k2 | false ↦ k2 ] ]

  -- The window `w` starts, or the idle window where `w` is past the last window of the mode. The
  -- fuel is that of the loop.
  unfoldable pub begin_window : ℕ → Kernel → Kernel
  unfolding twdtimer_start
  begin_window w k =
      let k1 = twdtimer_start (record k {
        p_twdsched = (k.cfg.dominib (twdinib_of w k).p_dominib).p_schedcb;
        p_idlesched = schedcb_idle;
        twd = record (k.twd) { twdtimer_enable = true; left_twdtim = (twdinib_of w k).twdlen };
      }) in
      if (twdinib_of w k).nfyhdr then lock_cpu (twd_nfyhdr w (unlock_cpu k1)) else k1

  unfoldable pub twd_start : ℕ → ℕ → ℕ → Kernel → Kernel
  unfolding begin_window proc_loop
  twd_start fuel som w k =
      if ltb w (sominib_of (som + 1) k).p_twdinib
      then proc_loop fuel (k.cfg.dominib (twdinib_of w k).p_dominib).p_tmevt_heap
          (begin_window w (record k { twd = record (k.twd) { p_runtwd = some w } }))
      else proc_loop fuel tmevt_heap_idle (record k {
        p_twdsched = schedcb_idle;
        p_idlesched = schedcb_idle;
        twd = record (k.twd) { p_runtwd = none; twdtimer_enable = false };
      })

  unfoldable pub scyc_overrun : Kernel → Kernel
  unfolding twdtimer_stop
  scyc_overrun k =
      if is_null k.twd.p_runtwd
      then k
      else (let k1 = twdtimer_stop k in
          scycovr (record k1 { twd = record (k1.twd) { pending_twdswitch = false } }))

  unfoldable pub scyc_start : ℕ → Kernel → Kernel
  unfolding scyc_overrun twd_start
  scyc_start fuel k =
      let k1 = scyc_overrun k in
      elim (k1.twd.p_nxtsom) [
        | none ↦ record k1 {
          p_twdsched = schedcb_kernel;
          p_idlesched = schedcb_kernel;
          twd = record (k1.twd) { p_cursom = none; p_runtwd = none; twdtimer_enable = false };
        }
        | some som ↦
            let k2 =
              on_tmevt
                (λ m. tmevtb_enqueue scyc_tmevtb tmevt_heap_kernel (record m {
                  evttim =
                      update m.evttim scyc_tmevtb
                        ((m.evttim scyc_tmevtb + k1.cfg.system_cyctim) % evttim_mod);
                }))
                (record k1 { twd = record (k1.twd) { p_cursom = some som } }) in
            twd_start fuel som (sominib_of som k2).p_twdinib
              (record k2 { twd = record (k2.twd) { p_nxtsom = (sominib_of som k2).p_nxtsom } })
      ]

  -- The callback of the system cycle. A dispatch is left to the return from the interrupt.
  unfoldable pub scyc_switch_body : ℕ → Kernel → Kernel
  unfolding scyc_start
  scyc_switch_body fuel k =
      if k.dspflg
      then update_schedtsk (scyc_start fuel k)
      else record k { twd = record (k.twd) { pending_scycswitch = true } }

  -- `p_runtwd += 1; twd_start();` while a window of a mode is running.
  unfoldable pub next_window : ℕ → Kernel → Kernel
  unfolding twd_start
  next_window fuel k = elim (k.twd.p_cursom) [
    | none ↦ k
    | some som ↦ elim (k.twd.p_runtwd) [ none ↦ k | some w ↦ twd_start fuel som (w + 1) k ]
  ]

  unfoldable pub twd_switch : ℕ → Kernel → Kernel
  unfolding next_window
  twd_switch fuel k =
      let k1 = lock_cpu k in
      if k1.twd.twdtimer_enable
      then if k1.twd.left_twdtim == 0
        then if k1.dspflg
          then unlock_cpu (update_schedtsk (next_window fuel k1))
          else unlock_cpu (record k1 {
            twd = record (k1.twd) { pending_twdswitch = true; twdtimer_enable = false };
          })
        else unlock_cpu k1
      else unlock_cpu k1

  -- The parts of set_dspflg and chg_som around a switch of cycles or windows.
  unfoldable pub undispatched : (Kernel → Kernel) → Kernel → Kernel
  undispatched switch k =
      let k1 = switch (record k { ipm_enaall = false; dspflg = false; rundom = tacp_kernel }) in
      update_schedtsk (record k1 { ipm_enaall = true; dspflg = true; rundom = k.rundom })

  unfoldable pub start_pending : ℕ → Kernel → Kernel
  unfolding scyc_start next_window
  start_pending fuel k =
      if k.twd.pending_scycswitch
      then (let k1 = scyc_start fuel k in
          record k1 {
            twd = record (k1.twd) { pending_scycswitch = false; pending_twdswitch = false };
          })
      else if k.twd.pending_twdswitch
      then (let k1 = next_window fuel k in
          record k1 { twd = record (k1.twd) { pending_twdswitch = false } })
      else k

  unfoldable pub set_dspflg : ℕ → Kernel → Kernel
  unfolding undispatched start_pending
  set_dspflg fuel k = undispatched (start_pending fuel) k

  -- The mode is that of `p_sominib`, or none for TSOM_STP.
  unfoldable pub chg_som_locked : ℕ → Option ℕ → Kernel → Svc
  unfolding undispatched scyc_start
  chg_som_locked fuel p_sominib k =
      let k1 = record k { twd = record (k.twd) { p_nxtsom = p_sominib } } in
      if is_null k.twd.p_cursom
      then if is_null p_sominib
        then returned e_ok (unlock_cpu k1)
        else (let k2 =
              on_tmevt
                (λ m.
                  let now = update_current_evttim m in
                  record now {
                    evttim = update now.evttim scyc_tmevtb (calc_current_evttim_ub now);
                  })
                k1 in
            if k2.dspflg
            then returned e_ok (unlock_cpu (dispatch_if_needed (undispatched (scyc_start fuel) k2)))
            else returned e_ok
                (unlock_cpu (record k2 { twd = record (k2.twd) { pending_scycswitch = true } })))
      else returned e_ok (unlock_cpu k1)

  -- A mode by its ID, or none for TSOM_STP.
  unfoldable pub chg_som : ℕ → Option ℕ → Kernel → Svc
  unfolding chg_som_locked
  chg_som fuel none k = check (in_task_unlocked k) e_ctx k (
      check (not (k.cfg.system_cyctim == 0)) e_obj k (
        check (not (violate_acptn k.cfg.sysstat_acvct.acptn1 k)) e_oacv k
          (chg_som_locked fuel none (lock_cpu k))))
  chg_som fuel (some somid) k = check (in_task_unlocked k) e_ctx k (
      check (not (k.cfg.system_cyctim == 0)) e_obj k (
        check (valid_id somid k.cfg.tmax_somid) e_id k (
          check (not (violate_acptn k.cfg.sysstat_acvct.acptn1 k)) e_oacv k
            (chg_som_locked fuel (some (somid - 1)) (lock_cpu k)))))
