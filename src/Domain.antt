-- ===== src/Domain.antt =====
-- kernel/domain.c: protection domains as scheduling units, the system cycle and the timer of the
-- time windows. The switches of windows are in Domain/Windows.
pub mod Windows
use toppers_hrp3_gr_rose.Common.{
  ℕ, zero, suc, ◌+◌, ◌-◌, ◌%◌, ◌^◌, ◌∷◌, Bool, true, false, not, Option, none, some, [], ltb, ◌==◌,
  if◌then◌else◌, update, is_null,
}
use toppers_hrp3_gr_rose.TimeEvent.{
  Cback, scyc_switch, tmevtb_register, tmevtb_enqueue, tmevt_lefttim, take_due, tmevt_heap_kernel,
  tmevt_heap_idle, update_current_evttim, calc_current_evttim_ub,
}
use toppers_hrp3_gr_rose.TimeEvent.Heap.{evttim_mod}
use toppers_hrp3_gr_rose.Kernel.{
  Kernel, Sominib, Twdinib, e_ok, e_ctx, e_id, e_oacv, e_obj, Svc, returned, returned_out, e_macv,
  check, violate_acptn, tacp_kernel, valid_id, in_task_unlocked, lock_cpu, unlock_cpu,
  dispatch_if_needed, ready_queue, schedcb_kernel, schedcb_idle, tnum_tpri,
}
use toppers_hrp3_gr_rose.Task.{update_schedtsk}
use toppers_hrp3_gr_rose.Wait.{on_tmevt}

-- The loop of initialize_schedcb, over the priorities below `n`.
unfoldable pub initialize_ready_queues : ℕ → ℕ → Kernel → Kernel
initialize_ready_queues s zero k = k
initialize_ready_queues s (suc pri) k =
    initialize_ready_queues s pri (record k { queue = update k.queue (ready_queue s pri) [] })

unfoldable pub initialize_schedcb : ℕ → Kernel → Kernel
unfolding initialize_ready_queues
initialize_schedcb s k =
    let k1 =
      initialize_ready_queues s tnum_tpri (record k { p_predtsk = update k.p_predtsk s none }) in
    record k1 { ready_primap = update k1.ready_primap s 0 }

-- The scheduling units of the table, which follow that of the idle domain.
unfoldable pub initialize_schedcbs : ℕ → Kernel → Kernel
unfolding initialize_schedcb
initialize_schedcbs zero k = k
initialize_schedcbs (suc i) k = initialize_schedcbs i (initialize_schedcb (i + 2) k)

-- The time event block of the system cycle.
abbrev pub scyc_tmevtb : ℕ
scyc_tmevtb = 3

abbrev pub sominib_of : ℕ → Kernel → Sominib
sominib_of i k = k.cfg.sominib i

abbrev pub twdinib_of : ℕ → Kernel → Twdinib
twdinib_of w k = k.cfg.twdinib w

-- The part of initialize_domain for a system with time windows.
unfoldable pub initialize_scyc : Kernel → Kernel
initialize_scyc k =
    let k1 =
      on_tmevt
        (λ m. record m {
          callback = update m.callback scyc_tmevtb scyc_switch;
          cback_arg = update m.cback_arg scyc_tmevtb 0;
        })
        (record k { p_twdsched = schedcb_kernel; p_idlesched = schedcb_kernel }) in
    if is_null k.cfg.p_inisom
    then k1
    else on_tmevt
        (λ m.
          tmevtb_register scyc_tmevtb tmevt_heap_kernel
            (record m { evttim = update m.evttim scyc_tmevtb 0 }))
        (record k1 { twd = record (k1.twd) { p_nxtsom = k.cfg.p_inisom } })

unfoldable initialize_domain : Kernel → Kernel
unfolding initialize_schedcbs initialize_scyc
initialize_domain k =
    let k1 =
      initialize_schedcbs k.cfg.tnum_schedcb
        (initialize_schedcb schedcb_idle (initialize_schedcb schedcb_kernel k)) in
    let k2 = record k1 {
      twd = record (k1.twd) {
        p_cursom = none;
        pending_scycswitch = false;
        p_runtwd = none;
        pending_twdswitch = false;
        twdtimer_enable = false;
        twdtimer_flag = false;
      };
      rundom = tacp_kernel;
    } in
    if k.cfg.system_cyctim == 0
    then record k2 { p_twdsched = schedcb_idle; p_idlesched = schedcb_idle }
    else initialize_scyc k2

unfoldable pub twdtimer_start : Kernel → Kernel
twdtimer_start k =
    if not k.twd.twdtimer_flag
    then record k {
      twd = record (k.twd) { twdtimer_set = k.twd.left_twdtim; twdtimer_flag = true };
    }
    else k

-- The timer is read, and stopped.
unfoldable pub twdtimer_stop : Kernel → Kernel
twdtimer_stop k =
    if k.twd.twdtimer_flag
    then record k {
      twd = record (k.twd) {
        left_twdtim = k.twd.twdtimer k.twd.twdtimer_reads;
        twdtimer_reads = k.twd.twdtimer_reads + 1;
        twdtimer_flag = false;
      };
    }
    else k

-- The running task, if there is one, belongs to the kernel domain, which has entry 0.
abbrev pub in_kernel_domain : Option ℕ → Kernel → Bool
in_kernel_domain none k = false
in_kernel_domain (some t) k = k.p_dominib t == 0

unfoldable pub twdtimer_control : Kernel → Kernel
unfolding twdtimer_start twdtimer_stop
twdtimer_control k =
    if not (in_kernel_domain k.p_runtsk k) then twdtimer_start k else twdtimer_stop k

unfoldable pub suspend_proc_tmevt : Kernel → Bool × Kernel
suspend_proc_tmevt k =
    if k.twd.twdtimer_enable
    then (
      k.twd.twdtimer k.twd.twdtimer_reads == 0,
      record k { twd = record (k.twd) { twdtimer_reads = k.twd.twdtimer_reads + 1 } },
    )
    else (let (lefttim, now) = tmevt_lefttim scyc_tmevtb k.tmevt in
        (lefttim == 0, record k { tmevt = now }))

-- TSOM_STP, in the 32 bits of an ID.
abbrev tsom_stp : ℕ
tsom_stp = 2 ^ 32 - 1

unfoldable get_som : Bool → Kernel → Svc
get_som writable k = check (in_task_unlocked k) e_ctx k (
    check (not (k.cfg.system_cyctim == 0)) e_obj k (
      check writable e_macv k (
        check (not (violate_acptn k.cfg.sysstat_acvct.acptn4 k)) e_oacv k (
          returned_out e_ok ((elim k.twd.p_cursom [ none ↦ tsom_stp | some som ↦ som + 1 ]) ∷ [])
            (unlock_cpu (lock_cpu k))))))
