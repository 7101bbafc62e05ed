-- ===== src/Notify.antt =====
-- kernel/cyclic.c and kernel/alarm.c: cyclic and alarm notifications; and signal_time of
-- kernel/time_event.c, which runs the callbacks of the events whose time has come.
pub mod Callbacks
pub mod Due
use toppers_hrp3_gr_rose.Common.{
  ℕ, zero, suc, ◌+◌, ◌-◌, ◌*◌, ◌%◌, Bool, true, false, not, Option, none, some, [], ◌∷◌, leb, ◌==◌,
  if◌then◌else◌, update, bit_and,
}
use toppers_hrp3_gr_rose.TimeEvent
use toppers_hrp3_gr_rose.TimeEvent.{
  Tmevt, Cback, call_cyclic, call_alarm, scyc_switch, tmevtb_register, tmevtb_enqueue_reltim,
  tmevtb_dequeue, tmevt_lefttim, take_due, tmevt_heap_kernel, update_current_evttim, set_hrt_event,
}
use toppers_hrp3_gr_rose.TimeEvent.Heap.{evttim_mod}
use toppers_hrp3_gr_rose.Kernel.{
  Kernel, Cycinib, Alminib, e_ok, e_ctx, e_id, e_par, e_oacv, e_macv, Svc, returned, returned_out,
  check, violate_acptn, valid_id, in_task_unlocked, lock_cpu, unlock_cpu,
}
use toppers_hrp3_gr_rose.Wait
use toppers_hrp3_gr_rose.Wait.{on_tmevt, tmax_reltim}

-- The time event blocks of the notifications.
abbrev pub cyc_tmevtb : ℕ → ℕ
cyc_tmevtb i = i * 4 + 1

abbrev pub alm_tmevtb : ℕ → ℕ
alm_tmevtb i = i * 4 + 2

-- INDEX_CYC and INDEX_ALM.
abbrev pub index_cyc : ℕ → ℕ
index_cyc cycid = cycid - 1

abbrev pub index_alm : ℕ → ℕ
index_alm almid = almid - 1

abbrev pub cycinib_of : ℕ → Kernel → Cycinib
cycinib_of i k = k.cfg.cycinib i

abbrev pub alminib_of : ℕ → Kernel → Alminib
alminib_of i k = k.cfg.alminib i

abbrev pub ta_sta : ℕ
ta_sta = 0x02

abbrev pub set_callback : ℕ → Cback → ℕ → Tmevt → Tmevt
set_callback b callback arg m = record m {
  callback = update m.callback b callback;
  cback_arg = update m.cback_arg b arg;
}

-- The body of the loop of initialize_cyclic.
unfoldable initialize_cyccb : ℕ → Kernel → Kernel
initialize_cyccb i k =
    let k1 = on_tmevt (set_callback (cyc_tmevtb i) call_cyclic i) k in
    if not (bit_and (cycinib_of i k).cycatr ta_sta == 0)
    then on_tmevt
        (λ m.
          tmevtb_register (cyc_tmevtb i) (cycinib_of i k).p_tmevt_heap
            (record m { evttim = update m.evttim (cyc_tmevtb i) (cycinib_of i k).cycphs }))
        (record k1 { cycsta = update k1.cycsta i true })
    else record k1 { cycsta = update k1.cycsta i false }

-- The loop, over `n` notifications from `i` on.
unfoldable initialize_cyclic : ℕ → ℕ → Kernel → Kernel
unfolding initialize_cyccb
initialize_cyclic i zero k = k
initialize_cyclic i (suc n) k = initialize_cyclic (i + 1) n (initialize_cyccb i k)

unfoldable pub sta_cyc_locked : ℕ → Kernel → Svc
sta_cyc_locked i k =
    let heap = (cycinib_of i k).p_tmevt_heap in
    let k1 =
      if k.cycsta i
      then on_tmevt (tmevtb_dequeue (cyc_tmevtb i) heap) k
      else record k { cycsta = update k.cycsta i true } in
    returned e_ok
      (unlock_cpu (on_tmevt (tmevtb_enqueue_reltim (cyc_tmevtb i) (cycinib_of i k).cycphs heap) k1))

unfoldable pub sta_cyc : ℕ → Kernel → Svc
sta_cyc cycid k =
    let i = index_cyc cycid in
    check (in_task_unlocked k) e_ctx k (
      check (valid_id cycid k.cfg.tmax_cycid) e_id k (
        check (not (violate_acptn (cycinib_of i k).acvct.acptn1 k)) e_oacv k
          (sta_cyc_locked i (lock_cpu k))))

unfoldable pub stp_cyc_locked : ℕ → Kernel → Svc
stp_cyc_locked i k =
    if k.cycsta i
    then returned e_ok (
        unlock_cpu (
          on_tmevt (tmevtb_dequeue (cyc_tmevtb i) (cycinib_of i k).p_tmevt_heap)
            (record k { cycsta = update k.cycsta i false })))
    else returned e_ok (unlock_cpu k)

unfoldable pub stp_cyc : ℕ → Kernel → Svc
stp_cyc cycid k =
    let i = index_cyc cycid in
    check (in_task_unlocked k) e_ctx k (
      check (valid_id cycid k.cfg.tmax_cycid) e_id k (
        check (not (violate_acptn (cycinib_of i k).acvct.acptn2 k)) e_oacv k
          (stp_cyc_locked i (lock_cpu k))))

abbrev pub tcyc_stp : ℕ
tcyc_stp = 0x01

abbrev pub tcyc_sta : ℕ
tcyc_sta = 0x02

-- The time that is left is stored only while the notification is started.
unfoldable pub ref_cyc_locked : ℕ → Kernel → Svc
ref_cyc_locked i k =
    if k.cycsta i
    then (let (lefttim, now) = tmevt_lefttim (cyc_tmevtb i) k.tmevt in
        returned_out e_ok (tcyc_sta ∷ lefttim ∷ []) (unlock_cpu (record k { tmevt = now })))
    else returned_out e_ok (tcyc_stp ∷ []) (unlock_cpu k)

unfoldable pub ref_cyc : ℕ → Bool → Kernel → Svc
ref_cyc cycid writable k =
    let i = index_cyc cycid in
    check (in_task_unlocked k) e_ctx k (
      check (valid_id cycid k.cfg.tmax_cycid) e_id k (
        check writable e_macv k (
          check (not (violate_acptn (cycinib_of i k).acvct.acptn4 k)) e_oacv k
            (ref_cyc_locked i (lock_cpu k)))))

-- The loop of initialize_alarm, over the notifications below `n`.
unfoldable initialize_alarm : ℕ → Kernel → Kernel
initialize_alarm zero k = k
initialize_alarm (suc i) k = initialize_alarm i (
    on_tmevt (set_callback (alm_tmevtb i) call_alarm i)
      (record k { almsta = update k.almsta i false }))

unfoldable pub sta_alm_locked : ℕ → ℕ → Kernel → Svc
sta_alm_locked i almtim k =
    let heap = (alminib_of i k).p_tmevt_heap in
    let k1 =
      if k.almsta i
      then on_tmevt (tmevtb_dequeue (alm_tmevtb i) heap) k
      else record k { almsta = update k.almsta i true } in
    returned e_ok (unlock_cpu (on_tmevt (tmevtb_enqueue_reltim (alm_tmevtb i) almtim heap) k1))

unfoldable pub sta_alm : ℕ → ℕ → Kernel → Svc
sta_alm almid almtim k =
    let i = index_alm almid in
    check (not k.cpu_locked) e_ctx k (
      check (valid_id almid k.cfg.tmax_almid) e_id k (
        check (leb almtim tmax_reltim) e_par k (
          check (not (violate_acptn (alminib_of i k).acvct.acptn1 k)) e_oacv k
            (sta_alm_locked i almtim (lock_cpu k)))))

unfoldable pub stp_alm_locked : ℕ → Kernel → Svc
stp_alm_locked i k =
    if k.almsta i
    then returned e_ok (
        unlock_cpu (
          on_tmevt (tmevtb_dequeue (alm_tmevtb i) (alminib_of i k).p_tmevt_heap)
            (record k { almsta = update k.almsta i false })))
    else returned e_ok (unlock_cpu k)

unfoldable pub stp_alm : ℕ → Kernel → Svc
stp_alm almid k =
    let i = index_alm almid in
    check (not k.cpu_locked) e_ctx k (
      check (valid_id almid k.cfg.tmax_almid) e_id k (
        check (not (violate_acptn (alminib_of i k).acvct.acptn2 k)) e_oacv k
          (stp_alm_locked i (lock_cpu k))))

abbrev pub talm_stp : ℕ
talm_stp = 0x01

abbrev pub talm_sta : ℕ
talm_sta = 0x02

unfoldable pub ref_alm_locked : ℕ → Kernel → Svc
ref_alm_locked i k =
    if k.almsta i
    then (let (lefttim, now) = tmevt_lefttim (alm_tmevtb i) k.tmevt in
        returned_out e_ok (talm_sta ∷ lefttim ∷ []) (unlock_cpu (record k { tmevt = now })))
    else returned_out e_ok (talm_stp ∷ []) (unlock_cpu k)

unfoldable pub ref_alm : ℕ → Bool → Kernel → Svc
ref_alm almid writable k =
    let i = index_alm almid in
    check (in_task_unlocked k) e_ctx k (
      check (valid_id almid k.cfg.tmax_almid) e_id k (
        check writable e_macv k (
          check (not (violate_acptn (alminib_of i k).acvct.acptn4 k)) e_oacv k
            (ref_alm_locked i (lock_cpu k)))))

-- The notification handlers belong to the application, and are arguments: functions on the
-- state, given the index of the notification. The CPU is locked after them in either branch.
module _ (cyc_nfyhdr : ℕ → Kernel → Kernel) (alm_nfyhdr : ℕ → Kernel → Kernel) where
  unfoldable pub call_cyclic_body : ℕ → Kernel → Kernel
  call_cyclic_body i k =
      let k1 =
        on_tmevt
          (λ m. tmevtb_register (cyc_tmevtb i) (cycinib_of i k).p_tmevt_heap (record m {
            evttim =
                update m.evttim (cyc_tmevtb i)
                  ((m.evttim (cyc_tmevtb i) + (cycinib_of i k).cyctim) % evttim_mod);
          }))
          k in
      lock_cpu (cyc_nfyhdr i (unlock_cpu k1))

  unfoldable pub call_alarm_body : ℕ → Kernel → Kernel
  call_alarm_body i k =
      lock_cpu (alm_nfyhdr i (unlock_cpu (record k { almsta = update k.almsta i false })))

  -- The callback of a time event, with the argument of its block. scyc_switch of kernel/domain.c
  -- and the hook of kernel/messagebuf.c are arguments.
  unfoldable pub run_callback :
      (Kernel → Kernel) → (ℕ → Kernel → Kernel) → Cback → ℕ → Kernel → Kernel
  unfolding call_cyclic_body call_alarm_body
  run_callback scyc mbfhook TimeEvent.wait_tmout t k = Wait.wait_tmout mbfhook t k
  run_callback scyc mbfhook TimeEvent.wait_tmout_ok t k = Wait.wait_tmout_ok t k
  run_callback scyc mbfhook call_cyclic i k = call_cyclic_body i k
  run_callback scyc mbfhook call_alarm i k = call_alarm_body i k
  run_callback scyc mbfhook scyc_switch i k = scyc k

-- The beginning and the end of signal_time.
abbrev pub enter_signal : Kernel → Kernel
enter_signal k =
    on_tmevt (λ m. update_current_evttim (record m { in_signal_time = true })) (lock_cpu k)

abbrev pub leave_signal : Kernel → Kernel
leave_signal k = unlock_cpu (on_tmevt (λ m. record (set_hrt_event m) { in_signal_time = false }) k)

-- The two loops of signal_time, with fuel for their rounds: `callflag` is set once a callback has
-- been called since the clock was last read. `none` is the end of the fuel.
module _ (run : Cback → ℕ → Kernel → Kernel) where
  unfoldable pub signal_loop : ℕ → Bool → Kernel → Option Kernel
  signal_loop zero callflag k = none
  signal_loop (suc fuel) callflag k =
      let (due, (b, m)) = take_due tmevt_heap_kernel k.tmevt in
      elim due [
        | true ↦ signal_loop fuel true (run (m.callback b) (m.cback_arg b) (record k { tmevt = m }))
        | false ↦ elim callflag [
          | true ↦ signal_loop fuel false (on_tmevt update_current_evttim k)
          | false ↦ some k
        ]
      ]

  unfoldable pub signal_time : ℕ → Kernel → Option Kernel
  unfolding signal_loop
  signal_time fuel k = elim (signal_loop fuel false (enter_signal k)) [
    | none ↦ none
    | some k1 ↦ some (leave_signal k1)
  ]
