-- ===== src/Dataqueue/Calls.antt =====
-- The service calls of kernel/dataqueue.c.
use toppers_hrp3_gr_rose.Common.{
  ℕ, Bool, not, none, some, [], ◌∷◌, ltb, ◌==◌, if◌then◌else◌, update,
}
use toppers_hrp3_gr_rose.Kernel.{
  Kernel, e_ok, e_ctx, e_id, e_par, e_oacv, e_macv, e_iluse, e_tmout, e_raster, wercd, p_tmevtb,
  Svc, returned, returned_out, waits, fault, check, violate_acptn, valid_id, with_runtsk,
  can_dispatch, in_task_unlocked, wait_tskid, lock_cpu, unlock_cpu, dispatch, dispatch_if_needed,
  dispatch_or_request, dtq_swait_queue, dtq_rwait_queue, head?, queue_insert_prev, ts_waiting_sdtq,
  ts_waiting_rdtq,
}
use toppers_hrp3_gr_rose.Wait.{
  set_wobjcb, make_wait, make_wait_tmout, wobj_make_wait, wobj_make_wait_tmout, init_wait_queue,
  tmo_pol, valid_tmout,
}
use toppers_hrp3_gr_rose.Dataqueue.{index_dtq, dtqinib_of, send_data, force_send_data, receive_data}

-- The branches of a call that sends from a task: `blocked` is what follows a full queue.
unfoldable pub try_send : ℕ → ℕ → ℕ → (Kernel → Svc) → Kernel → Svc
try_send i datum me blocked k =
    if k.raster me
    then returned e_raster (unlock_cpu k)
    else (let (sent, k1) = send_data i datum k in
        if sent then returned e_ok (unlock_cpu (dispatch_if_needed k1)) else blocked k1)

abbrev pub set_winfo_dtq : ℕ → ℕ → Kernel → Kernel
set_winfo_dtq me datum k = record k { wdata = update k.wdata me datum }

unfoldable pub snd_dtq_locked : ℕ → ℕ → ℕ → Kernel → Svc
unfolding try_send
snd_dtq_locked i datum me k =
    try_send i datum me
      (λ k1. waits me (
        unlock_cpu (
          dispatch
            (wobj_make_wait (dtq_swait_queue i) ts_waiting_sdtq me (set_winfo_dtq me datum k1)))))
      k

unfoldable pub snd_dtq : ℕ → ℕ → Kernel → Svc
snd_dtq dtqid datum k =
    let i = index_dtq dtqid in
    check (can_dispatch k) e_ctx k (
      check (valid_id dtqid k.cfg.tmax_dtqid) e_id k (
        check (not (violate_acptn (dtqinib_of i k).acvct.acptn1 k)) e_oacv k
          (with_runtsk k (λ me. snd_dtq_locked i datum me (lock_cpu k)))))

unfoldable pub psnd_dtq_locked : ℕ → ℕ → Kernel → Svc
psnd_dtq_locked i datum k =
    let (sent, k1) = send_data i datum k in
    if sent
    then returned e_ok (unlock_cpu (dispatch_or_request k1))
    else returned e_tmout (unlock_cpu k1)

unfoldable pub psnd_dtq : ℕ → ℕ → Kernel → Svc
psnd_dtq dtqid datum k =
    let i = index_dtq dtqid in
    check (not k.cpu_locked) e_ctx k (
      check (valid_id dtqid k.cfg.tmax_dtqid) e_id k (
        check (not (violate_acptn (dtqinib_of i k).acvct.acptn1 k)) e_oacv k
          (psnd_dtq_locked i datum (lock_cpu k))))

unfoldable pub tsnd_dtq_locked : ℕ → ℕ → ℕ → ℕ → Kernel → Svc
unfolding try_send
tsnd_dtq_locked i datum tmout me k =
    try_send i datum me
      (λ k1.
        if tmout == tmo_pol
        then returned e_tmout (unlock_cpu k1)
        else waits me (
            unlock_cpu (
              dispatch (
                wobj_make_wait_tmout (dtq_swait_queue i) ts_waiting_sdtq tmout me
                  (set_winfo_dtq me datum k1)))))
      k

unfoldable pub tsnd_dtq : ℕ → ℕ → ℕ → Kernel → Svc
tsnd_dtq dtqid datum tmout k =
    let i = index_dtq dtqid in
    check (can_dispatch k) e_ctx k (
      check (valid_id dtqid k.cfg.tmax_dtqid) e_id k (
        check (valid_tmout tmout) e_par k (
          check (not (violate_acptn (dtqinib_of i k).acvct.acptn1 k)) e_oacv k
            (with_runtsk k (λ me. tsnd_dtq_locked i datum tmout me (lock_cpu k))))))

unfoldable pub fsnd_dtq : ℕ → ℕ → Kernel → Svc
fsnd_dtq dtqid datum k =
    let i = index_dtq dtqid in
    check (not k.cpu_locked) e_ctx k (
      check (valid_id dtqid k.cfg.tmax_dtqid) e_id k (
        check (not (violate_acptn (dtqinib_of i k).acvct.acptn1 k)) e_oacv k (
          check (ltb 0 (dtqinib_of i k).dtqcnt) e_iluse k (
            returned e_ok
              (unlock_cpu (dispatch_or_request (force_send_data i datum (lock_cpu k))))))))

-- The branches of a call that receives: `blocked` is what follows an empty queue.
unfoldable pub try_receive : ℕ → (Kernel → Svc) → Kernel → Svc
try_receive i blocked k =
    let (received, k1) = receive_data i k in
    elim received [
      | some datum ↦ returned_out e_ok (datum ∷ []) (unlock_cpu (dispatch_if_needed k1))
      | none ↦ blocked k1
    ]

unfoldable pub rcv_dtq_locked : ℕ → ℕ → Kernel → Svc
unfolding try_receive
rcv_dtq_locked i me k =
    if k.raster me
    then returned e_raster (unlock_cpu k)
    else try_receive i
        (λ k1. waits me (
          unlock_cpu (
            dispatch (
              set_wobjcb me (dtq_swait_queue i)
                (queue_insert_prev (dtq_rwait_queue i) me (make_wait ts_waiting_rdtq me k1))))))
        k

-- `writable` is what the probe of the memory behind p_data says.
unfoldable pub rcv_dtq : ℕ → Bool → Kernel → Svc
rcv_dtq dtqid writable k =
    let i = index_dtq dtqid in
    check (can_dispatch k) e_ctx k (
      check (valid_id dtqid k.cfg.tmax_dtqid) e_id k (
        check writable e_macv k (
          check (not (violate_acptn (dtqinib_of i k).acvct.acptn2 k)) e_oacv k
            (with_runtsk k (λ me. rcv_dtq_locked i me (lock_cpu k))))))

unfoldable pub prcv_dtq : ℕ → Bool → Kernel → Svc
unfolding try_receive
prcv_dtq dtqid writable k =
    let i = index_dtq dtqid in
    check (in_task_unlocked k) e_ctx k (
      check (valid_id dtqid k.cfg.tmax_dtqid) e_id k (
        check writable e_macv k (
          check (not (violate_acptn (dtqinib_of i k).acvct.acptn2 k)) e_oacv k
            (try_receive i (λ k1. returned e_tmout (unlock_cpu k1)) (lock_cpu k)))))

unfoldable pub trcv_dtq_locked : ℕ → ℕ → ℕ → Kernel → Svc
unfolding try_receive
trcv_dtq_locked i tmout me k =
    if k.raster me
    then returned e_raster (unlock_cpu k)
    else try_receive i
        (λ k1.
          if tmout == tmo_pol
          then returned e_tmout (unlock_cpu k1)
          else waits me (
              unlock_cpu (
                dispatch (
                  set_wobjcb me (dtq_swait_queue i) (
                    queue_insert_prev (dtq_rwait_queue i) me
                      (make_wait_tmout ts_waiting_rdtq tmout me k1))))))
        k

unfoldable pub trcv_dtq : ℕ → ℕ → Bool → Kernel → Svc
trcv_dtq dtqid tmout writable k =
    let i = index_dtq dtqid in
    check (can_dispatch k) e_ctx k (
      check (valid_id dtqid k.cfg.tmax_dtqid) e_id k (
        check writable e_macv k (
          check (valid_tmout tmout) e_par k (
            check (not (violate_acptn (dtqinib_of i k).acvct.acptn2 k)) e_oacv k
              (with_runtsk k (λ me. trcv_dtq_locked i tmout me (lock_cpu k)))))))

-- What rcv_dtq and trcv_dtq return when the task runs again.
unfoldable resumed_rdtq : ℕ → Kernel → Svc
resumed_rdtq t k = elim (k.winfo t) [
  | wercd e_ok ↦ returned_out e_ok (k.wdata t ∷ []) k
  | wercd e ↦ returned e k
  | p_tmevtb _ ↦ fault
]

unfoldable pub ini_dtq_locked : ℕ → Kernel → Svc
ini_dtq_locked i k =
    let k1 = init_wait_queue (dtq_rwait_queue i) (init_wait_queue (dtq_swait_queue i) k) in
    returned e_ok (
      unlock_cpu (
        dispatch_if_needed (record k1 {
          dtq_count = update k1.dtq_count i 0;
          dtq_head = update k1.dtq_head i 0;
          dtq_tail = update k1.dtq_tail i 0;
        })))

unfoldable pub ini_dtq : ℕ → Kernel → Svc
ini_dtq dtqid k =
    let i = index_dtq dtqid in
    check (in_task_unlocked k) e_ctx k (
      check (valid_id dtqid k.cfg.tmax_dtqid) e_id k (
        check (not (violate_acptn (dtqinib_of i k).acvct.acptn3 k)) e_oacv k
          (ini_dtq_locked i (lock_cpu k))))

unfoldable ref_dtq : ℕ → Bool → Kernel → Svc
ref_dtq dtqid writable k =
    let i = index_dtq dtqid in
    check (in_task_unlocked k) e_ctx k (
      check (valid_id dtqid k.cfg.tmax_dtqid) e_id k (
        check writable e_macv k (
          check (not (violate_acptn (dtqinib_of i k).acvct.acptn4 k)) e_oacv k (
            returned_out e_ok
              (wait_tskid (head? (k.queue (dtq_swait_queue i)))
                ∷ wait_tskid (head? (k.queue (dtq_rwait_queue i)))
                ∷ k.dtq_count i
                ∷ [])
              (unlock_cpu (lock_cpu k))))))
