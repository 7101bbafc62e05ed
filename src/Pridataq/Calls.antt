-- ===== src/Pridataq/Calls.antt =====
-- The service calls of kernel/pridataq.c.
use toppers_hrp3_gr_rose.Common.{
  ℕ, Bool, not, ◌&&◌, none, some, [], ◌∷◌, leb, ◌==◌, if◌then◌else◌, update,
}
use toppers_hrp3_gr_rose.Kernel.{
  Kernel, e_ok, e_ctx, e_id, e_par, e_oacv, e_macv, e_tmout, e_raster, wercd, p_tmevtb, Svc,
  returned, returned_out, waits, fault, check, violate_acptn, valid_id, with_runtsk, can_dispatch,
  in_task_unlocked, wait_tskid, lock_cpu, unlock_cpu, dispatch, dispatch_if_needed,
  dispatch_or_request, pdq_swait_queue, pdq_rwait_queue, head?, queue_insert_prev, ts_waiting_spdq,
  ts_waiting_rpdq,
}
use toppers_hrp3_gr_rose.Wait.{
  set_wobjcb, make_wait, make_wait_tmout, wobj_make_wait, wobj_make_wait_tmout, init_wait_queue,
  tmo_pol, valid_tmout,
}
use toppers_hrp3_gr_rose.Pridataq.{
  index_pdq, pdqinib_of, reset_pridataq, send_pridata, receive_pridata,
}

-- `TMIN_DPRI <= datapri && datapri <= maxdpri`.
abbrev pub valid_datapri : ℕ → ℕ → Kernel → Bool
valid_datapri i datapri k = leb 1 datapri && leb datapri (pdqinib_of i k).maxdpri

-- The branches of a call that sends from a task: `blocked` is what follows a full queue.
unfoldable pub try_send_pri : ℕ → ℕ → ℕ → ℕ → (Kernel → Svc) → Kernel → Svc
unfolding send_pridata
try_send_pri i datum datapri me blocked k =
    if k.raster me
    then returned e_raster (unlock_cpu k)
    else (let (sent, k1) = send_pridata i datum datapri k in
        if sent then returned e_ok (unlock_cpu (dispatch_if_needed k1)) else blocked k1)

abbrev pub set_winfo_spdq : ℕ → ℕ → ℕ → Kernel → Kernel
set_winfo_spdq me datum datapri k = record k {
  wdata = update k.wdata me datum;
  wdatapri = update k.wdatapri me datapri;
}

unfoldable pub snd_pdq_locked : ℕ → ℕ → ℕ → ℕ → Kernel → Svc
unfolding try_send_pri
snd_pdq_locked i datum datapri me k =
    try_send_pri i datum datapri me
      (λ k1. waits me (
        unlock_cpu (
          dispatch (
            wobj_make_wait (pdq_swait_queue i) ts_waiting_spdq me
              (set_winfo_spdq me datum datapri k1)))))
      k

unfoldable pub snd_pdq : ℕ → ℕ → ℕ → Kernel → Svc
snd_pdq pdqid datum datapri k =
    let i = index_pdq pdqid in
    check (can_dispatch k) e_ctx k (
      check (valid_id pdqid k.cfg.tmax_pdqid) e_id k (
        check (not (violate_acptn (pdqinib_of i k).acvct.acptn1 k)) e_oacv k (
          check (valid_datapri i datapri k) e_par k
            (with_runtsk k (λ me. snd_pdq_locked i datum datapri me (lock_cpu k))))))

unfoldable pub psnd_pdq_locked : ℕ → ℕ → ℕ → Kernel → Svc
unfolding send_pridata
psnd_pdq_locked i datum datapri k =
    let (sent, k1) = send_pridata i datum datapri k in
    if sent
    then returned e_ok (unlock_cpu (dispatch_or_request k1))
    else returned e_tmout (unlock_cpu k1)

unfoldable pub psnd_pdq : ℕ → ℕ → ℕ → Kernel → Svc
psnd_pdq pdqid datum datapri k =
    let i = index_pdq pdqid in
    check (not k.cpu_locked) e_ctx k (
      check (valid_id pdqid k.cfg.tmax_pdqid) e_id k (
        check (not (violate_acptn (pdqinib_of i k).acvct.acptn1 k)) e_oacv k (
          check (valid_datapri i datapri k) e_par k
            (psnd_pdq_locked i datum datapri (lock_cpu k)))))

unfoldable pub tsnd_pdq_locked : ℕ → ℕ → ℕ → ℕ → ℕ → Kernel → Svc
unfolding try_send_pri
tsnd_pdq_locked i datum datapri tmout me k =
    try_send_pri i datum datapri me
      (λ k1.
        if tmout == tmo_pol
        then returned e_tmout (unlock_cpu k1)
        else waits me (
            unlock_cpu (
              dispatch (
                wobj_make_wait_tmout (pdq_swait_queue i) ts_waiting_spdq tmout me
                  (set_winfo_spdq me datum datapri k1)))))
      k

unfoldable pub tsnd_pdq : ℕ → ℕ → ℕ → ℕ → Kernel → Svc
tsnd_pdq pdqid datum datapri tmout k =
    let i = index_pdq pdqid in
    check (can_dispatch k) e_ctx k (
      check (valid_id pdqid k.cfg.tmax_pdqid) e_id k (
        check (valid_tmout tmout) e_par k (
          check (not (violate_acptn (pdqinib_of i k).acvct.acptn1 k)) e_oacv k (
            check (valid_datapri i datapri k) e_par k
              (with_runtsk k (λ me. tsnd_pdq_locked i datum datapri tmout me (lock_cpu k)))))))

-- The branches of a call that receives: `blocked` is what follows an empty queue.
unfoldable pub try_receive_pri : ℕ → (Kernel → Svc) → Kernel → Svc
unfolding receive_pridata
try_receive_pri i blocked k =
    let (received, k1) = receive_pridata i k in
    elim received [
      | some entry ↦
          (let (datum, datapri) = entry in
            returned_out e_ok (datum ∷ datapri ∷ []) (unlock_cpu (dispatch_if_needed k1)))
      | none ↦ blocked k1
    ]

unfoldable pub rcv_pdq_locked : ℕ → ℕ → Kernel → Svc
unfolding try_receive_pri
rcv_pdq_locked i me k =
    if k.raster me
    then returned e_raster (unlock_cpu k)
    else try_receive_pri i
        (λ k1. waits me (
          unlock_cpu (
            dispatch (
              set_wobjcb me (pdq_swait_queue i)
                (queue_insert_prev (pdq_rwait_queue i) me (make_wait ts_waiting_rpdq me k1))))))
        k

-- `writable` and `writable_pri` are what the probes of the memory behind p_data and p_datapri say.
unfoldable pub rcv_pdq : ℕ → Bool → Bool → Kernel → Svc
rcv_pdq pdqid writable writable_pri k =
    let i = index_pdq pdqid in
    check (can_dispatch k) e_ctx k (
      check (valid_id pdqid k.cfg.tmax_pdqid) e_id k (
        check writable e_macv k (
          check writable_pri e_macv k (
            check (not (violate_acptn (pdqinib_of i k).acvct.acptn2 k)) e_oacv k
              (with_runtsk k (λ me. rcv_pdq_locked i me (lock_cpu k)))))))

unfoldable pub prcv_pdq : ℕ → Bool → Bool → Kernel → Svc
unfolding try_receive_pri
prcv_pdq pdqid writable writable_pri k =
    let i = index_pdq pdqid in
    check (in_task_unlocked k) e_ctx k (
      check (valid_id pdqid k.cfg.tmax_pdqid) e_id k (
        check writable e_macv k (
          check writable_pri e_macv k (
            check (not (violate_acptn (pdqinib_of i k).acvct.acptn2 k)) e_oacv k
              (try_receive_pri i (λ k1. returned e_tmout (unlock_cpu k1)) (lock_cpu k))))))

unfoldable pub trcv_pdq_locked : ℕ → ℕ → ℕ → Kernel → Svc
unfolding try_receive_pri
trcv_pdq_locked i tmout me k =
    if k.raster me
    then returned e_raster (unlock_cpu k)
    else try_receive_pri i
        (λ k1.
          if tmout == tmo_pol
          then returned e_tmout (unlock_cpu k1)
          else waits me (
              unlock_cpu (
                dispatch (
                  set_wobjcb me (pdq_swait_queue i) (
                    queue_insert_prev (pdq_rwait_queue i) me
                      (make_wait_tmout ts_waiting_rpdq tmout me k1))))))
        k

unfoldable pub trcv_pdq : ℕ → ℕ → Bool → Bool → Kernel → Svc
trcv_pdq pdqid tmout writable writable_pri k =
    let i = index_pdq pdqid in
    check (can_dispatch k) e_ctx k (
      check (valid_id pdqid k.cfg.tmax_pdqid) e_id k (
        check writable e_macv k (
          check writable_pri e_macv k (
            check (valid_tmout tmout) e_par k (
              check (not (violate_acptn (pdqinib_of i k).acvct.acptn2 k)) e_oacv k
                (with_runtsk k (λ me. trcv_pdq_locked i tmout me (lock_cpu k))))))))

-- What rcv_pdq and trcv_pdq return when the task runs again.
unfoldable resumed_rpdq : ℕ → Kernel → Svc
resumed_rpdq t k = elim (k.winfo t) [
  | wercd e_ok ↦ returned_out e_ok (k.wdata t ∷ k.wdatapri t ∷ []) k
  | wercd e ↦ returned e k
  | p_tmevtb _ ↦ fault
]

unfoldable pub ini_pdq_locked : ℕ → Kernel → Svc
ini_pdq_locked i k =
    let k1 = init_wait_queue (pdq_rwait_queue i) (init_wait_queue (pdq_swait_queue i) k) in
    returned e_ok (unlock_cpu (dispatch_if_needed (reset_pridataq i k1)))

unfoldable pub ini_pdq : ℕ → Kernel → Svc
ini_pdq pdqid k =
    let i = index_pdq pdqid in
    check (in_task_unlocked k) e_ctx k (
      check (valid_id pdqid k.cfg.tmax_pdqid) e_id k (
        check (not (violate_acptn (pdqinib_of i k).acvct.acptn3 k)) e_oacv k
          (ini_pdq_locked i (lock_cpu k))))

unfoldable ref_pdq : ℕ → Bool → Kernel → Svc
ref_pdq pdqid writable k =
    let i = index_pdq pdqid in
    check (in_task_unlocked k) e_ctx k (
      check (valid_id pdqid k.cfg.tmax_pdqid) e_id k (
        check writable e_macv k (
          check (not (violate_acptn (pdqinib_of i k).acvct.acptn4 k)) e_oacv k (
            returned_out e_ok
              (wait_tskid (head? (k.queue (pdq_swait_queue i)))
                ∷ wait_tskid (head? (k.queue (pdq_rwait_queue i)))
                ∷ k.pdq.count i
                ∷ [])
              (unlock_cpu (lock_cpu k))))))
