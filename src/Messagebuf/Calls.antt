-- ===== src/Messagebuf/Calls.antt =====
-- The service calls of kernel/messagebuf.c.
use toppers_hrp3_gr_rose.Common.{
  ℕ, Bool, not, ◌&&◌, List, [], ◌∷◌, ltb, leb, ◌==◌, if◌then◌else◌, update, length,
}
use toppers_hrp3_gr_rose.Kernel.{
  Kernel, e_ok, e_ctx, e_id, e_par, e_oacv, e_macv, e_tmout, e_raster, value, wercd, p_tmevtb, Svc,
  returned, returned_out, waits, fault, check, violate_acptn, valid_id, with_runtsk, can_dispatch,
  in_task_unlocked, wait_tskid, lock_cpu, unlock_cpu, dispatch, dispatch_if_needed, mbf_swait_queue,
  mbf_rwait_queue, head?, queue_insert_prev, ts_waiting_smbf, ts_waiting_rmbf,
}
use toppers_hrp3_gr_rose.Wait.{
  set_wobjcb, make_wait, make_wait_tmout, wobj_make_wait, wobj_make_wait_tmout, init_wait_queue,
  tmo_pol, valid_tmout,
}
use toppers_hrp3_gr_rose.Messagebuf.{
  index_mbf, mbfinib_of, reset_messagebuf, send_message, receive_message,
}

-- `0 < msgsz && msgsz <= maxmsz`.
abbrev pub valid_msgsz : ℕ → List ℕ → Kernel → Bool
valid_msgsz i msg k = ltb 0 (length msg) && leb (length msg) (mbfinib_of i k).maxmsz

-- The branches of a call that sends: `blocked` is what follows a buffer without enough room.
unfoldable pub try_send_message : ℕ → List ℕ → (Kernel → Svc) → Kernel → Svc
unfolding send_message
try_send_message i msg blocked k =
    let (sent, k1) = send_message i msg k in
    if sent then returned e_ok (unlock_cpu (dispatch_if_needed k1)) else blocked k1

abbrev pub set_winfo_smbf : ℕ → List ℕ → Kernel → Kernel
set_winfo_smbf me msg k = record k { wmsg = update k.wmsg me msg }

unfoldable pub snd_mbf_locked : ℕ → List ℕ → ℕ → Kernel → Svc
unfolding try_send_message
snd_mbf_locked i msg me k =
    if k.raster me
    then returned e_raster (unlock_cpu k)
    else try_send_message i msg
        (λ k1. waits me (
          unlock_cpu (
            dispatch
              (wobj_make_wait (mbf_swait_queue i) ts_waiting_smbf me (set_winfo_smbf me msg k1)))))
        k

-- `msg` is the message of msgsz bytes, and `readable` what the probe of the memory behind it says.
unfoldable pub snd_mbf : ℕ → List ℕ → Bool → Kernel → Svc
snd_mbf mbfid msg readable k =
    let i = index_mbf mbfid in
    check (can_dispatch k) e_ctx k (
      check (valid_id mbfid k.cfg.tmax_mbfid) e_id k (
        check readable e_macv k (
          check (not (violate_acptn (mbfinib_of i k).acvct.acptn1 k)) e_oacv k (
            check (valid_msgsz i msg k) e_par k
              (with_runtsk k (λ me. snd_mbf_locked i msg me (lock_cpu k)))))))

unfoldable pub psnd_mbf : ℕ → List ℕ → Bool → Kernel → Svc
unfolding try_send_message
psnd_mbf mbfid msg readable k =
    let i = index_mbf mbfid in
    check (in_task_unlocked k) e_ctx k (
      check (valid_id mbfid k.cfg.tmax_mbfid) e_id k (
        check readable e_macv k (
          check (not (violate_acptn (mbfinib_of i k).acvct.acptn1 k)) e_oacv k (
            check (valid_msgsz i msg k) e_par k
              (try_send_message i msg (λ k1. returned e_tmout (unlock_cpu k1)) (lock_cpu k))))))

unfoldable pub tsnd_mbf_locked : ℕ → List ℕ → ℕ → ℕ → Kernel → Svc
unfolding try_send_message
tsnd_mbf_locked i msg tmout me k =
    if k.raster me
    then returned e_raster (unlock_cpu k)
    else try_send_message i msg
        (λ k1.
          if tmout == tmo_pol
          then returned e_tmout (unlock_cpu k1)
          else waits me (
              unlock_cpu (
                dispatch (
                  wobj_make_wait_tmout (mbf_swait_queue i) ts_waiting_smbf tmout me
                    (set_winfo_smbf me msg k1)))))
        k

unfoldable pub tsnd_mbf : ℕ → List ℕ → ℕ → Bool → Kernel → Svc
tsnd_mbf mbfid msg tmout readable k =
    let i = index_mbf mbfid in
    check (can_dispatch k) e_ctx k (
      check (valid_id mbfid k.cfg.tmax_mbfid) e_id k (
        check (valid_tmout tmout) e_par k (
          check readable e_macv k (
            check (not (violate_acptn (mbfinib_of i k).acvct.acptn1 k)) e_oacv k (
              check (valid_msgsz i msg k) e_par k
                (with_runtsk k (λ me. tsnd_mbf_locked i msg tmout me (lock_cpu k))))))))

-- The branches of a call that receives: `blocked` is what follows an empty buffer. The size of the
-- message is the result, and its bytes go to `msg`.
unfoldable pub try_receive_message : ℕ → (Kernel → Svc) → Kernel → Svc
unfolding receive_message
try_receive_message i blocked k =
    let (msg, k1) = receive_message i k in
    if ltb 0 (length msg)
    then returned_out (value (length msg)) msg (unlock_cpu (dispatch_if_needed k1))
    else blocked k1

unfoldable pub rcv_mbf_locked : ℕ → ℕ → Kernel → Svc
unfolding try_receive_message
rcv_mbf_locked i me k =
    if k.raster me
    then returned e_raster (unlock_cpu k)
    else try_receive_message i
        (λ k1. waits me (
          unlock_cpu (
            dispatch (
              set_wobjcb me (mbf_swait_queue i)
                (queue_insert_prev (mbf_rwait_queue i) me (make_wait ts_waiting_rmbf me k1))))))
        k

-- `writable` is what the probe of the maxmsz bytes behind `msg` says.
unfoldable pub rcv_mbf : ℕ → Bool → Kernel → Svc
rcv_mbf mbfid writable k =
    let i = index_mbf mbfid in
    check (can_dispatch k) e_ctx k (
      check (valid_id mbfid k.cfg.tmax_mbfid) e_id k (
        check (not (violate_acptn (mbfinib_of i k).acvct.acptn2 k)) e_oacv k
          (check writable e_macv k (with_runtsk k (λ me. rcv_mbf_locked i me (lock_cpu k))))))

unfoldable pub prcv_mbf : ℕ → Bool → Kernel → Svc
unfolding try_receive_message
prcv_mbf mbfid writable k =
    let i = index_mbf mbfid in
    check (in_task_unlocked k) e_ctx k (
      check (valid_id mbfid k.cfg.tmax_mbfid) e_id k (
        check (not (violate_acptn (mbfinib_of i k).acvct.acptn2 k)) e_oacv k (
          check writable e_macv k
            (try_receive_message i (λ k1. returned e_tmout (unlock_cpu k1)) (lock_cpu k)))))

unfoldable pub trcv_mbf_locked : ℕ → ℕ → ℕ → Kernel → Svc
unfolding try_receive_message
trcv_mbf_locked i tmout me k =
    if k.raster me
    then returned e_raster (unlock_cpu k)
    else try_receive_message i
        (λ k1.
          if tmout == tmo_pol
          then returned e_tmout (unlock_cpu k1)
          else waits me (
              unlock_cpu (
                dispatch (
                  set_wobjcb me (mbf_swait_queue i) (
                    queue_insert_prev (mbf_rwait_queue i) me
                      (make_wait_tmout ts_waiting_rmbf tmout me k1))))))
        k

unfoldable pub trcv_mbf : ℕ → ℕ → Bool → Kernel → Svc
trcv_mbf mbfid tmout writable k =
    let i = index_mbf mbfid in
    check (can_dispatch k) e_ctx k (
      check (valid_id mbfid k.cfg.tmax_mbfid) e_id k (
        check (valid_tmout tmout) e_par k (
          check (not (violate_acptn (mbfinib_of i k).acvct.acptn2 k)) e_oacv k (
            check writable e_macv k
              (with_runtsk k (λ me. trcv_mbf_locked i tmout me (lock_cpu k)))))))

-- What rcv_mbf and trcv_mbf return when the task runs again: the message is in its memory.
unfoldable resumed_rmbf : ℕ → Kernel → Svc
resumed_rmbf t k = elim (k.winfo t) [
  | wercd (value msgsz) ↦ returned_out (value msgsz) (k.wmsg t) k
  | wercd e ↦ returned e k
  | p_tmevtb _ ↦ fault
]

unfoldable pub ini_mbf_locked : ℕ → Kernel → Svc
ini_mbf_locked i k =
    let k1 = init_wait_queue (mbf_rwait_queue i) (init_wait_queue (mbf_swait_queue i) k) in
    returned e_ok (unlock_cpu (dispatch_if_needed (reset_messagebuf i k1)))

unfoldable pub ini_mbf : ℕ → Kernel → Svc
ini_mbf mbfid k =
    let i = index_mbf mbfid in
    check (in_task_unlocked k) e_ctx k (
      check (valid_id mbfid k.cfg.tmax_mbfid) e_id k (
        check (not (violate_acptn (mbfinib_of i k).acvct.acptn3 k)) e_oacv k
          (ini_mbf_locked i (lock_cpu k))))

unfoldable ref_mbf : ℕ → Bool → Kernel → Svc
ref_mbf mbfid writable k =
    let i = index_mbf mbfid in
    check (in_task_unlocked k) e_ctx k (
      check (valid_id mbfid k.cfg.tmax_mbfid) e_id k (
        check writable e_macv k (
          check (not (violate_acptn (mbfinib_of i k).acvct.acptn4 k)) e_oacv k (
            returned_out e_ok
              (wait_tskid (head? (k.queue (mbf_swait_queue i)))
                ∷ wait_tskid (head? (k.queue (mbf_rwait_queue i)))
                ∷ k.mbf.smbfcnt i
                ∷ k.mbf.fmbfsz i
                ∷ [])
              (unlock_cpu (lock_cpu k))))))
