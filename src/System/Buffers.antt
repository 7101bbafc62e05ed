-- ===== src/System/Buffers.antt =====
-- The service calls of kernel/messagebuf.c, over steady kernels.
use toppers_hrp3_gr_rose.Common.{
  ℕ, ◌≡◌, refl, inl, inr, Bool, true, false, some, List, arith, ltb, leb, ◌==◌, if◌then◌else◌,
  if-both, Option-cases, length,
}
use toppers_hrp3_gr_rose.Kernel.{
  Kernel, Svc, returned, waits, head?, queue_delete_next, queue_empty, lock_cpu, unlock_cpu,
  e_tmout, value, ts_waiting_smbf, ts_waiting_rmbf, tstat_wait_wobj, dispatch, mbf_swait_queue,
  mbf_rwait_queue,
}
use toppers_hrp3_gr_rose.Wait.{tmo_pol, wobj_make_wait, wobj_make_wait_tmout, init_wait_queue}
use toppers_hrp3_gr_rose.Service.{Leaves, with_runtsk-Leaves}
use toppers_hrp3_gr_rose.Messagebuf.{
  index_mbf, alloc_sz, store_message, enqueue_message, dequeue_message, hand_over_message,
  send_message, receive_message,
}
use toppers_hrp3_gr_rose.Messagebuf.Calls.{
  snd_mbf, snd_mbf_locked, psnd_mbf, tsnd_mbf, tsnd_mbf_locked, rcv_mbf, rcv_mbf_locked, ini_mbf,
  ini_mbf_locked, try_send_message, try_receive_message, set_winfo_smbf,
}
use toppers_hrp3_gr_rose.System.Moves.{
  IsSound, first-not_runnable, first-IsSound, first-IsFree, end_wait-IsSound,
}
use toppers_hrp3_gr_rose.System.Releases.{release-IsSound, init_wait_queue-IsSound}
use toppers_hrp3_gr_rose.System.Messages.{messagebuf_signal-IsSound}
use toppers_hrp3_gr_rose.System.Steady.{
  IsSteady, IsSteady-IsSound, core-IsSound, dispatch_if_needed-IsSteady, lock-IsSteady,
  check-IsSteady, check3-IsSteady,
}
use toppers_hrp3_gr_rose.System.Transfers.{
  IsTried, raster-IsSteady, sent-IsSteady, poll-IsSteady, limit-IsSteady, wait-IsSteady,
  wait_tmout-IsSteady, wait_to_receive-IsSteady,
}

module _ (k : Kernel) (i : ℕ) (s : IsSound k) where
  hand_over_message-IsSound :
      (t : ℕ) (msg : List ℕ)
      → head? (k.queue (mbf_rwait_queue i)) ≡ some t
      → IsSound (hand_over_message i t msg k)
  unfolding hand_over_message queue_delete_next
  hand_over_message-IsSound t msg e =
      let q = mbf_rwait_queue i in
      end_wait-IsSound (record (queue_delete_next q k) { wmsg = _ }) t (value (length msg))
        (core-IsSound (queue_delete_next q k) _ refl (first-IsSound k q (omega arith) s))
        (first-IsFree k q t s e) (first-not_runnable k q t s (omega arith) e)

  send_message-IsTried :
      (msg : List ℕ) → IsTried k (send_message i msg k).0 (send_message i msg k).1
  unfolding send_message enqueue_message store_message
  send_message-IsTried msg = elim (Option-cases (head? (k.queue (mbf_rwait_queue i)))) [
    | inr (t, e) ↦
        rw (e, send_message)
          (record { sound = hand_over_message-IsSound t msg e; failed = λ f. ground arith })
    | inl e ↦
        let Tried = λ (r : Bool × Kernel). IsTried k r.0 r.1 in
        let same : IsTried k false k = record { sound = s; failed = λ _. refl } in
        rw (e, send_message)
          (if-both Tried (queue_empty (mbf_swait_queue i) k)
            (if-both Tried (leb (alloc_sz (length msg)) (k.mbf.fmbfsz i))
              (record { sound = core-IsSound k _ refl s; failed = λ f. ground arith }) same)
            same)
  ]

  receive_message-IsSound : IsSound (receive_message i k).1
  unfolding receive_message dequeue_message
  receive_message-IsSound =
      if-both (λ (r : List ℕ × Kernel). IsSound r.1) (ltb 0 (k.mbf.smbfcnt i))
        (messagebuf_signal-IsSound i (dequeue_message i k).1 (core-IsSound k _ refl s))
        (elim (Option-cases (head? (k.queue (mbf_swait_queue i)))) [
          | inl e ↦ rw e s
          | inr (t, e) ↦ rw e (release-IsSound k (mbf_swait_queue i) t (omega arith) s e)
        ])

kinds : (tstat_wait_wobj ts_waiting_smbf ≡ true) × (tstat_wait_wobj ts_waiting_rmbf ≡ true)
unfolding tstat_wait_wobj
kinds = (refl, refl)

module _ (k : Kernel) (i : ℕ) (v : IsSteady k) where
  sound : IsSound k
  sound = IsSteady-IsSound k v

  -- The kernel with the message in the wait information of the task.
  noted-IsSound : (me : ℕ) (msg : List ℕ) → IsSound (set_winfo_smbf me msg k)
  noted-IsSound me msg = core-IsSound k _ refl sound

  try_send_message-IsSteady :
      (msg : List ℕ) (blocked : Kernel → Svc)
      → Leaves IsSteady (blocked k)
      → Leaves IsSteady (try_send_message i msg blocked k)
  unfolding try_send_message
  try_send_message-IsSteady msg blocked h =
      sent-IsSteady k v (send_message i msg k).0 (send_message i msg k).1 blocked
        (send_message-IsTried k i sound msg) h

  snd_mbf_locked-IsSteady : (msg : List ℕ) (me : ℕ) → Leaves IsSteady (snd_mbf_locked i msg me k)
  unfolding snd_mbf_locked
  snd_mbf_locked-IsSteady msg me = if-both (Leaves IsSteady) (k.raster me) (raster-IsSteady k v) (
      try_send_message-IsSteady msg
        (λ k1. waits me (
          unlock_cpu (
            dispatch
              (wobj_make_wait (mbf_swait_queue i) ts_waiting_smbf me (set_winfo_smbf me msg k1)))))
        (wait-IsSteady (set_winfo_smbf me msg k) (noted-IsSound me msg) (mbf_swait_queue i) me
          ts_waiting_smbf (omega arith) kinds.0 (omega arith)))

  tsnd_mbf_locked-IsSteady :
      (msg : List ℕ) (tmout me : ℕ) → Leaves IsSteady (tsnd_mbf_locked i msg tmout me k)
  unfolding tsnd_mbf_locked
  tsnd_mbf_locked-IsSteady msg tmout me =
      if-both (Leaves IsSteady) (k.raster me) (raster-IsSteady k v) (
        try_send_message-IsSteady msg
          (λ k1.
            if tmout == tmo_pol
            then returned e_tmout (unlock_cpu k1)
            else waits me (
                unlock_cpu (
                  dispatch (
                    wobj_make_wait_tmout (mbf_swait_queue i) ts_waiting_smbf tmout me
                      (set_winfo_smbf me msg k1)))))
          (limit-IsSteady k v tmout _ (
            wait_tmout-IsSteady (set_winfo_smbf me msg k) (noted-IsSound me msg) (mbf_swait_queue i)
              me ts_waiting_smbf (omega arith) kinds.0 (omega arith) tmout)))

  rcv_mbf_locked-IsSteady : (me : ℕ) → Leaves IsSteady (rcv_mbf_locked i me k)
  unfolding rcv_mbf_locked try_receive_message Leaves
  rcv_mbf_locked-IsSteady me =
      let r = receive_message i k in
      let s1 = receive_message-IsSound k i sound in
      if-both (Leaves IsSteady) (k.raster me) (raster-IsSteady k v) (
        if-both (Leaves IsSteady) (ltb 0 (length r.0)) (dispatch_if_needed-IsSteady r.1 s1) (
          wait_to_receive-IsSteady r.1 s1 (mbf_rwait_queue i) me ts_waiting_rmbf (omega arith)
            kinds.1 (omega arith) (mbf_swait_queue i)))

  ini_mbf_locked-IsSteady : Leaves IsSteady (ini_mbf_locked i k)
  unfolding ini_mbf_locked Leaves
  ini_mbf_locked-IsSteady =
      let k1 = init_wait_queue (mbf_swait_queue i) k in
      let k2 = init_wait_queue (mbf_rwait_queue i) k1 in
      dispatch_if_needed-IsSteady _ (
        core-IsSound k2 _ refl (
          init_wait_queue-IsSound (mbf_rwait_queue i) k1 (omega arith)
            (init_wait_queue-IsSound (mbf_swait_queue i) k (omega arith) sound)))

module _ (k : Kernel) (mbfid : ℕ) (v : IsSteady k) where
  i : ℕ
  i = index_mbf mbfid

  locked : IsSteady (lock_cpu k)
  locked = lock-IsSteady k v

  pub psnd_mbf-IsSteady :
      (msg : List ℕ) (readable : Bool) → Leaves IsSteady (psnd_mbf mbfid msg readable k)
  unfolding psnd_mbf i
  psnd_mbf-IsSteady msg readable = check-IsSteady _ _ k _ v (
      check-IsSteady _ _ k _ v (
        check3-IsSteady _ _ _ _ _ _ k _ v (
          try_send_message-IsSteady (lock_cpu k) i locked msg
            (λ k1. returned e_tmout (unlock_cpu k1)) (poll-IsSteady (lock_cpu k) locked))))

  pub ini_mbf-IsSteady : Leaves IsSteady (ini_mbf mbfid k)
  unfolding ini_mbf i
  ini_mbf-IsSteady =
      check3-IsSteady _ _ _ _ _ _ k _ v (ini_mbf_locked-IsSteady (lock_cpu k) i locked)

  module _ (me : ℕ) (run : k.p_runtsk ≡ some me) where
    pub snd_mbf-IsSteady :
        (msg : List ℕ) (readable : Bool) → Leaves IsSteady (snd_mbf mbfid msg readable k)
    unfolding snd_mbf i
    snd_mbf-IsSteady msg readable = check-IsSteady _ _ k _ v (
        check-IsSteady _ _ k _ v (
          check3-IsSteady _ _ _ _ _ _ k _ v (
            with_runtsk-Leaves IsSteady k me _ run
              (snd_mbf_locked-IsSteady (lock_cpu k) i locked msg me))))

    pub tsnd_mbf-IsSteady :
        (msg : List ℕ) (tmout : ℕ) (readable : Bool)
        → Leaves IsSteady (tsnd_mbf mbfid msg tmout readable k)
    unfolding tsnd_mbf i
    tsnd_mbf-IsSteady msg tmout readable = check3-IsSteady _ _ _ _ _ _ k _ v (
        check3-IsSteady _ _ _ _ _ _ k _ v (
          with_runtsk-Leaves IsSteady k me _ run
            (tsnd_mbf_locked-IsSteady (lock_cpu k) i locked msg tmout me)))

    pub rcv_mbf-IsSteady : (writable : Bool) → Leaves IsSteady (rcv_mbf mbfid writable k)
    unfolding rcv_mbf i
    rcv_mbf-IsSteady writable = check3-IsSteady _ _ _ _ _ _ k _ v (
        check-IsSteady _ _ k _ v (
          with_runtsk-Leaves IsSteady k me _ run
            (rcv_mbf_locked-IsSteady (lock_cpu k) i locked me)))
