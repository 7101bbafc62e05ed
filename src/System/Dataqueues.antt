-- ===== src/System/Dataqueues.antt =====
-- The service calls of kernel/dataqueue.c, over steady kernels.
use toppers_hrp3_gr_rose.Common.{
  ℕ, ◌≡◌, refl, sym, subst, inl, inr, Bool, true, some, arith, ◌==◌, if◌then◌else◌, if-both,
  Option-cases,
}
use toppers_hrp3_gr_rose.Kernel.{
  Kernel, Svc, returned, waits, queue_insert_prev, lock_cpu, unlock_cpu, e_tmout, ts_waiting_sdtq,
  ts_waiting_rdtq, tstat_wait_wobj, dispatch, dtq_swait_queue, dtq_rwait_queue,
}
use toppers_hrp3_gr_rose.Wait.{
  set_wobjcb, tmo_pol, make_wait, make_wait_tmout, wobj_make_wait, wobj_make_wait_tmout,
  init_wait_queue,
}
use toppers_hrp3_gr_rose.Service.{Leaves, with_runtsk-Leaves}
use toppers_hrp3_gr_rose.Dataqueue.{index_dtq, send_data, receive_data}
use toppers_hrp3_gr_rose.Dataqueue.Calls.{
  snd_dtq, snd_dtq_locked, psnd_dtq, psnd_dtq_locked, tsnd_dtq, tsnd_dtq_locked, fsnd_dtq, rcv_dtq,
  rcv_dtq_locked, prcv_dtq, trcv_dtq, trcv_dtq_locked, ini_dtq, ini_dtq_locked, try_send,
  try_receive, set_winfo_dtq,
}
use toppers_hrp3_gr_rose.System.Moves.{IsSound}
use toppers_hrp3_gr_rose.System.Releases.{init_wait_queue-IsSound}
use toppers_hrp3_gr_rose.System.Steady.{
  IsSteady, IsSteady-IsSound, core-IsSound, dispatch_if_needed-IsSteady,
  dispatch_or_request-IsSteady, lock-IsSteady, check-IsSteady, check3-IsSteady,
}
use toppers_hrp3_gr_rose.System.Transfers.{
  raster-IsSteady, is_some, sent-IsSteady, sent_now-IsSteady, poll-IsSteady, limit-IsSteady,
  wait-IsSteady, wait_tmout-IsSteady, wait_to_receive-IsSteady, wait_to_receive_tmout-IsSteady,
}
use toppers_hrp3_gr_rose.System.DataMoves.{
  force_send_data-IsSound, receive_data-IsTried, send_data-IsTried,
}

kinds : (tstat_wait_wobj ts_waiting_sdtq ≡ true) × (tstat_wait_wobj ts_waiting_rdtq ≡ true)
unfolding tstat_wait_wobj
kinds = (refl, refl)

module _ (k : Kernel) (i : ℕ) (v : IsSteady k) where
  sound : IsSound k
  sound = IsSteady-IsSound k v

  -- The kernel with the datum in the wait information of the task.
  noted-IsSound : (me d : ℕ) → IsSound (set_winfo_dtq me d k)
  noted-IsSound me d = core-IsSound k _ refl sound

  snd_dtq_locked-IsSteady : (d me : ℕ) → Leaves IsSteady (snd_dtq_locked i d me k)
  unfolding snd_dtq_locked try_send
  snd_dtq_locked-IsSteady d me = if-both (Leaves IsSteady) (k.raster me) (raster-IsSteady k v) (
      sent-IsSteady k v (send_data i d k).0 (send_data i d k).1
        (λ k1. waits me (
          unlock_cpu (
            dispatch
              (wobj_make_wait (dtq_swait_queue i) ts_waiting_sdtq me (set_winfo_dtq me d k1)))))
        (send_data-IsTried k i sound d)
        (wait-IsSteady (set_winfo_dtq me d k) (noted-IsSound me d) (dtq_swait_queue i) me
          ts_waiting_sdtq (omega arith) kinds.0 (omega arith)))

  tsnd_dtq_locked-IsSteady : (d tmout me : ℕ) → Leaves IsSteady (tsnd_dtq_locked i d tmout me k)
  unfolding tsnd_dtq_locked try_send
  tsnd_dtq_locked-IsSteady d tmout me =
      if-both (Leaves IsSteady) (k.raster me) (raster-IsSteady k v) (
        sent-IsSteady k v (send_data i d k).0 (send_data i d k).1
          (λ k1.
            if tmout == tmo_pol
            then returned e_tmout (unlock_cpu k1)
            else waits me (
                unlock_cpu (
                  dispatch (
                    wobj_make_wait_tmout (dtq_swait_queue i) ts_waiting_sdtq tmout me
                      (set_winfo_dtq me d k1)))))
          (send_data-IsTried k i sound d)
          (limit-IsSteady k v tmout _ (
            wait_tmout-IsSteady (set_winfo_dtq me d k) (noted-IsSound me d) (dtq_swait_queue i) me
              ts_waiting_sdtq (omega arith) kinds.0 (omega arith) tmout)))

  psnd_dtq_locked-IsSteady : (d : ℕ) → Leaves IsSteady (psnd_dtq_locked i d k)
  unfolding psnd_dtq_locked
  psnd_dtq_locked-IsSteady d =
      sent_now-IsSteady k v (send_data i d k).0 (send_data i d k).1 (send_data-IsTried k i sound d)

  try_receive-IsSteady :
      (blocked : Kernel → Svc)
      → Leaves IsSteady (blocked k)
      → Leaves IsSteady (try_receive i blocked k)
  unfolding try_receive is_some Leaves
  try_receive-IsSteady blocked h =
      let t = receive_data-IsTried k i sound in
      elim (Option-cases (receive_data i k).0) [
        | inr (d, e) ↦ rw (e, Leaves) (dispatch_if_needed-IsSteady (receive_data i k).1 t.sound)
        | inl e ↦
            rw (e, Leaves)
              (subst (λ (k : Kernel). Leaves IsSteady (blocked k)) (sym (t.failed (rw e refl))) h)
      ]

  rcv_dtq_locked-IsSteady : (me : ℕ) → Leaves IsSteady (rcv_dtq_locked i me k)
  unfolding rcv_dtq_locked
  rcv_dtq_locked-IsSteady me = if-both (Leaves IsSteady) (k.raster me) (raster-IsSteady k v) (
      try_receive-IsSteady
        (λ k1. waits me (
          unlock_cpu (
            dispatch (
              set_wobjcb me (dtq_swait_queue i)
                (queue_insert_prev (dtq_rwait_queue i) me (make_wait ts_waiting_rdtq me k1))))))
        (wait_to_receive-IsSteady k sound (dtq_rwait_queue i) me ts_waiting_rdtq (omega arith)
          kinds.1 (omega arith) (dtq_swait_queue i)))

  trcv_dtq_locked-IsSteady : (tmout me : ℕ) → Leaves IsSteady (trcv_dtq_locked i tmout me k)
  unfolding trcv_dtq_locked
  trcv_dtq_locked-IsSteady tmout me =
      if-both (Leaves IsSteady) (k.raster me) (raster-IsSteady k v) (
        try_receive-IsSteady
          (λ k1.
            if tmout == tmo_pol
            then returned e_tmout (unlock_cpu k1)
            else waits me (
                unlock_cpu (
                  dispatch (
                    set_wobjcb me (dtq_swait_queue i) (
                      queue_insert_prev (dtq_rwait_queue i) me
                        (make_wait_tmout ts_waiting_rdtq tmout me k1))))))
          (limit-IsSteady k v tmout _ (
            wait_to_receive_tmout-IsSteady k sound (dtq_rwait_queue i) me ts_waiting_rdtq
              (omega arith) kinds.1 (omega arith) (dtq_swait_queue i) tmout)))

  ini_dtq_locked-IsSteady : Leaves IsSteady (ini_dtq_locked i k)
  unfolding ini_dtq_locked Leaves
  ini_dtq_locked-IsSteady =
      let k1 = init_wait_queue (dtq_swait_queue i) k in
      let k2 = init_wait_queue (dtq_rwait_queue i) k1 in
      dispatch_if_needed-IsSteady _ (
        core-IsSound k2 _ refl (
          init_wait_queue-IsSound (dtq_rwait_queue i) k1 (omega arith)
            (init_wait_queue-IsSound (dtq_swait_queue i) k (omega arith) sound)))

module _ (k : Kernel) (dtqid : ℕ) (v : IsSteady k) where
  i : ℕ
  i = index_dtq dtqid

  locked : IsSteady (lock_cpu k)
  locked = lock-IsSteady k v

  pub psnd_dtq-IsSteady : (d : ℕ) → Leaves IsSteady (psnd_dtq dtqid d k)
  unfolding psnd_dtq i
  psnd_dtq-IsSteady d =
      check3-IsSteady _ _ _ _ _ _ k _ v (psnd_dtq_locked-IsSteady (lock_cpu k) i locked d)

  pub fsnd_dtq-IsSteady : (d : ℕ) → Leaves IsSteady (fsnd_dtq dtqid d k)
  unfolding fsnd_dtq i Leaves
  fsnd_dtq-IsSteady d = check3-IsSteady _ _ _ _ _ _ k _ v (
      check-IsSteady _ _ k _ v (
        dispatch_or_request-IsSteady _
          (force_send_data-IsSound (lock_cpu k) i (IsSteady-IsSound (lock_cpu k) locked) d)))

  pub prcv_dtq-IsSteady : (writable : Bool) → Leaves IsSteady (prcv_dtq dtqid writable k)
  unfolding prcv_dtq i
  prcv_dtq-IsSteady writable = check3-IsSteady _ _ _ _ _ _ k _ v (
      check-IsSteady _ _ k _ v (
        try_receive-IsSteady (lock_cpu k) i locked (λ k1. returned e_tmout (unlock_cpu k1))
          (poll-IsSteady (lock_cpu k) locked)))

  pub ini_dtq-IsSteady : Leaves IsSteady (ini_dtq dtqid k)
  unfolding ini_dtq i
  ini_dtq-IsSteady =
      check3-IsSteady _ _ _ _ _ _ k _ v (ini_dtq_locked-IsSteady (lock_cpu k) i locked)

  module _ (me : ℕ) (run : k.p_runtsk ≡ some me) where
    pub snd_dtq-IsSteady : (d : ℕ) → Leaves IsSteady (snd_dtq dtqid d k)
    unfolding snd_dtq i
    snd_dtq-IsSteady d = check3-IsSteady _ _ _ _ _ _ k _ v (
        with_runtsk-Leaves IsSteady k me _ run (snd_dtq_locked-IsSteady (lock_cpu k) i locked d me))

    pub tsnd_dtq-IsSteady : (d tmout : ℕ) → Leaves IsSteady (tsnd_dtq dtqid d tmout k)
    unfolding tsnd_dtq i
    tsnd_dtq-IsSteady d tmout = check3-IsSteady _ _ _ _ _ _ k _ v (
        check-IsSteady _ _ k _ v (
          with_runtsk-Leaves IsSteady k me _ run
            (tsnd_dtq_locked-IsSteady (lock_cpu k) i locked d tmout me)))

    pub rcv_dtq-IsSteady : (writable : Bool) → Leaves IsSteady (rcv_dtq dtqid writable k)
    unfolding rcv_dtq i
    rcv_dtq-IsSteady writable = check3-IsSteady _ _ _ _ _ _ k _ v (
        check-IsSteady _ _ k _ v (
          with_runtsk-Leaves IsSteady k me _ run
            (rcv_dtq_locked-IsSteady (lock_cpu k) i locked me)))

    pub trcv_dtq-IsSteady :
        (tmout : ℕ) (writable : Bool) → Leaves IsSteady (trcv_dtq dtqid tmout writable k)
    unfolding trcv_dtq i
    trcv_dtq-IsSteady tmout writable = check3-IsSteady _ _ _ _ _ _ k _ v (
        check-IsSteady _ _ k _ v (
          check-IsSteady _ _ k _ v (
            with_runtsk-Leaves IsSteady k me _ run
              (trcv_dtq_locked-IsSteady (lock_cpu k) i locked tmout me))))
