-- ===== src/System/Pridataqs.antt =====
-- The service calls of kernel/pridataq.c, over steady kernels.
use toppers_hrp3_gr_rose.Common.{
  ℕ, ◌≡◌, refl, sym, subst, inl, inr, Bool, true, some, arith, ◌==◌, if◌then◌else◌, if-both,
  Option-cases,
}
use toppers_hrp3_gr_rose.Kernel.{
  Kernel, Svc, returned, waits, queue_insert_prev, lock_cpu, unlock_cpu, e_tmout, ts_waiting_spdq,
  ts_waiting_rpdq, tstat_wait_wobj, dispatch, pdq_swait_queue, pdq_rwait_queue,
}
use toppers_hrp3_gr_rose.Wait.{
  set_wobjcb, tmo_pol, make_wait, make_wait_tmout, wobj_make_wait, wobj_make_wait_tmout,
  init_wait_queue,
}
use toppers_hrp3_gr_rose.Service.{Leaves, with_runtsk-Leaves}
use toppers_hrp3_gr_rose.Pridataq.{index_pdq, send_pridata, receive_pridata}
use toppers_hrp3_gr_rose.Pridataq.Calls.{
  snd_pdq, snd_pdq_locked, psnd_pdq, psnd_pdq_locked, tsnd_pdq, tsnd_pdq_locked, rcv_pdq,
  rcv_pdq_locked, prcv_pdq, trcv_pdq, trcv_pdq_locked, ini_pdq, ini_pdq_locked, try_send_pri,
  try_receive_pri, set_winfo_spdq,
}
use toppers_hrp3_gr_rose.System.Moves.{IsSound}
use toppers_hrp3_gr_rose.System.Releases.{init_wait_queue-IsSound}
use toppers_hrp3_gr_rose.System.Steady.{
  IsSteady, IsSteady-IsSound, core-IsSound, dispatch_if_needed-IsSteady, lock-IsSteady,
  check-IsSteady, check3-IsSteady,
}
use toppers_hrp3_gr_rose.System.Transfers.{
  is_some, raster-IsSteady, sent-IsSteady, sent_now-IsSteady, poll-IsSteady, limit-IsSteady,
  wait-IsSteady, wait_tmout-IsSteady, wait_to_receive-IsSteady, wait_to_receive_tmout-IsSteady,
}
use toppers_hrp3_gr_rose.System.PridataMoves.{receive_pridata-IsTried, send_pridata-IsTried}

kinds : (tstat_wait_wobj ts_waiting_spdq ≡ true) × (tstat_wait_wobj ts_waiting_rpdq ≡ true)
unfolding tstat_wait_wobj
kinds = (refl, refl)

module _ (k : Kernel) (i : ℕ) (v : IsSteady k) where
  sound : IsSound k
  sound = IsSteady-IsSound k v

  -- The kernel with the datum and its priority in the wait information of the task.
  noted-IsSound : (me d pri : ℕ) → IsSound (set_winfo_spdq me d pri k)
  noted-IsSound me d pri = core-IsSound k _ refl sound

  snd_pdq_locked-IsSteady : (d pri me : ℕ) → Leaves IsSteady (snd_pdq_locked i d pri me k)
  unfolding snd_pdq_locked try_send_pri
  snd_pdq_locked-IsSteady d pri me = if-both (Leaves IsSteady) (k.raster me) (raster-IsSteady k v) (
      sent-IsSteady k v (send_pridata i d pri k).0 (send_pridata i d pri k).1
        (λ k1. waits me (
          unlock_cpu (
            dispatch (
              wobj_make_wait (pdq_swait_queue i) ts_waiting_spdq me (set_winfo_spdq me d pri k1)))))
        (send_pridata-IsTried k i sound d pri)
        (wait-IsSteady (set_winfo_spdq me d pri k) (noted-IsSound me d pri) (pdq_swait_queue i) me
          ts_waiting_spdq (omega arith) kinds.0 (omega arith)))

  tsnd_pdq_locked-IsSteady :
      (d pri tmout me : ℕ) → Leaves IsSteady (tsnd_pdq_locked i d pri tmout me k)
  unfolding tsnd_pdq_locked try_send_pri
  tsnd_pdq_locked-IsSteady d pri tmout me =
      if-both (Leaves IsSteady) (k.raster me) (raster-IsSteady k v) (
        sent-IsSteady k v (send_pridata i d pri k).0 (send_pridata i d pri k).1
          (λ k1.
            if tmout == tmo_pol
            then returned e_tmout (unlock_cpu k1)
            else waits me (
                unlock_cpu (
                  dispatch (
                    wobj_make_wait_tmout (pdq_swait_queue i) ts_waiting_spdq tmout me
                      (set_winfo_spdq me d pri k1)))))
          (send_pridata-IsTried k i sound d pri)
          (limit-IsSteady k v tmout _ (
            wait_tmout-IsSteady (set_winfo_spdq me d pri k) (noted-IsSound me d pri)
              (pdq_swait_queue i) me ts_waiting_spdq (omega arith) kinds.0 (omega arith) tmout)))

  psnd_pdq_locked-IsSteady : (d pri : ℕ) → Leaves IsSteady (psnd_pdq_locked i d pri k)
  unfolding psnd_pdq_locked
  psnd_pdq_locked-IsSteady d pri =
      sent_now-IsSteady k v (send_pridata i d pri k).0 (send_pridata i d pri k).1
        (send_pridata-IsTried k i sound d pri)

  try_receive_pri-IsSteady :
      (blocked : Kernel → Svc)
      → Leaves IsSteady (blocked k)
      → Leaves IsSteady (try_receive_pri i blocked k)
  unfolding try_receive_pri is_some Leaves
  try_receive_pri-IsSteady blocked h =
      let t = receive_pridata-IsTried k i sound in
      elim (Option-cases (receive_pridata i k).0) [
        | inr (d, e) ↦ rw (e, Leaves) (dispatch_if_needed-IsSteady (receive_pridata i k).1 t.sound)
        | inl e ↦
            rw (e, Leaves)
              (subst (λ (k : Kernel). Leaves IsSteady (blocked k)) (sym (t.failed (rw e refl))) h)
      ]

  rcv_pdq_locked-IsSteady : (me : ℕ) → Leaves IsSteady (rcv_pdq_locked i me k)
  unfolding rcv_pdq_locked
  rcv_pdq_locked-IsSteady me = if-both (Leaves IsSteady) (k.raster me) (raster-IsSteady k v) (
      try_receive_pri-IsSteady
        (λ k1. waits me (
          unlock_cpu (
            dispatch (
              set_wobjcb me (pdq_swait_queue i)
                (queue_insert_prev (pdq_rwait_queue i) me (make_wait ts_waiting_rpdq me k1))))))
        (wait_to_receive-IsSteady k sound (pdq_rwait_queue i) me ts_waiting_rpdq (omega arith)
          kinds.1 (omega arith) (pdq_swait_queue i)))

  trcv_pdq_locked-IsSteady : (tmout me : ℕ) → Leaves IsSteady (trcv_pdq_locked i tmout me k)
  unfolding trcv_pdq_locked
  trcv_pdq_locked-IsSteady tmout me =
      if-both (Leaves IsSteady) (k.raster me) (raster-IsSteady k v) (
        try_receive_pri-IsSteady
          (λ k1.
            if tmout == tmo_pol
            then returned e_tmout (unlock_cpu k1)
            else waits me (
                unlock_cpu (
                  dispatch (
                    set_wobjcb me (pdq_swait_queue i) (
                      queue_insert_prev (pdq_rwait_queue i) me
                        (make_wait_tmout ts_waiting_rpdq tmout me k1))))))
          (limit-IsSteady k v tmout _ (
            wait_to_receive_tmout-IsSteady k sound (pdq_rwait_queue i) me ts_waiting_rpdq
              (omega arith) kinds.1 (omega arith) (pdq_swait_queue i) tmout)))

  ini_pdq_locked-IsSteady : Leaves IsSteady (ini_pdq_locked i k)
  unfolding ini_pdq_locked Leaves
  ini_pdq_locked-IsSteady =
      let k1 = init_wait_queue (pdq_swait_queue i) k in
      let k2 = init_wait_queue (pdq_rwait_queue i) k1 in
      dispatch_if_needed-IsSteady _ (
        core-IsSound k2 _ refl (
          init_wait_queue-IsSound (pdq_rwait_queue i) k1 (omega arith)
            (init_wait_queue-IsSound (pdq_swait_queue i) k (omega arith) sound)))

module _ (k : Kernel) (pdqid : ℕ) (v : IsSteady k) where
  i : ℕ
  i = index_pdq pdqid

  locked : IsSteady (lock_cpu k)
  locked = lock-IsSteady k v

  pub psnd_pdq-IsSteady : (d pri : ℕ) → Leaves IsSteady (psnd_pdq pdqid d pri k)
  unfolding psnd_pdq i
  psnd_pdq-IsSteady d pri =
      check3-IsSteady _ _ _ _ _ _ k _ v
        (check-IsSteady _ _ k _ v (psnd_pdq_locked-IsSteady (lock_cpu k) i locked d pri))

  pub prcv_pdq-IsSteady :
      (writable writable_pri : Bool) → Leaves IsSteady (prcv_pdq pdqid writable writable_pri k)
  unfolding prcv_pdq i
  prcv_pdq-IsSteady writable writable_pri = check3-IsSteady _ _ _ _ _ _ k _ v (
      check-IsSteady _ _ k _ v (
        check-IsSteady _ _ k _ v (
          try_receive_pri-IsSteady (lock_cpu k) i locked (λ k1. returned e_tmout (unlock_cpu k1))
            (poll-IsSteady (lock_cpu k) locked))))

  pub ini_pdq-IsSteady : Leaves IsSteady (ini_pdq pdqid k)
  unfolding ini_pdq i
  ini_pdq-IsSteady =
      check3-IsSteady _ _ _ _ _ _ k _ v (ini_pdq_locked-IsSteady (lock_cpu k) i locked)

  module _ (me : ℕ) (run : k.p_runtsk ≡ some me) where
    pub snd_pdq-IsSteady : (d pri : ℕ) → Leaves IsSteady (snd_pdq pdqid d pri k)
    unfolding snd_pdq i
    snd_pdq-IsSteady d pri = check3-IsSteady _ _ _ _ _ _ k _ v (
        check-IsSteady _ _ k _ v (
          with_runtsk-Leaves IsSteady k me _ run
            (snd_pdq_locked-IsSteady (lock_cpu k) i locked d pri me)))

    pub tsnd_pdq-IsSteady : (d pri tmout : ℕ) → Leaves IsSteady (tsnd_pdq pdqid d pri tmout k)
    unfolding tsnd_pdq i
    tsnd_pdq-IsSteady d pri tmout = check3-IsSteady _ _ _ _ _ _ k _ v (
        check-IsSteady _ _ k _ v (
          check-IsSteady _ _ k _ v (
            with_runtsk-Leaves IsSteady k me _ run
              (tsnd_pdq_locked-IsSteady (lock_cpu k) i locked d pri tmout me))))

    pub rcv_pdq-IsSteady :
        (writable writable_pri : Bool) → Leaves IsSteady (rcv_pdq pdqid writable writable_pri k)
    unfolding rcv_pdq i
    rcv_pdq-IsSteady writable writable_pri = check3-IsSteady _ _ _ _ _ _ k _ v (
        check-IsSteady _ _ k _ v (
          check-IsSteady _ _ k _ v (
            with_runtsk-Leaves IsSteady k me _ run
              (rcv_pdq_locked-IsSteady (lock_cpu k) i locked me))))

    pub trcv_pdq-IsSteady :
        (tmout : ℕ) (writable writable_pri : Bool)
        → Leaves IsSteady (trcv_pdq pdqid tmout writable writable_pri k)
    unfolding trcv_pdq i
    trcv_pdq-IsSteady tmout writable writable_pri = check3-IsSteady _ _ _ _ _ _ k _ v (
        check-IsSteady _ _ k _ v (
          check-IsSteady _ _ k _ v (
            check-IsSteady _ _ k _ v (
              with_runtsk-Leaves IsSteady k me _ run
                (trcv_pdq_locked-IsSteady (lock_cpu k) i locked tmout me)))))
