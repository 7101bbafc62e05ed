-- ===== src/System/Handlers.antt =====
-- The service calls in an interrupt handler, which may make only some of them.
use toppers_hrp3_gr_rose.Common.{ℕ, ◌≡◌, Bool}
use toppers_hrp3_gr_rose.Kernel.{Kernel, Svc}
use toppers_hrp3_gr_rose.Semaphore.{wai_sem, twai_sem}
use toppers_hrp3_gr_rose.Eventflag.{wai_flg, twai_flg}
use toppers_hrp3_gr_rose.Dataqueue.Calls.{snd_dtq, tsnd_dtq, rcv_dtq, trcv_dtq}
use toppers_hrp3_gr_rose.Pridataq.Calls.{snd_pdq, tsnd_pdq, rcv_pdq, trcv_pdq}
use toppers_hrp3_gr_rose.Messagebuf.Calls.{snd_mbf, tsnd_mbf, rcv_mbf}
use toppers_hrp3_gr_rose.Mempfix.Calls.{get_mpf, tget_mpf}
use toppers_hrp3_gr_rose.TaskSync.{slp_tsk, tslp_tsk, dly_tsk, wup_tsk, can_wup, sus_tsk, rsm_tsk}
use toppers_hrp3_gr_rose.TaskManage.{act_tsk, can_act}
use toppers_hrp3_gr_rose.Service.{Leaves}
use toppers_hrp3_gr_rose.System.Steady.{IsSteady}
use toppers_hrp3_gr_rose.System.Semaphores.{sig_sem-IsSteady, pol_sem-IsSteady, ini_sem-IsSteady}
use toppers_hrp3_gr_rose.System.Flags.{
  set_flg-IsSteady, clr_flg-IsSteady, pol_flg-IsSteady, ini_flg-IsSteady,
}
use toppers_hrp3_gr_rose.System.Dataqueues.{
  psnd_dtq-IsSteady, fsnd_dtq-IsSteady, prcv_dtq-IsSteady, ini_dtq-IsSteady,
}
use toppers_hrp3_gr_rose.System.Pridataqs.{psnd_pdq-IsSteady, prcv_pdq-IsSteady, ini_pdq-IsSteady}
use toppers_hrp3_gr_rose.System.Buffers.{psnd_mbf-IsSteady, ini_mbf-IsSteady}
use toppers_hrp3_gr_rose.System.Pools.{pget_mpf-IsSteady, rel_mpf-IsSteady, ini_mpf-IsSteady}
use toppers_hrp3_gr_rose.System.Manage.{
  rel_wai-IsSteady, loc_cpu-IsSteady, unl_cpu-IsSteady, dis_dsp-IsSteady,
}
use toppers_hrp3_gr_rose.Common.{refl, not, ◌&&◌, true, false, arith, if-branch, ◌==◌}
use toppers_hrp3_gr_rose.Kernel.{Er, check, can_dispatch, in_task_unlocked, lock_cpu}
use toppers_hrp3_gr_rose.TaskSync.{with_task, tsk_self, index_tsk}
use toppers_hrp3_gr_rose.System.Tasks.{wup_tsk_locked-IsSteady, act_tsk_locked-IsSteady}
use toppers_hrp3_gr_rose.System.Steady.{lock-IsSteady, check-IsSteady}
use toppers_hrp3_gr_rose.System.Calls.{
  Call, perform, call_sig_sem, call_wai_sem, call_pol_sem, call_twai_sem, call_ini_sem,
  call_set_flg, call_clr_flg, call_wai_flg, call_pol_flg, call_twai_flg, call_ini_flg, call_snd_dtq,
  call_psnd_dtq, call_tsnd_dtq, call_fsnd_dtq, call_rcv_dtq, call_prcv_dtq, call_trcv_dtq,
  call_ini_dtq, call_snd_pdq, call_psnd_pdq, call_tsnd_pdq, call_rcv_pdq, call_prcv_pdq,
  call_trcv_pdq, call_ini_pdq, call_snd_mbf, call_psnd_mbf, call_tsnd_mbf, call_rcv_mbf,
  call_ini_mbf, call_get_mpf, call_pget_mpf, call_tget_mpf, call_rel_mpf, call_ini_mpf,
  call_slp_tsk, call_tslp_tsk, call_dly_tsk, call_wup_tsk, call_can_wup, call_rel_wai, call_sus_tsk,
  call_rsm_tsk, call_act_tsk, call_can_act, call_loc_cpu, call_unl_cpu, call_dis_dsp,
}

module _ (k : Kernel) (v : IsSteady k) (handler : k.nontask_context ≡ true) where
  refused-IsSteady :
      (b : Bool) (e : Er) (body : Svc) → b ≡ false → Leaves IsSteady (check b e k body)
  unfolding check Leaves
  refused-IsSteady b e body h = rw (h, check, Leaves) v

  no_dispatch : can_dispatch k ≡ false
  no_dispatch = rw handler refl

  no_task : in_task_unlocked k ≡ false
  no_task = rw handler refl

  with_task-IsSteady :
      (tskid : ℕ) (body : ℕ → Svc)
      → ((t : ℕ) → Leaves IsSteady (body t))
      → Leaves IsSteady (with_task (not k.nontask_context) tskid k body)
  unfolding with_task
  with_task-IsSteady tskid body h =
      if-branch (Leaves IsSteady) ((tskid == tsk_self) && not k.nontask_context)
        (λ e. absurd (ground arith)) (λ _. check-IsSteady _ _ k _ v (h (index_tsk tskid)))

  handler_wup_tsk-IsSteady : (tskid : ℕ) → Leaves IsSteady (wup_tsk tskid k)
  unfolding wup_tsk
  handler_wup_tsk-IsSteady tskid = check-IsSteady _ _ k _ v (
      with_task-IsSteady tskid _ (λ t.
        check-IsSteady _ _ k _ v (wup_tsk_locked-IsSteady (lock_cpu k) (lock-IsSteady k v) t)))

  handler_act_tsk-IsSteady : (tskid : ℕ) → Leaves IsSteady (act_tsk tskid k)
  unfolding act_tsk
  handler_act_tsk-IsSteady tskid = check-IsSteady _ _ k _ v (
      with_task-IsSteady tskid _ (λ t.
        check-IsSteady _ _ k _ v (act_tsk_locked-IsSteady (lock_cpu k) (lock-IsSteady k v) t)))

  -- In an interrupt handler, with or without a running task, every one of the 49 service calls of
  -- the list leaves a steady kernel steady, whatever it returns, and none of them faults.
  pub perform_in_handler-IsSteady : (c : Call) → Leaves IsSteady (perform c k)
  unfolding perform wai_sem twai_sem wai_flg twai_flg snd_dtq tsnd_dtq rcv_dtq trcv_dtq snd_pdq
      tsnd_pdq rcv_pdq trcv_pdq snd_mbf tsnd_mbf rcv_mbf get_mpf tget_mpf slp_tsk tslp_tsk dly_tsk
      can_wup sus_tsk rsm_tsk can_act
  perform_in_handler-IsSteady (call_sig_sem semid) = sig_sem-IsSteady k semid v
  perform_in_handler-IsSteady (call_wai_sem semid) = refused-IsSteady _ _ _ no_dispatch
  perform_in_handler-IsSteady (call_pol_sem semid) = pol_sem-IsSteady k semid v
  perform_in_handler-IsSteady (call_twai_sem semid tmout) = refused-IsSteady _ _ _ no_dispatch
  perform_in_handler-IsSteady (call_ini_sem semid) = ini_sem-IsSteady k semid v
  perform_in_handler-IsSteady (call_set_flg flgid ptn) = set_flg-IsSteady k flgid v ptn
  perform_in_handler-IsSteady (call_clr_flg flgid ptn) = clr_flg-IsSteady k flgid v ptn
  perform_in_handler-IsSteady (call_wai_flg flgid ptn mode writable) =
      refused-IsSteady _ _ _ no_dispatch
  perform_in_handler-IsSteady (call_pol_flg flgid ptn mode writable) =
      pol_flg-IsSteady k flgid v ptn mode writable
  perform_in_handler-IsSteady (call_twai_flg flgid ptn mode tmout writable) =
      refused-IsSteady _ _ _ no_dispatch
  perform_in_handler-IsSteady (call_ini_flg flgid) = ini_flg-IsSteady k flgid v
  perform_in_handler-IsSteady (call_snd_dtq dtqid d) = refused-IsSteady _ _ _ no_dispatch
  perform_in_handler-IsSteady (call_psnd_dtq dtqid d) = psnd_dtq-IsSteady k dtqid v d
  perform_in_handler-IsSteady (call_tsnd_dtq dtqid d tmout) = refused-IsSteady _ _ _ no_dispatch
  perform_in_handler-IsSteady (call_fsnd_dtq dtqid d) = fsnd_dtq-IsSteady k dtqid v d
  perform_in_handler-IsSteady (call_rcv_dtq dtqid writable) = refused-IsSteady _ _ _ no_dispatch
  perform_in_handler-IsSteady (call_prcv_dtq dtqid writable) = prcv_dtq-IsSteady k dtqid v writable
  perform_in_handler-IsSteady (call_trcv_dtq dtqid tmout writable) =
      refused-IsSteady _ _ _ no_dispatch
  perform_in_handler-IsSteady (call_ini_dtq dtqid) = ini_dtq-IsSteady k dtqid v
  perform_in_handler-IsSteady (call_snd_pdq pdqid d pri) = refused-IsSteady _ _ _ no_dispatch
  perform_in_handler-IsSteady (call_psnd_pdq pdqid d pri) = psnd_pdq-IsSteady k pdqid v d pri
  perform_in_handler-IsSteady (call_tsnd_pdq pdqid d pri tmout) = refused-IsSteady _ _ _ no_dispatch
  perform_in_handler-IsSteady (call_rcv_pdq pdqid writable writable_pri) =
      refused-IsSteady _ _ _ no_dispatch
  perform_in_handler-IsSteady (call_prcv_pdq pdqid writable writable_pri) =
      prcv_pdq-IsSteady k pdqid v writable writable_pri
  perform_in_handler-IsSteady (call_trcv_pdq pdqid tmout writable writable_pri) =
      refused-IsSteady _ _ _ no_dispatch
  perform_in_handler-IsSteady (call_ini_pdq pdqid) = ini_pdq-IsSteady k pdqid v
  perform_in_handler-IsSteady (call_snd_mbf mbfid msg readable) = refused-IsSteady _ _ _ no_dispatch
  perform_in_handler-IsSteady (call_psnd_mbf mbfid msg readable) =
      psnd_mbf-IsSteady k mbfid v msg readable
  perform_in_handler-IsSteady (call_tsnd_mbf mbfid msg tmout readable) =
      refused-IsSteady _ _ _ no_dispatch
  perform_in_handler-IsSteady (call_rcv_mbf mbfid writable) = refused-IsSteady _ _ _ no_dispatch
  perform_in_handler-IsSteady (call_ini_mbf mbfid) = ini_mbf-IsSteady k mbfid v
  perform_in_handler-IsSteady (call_get_mpf mpfid writable) = refused-IsSteady _ _ _ no_dispatch
  perform_in_handler-IsSteady (call_pget_mpf mpfid writable) = pget_mpf-IsSteady k mpfid v writable
  perform_in_handler-IsSteady (call_tget_mpf mpfid tmout writable) =
      refused-IsSteady _ _ _ no_dispatch
  perform_in_handler-IsSteady (call_rel_mpf mpfid blk) = rel_mpf-IsSteady k mpfid v blk
  perform_in_handler-IsSteady (call_ini_mpf mpfid) = ini_mpf-IsSteady k mpfid v
  perform_in_handler-IsSteady call_slp_tsk = refused-IsSteady _ _ _ no_dispatch
  perform_in_handler-IsSteady (call_tslp_tsk tmout) = refused-IsSteady _ _ _ no_dispatch
  perform_in_handler-IsSteady (call_dly_tsk dlytim) = refused-IsSteady _ _ _ no_dispatch
  perform_in_handler-IsSteady (call_wup_tsk tskid) = handler_wup_tsk-IsSteady tskid
  perform_in_handler-IsSteady (call_can_wup tskid) = refused-IsSteady _ _ _ no_task
  perform_in_handler-IsSteady (call_rel_wai tskid) = rel_wai-IsSteady k v tskid
  perform_in_handler-IsSteady (call_sus_tsk tskid) = refused-IsSteady _ _ _ no_task
  perform_in_handler-IsSteady (call_rsm_tsk tskid) = refused-IsSteady _ _ _ no_task
  perform_in_handler-IsSteady (call_act_tsk tskid) = handler_act_tsk-IsSteady tskid
  perform_in_handler-IsSteady (call_can_act tskid) = refused-IsSteady _ _ _ no_task
  perform_in_handler-IsSteady call_loc_cpu = loc_cpu-IsSteady k v
  perform_in_handler-IsSteady call_unl_cpu = unl_cpu-IsSteady k v
  perform_in_handler-IsSteady call_dis_dsp = dis_dsp-IsSteady k v
