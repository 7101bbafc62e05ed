-- ===== src/System/Calls.antt =====
-- The service calls as values, and what each does: the kernel's interface to its tasks.
use toppers_hrp3_gr_rose.Common.{ℕ, ◌≡◌, Bool, some, List}
use toppers_hrp3_gr_rose.Kernel.{Kernel, Svc}
use toppers_hrp3_gr_rose.Semaphore.{sig_sem, wai_sem, pol_sem, twai_sem, ini_sem}
use toppers_hrp3_gr_rose.Eventflag.{set_flg, clr_flg, wai_flg, pol_flg, twai_flg, ini_flg}
use toppers_hrp3_gr_rose.Dataqueue.Calls.{
  snd_dtq, psnd_dtq, tsnd_dtq, fsnd_dtq, rcv_dtq, prcv_dtq, trcv_dtq, ini_dtq,
}
use toppers_hrp3_gr_rose.Pridataq.Calls.{
  snd_pdq, psnd_pdq, tsnd_pdq, rcv_pdq, prcv_pdq, trcv_pdq, ini_pdq,
}
use toppers_hrp3_gr_rose.Messagebuf.Calls.{snd_mbf, psnd_mbf, tsnd_mbf, rcv_mbf, ini_mbf}
use toppers_hrp3_gr_rose.Mempfix.Calls.{get_mpf, pget_mpf, tget_mpf, rel_mpf, ini_mpf}
use toppers_hrp3_gr_rose.TaskSync.{
  slp_tsk, tslp_tsk, dly_tsk, wup_tsk, can_wup, rel_wai, sus_tsk, rsm_tsk,
}
use toppers_hrp3_gr_rose.TaskManage.{act_tsk, can_act}
use toppers_hrp3_gr_rose.SysManage.{loc_cpu, unl_cpu, dis_dsp}
use toppers_hrp3_gr_rose.Messagebuf.{messagebuf_dequeue_wobj}
use toppers_hrp3_gr_rose.Service.{Leaves}
use toppers_hrp3_gr_rose.System.Steady.{IsSteady}
use toppers_hrp3_gr_rose.System.Semaphores.{
  sig_sem-IsSteady, wai_sem-IsSteady, pol_sem-IsSteady, twai_sem-IsSteady, ini_sem-IsSteady,
}
use toppers_hrp3_gr_rose.System.Flags.{
  set_flg-IsSteady, clr_flg-IsSteady, wai_flg-IsSteady, pol_flg-IsSteady, twai_flg-IsSteady,
  ini_flg-IsSteady,
}
use toppers_hrp3_gr_rose.System.Dataqueues.{
  snd_dtq-IsSteady, psnd_dtq-IsSteady, tsnd_dtq-IsSteady, fsnd_dtq-IsSteady, rcv_dtq-IsSteady,
  prcv_dtq-IsSteady, trcv_dtq-IsSteady, ini_dtq-IsSteady,
}
use toppers_hrp3_gr_rose.System.Pridataqs.{
  snd_pdq-IsSteady, psnd_pdq-IsSteady, tsnd_pdq-IsSteady, rcv_pdq-IsSteady, prcv_pdq-IsSteady,
  trcv_pdq-IsSteady, ini_pdq-IsSteady,
}
use toppers_hrp3_gr_rose.System.Buffers.{
  snd_mbf-IsSteady, psnd_mbf-IsSteady, tsnd_mbf-IsSteady, rcv_mbf-IsSteady, ini_mbf-IsSteady,
}
use toppers_hrp3_gr_rose.System.Pools.{
  get_mpf-IsSteady, pget_mpf-IsSteady, tget_mpf-IsSteady, rel_mpf-IsSteady, ini_mpf-IsSteady,
}
use toppers_hrp3_gr_rose.System.Tasks.{
  slp_tsk-IsSteady, tslp_tsk-IsSteady, dly_tsk-IsSteady, wup_tsk-IsSteady, can_wup-IsSteady,
  sus_tsk-IsSteady, rsm_tsk-IsSteady, act_tsk-IsSteady, can_act-IsSteady,
}
use toppers_hrp3_gr_rose.System.Manage.{
  rel_wai-IsSteady, loc_cpu-IsSteady, unl_cpu-IsSteady, dis_dsp-IsSteady,
}

-- A service call with its arguments; those of type Bool are what the probes of memory say.
pub data Call : Type 0 where
  call_sig_sem : ℕ → Call
  call_wai_sem : ℕ → Call
  call_pol_sem : ℕ → Call
  call_twai_sem : ℕ → ℕ → Call
  call_ini_sem : ℕ → Call
  call_set_flg : ℕ → ℕ → Call
  call_clr_flg : ℕ → ℕ → Call
  call_wai_flg : ℕ → ℕ → ℕ → Bool → Call
  call_pol_flg : ℕ → ℕ → ℕ → Bool → Call
  call_twai_flg : ℕ → ℕ → ℕ → ℕ → Bool → Call
  call_ini_flg : ℕ → Call
  call_snd_dtq : ℕ → ℕ → Call
  call_psnd_dtq : ℕ → ℕ → Call
  call_tsnd_dtq : ℕ → ℕ → ℕ → Call
  call_fsnd_dtq : ℕ → ℕ → Call
  call_rcv_dtq : ℕ → Bool → Call
  call_prcv_dtq : ℕ → Bool → Call
  call_trcv_dtq : ℕ → ℕ → Bool → Call
  call_ini_dtq : ℕ → Call
  call_snd_pdq : ℕ → ℕ → ℕ → Call
  call_psnd_pdq : ℕ → ℕ → ℕ → Call
  call_tsnd_pdq : ℕ → ℕ → ℕ → ℕ → Call
  call_rcv_pdq : ℕ → Bool → Bool → Call
  call_prcv_pdq : ℕ → Bool → Bool → Call
  call_trcv_pdq : ℕ → ℕ → Bool → Bool → Call
  call_ini_pdq : ℕ → Call
  call_snd_mbf : ℕ → List ℕ → Bool → Call
  call_psnd_mbf : ℕ → List ℕ → Bool → Call
  call_tsnd_mbf : ℕ → List ℕ → ℕ → Bool → Call
  call_rcv_mbf : ℕ → Bool → Call
  call_ini_mbf : ℕ → Call
  call_get_mpf : ℕ → Bool → Call
  call_pget_mpf : ℕ → Bool → Call
  call_tget_mpf : ℕ → ℕ → Bool → Call
  call_rel_mpf : ℕ → ℕ → Call
  call_ini_mpf : ℕ → Call
  call_slp_tsk : Call
  call_tslp_tsk : ℕ → Call
  call_dly_tsk : ℕ → Call
  call_wup_tsk : ℕ → Call
  call_can_wup : ℕ → Call
  call_rel_wai : ℕ → Call
  call_sus_tsk : ℕ → Call
  call_rsm_tsk : ℕ → Call
  call_act_tsk : ℕ → Call
  call_can_act : ℕ → Call
  call_loc_cpu : Call
  call_unl_cpu : Call
  call_dis_dsp : Call

unfoldable pub perform : Call → Kernel → Svc
perform (call_sig_sem semid) k = sig_sem semid k
perform (call_wai_sem semid) k = wai_sem semid k
perform (call_pol_sem semid) k = pol_sem semid k
perform (call_twai_sem semid tmout) k = twai_sem semid tmout k
perform (call_ini_sem semid) k = ini_sem semid k
perform (call_set_flg flgid ptn) k = set_flg flgid ptn k
perform (call_clr_flg flgid ptn) k = clr_flg flgid ptn k
perform (call_wai_flg flgid ptn mode writable) k = wai_flg flgid ptn mode writable k
perform (call_pol_flg flgid ptn mode writable) k = pol_flg flgid ptn mode writable k
perform (call_twai_flg flgid ptn mode tmout writable) k = twai_flg flgid ptn mode tmout writable k
perform (call_ini_flg flgid) k = ini_flg flgid k
perform (call_snd_dtq dtqid d) k = snd_dtq dtqid d k
perform (call_psnd_dtq dtqid d) k = psnd_dtq dtqid d k
perform (call_tsnd_dtq dtqid d tmout) k = tsnd_dtq dtqid d tmout k
perform (call_fsnd_dtq dtqid d) k = fsnd_dtq dtqid d k
perform (call_rcv_dtq dtqid writable) k = rcv_dtq dtqid writable k
perform (call_prcv_dtq dtqid writable) k = prcv_dtq dtqid writable k
perform (call_trcv_dtq dtqid tmout writable) k = trcv_dtq dtqid tmout writable k
perform (call_ini_dtq dtqid) k = ini_dtq dtqid k
perform (call_snd_pdq pdqid d pri) k = snd_pdq pdqid d pri k
perform (call_psnd_pdq pdqid d pri) k = psnd_pdq pdqid d pri k
perform (call_tsnd_pdq pdqid d pri tmout) k = tsnd_pdq pdqid d pri tmout k
perform (call_rcv_pdq pdqid writable writable_pri) k = rcv_pdq pdqid writable writable_pri k
perform (call_prcv_pdq pdqid writable writable_pri) k = prcv_pdq pdqid writable writable_pri k
perform (call_trcv_pdq pdqid tmout writable writable_pri) k =
    trcv_pdq pdqid tmout writable writable_pri k
perform (call_ini_pdq pdqid) k = ini_pdq pdqid k
perform (call_snd_mbf mbfid msg readable) k = snd_mbf mbfid msg readable k
perform (call_psnd_mbf mbfid msg readable) k = psnd_mbf mbfid msg readable k
perform (call_tsnd_mbf mbfid msg tmout readable) k = tsnd_mbf mbfid msg tmout readable k
perform (call_rcv_mbf mbfid writable) k = rcv_mbf mbfid writable k
perform (call_ini_mbf mbfid) k = ini_mbf mbfid k
perform (call_get_mpf mpfid writable) k = get_mpf mpfid writable k
perform (call_pget_mpf mpfid writable) k = pget_mpf mpfid writable k
perform (call_tget_mpf mpfid tmout writable) k = tget_mpf mpfid tmout writable k
perform (call_rel_mpf mpfid blk) k = rel_mpf mpfid blk k
perform (call_ini_mpf mpfid) k = ini_mpf mpfid k
perform call_slp_tsk k = slp_tsk k
perform (call_tslp_tsk tmout) k = tslp_tsk tmout k
perform (call_dly_tsk dlytim) k = dly_tsk dlytim k
perform (call_wup_tsk tskid) k = wup_tsk tskid k
perform (call_can_wup tskid) k = can_wup tskid k
perform (call_rel_wai tskid) k = rel_wai messagebuf_dequeue_wobj tskid k
perform (call_sus_tsk tskid) k = sus_tsk tskid k
perform (call_rsm_tsk tskid) k = rsm_tsk tskid k
perform (call_act_tsk tskid) k = act_tsk tskid k
perform (call_can_act tskid) k = can_act tskid k
perform call_loc_cpu k = loc_cpu k
perform call_unl_cpu k = unl_cpu k
perform call_dis_dsp k = dis_dsp k

-- From a steady kernel with a running task, every one of the 49 service calls of the list leaves a
-- steady kernel, whatever it returns and also where the task waits and another runs, and none of
-- them faults. Steady means that the scheduler is settled, and that the queues are linked as they
-- should: each task is in one queue at most, and once, and the tasks in the queues of the objects
-- wait for an object.
pub perform-IsSteady :
    (c : Call) (k : Kernel) (me : ℕ)
    → IsSteady k
    → k.p_runtsk ≡ some me
    → Leaves IsSteady (perform c k)
unfolding perform
perform-IsSteady (call_sig_sem semid) k me v run = sig_sem-IsSteady k semid v
perform-IsSteady (call_wai_sem semid) k me v run = wai_sem-IsSteady k semid v me run
perform-IsSteady (call_pol_sem semid) k me v run = pol_sem-IsSteady k semid v
perform-IsSteady (call_twai_sem semid tmout) k me v run = twai_sem-IsSteady k semid v me run tmout
perform-IsSteady (call_ini_sem semid) k me v run = ini_sem-IsSteady k semid v
perform-IsSteady (call_set_flg flgid ptn) k me v run = set_flg-IsSteady k flgid v ptn
perform-IsSteady (call_clr_flg flgid ptn) k me v run = clr_flg-IsSteady k flgid v ptn
perform-IsSteady (call_wai_flg flgid ptn mode writable) k me v run =
    wai_flg-IsSteady k flgid v ptn mode writable me run
perform-IsSteady (call_pol_flg flgid ptn mode writable) k me v run =
    pol_flg-IsSteady k flgid v ptn mode writable
perform-IsSteady (call_twai_flg flgid ptn mode tmout writable) k me v run =
    twai_flg-IsSteady k flgid v ptn mode writable me run tmout
perform-IsSteady (call_ini_flg flgid) k me v run = ini_flg-IsSteady k flgid v
perform-IsSteady (call_snd_dtq dtqid d) k me v run = snd_dtq-IsSteady k dtqid v me run d
perform-IsSteady (call_psnd_dtq dtqid d) k me v run = psnd_dtq-IsSteady k dtqid v d
perform-IsSteady (call_tsnd_dtq dtqid d tmout) k me v run =
    tsnd_dtq-IsSteady k dtqid v me run d tmout
perform-IsSteady (call_fsnd_dtq dtqid d) k me v run = fsnd_dtq-IsSteady k dtqid v d
perform-IsSteady (call_rcv_dtq dtqid writable) k me v run =
    rcv_dtq-IsSteady k dtqid v me run writable
perform-IsSteady (call_prcv_dtq dtqid writable) k me v run = prcv_dtq-IsSteady k dtqid v writable
perform-IsSteady (call_trcv_dtq dtqid tmout writable) k me v run =
    trcv_dtq-IsSteady k dtqid v me run tmout writable
perform-IsSteady (call_ini_dtq dtqid) k me v run = ini_dtq-IsSteady k dtqid v
perform-IsSteady (call_snd_pdq pdqid d pri) k me v run = snd_pdq-IsSteady k pdqid v me run d pri
perform-IsSteady (call_psnd_pdq pdqid d pri) k me v run = psnd_pdq-IsSteady k pdqid v d pri
perform-IsSteady (call_tsnd_pdq pdqid d pri tmout) k me v run =
    tsnd_pdq-IsSteady k pdqid v me run d pri tmout
perform-IsSteady (call_rcv_pdq pdqid writable writable_pri) k me v run =
    rcv_pdq-IsSteady k pdqid v me run writable writable_pri
perform-IsSteady (call_prcv_pdq pdqid writable writable_pri) k me v run =
    prcv_pdq-IsSteady k pdqid v writable writable_pri
perform-IsSteady (call_trcv_pdq pdqid tmout writable writable_pri) k me v run =
    trcv_pdq-IsSteady k pdqid v me run tmout writable writable_pri
perform-IsSteady (call_ini_pdq pdqid) k me v run = ini_pdq-IsSteady k pdqid v
perform-IsSteady (call_snd_mbf mbfid msg readable) k me v run =
    snd_mbf-IsSteady k mbfid v me run msg readable
perform-IsSteady (call_psnd_mbf mbfid msg readable) k me v run =
    psnd_mbf-IsSteady k mbfid v msg readable
perform-IsSteady (call_tsnd_mbf mbfid msg tmout readable) k me v run =
    tsnd_mbf-IsSteady k mbfid v me run msg tmout readable
perform-IsSteady (call_rcv_mbf mbfid writable) k me v run =
    rcv_mbf-IsSteady k mbfid v me run writable
perform-IsSteady (call_ini_mbf mbfid) k me v run = ini_mbf-IsSteady k mbfid v
perform-IsSteady (call_get_mpf mpfid writable) k me v run =
    get_mpf-IsSteady k mpfid v me run writable
perform-IsSteady (call_pget_mpf mpfid writable) k me v run = pget_mpf-IsSteady k mpfid v writable
perform-IsSteady (call_tget_mpf mpfid tmout writable) k me v run =
    tget_mpf-IsSteady k mpfid v me run writable tmout
perform-IsSteady (call_rel_mpf mpfid blk) k me v run = rel_mpf-IsSteady k mpfid v blk
perform-IsSteady (call_ini_mpf mpfid) k me v run = ini_mpf-IsSteady k mpfid v
perform-IsSteady call_slp_tsk k me v run = slp_tsk-IsSteady k v me run
perform-IsSteady (call_tslp_tsk tmout) k me v run = tslp_tsk-IsSteady k v me run tmout
perform-IsSteady (call_dly_tsk dlytim) k me v run = dly_tsk-IsSteady k v me run dlytim
perform-IsSteady (call_wup_tsk tskid) k me v run = wup_tsk-IsSteady k v me run tskid
perform-IsSteady (call_can_wup tskid) k me v run = can_wup-IsSteady k v me run tskid
perform-IsSteady (call_rel_wai tskid) k me v run = rel_wai-IsSteady k v tskid
perform-IsSteady (call_sus_tsk tskid) k me v run = sus_tsk-IsSteady k v me run tskid
perform-IsSteady (call_rsm_tsk tskid) k me v run = rsm_tsk-IsSteady k v me run tskid
perform-IsSteady (call_act_tsk tskid) k me v run = act_tsk-IsSteady k v me run tskid
perform-IsSteady (call_can_act tskid) k me v run = can_act-IsSteady k v me run tskid
perform-IsSteady call_loc_cpu k me v run = loc_cpu-IsSteady k v
perform-IsSteady call_unl_cpu k me v run = unl_cpu-IsSteady k v
perform-IsSteady call_dis_dsp k me v run = dis_dsp-IsSteady k v
