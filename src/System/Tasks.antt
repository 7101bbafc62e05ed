-- ===== src/System/Tasks.antt =====
-- The service calls of kernel/task_sync.c, and act_tsk and can_act,, over steady kernels.
use toppers_hrp3_gr_rose.Common.{
  ℕ, ◌<◌, ◌≡◌, refl, subst, ◌≢◌, Bool, true, false, not, ◌&&◌, ◌||◌, some, arith, bit_or, bit_or-lt,
  bit_and, bit_and-lt, same_ptr, ◌==◌, if-both, if-branch,
}
use toppers_hrp3_gr_rose.TimeEvent
use toppers_hrp3_gr_rose.Kernel.{
  Kernel, Svc, lock_cpu, unlock_cpu, tstat_dormant, tstat_runnable, tstat_waiting, tstat_suspended,
  tstat_wait_wobj, tstat_wait_slp, ts_runnable, ts_suspended, ts_waiting_slp, ts_waiting_dly, e_ok,
  without_suspended,
}
use toppers_hrp3_gr_rose.Task.{make_active}
use toppers_hrp3_gr_rose.Wait.{tmo_pol, wait_complete, set_tstat}
use toppers_hrp3_gr_rose.Wait.Consistent.{set_tstat-IsConsistent}
use toppers_hrp3_gr_rose.Service.{Leaves, with_runtsk-Leaves}
use toppers_hrp3_gr_rose.TaskSync.{
  slp_tsk, slp_tsk_locked, tslp_tsk, tslp_tsk_locked, wup_tsk, wup_tsk_locked, can_wup,
  can_wup_locked, sus_tsk, sus_tsk_locked, rsm_tsk, rsm_tsk_locked, dly_tsk, dly_tsk_locked,
  with_task, index_tsk, tsk_self,
}
use toppers_hrp3_gr_rose.TaskManage.{act_tsk, act_tsk_locked, can_act, can_act_locked}
use toppers_hrp3_gr_rose.System.Linked.{
  sleeping-not_wobj, not_waiting-not_wobj, suspend-wobj, resume-wobj, retag-IsLinked,
}
use toppers_hrp3_gr_rose.System.Moves.{
  IsSound, idle-IsFree, end_wait-IsSound, make_runnable-IsSound, make_non_runnable-IsSound,
}
use toppers_hrp3_gr_rose.System.Waits.{
  make_wait-IsSound, make_wait_tmout-IsSound, register_wait-IsSound,
}
use toppers_hrp3_gr_rose.System.Steady.{
  IsSteady, IsSteady-IsSound, core-IsSteady, dispatch-IsSteady, dispatch_if_needed-IsSteady,
  dispatch_or_request-IsSteady, lock-IsSteady, unlock-IsSteady, check-IsSteady, check3-IsSteady,
}

-- A test of the state that fails for TS_RUNNABLE.
pub state_ne :
    (test : ℕ → Bool) (v : ℕ) (b : Bool) → test v ≡ b → test ts_runnable ≢ b → v ≢ ts_runnable
state_ne test v b h ne e = ne (subst (λ x. test x ≡ b) e h)

pub with_task-IsSteady :
    (self : Bool) (tskid me : ℕ) (k : Kernel) (body : ℕ → Svc)
    → IsSteady k
    → k.p_runtsk ≡ some me
    → ((t : ℕ) → Leaves IsSteady (body t))
    → Leaves IsSteady (with_task self tskid k body)
unfolding with_task
with_task-IsSteady self tskid me k body v run h =
    if-both (Leaves IsSteady) ((tskid == tsk_self) && self)
      (with_runtsk-Leaves IsSteady k me body run (h me))
      (check-IsSteady _ _ k _ v (h (index_tsk tskid)))

module _ (k : Kernel) (v : IsSteady k) where
  sound : IsSound k
  sound = IsSteady-IsSound k v

  requests-IsSteady : (w a : ℕ → Bool) → IsSteady (unlock_cpu (record k { wupque = w; actque = a }))
  requests-IsSteady w a = core-IsSteady k _ refl refl refl v

  slp_tsk_locked-IsSteady : (me : ℕ) → Leaves IsSteady (slp_tsk_locked me k)
  unfolding slp_tsk_locked Leaves
  slp_tsk_locked-IsSteady me = if-both (Leaves IsSteady) (k.raster me) (unlock-IsSteady k v) (
      if-both (Leaves IsSteady) (k.wupque me) (requests-IsSteady _ k.actque)
        (dispatch-IsSteady _ (make_wait-IsSound k me ts_waiting_slp sound (omega arith)).sound))

  tslp_tsk_locked-IsSteady : (tmout me : ℕ) → Leaves IsSteady (tslp_tsk_locked tmout me k)
  unfolding tslp_tsk_locked Leaves
  tslp_tsk_locked-IsSteady tmout me =
      if-both (Leaves IsSteady) (k.raster me) (unlock-IsSteady k v) (
        if-both (Leaves IsSteady) (k.wupque me) (requests-IsSteady _ k.actque) (
          if-both (Leaves IsSteady) (tmout == tmo_pol) (unlock-IsSteady k v) (
            dispatch-IsSteady _
              (make_wait_tmout-IsSound k me ts_waiting_slp tmout sound (omega arith)).sound)))

  dly_tsk_locked-IsSteady : (dlytim me : ℕ) → Leaves IsSteady (dly_tsk_locked dlytim me k)
  unfolding dly_tsk_locked Leaves
  dly_tsk_locked-IsSteady dlytim me =
      if-both (Leaves IsSteady) (k.raster me) (unlock-IsSteady k v) (
        dispatch-IsSteady _
          (register_wait-IsSound _ me ts_waiting_dly TimeEvent.wait_tmout_ok dlytim
            (make_non_runnable-IsSound k me ts_waiting_dly sound (omega arith))).sound)

  pub wup_tsk_locked-IsSteady : (t : ℕ) → Leaves IsSteady (wup_tsk_locked t k)
  unfolding wup_tsk_locked Leaves wait_complete tstat_wait_slp
  wup_tsk_locked-IsSteady t =
      if-both (Leaves IsSteady) (tstat_dormant (k.tstat t)) (unlock-IsSteady k v) (
        if-branch (Leaves IsSteady) (tstat_wait_slp (k.tstat t))
          (λ e.
            let n = state_ne tstat_wait_slp (k.tstat t) true e (λ h. ground arith) in
            let free =
              idle-IsFree k t sound n (sleeping-not_wobj (k.tstat t) (v.linked.small t) e) in
            dispatch_or_request-IsSteady _ (end_wait-IsSound k t e_ok sound free n))
          (λ _.
            if-both (Leaves IsSteady) (not (k.wupque t)) (requests-IsSteady _ k.actque)
              (unlock-IsSteady k v)))

  can_wup_locked-IsSteady : (t : ℕ) → Leaves IsSteady (can_wup_locked t k)
  unfolding can_wup_locked Leaves
  can_wup_locked-IsSteady t =
      if-both (Leaves IsSteady) (tstat_dormant (k.tstat t)) (unlock-IsSteady k v)
        (requests-IsSteady _ k.actque)

  -- A task that waits, or is suspended while it waits, gets the other of these states.
  restate-IsSteady :
      (t w : ℕ)
      → k.tstat t ≢ ts_runnable
      → (tstat_wait_wobj (k.tstat t) ≡ true → tstat_wait_wobj w ≡ true)
      → w < 128
      → IsSteady (unlock_cpu (set_tstat t w k))
  restate-IsSteady t w n keep l = record {
    settled = record {
      consistent =
          set_tstat-IsConsistent (unlock_cpu k) t w (unlock-IsSteady k v).settled.consistent n;
      running = v.settled.running;
    };
    linked = retag-IsLinked k.queue k.tstat v.linked t w keep l;
  }

  sus_tsk_locked-IsSteady : (t : ℕ) → Leaves IsSteady (sus_tsk_locked t k)
  unfolding sus_tsk_locked Leaves tstat_runnable
  sus_tsk_locked-IsSteady t =
      let small = v.linked.small t in
      if-both (Leaves IsSteady) (same_ptr (some t) k.p_runtsk && not k.dspflg) (unlock-IsSteady k v)
        (if-both (Leaves IsSteady) (tstat_dormant (k.tstat t)) (unlock-IsSteady k v) (
          if-both (Leaves IsSteady) (k.raster t) (unlock-IsSteady k v) (
            if-branch (Leaves IsSteady) (tstat_runnable (k.tstat t))
              (λ _.
                dispatch_if_needed-IsSteady _
                  (make_non_runnable-IsSound k t ts_suspended sound (omega arith)).sound)
              (λ e. if-both (Leaves IsSteady) (tstat_suspended (k.tstat t)) (unlock-IsSteady k v) (
                restate-IsSteady t (bit_or (k.tstat t) ts_suspended)
                  (state_ne tstat_runnable (k.tstat t) false e (λ h. ground arith))
                  (suspend-wobj (k.tstat t) small)
                  (bit_or-lt 7 (k.tstat t) ts_suspended small (omega arith)))))))

  rsm_tsk_locked-IsSteady : (t : ℕ) → Leaves IsSteady (rsm_tsk_locked t k)
  unfolding rsm_tsk_locked Leaves tstat_suspended
  rsm_tsk_locked-IsSteady t =
      let small = v.linked.small t in
      if-branch (Leaves IsSteady) (not (tstat_suspended (k.tstat t))) (λ _. unlock-IsSteady k v)
        (λ e.
          let n = state_ne (λ x. not (tstat_suspended x)) (k.tstat t) false e (λ h. ground arith) in
          if-branch (Leaves IsSteady) (not (tstat_waiting (k.tstat t)))
            (λ w.
              let idle = not_waiting-not_wobj (k.tstat t) small (ground arith) in
              dispatch_if_needed-IsSteady _
                (make_runnable-IsSound k t sound (idle-IsFree k t sound n idle)))
            (λ _.
              restate-IsSteady t (without_suspended (k.tstat t)) n (resume-wobj (k.tstat t) small)
                (bit_and-lt 7 (k.tstat t) 0xfd small)))

  pub act_tsk_locked-IsSteady : (t : ℕ) → Leaves IsSteady (act_tsk_locked t k)
  unfolding act_tsk_locked Leaves make_active tstat_dormant tstat_wait_wobj
  act_tsk_locked-IsSteady t =
      if-branch (Leaves IsSteady) (tstat_dormant (k.tstat t))
        (λ e.
          let at : k.tstat t ≡ 0 = ground arith in
          dispatch_or_request-IsSteady _ (
            make_runnable-IsSound k t sound
              (idle-IsFree k t sound (λ h. omega arith) (rw at refl))))
        (λ _.
          if-both (Leaves IsSteady) (not (bit_and (k.cfg.tinib t).tskatr 2 == 0) || k.actque t)
            (unlock-IsSteady k v) (requests-IsSteady k.wupque _))

  can_act_locked-IsSteady : (t : ℕ) → Leaves IsSteady (can_act_locked t k)
  unfolding can_act_locked Leaves
  can_act_locked-IsSteady t = requests-IsSteady k.wupque _

module _ (k : Kernel) (v : IsSteady k) (me : ℕ) (run : k.p_runtsk ≡ some me) where
  locked : IsSteady (lock_cpu k)
  locked = lock-IsSteady k v

  pub slp_tsk-IsSteady : Leaves IsSteady (slp_tsk k)
  unfolding slp_tsk
  slp_tsk-IsSteady =
      check-IsSteady _ _ k _ v
        (with_runtsk-Leaves IsSteady k me _ run (slp_tsk_locked-IsSteady (lock_cpu k) locked me))

  pub tslp_tsk-IsSteady : (tmout : ℕ) → Leaves IsSteady (tslp_tsk tmout k)
  unfolding tslp_tsk
  tslp_tsk-IsSteady tmout = check-IsSteady _ _ k _ v (
      check-IsSteady _ _ k _ v (
        with_runtsk-Leaves IsSteady k me _ run
          (tslp_tsk_locked-IsSteady (lock_cpu k) locked tmout me)))

  pub dly_tsk-IsSteady : (dlytim : ℕ) → Leaves IsSteady (dly_tsk dlytim k)
  unfolding dly_tsk
  dly_tsk-IsSteady dlytim = check-IsSteady _ _ k _ v (
      check-IsSteady _ _ k _ v (
        with_runtsk-Leaves IsSteady k me _ run
          (dly_tsk_locked-IsSteady (lock_cpu k) locked dlytim me)))

  module _ (tskid : ℕ) where
    pub wup_tsk-IsSteady : Leaves IsSteady (wup_tsk tskid k)
    unfolding wup_tsk
    wup_tsk-IsSteady = check-IsSteady _ _ k _ v (
        with_task-IsSteady _ tskid me k _ v run
          (λ t. check-IsSteady _ _ k _ v (wup_tsk_locked-IsSteady (lock_cpu k) locked t)))

    pub can_wup-IsSteady : Leaves IsSteady (can_wup tskid k)
    unfolding can_wup
    can_wup-IsSteady = check-IsSteady _ _ k _ v (
        with_task-IsSteady _ tskid me k _ v run
          (λ t. check-IsSteady _ _ k _ v (can_wup_locked-IsSteady (lock_cpu k) locked t)))

    pub sus_tsk-IsSteady : Leaves IsSteady (sus_tsk tskid k)
    unfolding sus_tsk
    sus_tsk-IsSteady = check-IsSteady _ _ k _ v (
        with_task-IsSteady _ tskid me k _ v run
          (λ t. check-IsSteady _ _ k _ v (sus_tsk_locked-IsSteady (lock_cpu k) locked t)))

    pub rsm_tsk-IsSteady : Leaves IsSteady (rsm_tsk tskid k)
    unfolding rsm_tsk
    rsm_tsk-IsSteady =
        check3-IsSteady _ _ _ _ _ _ k _ v
          (rsm_tsk_locked-IsSteady (lock_cpu k) locked (index_tsk tskid))

    pub act_tsk-IsSteady : Leaves IsSteady (act_tsk tskid k)
    unfolding act_tsk
    act_tsk-IsSteady = check-IsSteady _ _ k _ v (
        with_task-IsSteady _ tskid me k _ v run
          (λ t. check-IsSteady _ _ k _ v (act_tsk_locked-IsSteady (lock_cpu k) locked t)))

    pub can_act-IsSteady : Leaves IsSteady (can_act tskid k)
    unfolding can_act
    can_act-IsSteady = check-IsSteady _ _ k _ v (
        with_task-IsSteady _ tskid me k _ v run
          (λ t. check-IsSteady _ _ k _ v (can_act_locked-IsSteady (lock_cpu k) locked t)))
