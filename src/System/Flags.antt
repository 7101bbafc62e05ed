-- ===== src/System/Flags.antt =====
-- The service calls of kernel/eventflag.c, over steady kernels.
use toppers_hrp3_gr_rose.Common.{
  ℕ, ◌≡◌, refl, inl, inr, Bool, true, some, arith, ◌==◌, if◌then◌else◌, if-both, Option-cases,
}
use toppers_hrp3_gr_rose.Kernel.{
  Kernel, Svc, returned, waits, lock_cpu, unlock_cpu, dispatch, e_tmout, ts_waiting_flg,
  tstat_wait_wobj, flg_wait_queue,
}
use toppers_hrp3_gr_rose.Wait.{tmo_pol, wobj_make_wait, wobj_make_wait_tmout, init_wait_queue}
use toppers_hrp3_gr_rose.Service.{Leaves, with_runtsk-Leaves}
use toppers_hrp3_gr_rose.Eventflag.{
  index_flg, check_flg_cond, set_flg, set_flg_locked, clr_flg, in_use, try_flg, set_winfo_flg,
  wai_flg, wai_flg_locked, pol_flg, twai_flg, twai_flg_locked, ini_flg, ini_flg_locked,
}
use toppers_hrp3_gr_rose.System.Moves.{IsSound}
use toppers_hrp3_gr_rose.System.Releases.{init_wait_queue-IsSound}
use toppers_hrp3_gr_rose.System.Steady.{
  IsSteady, IsSteady-IsSound, core-IsSound, core-IsSteady, dispatch_if_needed-IsSteady,
  dispatch_or_request-IsSteady, lock-IsSteady, unlock-IsSteady, check-IsSteady, check3-IsSteady,
}
use toppers_hrp3_gr_rose.System.Transfers.{
  raster-IsSteady, poll-IsSteady, limit-IsSteady, wait-IsSteady, wait_tmout-IsSteady,
}
use toppers_hrp3_gr_rose.System.FlagLoop.{check_flg_cond-keeps, set_flg_loop-IsSound}

kind : tstat_wait_wobj ts_waiting_flg ≡ true
unfolding tstat_wait_wobj
kind = refl

module _ (k : Kernel) (i : ℕ) (v : IsSteady k) where
  sound : IsSound k
  sound = IsSteady-IsSound k v

  set_flg_locked-IsSteady : (setptn : ℕ) → Leaves IsSteady (set_flg_locked i setptn k)
  unfolding set_flg_locked Leaves
  set_flg_locked-IsSteady setptn = dispatch_or_request-IsSteady _ (
      set_flg_loop-IsSound i (k.queue (flg_wait_queue i)) _ (record {
        sound = core-IsSound k _ refl sound;
        inside = λ u h. h;
        single = sound.linked.single (flg_wait_queue i);
      }))

  -- A task that waits stores what it waits for first.
  noted-IsSound : (me waiptn wfmode : ℕ) → IsSound (set_winfo_flg me waiptn wfmode k)
  noted-IsSound me waiptn wfmode = core-IsSound k _ refl sound

  try_flg-IsSteady :
      (waiptn wfmode : ℕ) (blocked : Kernel → Svc)
      → ((k1 : Kernel) → IsSteady k1 → Leaves IsSteady (blocked k1))
      → Leaves IsSteady (try_flg i waiptn wfmode blocked k)
  unfolding try_flg Leaves
  try_flg-IsSteady waiptn wfmode blocked h =
      let r = check_flg_cond i waiptn wfmode k in
      let v1 =
        check_flg_cond-keeps IsSteady i waiptn wfmode k (λ f. core-IsSteady k _ refl refl refl v) in
      if-both (Leaves IsSteady) (in_use i k) (unlock-IsSteady k v) (elim (Option-cases r.0) [
        | inl e ↦ rw (e, Leaves) (h r.1 v1)
        | inr (ptn, e) ↦ rw (e, Leaves) (unlock-IsSteady r.1 v1)
      ])

  ini_flg_locked-IsSteady : Leaves IsSteady (ini_flg_locked i k)
  unfolding ini_flg_locked Leaves
  ini_flg_locked-IsSteady = dispatch_if_needed-IsSteady _ (
      core-IsSound (init_wait_queue (flg_wait_queue i) k) _ refl
        (init_wait_queue-IsSound (flg_wait_queue i) k (omega arith) sound))

module _ (k : Kernel) (i waiptn wfmode me : ℕ) (v : IsSteady k) where
  wai_flg_locked-IsSteady : Leaves IsSteady (wai_flg_locked i waiptn wfmode me k)
  unfolding wai_flg_locked
  wai_flg_locked-IsSteady = if-both (Leaves IsSteady) (k.raster me) (raster-IsSteady k v) (
      try_flg-IsSteady k i v waiptn wfmode
        (λ k1. waits me (
          unlock_cpu (
            dispatch (
              wobj_make_wait (flg_wait_queue i) ts_waiting_flg me
                (set_winfo_flg me waiptn wfmode k1)))))
        (λ k1 v1.
          wait-IsSteady (set_winfo_flg me waiptn wfmode k1) (noted-IsSound k1 i v1 me waiptn wfmode)
            (flg_wait_queue i) me ts_waiting_flg (omega arith) kind (omega arith)))

  twai_flg_locked-IsSteady :
      (tmout : ℕ) → Leaves IsSteady (twai_flg_locked i waiptn wfmode tmout me k)
  unfolding twai_flg_locked
  twai_flg_locked-IsSteady tmout = if-both (Leaves IsSteady) (k.raster me) (raster-IsSteady k v) (
      try_flg-IsSteady k i v waiptn wfmode
        (λ k1.
          if tmout == tmo_pol
          then returned e_tmout (unlock_cpu k1)
          else waits me (
              unlock_cpu (
                dispatch (
                  wobj_make_wait_tmout (flg_wait_queue i) ts_waiting_flg tmout me
                    (set_winfo_flg me waiptn wfmode k1)))))
        (λ k1 v1. limit-IsSteady k1 v1 tmout _ (
          wait_tmout-IsSteady (set_winfo_flg me waiptn wfmode k1)
            (noted-IsSound k1 i v1 me waiptn wfmode) (flg_wait_queue i) me ts_waiting_flg
            (omega arith) kind (omega arith) tmout)))

module _ (k : Kernel) (flgid : ℕ) (v : IsSteady k) where
  i : ℕ
  i = index_flg flgid

  locked : IsSteady (lock_cpu k)
  locked = lock-IsSteady k v

  -- Whatever set_flg returns, a steady kernel stays steady, with the tasks that its loop releases,
  -- also where a flag with TA_CLR ends it early.
  pub set_flg-IsSteady : (setptn : ℕ) → Leaves IsSteady (set_flg flgid setptn k)
  unfolding set_flg i
  set_flg-IsSteady setptn =
      check3-IsSteady _ _ _ _ _ _ k _ v (set_flg_locked-IsSteady (lock_cpu k) i locked setptn)

  pub clr_flg-IsSteady : (clrptn : ℕ) → Leaves IsSteady (clr_flg flgid clrptn k)
  unfolding clr_flg i Leaves
  clr_flg-IsSteady clrptn = check3-IsSteady _ _ _ _ _ _ k _ v (core-IsSteady k _ refl refl refl v)

  pub ini_flg-IsSteady : Leaves IsSteady (ini_flg flgid k)
  unfolding ini_flg i
  ini_flg-IsSteady =
      check3-IsSteady _ _ _ _ _ _ k _ v (ini_flg_locked-IsSteady (lock_cpu k) i locked)

  module _ (waiptn wfmode : ℕ) (writable : Bool) where
    pub pol_flg-IsSteady : Leaves IsSteady (pol_flg flgid waiptn wfmode writable k)
    unfolding pol_flg i
    pol_flg-IsSteady = check-IsSteady _ _ k _ v (
        check-IsSteady _ _ k _ v (
          check3-IsSteady _ _ _ _ _ _ k _ v (
            check-IsSteady _ _ k _ v (
              try_flg-IsSteady (lock_cpu k) i locked waiptn wfmode
                (λ k1. returned e_tmout (unlock_cpu k1)) poll-IsSteady))))

    module _ (me : ℕ) (run : k.p_runtsk ≡ some me) where
      pub wai_flg-IsSteady : Leaves IsSteady (wai_flg flgid waiptn wfmode writable k)
      unfolding wai_flg i
      wai_flg-IsSteady = check-IsSteady _ _ k _ v (
          check-IsSteady _ _ k _ v (
            check3-IsSteady _ _ _ _ _ _ k _ v (
              check-IsSteady _ _ k _ v (
                with_runtsk-Leaves IsSteady k me _ run
                  (wai_flg_locked-IsSteady (lock_cpu k) i waiptn wfmode me locked)))))

      pub twai_flg-IsSteady :
          (tmout : ℕ) → Leaves IsSteady (twai_flg flgid waiptn wfmode tmout writable k)
      unfolding twai_flg i
      twai_flg-IsSteady tmout = check-IsSteady _ _ k _ v (
          check-IsSteady _ _ k _ v (
            check3-IsSteady _ _ _ _ _ _ k _ v (
              check-IsSteady _ _ k _ v (
                check-IsSteady _ _ k _ v (
                  with_runtsk-Leaves IsSteady k me _ run
                    (twai_flg_locked-IsSteady (lock_cpu k) i waiptn wfmode me locked tmout))))))
