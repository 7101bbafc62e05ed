-- ===== src/System/Semaphores.antt =====
-- The service calls of kernel/semaphore.c, over steady kernels.
use toppers_hrp3_gr_rose.Common.{
  ℕ, ◌≡◌, refl, inl, inr, true, some, arith, ltb, leb, ◌==◌, if-both, Option-cases,
}
use toppers_hrp3_gr_rose.Kernel.{
  Kernel, sem_wait_queue, head?, lock_cpu, unlock_cpu, ts_waiting_sem, tstat_wait_wobj,
}
use toppers_hrp3_gr_rose.Wait.{tmo_pol, init_wait_queue}
use toppers_hrp3_gr_rose.Service.{Leaves, with_runtsk-Leaves}
use toppers_hrp3_gr_rose.Semaphore.{
  index_sem, seminib_of, sig_sem, sig_sem_locked, wai_sem, wai_sem_locked, pol_sem, pol_sem_locked,
  twai_sem, twai_sem_locked, ini_sem, ini_sem_locked,
}
use toppers_hrp3_gr_rose.System.Waits.{wobj_make_wait-IsSound, wobj_make_wait_tmout-IsSound}
use toppers_hrp3_gr_rose.System.Releases.{release-IsSound, init_wait_queue-IsSound}
use toppers_hrp3_gr_rose.System.Steady.{
  IsSteady, IsSteady-IsSound, core-IsSound, core-IsSteady, dispatch-IsSteady,
  dispatch_if_needed-IsSteady, dispatch_or_request-IsSteady, lock-IsSteady, unlock-IsSteady,
  check-IsSteady, check3-IsSteady,
}

sem_wobj : tstat_wait_wobj ts_waiting_sem ≡ true
unfolding tstat_wait_wobj
sem_wobj = refl

module _ (k : Kernel) (i : ℕ) (v : IsSteady k) where
  count-IsSteady : (f : ℕ → ℕ) → IsSteady (unlock_cpu (record k { semcnt = f }))
  count-IsSteady f = core-IsSteady k _ refl refl refl v

  pub sig_sem_locked-IsSteady : Leaves IsSteady (sig_sem_locked i k)
  unfolding sig_sem_locked Leaves
  sig_sem_locked-IsSteady = elim (Option-cases (head? (k.queue (sem_wait_queue i)))) [
    | inr (t, e) ↦
        rw (e, Leaves)
          (dispatch_or_request-IsSteady _
            (release-IsSound k (sem_wait_queue i) t (omega arith) (IsSteady-IsSound k v) e))
    | inl e ↦
        rw (e, Leaves)
          (if-both (Leaves IsSteady) (ltb (k.semcnt i) (seminib_of i k).maxsem) (count-IsSteady _)
            (unlock-IsSteady k v))
  ]

  pol_sem_locked-IsSteady : Leaves IsSteady (pol_sem_locked i k)
  unfolding pol_sem_locked Leaves
  pol_sem_locked-IsSteady =
      if-both (Leaves IsSteady) (leb 1 (k.semcnt i)) (count-IsSteady _) (unlock-IsSteady k v)

  wai_sem_locked-IsSteady : (me : ℕ) → Leaves IsSteady (wai_sem_locked i me k)
  unfolding wai_sem_locked Leaves
  wai_sem_locked-IsSteady me = if-both (Leaves IsSteady) (k.raster me) (unlock-IsSteady k v) (
      if-both (Leaves IsSteady) (leb 1 (k.semcnt i)) (count-IsSteady _) (
        dispatch-IsSteady _ (
          wobj_make_wait-IsSound k (sem_wait_queue i) me ts_waiting_sem (omega arith) sem_wobj
            (omega arith) (IsSteady-IsSound k v))))

  twai_sem_locked-IsSteady : (tmout me : ℕ) → Leaves IsSteady (twai_sem_locked i tmout me k)
  unfolding twai_sem_locked Leaves
  twai_sem_locked-IsSteady tmout me =
      if-both (Leaves IsSteady) (k.raster me) (unlock-IsSteady k v) (
        if-both (Leaves IsSteady) (leb 1 (k.semcnt i)) (count-IsSteady _) (
          if-both (Leaves IsSteady) (tmout == tmo_pol) (unlock-IsSteady k v) (
            dispatch-IsSteady _ (
              wobj_make_wait_tmout-IsSound k (sem_wait_queue i) me ts_waiting_sem tmout
                (omega arith) sem_wobj (omega arith) (IsSteady-IsSound k v)))))

  ini_sem_locked-IsSteady : Leaves IsSteady (ini_sem_locked i k)
  unfolding ini_sem_locked Leaves
  ini_sem_locked-IsSteady = dispatch_if_needed-IsSteady _ (
      core-IsSound (init_wait_queue (sem_wait_queue i) k) _ refl
        (init_wait_queue-IsSound (sem_wait_queue i) k (omega arith) (IsSteady-IsSound k v)))

module _ (k : Kernel) (semid : ℕ) (v : IsSteady k) where
  pub sig_sem-IsSteady : Leaves IsSteady (sig_sem semid k)
  unfolding sig_sem
  sig_sem-IsSteady =
      check3-IsSteady _ _ _ _ _ _ k _ v
        (sig_sem_locked-IsSteady (lock_cpu k) (index_sem semid) (lock-IsSteady k v))

  pub pol_sem-IsSteady : Leaves IsSteady (pol_sem semid k)
  unfolding pol_sem
  pol_sem-IsSteady =
      check3-IsSteady _ _ _ _ _ _ k _ v
        (pol_sem_locked-IsSteady (lock_cpu k) (index_sem semid) (lock-IsSteady k v))

  pub ini_sem-IsSteady : Leaves IsSteady (ini_sem semid k)
  unfolding ini_sem
  ini_sem-IsSteady =
      check3-IsSteady _ _ _ _ _ _ k _ v
        (ini_sem_locked-IsSteady (lock_cpu k) (index_sem semid) (lock-IsSteady k v))

  module _ (me : ℕ) (run : k.p_runtsk ≡ some me) where
    pub wai_sem-IsSteady : Leaves IsSteady (wai_sem semid k)
    unfolding wai_sem
    wai_sem-IsSteady = check3-IsSteady _ _ _ _ _ _ k _ v (
        with_runtsk-Leaves IsSteady k me _ run
          (wai_sem_locked-IsSteady (lock_cpu k) (index_sem semid) (lock-IsSteady k v) me))

    pub twai_sem-IsSteady : (tmout : ℕ) → Leaves IsSteady (twai_sem semid tmout k)
    unfolding twai_sem
    twai_sem-IsSteady tmout = check-IsSteady _ _ k _ v (
        check3-IsSteady _ _ _ _ _ _ k _ v (
          with_runtsk-Leaves IsSteady k me _ run
            (twai_sem_locked-IsSteady (lock_cpu k) (index_sem semid) (lock-IsSteady k v) tmout me)))
