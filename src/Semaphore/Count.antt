-- ===== src/Semaphore/Count.antt =====
-- The resource counts of kernel/semaphore.c.
use toppers_hrp3_gr_rose.Common.{
  ℕ, ◌+◌, ◌-◌, ◌≤◌, ◌<◌, ◌≡◌, refl, inl, inr, none, arith, ltb, leb, ◌==◌, update, if-both,
  if-branch, Option-cases, same_ptr,
}
use toppers_hrp3_gr_rose.Kernel.{
  Kernel, e_ok, returned, head?, queue_delete_next, unlock_cpu, dispatch, dispatch_if_needed,
  dispatch_or_request, sem_wait_queue, tstat_suspended, ts_waiting_sem,
}
use toppers_hrp3_gr_rose.Task.{make_runnable, make_non_runnable}
use toppers_hrp3_gr_rose.Wait.{
  make_non_wait, wait_complete, wait_dequeue_tmevtb, set_wercd, tmo_pol, tmo_fevr,
  wobj_make_wait_tmout, wobj_queue_insert, make_wait, make_wait_tmout, register_wait,
}
use toppers_hrp3_gr_rose.Service.{Leaves}
use toppers_hrp3_gr_rose.Semaphore.{seminib_of, sig_sem_locked, pol_sem_locked, twai_sem_locked}

-- No count exceeds the maximum that the configuration gives.
abbrev pub IsBounded : Kernel → Type 0
IsBounded k = (i : ℕ) → k.semcnt i ≤ (k.cfg.seminib i).maxsem

-- The counts and the configuration, which the scheduler leaves alone.
abbrev pub Same : Kernel → Kernel → Type 0
Same k k' = (k'.semcnt ≡ k.semcnt) × (k'.cfg ≡ k.cfg)

make_non_wait-Same : (k : Kernel) (t : ℕ) → Same k (make_non_wait t k)
unfolding make_non_wait make_runnable
make_non_wait-Same k t = if-both (Same k) (tstat_suspended (k.tstat t)) (refl, refl) (ground arith)

pub wait_complete-Same : (k : Kernel) (t : ℕ) → Same k (wait_complete t k)
unfolding wait_complete wait_dequeue_tmevtb
wait_complete-Same k t = make_non_wait-Same (set_wercd t e_ok (wait_dequeue_tmevtb t k)) t

pub dispatch_or_request-Same : (k : Kernel) → Same k (dispatch_or_request k)
unfolding dispatch_or_request dispatch_if_needed dispatch
dispatch_or_request-Same k =
    if-both (Same k) k.nontask_context (refl, refl)
      (if-both (Same k) (same_ptr k.p_runtsk k.p_schedtsk) (refl, refl) (refl, refl))

Same-IsBounded : (k k' : Kernel) → Same k k' → IsBounded k → IsBounded k'
Same-IsBounded k k' e v i = ground (arith, v i)

make_wait_tmout-Same : (k : Kernel) (v tmout me : ℕ) → Same k (make_wait_tmout v tmout me k)
unfolding make_wait_tmout make_wait register_wait make_non_runnable
make_wait_tmout-Same k v tmout me =
    if-both (Same k) (tmout == tmo_fevr) (ground arith) (ground arith)

wobj_make_wait_tmout-Same :
    (k : Kernel) (q v tmout me : ℕ) → Same k (wobj_make_wait_tmout q v tmout me k)
unfolding wobj_make_wait_tmout wobj_queue_insert
wobj_make_wait_tmout-Same k q v tmout me = ground (arith, make_wait_tmout-Same k v tmout me)

-- Releasing, polling and waiting for a semaphore keep the count of every semaphore within its
-- maximum.
pub semcnt-IsBounded :
    (i tmout me : ℕ) (k : Kernel)
    → IsBounded k
    → Leaves IsBounded (sig_sem_locked i k)
      × (Leaves IsBounded (pol_sem_locked i k) × Leaves IsBounded (twai_sem_locked i tmout me k))
unfolding sig_sem_locked pol_sem_locked twai_sem_locked Leaves dispatch queue_delete_next
semcnt-IsBounded i tmout me k v = (
  elim (Option-cases (head? (k.queue (sem_wait_queue i)))) [
    | inr (t, e) ↦
        let k1 = queue_delete_next (sem_wait_queue i) k in
        let k2 = wait_complete t k1 in
        rw (e, Leaves)
          (Same-IsBounded k2 (dispatch_or_request k2) (dispatch_or_request-Same k2)
            (Same-IsBounded k1 k2 (wait_complete-Same k1 t) v))
    | inl e ↦
        rw (e, Leaves)
          (if-branch (Leaves IsBounded) (ltb (k.semcnt i) (seminib_of i k).maxsem)
            (λ below j. ground (arith, v j)) (λ _. v))
  ],
  (
    if-both (Leaves IsBounded) (leb 1 (k.semcnt i)) (taken k i v) v,
    if-both (Leaves IsBounded) (k.raster me) v (
        if-both (Leaves IsBounded) (leb 1 (k.semcnt i)) (taken k i v) (
          if-both (Leaves IsBounded) (tmout == tmo_pol) v (
            Same-IsBounded k (wobj_make_wait_tmout (sem_wait_queue i) ts_waiting_sem tmout me k)
              (wobj_make_wait_tmout-Same k (sem_wait_queue i) ts_waiting_sem tmout me) v))),
  ),
)
  where
    taken :
        (k : Kernel) (i : ℕ)
        → IsBounded k
        → IsBounded (record k { semcnt = update k.semcnt i (k.semcnt i - 1) })
    taken k i v j = ground (arith, v j)

-- With no task in its queue and its count below the maximum, a semaphore that is released and then
-- polled gives E_OK both times, and every count is as before.
pub pol_sem-sig_sem :
    (i : ℕ) (k : Kernel)
    → head? (k.queue (sem_wait_queue i)) ≡ none
    → k.semcnt i < (seminib_of i k).maxsem
    → (k' : Kernel) × ((k'' : Kernel) × ((sig_sem_locked i k ≡ returned e_ok k')
          × ((pol_sem_locked i k' ≡ returned e_ok k'') × ((j : ℕ) → k''.semcnt j ≡ k.semcnt j))))
unfolding sig_sem_locked pol_sem_locked
pol_sem-sig_sem i k nobody room =
    let k' = unlock_cpu (record k { semcnt = update k.semcnt i (k.semcnt i + 1) }) in
    let k'' = unlock_cpu (record k' { semcnt = update k'.semcnt i (k'.semcnt i - 1) }) in
    (k', (k'', (ground arith, (ground arith, λ j. ground arith))))
