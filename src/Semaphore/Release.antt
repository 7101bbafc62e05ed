-- ===== src/Semaphore/Release.antt =====
-- Which task sig_sem of kernel/semaphore.c releases.
use toppers_hrp3_gr_rose.Common.{ℕ, ◌≡◌, refl, ap, some, List, ◌∷◌}
use toppers_hrp3_gr_rose.Kernel.{
  Kernel, returned, e_ok, head?, queue_delete_next, unlock_cpu, dispatch_or_request, sem_wait_queue,
}
use toppers_hrp3_gr_rose.Wait.{wait_complete}
use toppers_hrp3_gr_rose.Wait.Complete.{
  IsCompleted, wait_complete-IsCompleted, dispatch_or_request-IsCompleted,
}
use toppers_hrp3_gr_rose.Semaphore.{sig_sem_locked}

sig_sem_locked_head :
    (i t : ℕ) (k : Kernel)
    → head? (k.queue (sem_wait_queue i)) ≡ some t
    → sig_sem_locked i k
      ≡ returned e_ok (
          unlock_cpu
            (dispatch_or_request (wait_complete t (queue_delete_next (sem_wait_queue i) k))))
unfolding sig_sem_locked
sig_sem_locked_head i t k e = rw (e, sig_sem_locked) refl

-- Where tasks wait for a semaphore, sig_sem past its checks returns E_OK, takes the first of them
-- out of the queue, and ends its wait.
pub sig_sem_locked-release :
    (i t : ℕ) (ts : List ℕ) (k : Kernel)
    → k.queue (sem_wait_queue i) ≡ t ∷ ts
    → (k' : Kernel) × ((sig_sem_locked i k ≡ returned e_ok k')
        × IsCompleted t (queue_delete_next (sem_wait_queue i) k) k')
sig_sem_locked-release i t ts k e =
    let k1 = queue_delete_next (sem_wait_queue i) k in
    let k2 = wait_complete t k1 in
    (
      unlock_cpu (dispatch_or_request k2),
      (
        sig_sem_locked_head i t k (ap (λ (xs : List ℕ). head? xs) e),
        dispatch_or_request-IsCompleted t k1 k2 (wait_complete-IsCompleted k1 t),
      ),
    )
