-- ===== src/Wait/Consistent.antt =====
-- The invariant of the scheduler and the beginning and the end of a wait: kernel/wait.c,
-- kernel/wait.h.
use toppers_hrp3_gr_rose.Common.{
  ℕ, ◌%◌, ◌<◌, ◌≡◌, refl, ◌≢◌, inl, inr, List, arith, update, has, erase, erase-id, bit_and,
  Bool-cases, ◌==◌, if-both,
}
use toppers_hrp3_gr_rose.TimeEvent
use toppers_hrp3_gr_rose.Kernel.{
  Kernel, Winfo, wercd, ready_queue, queue_delete, ts_runnable, ts_suspended, tstat_suspended, e_ok,
}
use toppers_hrp3_gr_rose.Task.{make_non_runnable, choose_schedtsk}
use toppers_hrp3_gr_rose.Task.Consistent.{
  IsConsistent, IsConsistent-cong, IsReady-cong, make_runnable-IsConsistent,
  make_non_runnable-IsConsistent,
}
use toppers_hrp3_gr_rose.Wait.{
  make_wait, make_wait_tmout, register_wait, make_non_wait, wait_complete, wait_dequeue_tmevtb,
  wobj_queue_insert, wobj_make_wait, wobj_make_wait_tmout, set_tstat, tmo_fevr, ta_tpri,
}

-- A change of fields that the scheduler does not read.
pub others-IsConsistent :
    (k : Kernel) (w : ℕ → Winfo) (d : ℕ → ℕ) (o : ℕ → ℕ) (m : TimeEvent.Tmevt)
    → IsConsistent k
    → IsConsistent (record k { winfo = w; wdata = d; p_wobjcb = o; tmevt = m })
unfolding choose_schedtsk
others-IsConsistent k w d o m c =
    IsConsistent-cong k _ refl refl refl refl refl (λ v. v) (λ _ _ _. refl) c

-- Only the ready queues count.
pub queues-IsConsistent :
    (k : Kernel) (qs : ℕ → List ℕ)
    → ((s p : ℕ) → p < 16 → qs (ready_queue s p) ≡ k.queue (ready_queue s p))
    → IsConsistent k
    → IsConsistent (record k { queue = qs })
unfolding choose_schedtsk
queues-IsConsistent k qs h c = IsConsistent-cong k _ refl refl refl refl refl (λ v. v) h c

-- A change of the queue of an object.
pub object_queue-IsConsistent :
    (k : Kernel) (q : ℕ) (ts : List ℕ)
    → q % 16 ≢ 0
    → IsConsistent k
    → IsConsistent (record k { queue = update k.queue q ts })
object_queue-IsConsistent k q ts h c =
    queues-IsConsistent k (update k.queue q ts) (λ s p l. ground arith) c

-- A task that is not runnable is in no ready queue.
pub absent :
    (k : Kernel) (t s p : ℕ)
    → IsConsistent k
    → k.tstat t ≢ ts_runnable
    → p < 16
    → erase t (k.queue (ready_queue s p)) ≡ k.queue (ready_queue s p)
absent k t s p c n l = elim (Bool-cases (has t (k.queue (ready_queue s p)))) [
  | inl here ↦ absurd (n (c.in_ready s p t l here))
  | inr gone ↦ erase-id t (k.queue (ready_queue s p)) gone
]

-- A task that waits and leaves the queue that it is linked in.
pub queue_delete-IsConsistent :
    (k : Kernel) (t : ℕ)
    → IsConsistent k
    → k.tstat t ≢ ts_runnable
    → IsConsistent (queue_delete t k)
unfolding queue_delete
queue_delete-IsConsistent k t c n =
    queues-IsConsistent k (λ q. erase t (k.queue q)) (λ s p l. absent k t s p c n l) c

-- A task that is not runnable, and changes to another state.
pub set_tstat-IsConsistent :
    (k : Kernel) (t v : ℕ)
    → IsConsistent k
    → k.tstat t ≢ ts_runnable
    → IsConsistent (set_tstat t v k)
unfolding choose_schedtsk
set_tstat-IsConsistent k t v c n = record {
  ready = λ s. IsReady-cong k _ s refl refl refl refl (λ _ _. refl) (c.ready s);
  priorities = c.priorities;
  scheduled = c.scheduled;
  in_ready = λ s p u l r. ground (arith, c.in_ready s p u l r);
}

-- make_non_wait, of a task that is not runnable, leaves the scheduler consistent.
pub make_non_wait-IsConsistent :
    (k : Kernel) (t : ℕ)
    → IsConsistent k
    → k.tstat t ≢ ts_runnable
    → IsConsistent (make_non_wait t k)
unfolding make_non_wait
make_non_wait-IsConsistent k t c n =
    if-both IsConsistent (tstat_suspended (k.tstat t)) (set_tstat-IsConsistent k t ts_suspended c n)
      (make_runnable-IsConsistent k t c)

pub wait_dequeue_tmevtb-IsConsistent :
    (k : Kernel) (t : ℕ) → IsConsistent k → IsConsistent (wait_dequeue_tmevtb t k)
unfolding wait_dequeue_tmevtb
wait_dequeue_tmevtb-IsConsistent k t c = others-IsConsistent k k.winfo k.wdata k.p_wobjcb _ c

-- wait_complete, of a task that is not runnable, leaves the scheduler consistent.
pub wait_complete-IsConsistent :
    (k : Kernel) (t : ℕ)
    → IsConsistent k
    → k.tstat t ≢ ts_runnable
    → IsConsistent (wait_complete t k)
unfolding wait_complete
wait_complete-IsConsistent k t c n =
    let k1 = wait_dequeue_tmevtb t k in
    make_non_wait-IsConsistent (record k1 { winfo = update k1.winfo t (wercd e_ok) }) t
      (others-IsConsistent k1 _ k1.wdata k1.p_wobjcb k1.tmevt
        (wait_dequeue_tmevtb-IsConsistent k t c))
      n

-- A task that begins to wait leaves the scheduler consistent.
pub make_wait-IsConsistent :
    (k : Kernel) (me v : ℕ) → IsConsistent k → IsConsistent (make_wait v me k)
unfolding make_wait
make_wait-IsConsistent k me v c =
    let k1 = make_non_runnable me (set_tstat me v k) in
    others-IsConsistent k1 _ k1.wdata k1.p_wobjcb k1.tmevt (make_non_runnable-IsConsistent k me c v)

pub register_wait-IsConsistent :
    (k : Kernel) (me : ℕ) (f : TimeEvent.Cback) (time : ℕ)
    → IsConsistent k
    → IsConsistent (register_wait me f time k)
unfolding register_wait
register_wait-IsConsistent k me f time c = others-IsConsistent k _ k.wdata k.p_wobjcb _ c

pub make_wait_tmout-IsConsistent :
    (k : Kernel) (me v tmout : ℕ) → IsConsistent k → IsConsistent (make_wait_tmout v tmout me k)
unfolding make_wait_tmout
make_wait_tmout-IsConsistent k me v tmout c =
    if-both IsConsistent (tmout == tmo_fevr) (make_wait-IsConsistent k me v c) (
      register_wait-IsConsistent _ me TimeEvent.wait_tmout tmout
        (make_non_runnable-IsConsistent k me c v))

wobj_queue_insert-IsConsistent :
    (k : Kernel) (q me : ℕ) → q % 16 ≢ 0 → IsConsistent k → IsConsistent (wobj_queue_insert q me k)
unfolding wobj_queue_insert
wobj_queue_insert-IsConsistent k q me h c =
    if-both IsConsistent (bit_and (k.cfg.wobjatr q) ta_tpri == 0)
      (object_queue-IsConsistent k q _ h c) (object_queue-IsConsistent k q _ h c)

-- A task that begins to wait for an object leaves the scheduler consistent.
pub wobj_make_wait-IsConsistent :
    (k : Kernel) (q me v : ℕ) → q % 16 ≢ 0 → IsConsistent k → IsConsistent (wobj_make_wait q v me k)
unfolding wobj_make_wait
wobj_make_wait-IsConsistent k q me v h c =
    let k1 = wobj_queue_insert q me (make_wait v me k) in
    others-IsConsistent k1 k1.winfo k1.wdata _ k1.tmevt
      (wobj_queue_insert-IsConsistent (make_wait v me k) q me h (make_wait-IsConsistent k me v c))

pub wobj_make_wait_tmout-IsConsistent :
    (k : Kernel) (q me v tmout : ℕ)
    → q % 16 ≢ 0
    → IsConsistent k
    → IsConsistent (wobj_make_wait_tmout q v tmout me k)
unfolding wobj_make_wait_tmout
wobj_make_wait_tmout-IsConsistent k q me v tmout h c =
    let k0 = make_wait_tmout v tmout me k in
    let k1 = wobj_queue_insert q me k0 in
    others-IsConsistent k1 k1.winfo k1.wdata _ k1.tmevt
      (wobj_queue_insert-IsConsistent k0 q me h (make_wait_tmout-IsConsistent k me v tmout c))
