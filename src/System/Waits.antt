-- ===== src/System/Waits.antt =====
-- A task begins to wait: make_wait, make_wait_tmout and wobj_make_wait of kernel/wait.c.
use toppers_hrp3_gr_rose.Common.{
  ℕ, ◌%◌, ◌<◌, ◌≡◌, refl, ◌≢◌, true, false, List, [], ◌∷◌, arith, has, distinct, if-both, ◌==◌,
  bit_and,
}
use toppers_hrp3_gr_rose.TimeEvent
use toppers_hrp3_gr_rose.Kernel.{Kernel, Winfo, queue_insert_prev, tstat_wait_wobj}
use toppers_hrp3_gr_rose.Task.{make_non_runnable}
use toppers_hrp3_gr_rose.Wait.{
  make_wait, make_wait_tmout, register_wait, wobj_queue_insert, queue_insert_tpri, wobj_make_wait,
  wobj_make_wait_tmout, set_tstat, set_wobjcb, insert_tpri, tmo_fevr, ta_tpri,
}
use toppers_hrp3_gr_rose.Wait.Queue.{has-insert_tpri}
use toppers_hrp3_gr_rose.Wait.Consistent.{others-IsConsistent, object_queue-IsConsistent}
use toppers_hrp3_gr_rose.System.Linked.{insert-IsLinked}
use toppers_hrp3_gr_rose.System.Moves.{IsStopped, snoc-IsLinked, make_non_runnable-IsSound, IsSound}

-- A change of fields that neither the scheduler nor the links read.
others-IsStopped :
    (k : Kernel) (t v : ℕ) (w : ℕ → Winfo) (m : TimeEvent.Tmevt)
    → IsStopped t v k
    → IsStopped t v (record k { winfo = w; tmevt = m })
others-IsStopped k t v w m s = record {
  sound = record {
    consistent = others-IsConsistent k w k.wdata k.p_wobjcb m s.sound.consistent;
    linked = s.sound.linked;
  };
  free = s.free;
  state = s.state;
}

-- A task that begins to wait is in no queue.
pub make_wait-IsSound :
    (k : Kernel) (me v : ℕ) → IsSound k → v < 128 → IsStopped me v (make_wait v me k)
unfolding make_wait
make_wait-IsSound k me v s l =
    let k1 = make_non_runnable me (set_tstat me v k) in
    others-IsStopped k1 me v _ k1.tmevt (make_non_runnable-IsSound k me v s l)

pub register_wait-IsSound :
    (k : Kernel) (me v : ℕ) (f : TimeEvent.Cback) (time : ℕ)
    → IsStopped me v k
    → IsStopped me v (register_wait me f time k)
unfolding register_wait
register_wait-IsSound k me v f time s = others-IsStopped k me v _ _ s

pub make_wait_tmout-IsSound :
    (k : Kernel) (me v tmout : ℕ)
    → IsSound k
    → v < 128
    → IsStopped me v (make_wait_tmout v tmout me k)
unfolding make_wait_tmout
make_wait_tmout-IsSound k me v tmout s l =
    if-both (IsStopped me v) (tmout == tmo_fevr) (make_wait-IsSound k me v s l) (
      register_wait-IsSound _ me v TimeEvent.wait_tmout tmout
        (make_non_runnable-IsSound k me v s l))

distinct-insert_tpri :
    (f : ℕ → ℕ) (t : ℕ) (xs : List ℕ)
    → has t xs ≡ false
    → distinct xs ≡ true
    → distinct (insert_tpri f t xs) ≡ true
unfolding insert_tpri
distinct-insert_tpri f t [] h d = refl
distinct-insert_tpri f t (x ∷ xs) h d =
    ground (arith, distinct-insert_tpri f t xs, has-insert_tpri f t x xs)

-- A task that waits for an object enters the end of a queue of the object.
pub queue_insert_prev-IsSound :
    (k : Kernel) (q t v : ℕ)
    → q % 16 ≢ 0
    → tstat_wait_wobj v ≡ true
    → IsStopped t v k
    → IsSound (queue_insert_prev q t k)
unfolding queue_insert_prev
queue_insert_prev-IsSound k q t v n w s = record {
  consistent = object_queue-IsConsistent k q _ n s.sound.consistent;
  linked = snoc-IsLinked k.queue k.tstat q t s.sound.linked s.free (λ _. rw (s.state) w);
}

queue_insert_tpri-IsSound :
    (k : Kernel) (q t v : ℕ)
    → q % 16 ≢ 0
    → tstat_wait_wobj v ≡ true
    → IsStopped t v k
    → IsSound (queue_insert_tpri q t k)
unfolding queue_insert_tpri
queue_insert_tpri-IsSound k q t v n w s = record {
  consistent = object_queue-IsConsistent k q _ n s.sound.consistent;
  linked =
      insert-IsLinked k.queue k.tstat s.sound.linked q t (insert_tpri k.priority t (k.queue q))
        s.free (λ _. rw (s.state) w)
        (distinct-insert_tpri k.priority t (k.queue q) (s.free q) (s.sound.linked.single q))
        (λ u. has-insert_tpri k.priority t u (k.queue q));
}

pub set_wobjcb-IsSound : (k : Kernel) (t q : ℕ) → IsSound k → IsSound (set_wobjcb t q k)
set_wobjcb-IsSound k t q s = record {
  consistent = others-IsConsistent k k.winfo k.wdata _ k.tmevt s.consistent;
  linked = s.linked;
}

wobj_queue_insert-IsSound :
    (k : Kernel) (q me v : ℕ)
    → q % 16 ≢ 0
    → tstat_wait_wobj v ≡ true
    → IsStopped me v k
    → IsSound (set_wobjcb me q (wobj_queue_insert q me k))
unfolding wobj_queue_insert
wobj_queue_insert-IsSound k q me v n w s = set_wobjcb-IsSound (wobj_queue_insert q me k) me q (
    if-both IsSound (bit_and (k.cfg.wobjatr q) ta_tpri == 0)
      (queue_insert_prev-IsSound k q me v n w s) (queue_insert_tpri-IsSound k q me v n w s))

-- A task begins to wait for an object.
pub wobj_make_wait-IsSound :
    (k : Kernel) (q me v : ℕ)
    → q % 16 ≢ 0
    → tstat_wait_wobj v ≡ true
    → v < 128
    → IsSound k
    → IsSound (wobj_make_wait q v me k)
unfolding wobj_make_wait
wobj_make_wait-IsSound k q me v n w l s =
    wobj_queue_insert-IsSound (make_wait v me k) q me v n w (make_wait-IsSound k me v s l)

pub wobj_make_wait_tmout-IsSound :
    (k : Kernel) (q me v tmout : ℕ)
    → q % 16 ≢ 0
    → tstat_wait_wobj v ≡ true
    → v < 128
    → IsSound k
    → IsSound (wobj_make_wait_tmout q v tmout me k)
unfolding wobj_make_wait_tmout
wobj_make_wait_tmout-IsSound k q me v tmout n w l s =
    wobj_queue_insert-IsSound (make_wait_tmout v tmout me k) q me v n w
      (make_wait_tmout-IsSound k me v tmout s l)
