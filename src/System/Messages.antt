-- ===== src/System/Messages.antt =====
-- The loop of messagebuf_signal of kernel/messagebuf.c, which releases tasks that wait to send, and
-- the ends of waits of kernel/wait.c that run it.
use toppers_hrp3_gr_rose.Common.{
  ℕ, zero, suc, ◌≡◌, refl, sym, ◌∙◌, ◌≢◌, inl, inr, true, false, some, List, [], ◌∷◌, arith, has,
  has-append, has-erase, length, leb, ◌==◌, if-both, if-branch, Bool-cases, Option-cases,
}
use toppers_hrp3_gr_rose.Kernel.{
  Kernel, Er, head?, queue_delete, ts_runnable, tstat_suspended, tstat_wait_wobj, tstat_waiting,
  mbf_swait_queue, without_suspended, ts_waiting_smbf, e_ok, e_tmout,
}
use toppers_hrp3_gr_rose.Task.Consistent.{make_runnable-tstat}
use toppers_hrp3_gr_rose.Wait.{
  wait_complete, wait_dequeue_tmevtb, wait_dequeue_wobj, wait_tmout, wait_tmout_ok, make_non_wait,
  set_wercd, set_tstat,
}
use toppers_hrp3_gr_rose.Messagebuf.{
  alloc_sz, store_message, signal_loop, messagebuf_signal, messagebuf_dequeue_wobj, p_mbfcb,
}
use toppers_hrp3_gr_rose.System.Linked.{IsFree}
use toppers_hrp3_gr_rose.System.Moves.{
  IsSound, first-not_runnable, idle-IsFree, make_runnable-queues, queue_delete-IsSound,
  end_wait-IsSound, set_wercd-IsSound, make_non_wait-IsSound,
}
use toppers_hrp3_gr_rose.System.Steady.{core-IsSound}

waiting-not_runnable : (v : ℕ) → tstat_waiting v ≡ true → v ≢ ts_runnable
unfolding tstat_waiting
waiting-not_runnable v w e = ground arith

-- A task that waits, and is in no queue any more.
pub record IsOut (t : ℕ) (k : Kernel) : Type 0 where
  pub sound : IsSound k
  pub free : IsFree t k.queue
  pub idle : k.tstat t ≢ ts_runnable

-- The end of the wait of one task does not move another.
make_non_wait-IsFree :
    (k : Kernel) (u t : ℕ) → t ≢ u → IsFree t k.queue → IsFree t (make_non_wait u k).queue
unfolding make_non_wait
make_non_wait-IsFree k u t n f =
    let k1 = set_tstat u ts_runnable k in
    if-both (λ (k' : Kernel). IsFree t k'.queue) (tstat_suspended (k.tstat u)) f
      (λ r. rw (make_runnable-queues k1 u) (ground (arith, has-append t (k.queue r) (u ∷ []), f r)))

make_non_wait-other : (k : Kernel) (u t : ℕ) → t ≢ u → (make_non_wait u k).tstat t ≡ k.tstat t
unfolding make_non_wait
make_non_wait-other k u t n =
    if-both (λ (k' : Kernel). k'.tstat t ≡ k.tstat t) (tstat_suspended (k.tstat u)) (ground arith)
      (ground (arith, make_runnable-tstat (set_tstat u ts_runnable k) u))

-- A task that waits for an object leaves its queue and its wait ends.
released-IsOut :
    (k : Kernel) (t u : ℕ)
    → IsOut t k
    → t ≢ u
    → k.tstat u ≢ ts_runnable
    → IsOut t (wait_complete u (queue_delete u k))
unfolding wait_complete wait_dequeue_tmevtb queue_delete
released-IsOut k t u o n h =
    let (gone, free) = queue_delete-IsSound k u o.sound h in
    let k1 = set_wercd u e_ok (wait_dequeue_tmevtb u (queue_delete u k)) in
    record {
      sound = end_wait-IsSound (queue_delete u k) u e_ok gone free h;
      free =
          make_non_wait-IsFree k1 u t n (λ r. ground (arith, has-erase u t (k.queue r), o.free r));
      idle = λ e. o.idle (sym (make_non_wait-other k1 u t n) ∙ e);
    }

store_message-IsOut :
    (k : Kernel) (t i : ℕ) (msg : List ℕ) → IsOut t k → IsOut t (store_message i msg k)
unfolding store_message
store_message-IsOut k t i msg o = record {
  sound = core-IsSound k _ refl o.sound;
  free = o.free;
  idle = o.idle;
}

head-has : (xs : List ℕ) (t : ℕ) → head? xs ≡ some t → has t xs ≡ true
head-has [] t e = ground arith
head-has (x ∷ xs) t e = ground arith

-- The loop without a task that it leaves alone.
signal_loop-IsSound : (fuel i : ℕ) (k : Kernel) → IsSound k → IsSound (signal_loop fuel i k)
unfolding signal_loop wait_complete store_message queue_delete
signal_loop-IsSound zero i k s = s
signal_loop-IsSound (suc fuel) i k s = elim (Option-cases (head? (k.queue (mbf_swait_queue i)))) [
  | inl e ↦ rw (e, signal_loop) s
  | inr (u, e) ↦ elim (Bool-cases (leb (alloc_sz (length (k.wmsg u))) (k.mbf.fmbfsz i))) [
    | inr full ↦ rw (e, full, signal_loop) s
    | inl room ↦
        let k1 = store_message i (k.wmsg u) k in
        let n = first-not_runnable k (mbf_swait_queue i) u s (omega arith) e in
        let (gone, free) = queue_delete-IsSound k1 u (core-IsSound k k1 refl s) n in
        rw (e, room, signal_loop)
          (signal_loop-IsSound fuel i _ (end_wait-IsSound (queue_delete u k1) u e_ok gone free n))
  ]
]

pub messagebuf_signal-IsSound : (i : ℕ) (k : Kernel) → IsSound k → IsSound (messagebuf_signal i k)
unfolding messagebuf_signal
messagebuf_signal-IsSound i k s = signal_loop-IsSound (length (k.queue (mbf_swait_queue i))) i k s

signal_loop-IsOut : (fuel i t : ℕ) (k : Kernel) → IsOut t k → IsOut t (signal_loop fuel i k)
unfolding signal_loop
signal_loop-IsOut zero i t k o = o
signal_loop-IsOut (suc fuel) i t k o = elim (Option-cases (head? (k.queue (mbf_swait_queue i)))) [
  | inl e ↦ rw (e, signal_loop) o
  | inr (u, e) ↦ elim (Bool-cases (leb (alloc_sz (length (k.wmsg u))) (k.mbf.fmbfsz i))) [
    | inr full ↦ rw (e, full, signal_loop) o
    | inl room ↦
        let k1 = store_message i (k.wmsg u) k in
        let other : t ≢ u = λ s.
          ground (arith, o.free (mbf_swait_queue i), head-has (k.queue (mbf_swait_queue i)) u e) in
        rw (e, room, signal_loop)
          (signal_loop-IsOut fuel i t _ (
            released-IsOut k1 t u (store_message-IsOut k t i (k.wmsg u) o) other
              (first-not_runnable k (mbf_swait_queue i) u o.sound (omega arith) e)))
  ]
]

-- The waiting task has been taken out of the queue of its object, if it waits for one.
dequeued-IsOut :
    (k : Kernel) (t : ℕ)
    → IsSound k
    → tstat_waiting (k.tstat t) ≡ true
    → IsOut t (wait_dequeue_wobj messagebuf_dequeue_wobj t k)
unfolding wait_dequeue_wobj messagebuf_dequeue_wobj messagebuf_signal queue_delete
dequeued-IsOut k t s w =
    let n = waiting-not_runnable (k.tstat t) w in
    let k1 = queue_delete t k in
    if-branch (IsOut t) (tstat_wait_wobj (k.tstat t))
      (λ _.
        let (gone, free) = queue_delete-IsSound k t s n in
        let o : IsOut t k1 = record { sound = gone; free = free; idle = n } in
        if-both (IsOut t) (without_suspended (k.tstat t) == ts_waiting_smbf)
          (signal_loop-IsOut (length (k1.queue (mbf_swait_queue (p_mbfcb t k1)))) (p_mbfcb t k1) t
            k1 o)
          o)
      (λ e. record { sound = s; free = idle-IsFree k t s n e; idle = n })

-- Where a task that waits comes to the end of its time, the scheduler stays consistent and the
-- queues linked as they should be, also where the task waited to send a message and tasks behind
-- it are released in its place.
pub wait_tmout-IsSound :
    (k : Kernel) (t : ℕ)
    → IsSound k
    → tstat_waiting (k.tstat t) ≡ true
    → IsSound (wait_tmout messagebuf_dequeue_wobj t k)
unfolding wait_tmout
wait_tmout-IsSound k t s w =
    let k1 = wait_dequeue_wobj messagebuf_dequeue_wobj t k in
    let o = dequeued-IsOut k t s w in
    make_non_wait-IsSound (set_wercd t e_tmout k1) t (set_wercd-IsSound k1 t e_tmout o.sound) o.free
      o.idle

-- A delay, or a sleep, ends with its time.
pub wait_tmout_ok-IsSound :
    (k : Kernel) (t : ℕ)
    → IsSound k
    → tstat_waiting (k.tstat t) ≡ true
    → tstat_wait_wobj (k.tstat t) ≡ false
    → IsSound (wait_tmout_ok t k)
unfolding wait_tmout_ok
wait_tmout_ok-IsSound k t s w o =
    let n = waiting-not_runnable (k.tstat t) w in
    make_non_wait-IsSound (set_wercd t e_ok k) t (set_wercd-IsSound k t e_ok s)
      (idle-IsFree k t s n o) n

-- The wait of a task is ended by another task.
pub released-IsSound :
    (k : Kernel) (t : ℕ) (e : Er)
    → IsSound k
    → tstat_waiting (k.tstat t) ≡ true
    → IsSound (
        make_non_wait t
          (set_wercd t e (wait_dequeue_tmevtb t (wait_dequeue_wobj messagebuf_dequeue_wobj t k))))
released-IsSound k t e s w =
    let o = dequeued-IsOut k t s w in
    end_wait-IsSound (wait_dequeue_wobj messagebuf_dequeue_wobj t k) t e o.sound o.free o.idle
