-- ===== src/Tests/Queues.antt =====
-- Tests of the wait queues, the semaphores and the data queues.
use toppers_hrp3_gr_rose.Common.{
  ℕ, ◌+◌, ◌*◌, ◌%◌, ◌≡◌, refl, ◌≢◌, ◌⊎◌, inr, true, some, List, [], ◌∷◌, ◌++◌, arith, has, ltb,
  if◌then◌else◌, update,
}
use toppers_hrp3_gr_rose.Kernel.{
  Kernel, e_ok, e_dlt, wercd, tail, sem_wait_queue, dtq_swait_queue, dtq_rwait_queue,
  ts_waiting_flg, ts_runnable, tstat_suspended,
}
use toppers_hrp3_gr_rose.Wait.{insert_tpri, init_wait_queue}
use toppers_hrp3_gr_rose.Wait.Queue.{
  IsByPriority, of_priority, insert_tpri_correct, init_wait_queue_correct,
}
use toppers_hrp3_gr_rose.Eventflag.{set_flg_loop}
use toppers_hrp3_gr_rose.Eventflag.Release.{IsMet, set_flg_loop-release}
use toppers_hrp3_gr_rose.Service.{Leaves}
use toppers_hrp3_gr_rose.Semaphore.{sig_sem_locked, pol_sem_locked, twai_sem_locked}
use toppers_hrp3_gr_rose.Semaphore.Count.{IsBounded, semcnt-IsBounded}
use toppers_hrp3_gr_rose.Dataqueue.{force_enqueue_data, send_data, receive_data, dtqinib_of}
use toppers_hrp3_gr_rose.Dataqueue.Ring.{contents, IsRing, force_enqueue_data_correct}
use toppers_hrp3_gr_rose.Dataqueue.Fifo.{
  Holds, send_data_fifo, send_data_direct, receive_data_fifo, receive_data_refill,
}
use toppers_hrp3_gr_rose.Tests.{blank}

abbrev priorities : ℕ → ℕ
priorities t = t * 2

two_waiting : IsByPriority priorities (1 ∷ 4 ∷ [])
unfolding IsByPriority
two_waiting = (λ y r. ground arith, (λ y r. ground arith, omega arith))

insert_tpri_correct_example :
    IsByPriority priorities (insert_tpri priorities 3 (1 ∷ 4 ∷ []))
    × (of_priority priorities 6 (insert_tpri priorities 3 (1 ∷ 4 ∷ [])) ≡ 3 ∷ [])
insert_tpri_correct_example = insert_tpri_correct priorities 3 6 (1 ∷ 4 ∷ []) two_waiting

-- Two tasks wait for semaphore 0, which has no resource.
abbrev waiters : Kernel
waiters = record blank { queue = update blank.queue (sem_wait_queue 0) (1 ∷ 2 ∷ []) }

init_wait_queue_correct_example :
    ((init_wait_queue (sem_wait_queue 0) waiters).queue (sem_wait_queue 0) ≡ [])
    × (((r : ℕ)
          → r % 16 ≢ 0
          → r ≢ sem_wait_queue 0
          → (init_wait_queue (sem_wait_queue 0) waiters).queue r ≡ waiters.queue r)
        × ((t : ℕ)
            → (init_wait_queue (sem_wait_queue 0) waiters).winfo t ≡ (
                if has t (waiters.queue (sem_wait_queue 0)) then wercd e_dlt else waiters.winfo t)))
init_wait_queue_correct_example =
    init_wait_queue_correct (sem_wait_queue 0) waiters (λ e. ground arith)

semcnt-IsBounded_example :
    Leaves IsBounded (sig_sem_locked 0 waiters)
    × (Leaves IsBounded (pol_sem_locked 0 waiters)
        × Leaves IsBounded (twai_sem_locked 0 1000 3 waiters))
semcnt-IsBounded_example = semcnt-IsBounded 0 1000 3 waiters (λ i. omega arith)

blank-IsRing : IsRing 0 blank
blank-IsRing = record { count_le = omega arith; head_lt = λ _. omega arith; tail_at = λ _. refl }

-- Data queue 0 holds one datum in the second place of two.
abbrev one_datum : Kernel
one_datum = record blank {
  dtq_count = update blank.dtq_count 0 1;
  dtq_head = update blank.dtq_head 0 1;
  dtqmb = update blank.dtqmb 0 (λ n. n + 20);
}

one_datum-IsRing : IsRing 0 one_datum
one_datum-IsRing = record {
  count_le = omega arith;
  head_lt = λ _. omega arith;
  tail_at = λ _. refl;
}

-- The same queue, full.
abbrev two_data : Kernel
two_data = record one_datum {
  dtq_count = update blank.dtq_count 0 2;
  dtq_tail = update blank.dtq_tail 0 1;
}

two_data-IsRing : IsRing 0 two_data
two_data-IsRing = record { count_le = omega arith; head_lt = λ _. omega arith; tail_at = λ _. refl }

force_enqueue_data_correct_example :
    (contents 0 (force_enqueue_data 0 7 two_data)
      ≡ (if ltb (two_data.dtq_count 0) (dtqinib_of 0 two_data).dtqcnt
          then contents 0 two_data
          else tail (contents 0 two_data))
        ++ 7 ∷ [])
    × IsRing 0 (force_enqueue_data 0 7 two_data)
force_enqueue_data_correct_example =
    force_enqueue_data_correct 0 7 two_data two_data-IsRing (omega arith)

send_data_fifo_example :
    let room = ltb (one_datum.dtq_count 0) (dtqinib_of 0 one_datum).dtqcnt in
    ((send_data 0 7 one_datum).0 ≡ room)
    × Holds 0
        (send_data 0 7 one_datum).1
        (if room then contents 0 one_datum ++ 7 ∷ [] else contents 0 one_datum)
send_data_fifo_example = send_data_fifo 0 7 one_datum one_datum-IsRing refl

-- Task 1 waits to receive from the empty queue.
abbrev receiver : Kernel
receiver = record blank { queue = update blank.queue (dtq_rwait_queue 0) (1 ∷ []) }

receiver-IsRing : IsRing 0 receiver
receiver-IsRing = record { count_le = omega arith; head_lt = λ _. omega arith; tail_at = λ _. refl }

send_data_direct_example :
    ((send_data 0 7 receiver).0 ≡ true)
    × (Holds 0 (send_data 0 7 receiver).1 (contents 0 receiver)
        × (((send_data 0 7 receiver).1.winfo 1 ≡ wercd e_ok)
            × ((send_data 0 7 receiver).1.wdata 1 ≡ 7)))
send_data_direct_example = send_data_direct 0 7 1 receiver receiver-IsRing refl

receive_data_fifo_example :
    (d : ℕ) × ((ds : List ℕ) × ((contents 0 one_datum ≡ d ∷ ds)
        × (((receive_data 0 one_datum).0 ≡ some d) × Holds 0 (receive_data 0 one_datum).1 ds)))
receive_data_fifo_example = receive_data_fifo 0 one_datum one_datum-IsRing (omega arith) refl

-- Task 1 waits to send 9 to the full queue.
abbrev sender : Kernel
sender = record two_data {
  queue = update blank.queue (dtq_swait_queue 0) (1 ∷ []);
  wdata = update blank.wdata 1 9;
}

sender-IsRing : IsRing 0 sender
sender-IsRing = record { count_le = omega arith; head_lt = λ _. omega arith; tail_at = λ _. refl }

receive_data_refill_example :
    (d : ℕ) × ((ds : List ℕ) × ((contents 0 sender ≡ d ∷ ds)
        × (((receive_data 0 sender).0 ≡ some d)
            × (Holds 0 (receive_data 0 sender).1 (ds ++ sender.wdata 1 ∷ [])
                × ((receive_data 0 sender).1.winfo 1 ≡ wercd e_ok)))))
receive_data_refill_example = receive_data_refill 0 1 sender sender-IsRing (omega arith) refl

-- Tasks 1 and 2 wait for event flag 0, one for the bits 3 and the other for the bit 4.
abbrev flag_waiters : Kernel
flag_waiters = record blank {
  flgptn = update blank.flgptn 0 3;
  waiptn = update (update blank.waiptn 1 3) 2 4;
  tstat = λ _. ts_waiting_flg;
  wfmode = λ _. 2;
}

set_flg_loop-release_example :
    (((has 1 (1 ∷ 2 ∷ []) ≡ true) × IsMet 3 3 2)
      × (((set_flg_loop 0 (1 ∷ 2 ∷ []) flag_waiters).winfo 1 ≡ wercd e_ok)
          × ((set_flg_loop 0 (1 ∷ 2 ∷ []) flag_waiters).tstat 1 ≡ ts_runnable)))
    ⊎ ((¬ ((has 1 (1 ∷ 2 ∷ []) ≡ true) × IsMet 3 3 2))
        × (((set_flg_loop 0 (1 ∷ 2 ∷ []) flag_waiters).winfo 1 ≡ flag_waiters.winfo 1)
            × ((set_flg_loop 0 (1 ∷ 2 ∷ []) flag_waiters).tstat 1 ≡ flag_waiters.tstat 1)))
unfolding tstat_suspended
set_flg_loop-release_example = set_flg_loop-release 0 1 (1 ∷ 2 ∷ []) flag_waiters refl (inr refl)
