-- ===== src/Tests/Objects.antt =====
-- Tests of the mutexes, the memory pools, the priority data queues and the message buffers.
use toppers_hrp3_gr_rose.Common.{
  ℕ, ◌≡◌, refl, ◌⊎◌, true, false, not, ◌&&◌, ltb, has, some, none, List, [], ◌∷◌, arith, ◌==◌,
  if◌then◌else◌, update,
}
use toppers_hrp3_gr_rose.Kernel.{
  Kernel, e_ok, e_par, returned, mpf_wait_queue, mtx_wait_queue, ts_runnable, ts_waiting_mtx,
}
use toppers_hrp3_gr_rose.Wait.Queue.{IsByPriority}
use toppers_hrp3_gr_rose.Mutex.{
  mutex_calc_priority, mutex_check_ceilpri, mutex_scan_ceilmtx, mutex_acquire, mutex_release_all,
}
use toppers_hrp3_gr_rose.Mutex.Calls.{unlock_last}
use toppers_hrp3_gr_rose.Mutex.Ceiling.{
  IsCurrent, Finds, IsConcerned, IsExceeded, HasCeiling, mutex_calc_priority-IsCurrent,
  mutex_check_ceilpri_correct,
}
use toppers_hrp3_gr_rose.Mutex.Release.{AllPassed, mutex_release_all-AllPassed}
use toppers_hrp3_gr_rose.Mutex.Nest.{unlock_last-mutex_acquire}
use toppers_hrp3_gr_rose.Mempfix.{block_address, get_mpf_block, put_block, index_null}
use toppers_hrp3_gr_rose.Mempfix.Calls.{rel_mpf}
use toppers_hrp3_gr_rose.Mempfix.Alloc.{
  IsPool, Got, is_allocated, get_mpf_block_correct, put_block_correct,
}
use toppers_hrp3_gr_rose.Mempfix.Release.{IsFreed, IsPassed, rel_mpf-is_allocated}
use toppers_hrp3_gr_rose.Pridataq.{enqueue_pridata}
use toppers_hrp3_gr_rose.Pridataq.Blocks.{IsPdq}
use toppers_hrp3_gr_rose.Pridataq.Entries.{Enqueued, enqueue_pridata_correct}
use toppers_hrp3_gr_rose.Messagebuf.{round_sz, store_message, dequeue_message}
use toppers_hrp3_gr_rose.Messagebuf.Roundtrip.{dequeue_message-store_message}
use toppers_hrp3_gr_rose.Tests.{blank}
use toppers_hrp3_gr_rose.Kernel.{tstat_runnable, violate_acptn}

-- Task 0 has locked mutex 0, for which tasks 1 and 2 wait.
abbrev locker : Kernel
locker = record blank {
  p_lastmtx = update blank.p_lastmtx 0 (some 0);
  tstat = update blank.tstat 1 ts_waiting_mtx;
  queue = update blank.queue (mtx_wait_queue 0) (1 ∷ 2 ∷ []);
  mtx = record { p_loctsk = update blank.mtx.p_loctsk 0 (some 0); p_prevmtx = λ _. none };
}

mutex_calc_priority-IsCurrent_example : IsCurrent locker 3 (0 ∷ []) (mutex_calc_priority 0 locker)
mutex_calc_priority-IsCurrent_example =
    mutex_calc_priority-IsCurrent 0 (0 ∷ []) locker (refl, refl) (omega arith)

mutex_check_ceilpri_correct_example :
    Finds
      (not (mutex_check_ceilpri 0 1 locker))
      (λ x. IsConcerned 0 (0 ∷ []) x locker)
      (λ x. IsExceeded 1 x locker)
    × Finds (mutex_scan_ceilmtx 0 locker) (λ x. has x (0 ∷ []) ≡ true) (λ x. HasCeiling x locker)
mutex_check_ceilpri_correct_example =
    mutex_check_ceilpri_correct 0 1 (0 ∷ []) locker (refl, refl) (omega arith)

mutex_release_all-AllPassed_example : AllPassed 0 (0 ∷ []) locker (mutex_release_all 0 locker)
mutex_release_all-AllPassed_example =
    mutex_release_all-AllPassed 0 (0 ∷ []) locker (refl, refl) (omega arith) refl
      (λ x r. ground arith)

-- Task 0 runs, and has locked no mutex.
abbrev runner : Kernel
runner = record blank { tstat = update blank.tstat 0 ts_runnable }

unlock_last-mutex_acquire_example :
    ((unlock_last 0 0 (mutex_acquire 0 0 runner)).mtx.p_loctsk 0 ≡ none)
    × (((unlock_last 0 0 (mutex_acquire 0 0 runner)).p_lastmtx 0 ≡ runner.p_lastmtx 0)
        × ((unlock_last 0 0 (mutex_acquire 0 0 runner)).priority 0 ≡ runner.priority 0))
unfolding mutex_calc_priority tstat_runnable
unlock_last-mutex_acquire_example =
    unlock_last-mutex_acquire 0 0 [] runner refl refl (omega arith) refl refl refl

-- The pool as it is after the initialisation.
blank-IsPool : IsPool 0 blank []
blank-IsPool = record {
  linked = refl;
  free_distinct = refl;
  below = refl;
  marks = λ j h. absurd (omega arith);
  count = refl;
  unused_le = omega arith;
  small = omega arith;
}

get_mpf_block_correct_example :
    (blkidx : ℕ) × ((free : List ℕ) × Got 0 blank blkidx free (get_mpf_block 0 blank))
get_mpf_block_correct_example = get_mpf_block_correct 0 [] blank blank-IsPool (omega arith)

-- Block 0 of the two is handed out.
abbrev one_block : Kernel
one_block = record blank {
  mpf = record {
    fblkcnt = λ _. 1;
    unused = λ _. 1;
    freelist = λ _. index_null;
    next = λ _ _. 4294967294;
  };
}

one_block-IsPool : IsPool 0 one_block []
one_block-IsPool = record {
  linked = refl;
  free_distinct = refl;
  below = refl;
  marks = λ j h. refl;
  count = refl;
  unused_le = omega arith;
  small = omega arith;
}

block_allocated : is_allocated 0 one_block 0 ≡ true
unfolding is_allocated
block_allocated = refl

put_block_correct_example :
    IsPool 0 (put_block 0 0 one_block) (0 ∷ [])
    × ((j : ℕ)
        → is_allocated 0 (put_block 0 0 one_block) j
          ≡ (if 0 == j then false else is_allocated 0 one_block j))
put_block_correct_example = put_block_correct 0 0 [] one_block one_block-IsPool block_allocated

rel_mpf-is_allocated_example :
    (((ltb 0 (one_block.mpf.unused 0) && not (has 0 [])) ≡ true)
      × ((k' : Kernel) × ((rel_mpf 1 (block_address 0 0 one_block) one_block ≡ returned e_ok k')
            × (((one_block.queue (mpf_wait_queue 0) ≡ []) × IsFreed 0 0 [] one_block k')
                ⊎ ((t : ℕ) × ((ts : List ℕ) × IsPassed 0 t ts
                        (block_address 0 0 one_block)
                        one_block
                        k'))))))
    ⊎ (((ltb 0 (one_block.mpf.unused 0) && not (has 0 [])) ≡ false)
        × (rel_mpf 1 (block_address 0 0 one_block) one_block ≡ returned e_par one_block))
unfolding violate_acptn
rel_mpf-is_allocated_example =
    rel_mpf-is_allocated 1 0 [] one_block refl refl refl (omega arith) one_block-IsPool

blank-IsPdq : IsPdq 0 blank [] []
unfolding IsByPriority
blank-IsPdq = record {
  data_chain = refl;
  free_chain = refl;
  data_distinct = refl;
  free_distinct = refl;
  apart = λ m h. refl;
  below = λ m h. ground arith;
  count = refl;
  by_priority = omega arith;
}

enqueue_pridata_correct_example :
    (m : ℕ) × ((free : List ℕ) × Enqueued 0 7 3 m [] free blank (enqueue_pridata 0 7 3 blank))
enqueue_pridata_correct_example = enqueue_pridata_correct 0 7 3 [] [] blank blank-IsPdq

-- The tail is at the last word of the area, so that the message goes to its beginning.
abbrev at_end : Kernel
at_end = record blank { mbf = record (blank.mbf) { head = λ _. 20; tail = λ _. 20 } }

dequeue_message-store_message_example :
    let k = store_message 0 (7 ∷ 8 ∷ 9 ∷ []) at_end in
    ((dequeue_message 0 k).0 ≡ 7 ∷ 8 ∷ 9 ∷ [])
    × (((dequeue_message 0 k).1.mbf.head 0 ≡ k.mbf.tail 0)
        × (((dequeue_message 0 k).1.mbf.fmbfsz 0 ≡ at_end.mbf.fmbfsz 0)
            × ((dequeue_message 0 k).1.mbf.smbfcnt 0 ≡ at_end.mbf.smbfcnt 0)))
unfolding round_sz
dequeue_message-store_message_example =
    dequeue_message-store_message 0 (7 ∷ 8 ∷ 9 ∷ []) at_end refl (omega arith) (omega arith)
      (omega arith) (ground arith)
