-- ===== src/Pridataq.antt =====
-- kernel/pridataq.c: the management area of a priority data queue as a list of blocks in the order
-- of priorities, with a list of free blocks. The service calls are in Pridataq/Calls.
pub mod Calls
pub mod Sorted
pub mod Blocks
pub mod Entries
use toppers_hrp3_gr_rose.Common.{
  ℕ, zero, suc, ◌+◌, ◌-◌, Bool, true, false, Option, none, some, List, [], ◌∷◌, ltb, if◌then◌else◌,
  update,
}
use toppers_hrp3_gr_rose.Kernel.{
  Kernel, Pdqinib, pdq_swait_queue, pdq_rwait_queue, head?, queue_delete_next,
}
use toppers_hrp3_gr_rose.Wait.{wait_complete}

-- INDEX_PDQ.
abbrev pub index_pdq : ℕ → ℕ
index_pdq pdqid = pdqid - 1

abbrev pub pdqinib_of : ℕ → Kernel → Pdqinib
pdqinib_of i k = k.cfg.pdqinib i

-- The management area of a queue that is empty.
abbrev pub reset_pridataq : ℕ → Kernel → Kernel
reset_pridataq i k = record k {
  pdq = record (k.pdq) {
    count = update k.pdq.count i 0;
    p_head = update k.pdq.p_head i none;
    unused = update k.pdq.unused i 0;
    p_freelist = update k.pdq.p_freelist i none;
  };
}

-- The loop of initialize_pridataq, over the queues below `n`.
unfoldable initialize_pridataq : ℕ → Kernel → Kernel
initialize_pridataq zero k = k
initialize_pridataq (suc i) k = initialize_pridataq i (
    reset_pridataq i
      (record k { queue = update (update k.queue (pdq_swait_queue i) []) (pdq_rwait_queue i) [] }))

-- `*pp_prev_next`, where the pointer is to p_head (none) or to the p_next of a block.
unfoldable pub pointed : ℕ → Option ℕ → Kernel → Option ℕ
pointed i none k = k.pdq.p_head i
pointed i (some m) k = k.pdq.p_next i m

-- `*pp_prev_next = p`.
unfoldable pub set_pointed : ℕ → Option ℕ → Option ℕ → Kernel → Kernel
set_pointed i none p k = record k { pdq = record (k.pdq) { p_head = update k.pdq.p_head i p } }
set_pointed i (some m) p k = record k {
  pdq = record (k.pdq) { p_next = update k.pdq.p_next i (update (k.pdq.p_next i) m p) };
}

-- The loop of enqueue_pridata, with fuel.
unfoldable pub find_place : ℕ → ℕ → ℕ → Option ℕ → Kernel → Option ℕ
unfolding pointed
find_place zero i pri prev k = prev
find_place (suc fuel) i pri prev k = elim (pointed i prev k) [
  | none ↦ prev
  | some n ↦ elim (ltb pri (k.pdq.datapri i n)) [
    | true ↦ prev
    | false ↦ find_place fuel i pri (some n) k
  ]
]

-- The block that enqueue_pridata takes, and the queue without it.
unfoldable pub take_pdqmb : ℕ → Kernel → ℕ × Kernel
take_pdqmb i k = elim (k.pdq.p_freelist i) [
  | some m ↦ (
    m,
    record k { pdq = record (k.pdq) { p_freelist = update k.pdq.p_freelist i (k.pdq.p_next i m) } },
  )
  | none ↦ (
    k.pdq.unused i,
    record k { pdq = record (k.pdq) { unused = update k.pdq.unused i (k.pdq.unused i + 1) } },
  )
]

-- The datum and its priority go to the block.
unfoldable pub fill_pdqmb : ℕ → ℕ → ℕ → ℕ → Kernel → Kernel
fill_pdqmb i m datum pri k = record k {
  pdq = record (k.pdq) {
    datum = update k.pdq.datum i (update (k.pdq.datum i) m datum);
    datapri = update k.pdq.datapri i (update (k.pdq.datapri i) m pri);
  };
}

-- `p_pdqmb->p_next = p_next; *pp_prev_next = p_pdqmb;` at the place that the loop found.
unfoldable pub link_pdqmb : ℕ → ℕ → Option ℕ → Kernel → Kernel
unfolding set_pointed pointed
link_pdqmb i m prev k = set_pointed i prev (some m) (set_pointed i (some m) (pointed i prev k) k)

-- The queue links `count` blocks, so that is fuel enough.
unfoldable pub enqueue_pridata : ℕ → ℕ → ℕ → Kernel → Kernel
unfolding find_place take_pdqmb fill_pdqmb link_pdqmb
enqueue_pridata i datum pri k =
    let (m, k1) = take_pdqmb i k in
    let k2 = fill_pdqmb i m datum pri k1 in
    let k3 = link_pdqmb i m (find_place (k2.pdq.count i) i pri none k2) k2 in
    record k3 { pdq = record (k3.pdq) { count = update k3.pdq.count i (k3.pdq.count i + 1) } }

-- The first block, which the caller has seen to be there, goes to the list of free blocks.
unfoldable pub dequeue_pridata : ℕ → ℕ → Kernel → Kernel
dequeue_pridata i m k = record k {
  pdq = record (k.pdq) {
    p_head = update k.pdq.p_head i (k.pdq.p_next i m);
    count = update k.pdq.count i (k.pdq.count i - 1);
    p_next = update k.pdq.p_next i (update (k.pdq.p_next i) m (k.pdq.p_freelist i));
    p_freelist = update k.pdq.p_freelist i (some m);
  };
}

-- The first task that waits to receive takes the datum.
unfoldable pub hand_over_pridata : ℕ → ℕ → ℕ → ℕ → Kernel → Kernel
hand_over_pridata i t datum pri k =
    let k1 = queue_delete_next (pdq_rwait_queue i) k in
    wait_complete t
      (record k1 { wdata = update k1.wdata t datum; wdatapri = update k1.wdatapri t pri })

unfoldable pub send_pridata : ℕ → ℕ → ℕ → Kernel → Bool × Kernel
unfolding enqueue_pridata hand_over_pridata
send_pridata i datum pri k = elim (head? (k.queue (pdq_rwait_queue i))) [
  | some t ↦ (true, hand_over_pridata i t datum pri k)
  | none ↦
      if ltb (k.pdq.count i) (pdqinib_of i k).pdqcnt
      then (true, enqueue_pridata i datum pri k)
      else (false, k)
]

-- The first task that waits to send, after a block has become free.
unfoldable pub refill_pridata : ℕ → Kernel → Kernel
unfolding enqueue_pridata
refill_pridata i k = elim (head? (k.queue (pdq_swait_queue i))) [
  | none ↦ k
  | some t ↦
      let k1 = queue_delete_next (pdq_swait_queue i) k in
      wait_complete t (enqueue_pridata i (k1.wdata t) (k1.wdatapri t) k1)
]

-- What receive_pridata stores through p_data and p_datapri, where it returns true. The head of a
-- queue with a count is not NULL: the branch of it has no counterpart in the code.
unfoldable pub receive_pridata : ℕ → Kernel → Option (ℕ × ℕ) × Kernel
unfolding dequeue_pridata refill_pridata
receive_pridata i k =
    if ltb 0 (k.pdq.count i)
    then elim (k.pdq.p_head i) [
      | none ↦ (none, k)
      | some m ↦
          (some (k.pdq.datum i m, k.pdq.datapri i m), refill_pridata i (dequeue_pridata i m k))
    ]
    else elim (head? (k.queue (pdq_swait_queue i))) [
      | some t ↦
          let k1 = queue_delete_next (pdq_swait_queue i) k in
          (some (k1.wdata t, k1.wdatapri t), wait_complete t k1)
      | none ↦ (none, k)
    ]
