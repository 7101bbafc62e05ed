-- ===== src/Dataqueue.antt =====
-- kernel/dataqueue.c: the data queue management area as a ring buffer, and the functions that
-- send and receive. The service calls are in Dataqueue/Calls.
pub mod Ring
pub mod Fifo
pub mod Calls
use toppers_hrp3_gr_rose.Common.{
  ℕ, zero, suc, ◌+◌, ◌-◌, Bool, true, false, Option, none, some, List, [], ◌∷◌, ltb, leb,
  if◌then◌else◌, update,
}
use toppers_hrp3_gr_rose.Kernel.{
  Kernel, Dtqinib, dtq_swait_queue, dtq_rwait_queue, head?, queue_delete_next,
}
use toppers_hrp3_gr_rose.Wait.{wait_complete}

-- INDEX_DTQ.
abbrev pub index_dtq : ℕ → ℕ
index_dtq dtqid = dtqid - 1

abbrev pub dtqinib_of : ℕ → Kernel → Dtqinib
dtqinib_of i k = k.cfg.dtqinib i

-- The loop of initialize_dataqueue, over the datum queues below `n`.
unfoldable initialize_dataqueue : ℕ → Kernel → Kernel
initialize_dataqueue zero k = k
initialize_dataqueue (suc i) k = initialize_dataqueue i (record k {
  queue = update (update k.queue (dtq_swait_queue i) []) (dtq_rwait_queue i) [];
  dtq_count = update k.dtq_count i 0;
  dtq_head = update k.dtq_head i 0;
  dtq_tail = update k.dtq_tail i 0;
})

-- `n++; if (n >= dtqcnt) n = 0;`
abbrev pub advance_index : ℕ → ℕ → ℕ
advance_index dtqcnt n = if leb dtqcnt (n + 1) then 0 else n + 1

unfoldable pub enqueue_data : ℕ → ℕ → Kernel → Kernel
enqueue_data i datum k = record k {
  dtqmb = update k.dtqmb i (update (k.dtqmb i) (k.dtq_tail i) datum);
  dtq_count = update k.dtq_count i (k.dtq_count i + 1);
  dtq_tail = update k.dtq_tail i (advance_index (dtqinib_of i k).dtqcnt (k.dtq_tail i));
}

unfoldable pub force_enqueue_data : ℕ → ℕ → Kernel → Kernel
force_enqueue_data i datum k =
    let tail = advance_index (dtqinib_of i k).dtqcnt (k.dtq_tail i) in
    let k1 = record k {
      dtqmb = update k.dtqmb i (update (k.dtqmb i) (k.dtq_tail i) datum);
      dtq_tail = update k.dtq_tail i tail;
    } in
    if ltb (k.dtq_count i) (dtqinib_of i k).dtqcnt
    then record k1 { dtq_count = update k.dtq_count i (k.dtq_count i + 1) }
    else record k1 { dtq_head = update k.dtq_head i tail }

-- The datum that goes to `*p_data`, and the queue without it.
unfoldable pub dequeue_data : ℕ → Kernel → ℕ × Kernel
dequeue_data i k = (
  k.dtqmb i (k.dtq_head i),
  record k {
    dtq_count = update k.dtq_count i (k.dtq_count i - 1);
    dtq_head = update k.dtq_head i (advance_index (dtqinib_of i k).dtqcnt (k.dtq_head i));
  },
)

-- The first task that waits to receive takes the datum.
unfoldable pub hand_over : ℕ → ℕ → ℕ → Kernel → Kernel
unfolding queue_delete_next wait_complete
hand_over i t datum k =
    let k1 = queue_delete_next (dtq_rwait_queue i) k in
    wait_complete t (record k1 { wdata = update k1.wdata t datum })

unfoldable pub send_data : ℕ → ℕ → Kernel → Bool × Kernel
unfolding enqueue_data
send_data i datum k = elim (head? (k.queue (dtq_rwait_queue i))) [
  | some t ↦ (true, hand_over i t datum k)
  | none ↦
      if ltb (k.dtq_count i) (dtqinib_of i k).dtqcnt
      then (true, enqueue_data i datum k)
      else (false, k)
]

unfoldable pub force_send_data : ℕ → ℕ → Kernel → Kernel
unfolding force_enqueue_data
force_send_data i datum k = elim (head? (k.queue (dtq_rwait_queue i))) [
  | some t ↦ hand_over i t datum k
  | none ↦ force_enqueue_data i datum k
]

-- What receive_data stores through p_data, where it returns true.
unfoldable pub receive_data : ℕ → Kernel → Option ℕ × Kernel
unfolding dequeue_data enqueue_data
receive_data i k =
    if ltb 0 (k.dtq_count i)
    then (let (datum, k1) = dequeue_data i k in
        (
          some datum,
          elim (head? (k1.queue (dtq_swait_queue i))) [
            | none ↦ k1
            | some t ↦
                let k2 = queue_delete_next (dtq_swait_queue i) k1 in
                wait_complete t (enqueue_data i (k2.wdata t) k2)
          ],
        ))
    else elim (head? (k.queue (dtq_swait_queue i))) [
      | some t ↦
          let k1 = queue_delete_next (dtq_swait_queue i) k in
          (some (k1.wdata t), wait_complete t k1)
      | none ↦ (none, k)
    ]
