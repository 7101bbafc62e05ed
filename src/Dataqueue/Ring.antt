-- ===== src/Dataqueue/Ring.antt =====
-- The ring buffer of kernel/dataqueue.c against the list of data that it holds, oldest first.
use toppers_hrp3_gr_rose.Common.{
  ℕ, ◌+◌, ◌-◌, ◌≤◌, ◌<◌, ◌≡◌, List, [], ◌∷◌, ◌++◌, arith, ltb, if◌then◌else◌, update, ring_list,
  wrap, ring_list-update, ring_list_snoc, ring_list_first, full_ring,
}
use toppers_hrp3_gr_rose.Kernel.{Kernel, tail}
use toppers_hrp3_gr_rose.Dataqueue.{
  advance_index, dtqinib_of, enqueue_data, force_enqueue_data, dequeue_data,
}

-- The data of a data queue.
unfoldable pub contents : ℕ → Kernel → List ℕ
contents i k = ring_list (k.dtqmb i) (dtqinib_of i k).dtqcnt (k.dtq_head i) (k.dtq_count i)

-- The indices of a data queue are consistent.
pub record IsRing (i : ℕ) (k : Kernel) : Type 0 where
  pub count_le : k.dtq_count i ≤ (dtqinib_of i k).dtqcnt
  pub head_lt : 0 < (dtqinib_of i k).dtqcnt → k.dtq_head i < (dtqinib_of i k).dtqcnt
  pub tail_at :
      0 < (dtqinib_of i k).dtqcnt
      → k.dtq_tail i ≡ wrap (dtqinib_of i k).dtqcnt (k.dtq_head i + k.dtq_count i)

module _ (i d : ℕ) (k : Kernel) (v : IsRing i k) where
  -- With consistent indices and while there is room, enqueue_data appends the datum to the data of
  -- the queue and keeps the indices consistent.
  pub enqueue_data_correct :
      k.dtq_count i < (dtqinib_of i k).dtqcnt
      → (contents i (enqueue_data i d k) ≡ contents i k ++ d ∷ []) × IsRing i (enqueue_data i d k)
  unfolding enqueue_data contents
  enqueue_data_correct room =
      let n = (dtqinib_of i k).dtqcnt in
      let mb = update (k.dtqmb i) (k.dtq_tail i) d in
      (
        ground (
          arith,
          v.head_lt,
          v.tail_at,
          ring_list_snoc mb n (k.dtq_head i) (k.dtq_count i),
          ring_list-update (k.dtqmb i) n (k.dtq_head i) (k.dtq_count i) (k.dtq_tail i) d,
        ),
        record {
          count_le = ground arith;
          head_lt = λ pos. ground (arith, v.head_lt);
          tail_at = λ pos. ground (arith, v.head_lt, v.tail_at);
        },
      )

  -- With consistent indices and while data is there, dequeue_data gives the oldest datum, leaves
  -- the others, and keeps the indices consistent.
  pub dequeue_data_correct :
      0 < k.dtq_count i
      → (contents i k ≡ (dequeue_data i k).0 ∷ contents i (dequeue_data i k).1)
        × IsRing i (dequeue_data i k).1
  unfolding dequeue_data contents
  dequeue_data_correct some_data =
      let n = (dtqinib_of i k).dtqcnt in
      (
        ground (arith, ring_list_first (k.dtqmb i) n (k.dtq_head i) (k.dtq_count i)),
        record {
          count_le = ground (arith, v.count_le);
          head_lt = λ pos. ground (arith, v.head_lt);
          tail_at = λ pos. ground (arith, v.count_le, v.head_lt, v.tail_at);
        },
      )

  -- In an area of at least one place, with consistent indices, force_enqueue_data appends the
  -- datum, drops the oldest datum where the area is full, and keeps the indices consistent.
  pub force_enqueue_data_correct :
      0 < (dtqinib_of i k).dtqcnt
      → (contents i (force_enqueue_data i d k)
          ≡ (if ltb (k.dtq_count i) (dtqinib_of i k).dtqcnt
              then contents i k
              else tail (contents i k))
            ++ d ∷ [])
        × IsRing i (force_enqueue_data i d k)
  unfolding force_enqueue_data contents
  force_enqueue_data_correct place =
      let n = (dtqinib_of i k).dtqcnt in
      let h = k.dtq_head i in
      let c = k.dtq_count i in
      (
        ground (
          arith,
          v.count_le,
          v.head_lt,
          v.tail_at,
          ring_list_snoc (update (k.dtqmb i) (k.dtq_tail i) d) n h c,
          ring_list-update (k.dtqmb i) n h c (k.dtq_tail i) d,
          ring_list_first (k.dtqmb i) n h c,
          full_ring (update (k.dtqmb i) (k.dtq_tail i) d) n h,
          ring_list-update (k.dtqmb i) n (advance_index n h) (n - 1) h d,
        ),
        record {
          count_le = ground (arith, v.count_le);
          head_lt = λ pos. ground (arith, v.head_lt, v.tail_at);
          tail_at = λ pos. ground (arith, v.count_le, v.head_lt, v.tail_at);
        },
      )
