-- ===== src/Dataqueue/Fifo.antt =====
-- send_data and receive_data of kernel/dataqueue.c against a list of data.
use toppers_hrp3_gr_rose.Common.{
  ring_list, ℕ, ◌<◌, ◌≡◌, refl, ap, ◌∙◌, inl, inr, true, none, some, List, [], ◌∷◌, ◌++◌, arith,
  ltb, update, if◌then◌else◌, if-both, Bool-cases,
}
use toppers_hrp3_gr_rose.Kernel.{
  Kernel, wercd, e_ok, dtq_swait_queue, dtq_rwait_queue, head?, queue_delete_next, tstat_suspended,
  ts_runnable,
}
use toppers_hrp3_gr_rose.Task.{make_runnable}
use toppers_hrp3_gr_rose.Wait.{
  make_non_wait, wait_complete, wait_dequeue_tmevtb, set_tstat, set_wercd,
}
use toppers_hrp3_gr_rose.Wait.Queue.{make_non_wait-winfo}
use toppers_hrp3_gr_rose.Dataqueue.{
  dtqinib_of, enqueue_data, dequeue_data, hand_over, send_data, receive_data,
}
use toppers_hrp3_gr_rose.Dataqueue.Ring.{
  contents, IsRing, enqueue_data_correct, dequeue_data_correct,
}

-- The variables of the data queues, which waiting and waking leave alone.
record Dtqcbs : Type 0 where
  count : ℕ → ℕ
  head : ℕ → ℕ
  tail : ℕ → ℕ
  dtqmb : ℕ → ℕ → ℕ
  dtqcnt : ℕ → ℕ

abbrev dtqcbs : Kernel → Dtqcbs
dtqcbs k = record {
  count = k.dtq_count;
  head = k.dtq_head;
  tail = k.dtq_tail;
  dtqmb = k.dtqmb;
  dtqcnt = λ i. (k.cfg.dtqinib i).dtqcnt;
}

make_runnable-dtqcbs : (k : Kernel) (t : ℕ) → dtqcbs (make_runnable t k) ≡ dtqcbs k
unfolding make_runnable
make_runnable-dtqcbs k t = ground arith

make_non_wait-dtqcbs : (k : Kernel) (t : ℕ) → dtqcbs (make_non_wait t k) ≡ dtqcbs k
unfolding make_non_wait
make_non_wait-dtqcbs k t =
    if-both (λ (k' : Kernel). dtqcbs k' ≡ dtqcbs k) (tstat_suspended (k.tstat t)) refl
      (make_runnable-dtqcbs (set_tstat t ts_runnable k) t)

make_non_wait-wdata : (k : Kernel) (t u : ℕ) → (make_non_wait t k).wdata u ≡ k.wdata u
unfolding make_non_wait make_runnable
make_non_wait-wdata k t u =
    if-both (λ (k' : Kernel). k'.wdata u ≡ k.wdata u) (tstat_suspended (k.tstat t)) refl
      (ground arith)

wait_complete-dtqcbs : (k : Kernel) (t : ℕ) → dtqcbs (wait_complete t k) ≡ dtqcbs k
unfolding wait_complete wait_dequeue_tmevtb
wait_complete-dtqcbs k t = make_non_wait-dtqcbs (set_wercd t e_ok (wait_dequeue_tmevtb t k)) t

wait_complete-results :
    (k : Kernel) (t : ℕ)
    → ((wait_complete t k).winfo t ≡ wercd e_ok) × ((wait_complete t k).wdata t ≡ k.wdata t)
unfolding wait_complete wait_dequeue_tmevtb
wait_complete-results k t =
    let k1 = set_wercd t e_ok (wait_dequeue_tmevtb t k) in
    (make_non_wait-winfo k1 t t ∙ ground arith, make_non_wait-wdata k1 t t)

ring_of : ℕ → Dtqcbs → List ℕ
ring_of i c = ring_list (c.dtqmb i) (c.dtqcnt i) (c.head i) (c.count i)

contents_cong : (k k' : Kernel) (i : ℕ) → dtqcbs k' ≡ dtqcbs k → contents i k' ≡ contents i k
unfolding contents ring_of
contents_cong k k' i e = ap (ring_of i) e

IsRing-cong : (k k' : Kernel) (i : ℕ) → dtqcbs k' ≡ dtqcbs k → IsRing i k → IsRing i k'
IsRing-cong k k' i e v =
    let count : k'.dtq_count i ≡ k.dtq_count i = ap (λ (c : Dtqcbs). c.count i) e in
    let head : k'.dtq_head i ≡ k.dtq_head i = ap (λ (c : Dtqcbs). c.head i) e in
    let tail : k'.dtq_tail i ≡ k.dtq_tail i = ap (λ (c : Dtqcbs). c.tail i) e in
    let size : (dtqinib_of i k').dtqcnt ≡ (dtqinib_of i k).dtqcnt =
      ap (λ (c : Dtqcbs). c.dtqcnt i) e in
    record {
      count_le = ground (arith, v.count_le);
      head_lt = λ h. ground (arith, v.head_lt);
      tail_at = λ h. ground (arith, v.tail_at);
    }

-- The data of the queue are consistent and are these.
abbrev pub Holds : ℕ → Kernel → List ℕ → Type 0
Holds i k ds = (contents i k ≡ ds) × IsRing i k

Holds-cong :
    (k k' : Kernel) (i : ℕ) (ds : List ℕ) → dtqcbs k' ≡ dtqcbs k → Holds i k ds → Holds i k' ds
Holds-cong k k' i ds e v = (contents_cong k k' i e ∙ v.0, IsRing-cong k k' i e v.1)

-- Where the indices are consistent and no task waits to receive, send_data appends the datum to
-- the data of the queue and returns true, or leaves the data alone and returns false where the
-- area is full; the indices stay consistent.
pub send_data_fifo :
    (i d : ℕ) (k : Kernel)
    → IsRing i k
    → head? (k.queue (dtq_rwait_queue i)) ≡ none
    → let room = ltb (k.dtq_count i) (dtqinib_of i k).dtqcnt in
      ((send_data i d k).0 ≡ room)
      × Holds i (send_data i d k).1 (if room then contents i k ++ d ∷ [] else contents i k)
unfolding send_data
send_data_fifo i d k v nobody =
    rw (nobody, send_data)
      (elim (Bool-cases (ltb (k.dtq_count i) (dtqinib_of i k).dtqcnt)) [
        | inl room ↦ rw room (refl, enqueue_data_correct i d k v (ground arith))
        | inr full ↦ rw full (refl, (refl, v))
      ])

hand_over_correct :
    (i d t : ℕ) (k : Kernel)
    → IsRing i k
    → Holds i (hand_over i t d k) (contents i k)
      × (((hand_over i t d k).winfo t ≡ wercd e_ok) × ((hand_over i t d k).wdata t ≡ d))
unfolding hand_over queue_delete_next
hand_over_correct i d t k v =
    let k1 = queue_delete_next (dtq_rwait_queue i) k in
    let k2 = record k1 { wdata = update k1.wdata t d } in
    let results = wait_complete-results k2 t in
    (
      Holds-cong k2 (wait_complete t k2) i _ (wait_complete-dtqcbs k2 t)
          (contents_cong k k2 i refl, IsRing-cong k k2 i refl v),
      (results.0, results.1 ∙ ground arith),
    )

-- Where the indices are consistent and a task waits to receive, send_data returns true and leaves
-- the data of the queue alone, and the first such task has the datum, with the result E_OK.
pub send_data_direct :
    (i d t : ℕ) (k : Kernel)
    → IsRing i k
    → head? (k.queue (dtq_rwait_queue i)) ≡ some t
    → ((send_data i d k).0 ≡ true)
      × (Holds i (send_data i d k).1 (contents i k)
          × (((send_data i d k).1.winfo t ≡ wercd e_ok) × ((send_data i d k).1.wdata t ≡ d)))
unfolding send_data
send_data_direct i d t k v first = rw (first, send_data) (refl, hand_over_correct i d t k v)

-- Where the indices are consistent, data is there and no task waits to send, receive_data gives
-- the oldest datum and leaves the others, and the indices stay consistent.
pub receive_data_fifo :
    (i : ℕ) (k : Kernel)
    → IsRing i k
    → 0 < k.dtq_count i
    → head? (k.queue (dtq_swait_queue i)) ≡ none
    → (d : ℕ) × ((ds : List ℕ) × ((contents i k ≡ d ∷ ds)
          × (((receive_data i k).0 ≡ some d) × Holds i (receive_data i k).1 ds)))
unfolding receive_data
receive_data_fifo i k v pos nobody =
    let taken = dequeue_data_correct i 0 k v pos in
    (
      (dequeue_data i k).0,
      (
        contents i (dequeue_data i k).1,
        (
          taken.0,
          rw (positive, receive_data) (refl, rw (nobody_after, receive_data) (refl, taken.1)),
        ),
      ),
    )
  where
    positive : ltb 0 (k.dtq_count i) ≡ true
    positive = ground arith

    nobody_after : head? ((dequeue_data i k).1.queue (dtq_swait_queue i)) ≡ none
    nobody_after = nobody

-- Where the indices are consistent, data is there and a task waits to send, receive_data gives the
-- oldest datum, appends the datum of the first such task to the others, and that task has the
-- result E_OK; the indices stay consistent.
pub receive_data_refill :
    (i t : ℕ) (k : Kernel)
    → IsRing i k
    → 0 < k.dtq_count i
    → head? (k.queue (dtq_swait_queue i)) ≡ some t
    → (d : ℕ) × ((ds : List ℕ) × ((contents i k ≡ d ∷ ds)
          × (((receive_data i k).0 ≡ some d)
              × (Holds i (receive_data i k).1 (ds ++ k.wdata t ∷ [])
                  × ((receive_data i k).1.winfo t ≡ wercd e_ok)))))
unfolding receive_data queue_delete_next
receive_data_refill i t k v pos first =
    let k1 = (dequeue_data i k).1 in
    let taken = dequeue_data_correct i 0 k v pos in
    let k2 = queue_delete_next (dtq_swait_queue i) k1 in
    let refilled = enqueue_data_correct i (k.wdata t) k2 (IsRing-cong k1 k2 i same taken.1) room in
    let k3 = enqueue_data i (k.wdata t) k2 in
    (
      (dequeue_data i k).0,
      (
        contents i k1,
        (
          taken.0,
          rw (positive, receive_data)
              (
                refl,
                rw (first_after, receive_data)
                    (
                      Holds-cong k3 (wait_complete t k3) i _ (wait_complete-dtqcbs k3 t) (
                        refilled.0
                            ∙ ap (λ (ds : List ℕ). ds ++ k.wdata t ∷ [])
                                (contents_cong k1 k2 i same),
                        refilled.1,
                      ),
                      (wait_complete-results k3 t).0,
                    ),
              ),
        ),
      ),
    )
  where
    positive : ltb 0 (k.dtq_count i) ≡ true
    positive = ground arith

    first_after : head? ((dequeue_data i k).1.queue (dtq_swait_queue i)) ≡ some t
    first_after = first

    same :
        dtqcbs (queue_delete_next (dtq_swait_queue i) (dequeue_data i k).1)
        ≡ dtqcbs (dequeue_data i k).1
    same = ground arith

    room :
        (queue_delete_next (dtq_swait_queue i) (dequeue_data i k).1).dtq_count i
        < (k.cfg.dtqinib i).dtqcnt
    room = ground (arith, v.count_le)
