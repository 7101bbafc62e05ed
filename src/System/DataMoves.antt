-- ===== src/System/DataMoves.antt =====
-- The functions of kernel/dataqueue.c that send and receive, over sound kernels.
use toppers_hrp3_gr_rose.Common.{
  ℕ, ◌≡◌, refl, inl, inr, Bool, Option, none, some, arith, ltb, if-both, Option-cases,
}
use toppers_hrp3_gr_rose.Kernel.{
  Kernel, head?, queue_delete_next, e_ok, dtq_swait_queue, dtq_rwait_queue,
}
use toppers_hrp3_gr_rose.Wait.{wait_complete}
use toppers_hrp3_gr_rose.Dataqueue.{
  dtqinib_of, enqueue_data, force_enqueue_data, dequeue_data, hand_over, send_data, force_send_data,
  receive_data,
}
use toppers_hrp3_gr_rose.System.Moves.{
  IsSound, first-not_runnable, first-IsSound, first-IsFree, end_wait-IsSound,
}
use toppers_hrp3_gr_rose.System.Releases.{release-IsSound}
use toppers_hrp3_gr_rose.System.Steady.{core-IsSound}
use toppers_hrp3_gr_rose.System.Transfers.{IsTried, is_some}

module _ (k : Kernel) (i : ℕ) (s : IsSound k) where
  hand_over-IsSound :
      (t d : ℕ) → head? (k.queue (dtq_rwait_queue i)) ≡ some t → IsSound (hand_over i t d k)
  unfolding hand_over wait_complete queue_delete_next
  hand_over-IsSound t d e =
      let q = dtq_rwait_queue i in
      end_wait-IsSound (record (queue_delete_next q k) { wdata = _ }) t e_ok
        (core-IsSound (queue_delete_next q k) _ refl (first-IsSound k q (omega arith) s))
        (first-IsFree k q t s e) (first-not_runnable k q t s (omega arith) e)

  pub send_data-IsTried : (d : ℕ) → IsTried k (send_data i d k).0 (send_data i d k).1
  unfolding send_data enqueue_data
  send_data-IsTried d = elim (Option-cases (head? (k.queue (dtq_rwait_queue i)))) [
    | inr (t, e) ↦
        rw (e, send_data) (record { sound = hand_over-IsSound t d e; failed = λ f. ground arith })
    | inl e ↦
        rw (e, send_data)
          (if-both (λ (r : Bool × Kernel). IsTried k r.0 r.1)
            (ltb (k.dtq_count i) (dtqinib_of i k).dtqcnt)
            (record { sound = core-IsSound k _ refl s; failed = λ f. ground arith })
            (record { sound = s; failed = λ _. refl }))
  ]

  pub force_send_data-IsSound : (d : ℕ) → IsSound (force_send_data i d k)
  unfolding force_send_data force_enqueue_data
  force_send_data-IsSound d = elim (Option-cases (head? (k.queue (dtq_rwait_queue i)))) [
    | inr (t, e) ↦ rw (e, force_send_data) (hand_over-IsSound t d e)
    | inl e ↦
        rw (e, force_send_data)
          (if-both IsSound (ltb (k.dtq_count i) (dtqinib_of i k).dtqcnt) (core-IsSound k _ refl s)
            (core-IsSound k _ refl s))
  ]

  -- The datum has left the area, and the first task that waits to send fills its place.
  refill-IsSound :
      (k1 : Kernel)
      → IsSound k1
      → IsSound (elim (head? (k1.queue (dtq_swait_queue i))) [
        | none ↦ k1
        | some t ↦
            let k2 = queue_delete_next (dtq_swait_queue i) k1 in
            wait_complete t (enqueue_data i (k2.wdata t) k2)
      ])
  unfolding wait_complete queue_delete_next enqueue_data
  refill-IsSound k1 s1 = elim (Option-cases (head? (k1.queue (dtq_swait_queue i)))) [
    | inl e ↦ rw e s1
    | inr (t, e) ↦
        let q = dtq_swait_queue i in
        let k2 = queue_delete_next q k1 in
        rw e (
          end_wait-IsSound (enqueue_data i (k2.wdata t) k2) t e_ok
            (core-IsSound k2 (enqueue_data i (k2.wdata t) k2) refl
              (first-IsSound k1 q (omega arith) s1))
            (first-IsFree k1 q t s1 e) (first-not_runnable k1 q t s1 (omega arith) e))
  ]

  pub receive_data-IsTried : IsTried k (is_some (receive_data i k).0) (receive_data i k).1
  unfolding receive_data dequeue_data is_some wait_complete
  receive_data-IsTried =
      if-both (λ (r : Option ℕ × Kernel). IsTried k (is_some r.0) r.1) (ltb 0 (k.dtq_count i))
        (record {
          sound = refill-IsSound (dequeue_data i k).1 (core-IsSound k _ refl s);
          failed = λ f. ground arith;
        })
        (elim (Option-cases (head? (k.queue (dtq_swait_queue i)))) [
          | inl e ↦ rw e (record { sound = s; failed = λ _. refl })
          | inr (t, e) ↦ rw e (record {
            sound = release-IsSound k (dtq_swait_queue i) t (omega arith) s e;
            failed = λ f. ground arith;
          })
        ])
