-- ===== src/System/PridataMoves.antt =====
-- The functions of kernel/pridataq.c that send and receive, over sound kernels.
use toppers_hrp3_gr_rose.Common.{
  ℕ, ◌≡◌, refl, sym, ap, ◌∙◌, has, inl, inr, Bool, Option, none, some, arith, ltb, if-both,
  Option-cases,
}
use toppers_hrp3_gr_rose.Kernel.{
  Kernel, head?, queue_delete_next, e_ok, pdq_swait_queue, pdq_rwait_queue,
}
use toppers_hrp3_gr_rose.Wait.{wait_complete}
use toppers_hrp3_gr_rose.Pridataq.{
  pdqinib_of, set_pointed, pointed, find_place, take_pdqmb, fill_pdqmb, link_pdqmb, enqueue_pridata,
  dequeue_pridata, hand_over_pridata, send_pridata, refill_pridata, receive_pridata,
}
use toppers_hrp3_gr_rose.System.Moves.{
  IsSound, first-not_runnable, first-IsSound, first-IsFree, end_wait-IsSound,
}
use toppers_hrp3_gr_rose.System.Releases.{release-IsSound}
use toppers_hrp3_gr_rose.System.Steady.{Core, core, core-IsSound}
use toppers_hrp3_gr_rose.System.Transfers.{IsTried, is_some}

-- The management area is none of what the invariant reads.
set_pointed-core : (i : ℕ) (prev p : Option ℕ) (k : Kernel) → core (set_pointed i prev p k) ≡ core k
unfolding set_pointed
set_pointed-core i none p k = refl
set_pointed-core i (some m) p k = refl

take_pdqmb-core : (i : ℕ) (k : Kernel) → core (take_pdqmb i k).1 ≡ core k
unfolding take_pdqmb
take_pdqmb-core i k = elim (Option-cases (k.pdq.p_freelist i)) [
  | inl e ↦ rw (e, take_pdqmb) refl
  | inr (m, e) ↦ rw (e, take_pdqmb) refl
]

link_pdqmb-core : (i m : ℕ) (prev : Option ℕ) (k : Kernel) → core (link_pdqmb i m prev k) ≡ core k
unfolding link_pdqmb
link_pdqmb-core i m prev k =
    set_pointed-core i prev (some m) (set_pointed i (some m) (pointed i prev k) k)
    ∙ set_pointed-core i (some m) (pointed i prev k) k

enqueue_pridata-core : (i d pri : ℕ) (k : Kernel) → core (enqueue_pridata i d pri k) ≡ core k
unfolding enqueue_pridata fill_pdqmb
enqueue_pridata-core i d pri k =
    let (m, k1) = take_pdqmb i k in
    let k2 = fill_pdqmb i m d pri k1 in
    link_pdqmb-core i m (find_place (k2.pdq.count i) i pri none k2) k2 ∙ take_pdqmb-core i k

enqueue_pridata-IsSound :
    (k : Kernel) (i d pri : ℕ) → IsSound k → IsSound (enqueue_pridata i d pri k)
enqueue_pridata-IsSound k i d pri s = core-IsSound k _ (sym (enqueue_pridata-core i d pri k)) s

module _ (k : Kernel) (i : ℕ) (s : IsSound k) where
  hand_over_pridata-IsSound :
      (t d pri : ℕ)
      → head? (k.queue (pdq_rwait_queue i)) ≡ some t
      → IsSound (hand_over_pridata i t d pri k)
  unfolding hand_over_pridata wait_complete queue_delete_next
  hand_over_pridata-IsSound t d pri e =
      let q = pdq_rwait_queue i in
      end_wait-IsSound (record (queue_delete_next q k) { wdata = _; wdatapri = _ }) t e_ok
        (core-IsSound (queue_delete_next q k) _ refl (first-IsSound k q (omega arith) s))
        (first-IsFree k q t s e) (first-not_runnable k q t s (omega arith) e)

  pub send_pridata-IsTried :
      (d pri : ℕ) → IsTried k (send_pridata i d pri k).0 (send_pridata i d pri k).1
  unfolding send_pridata
  send_pridata-IsTried d pri = elim (Option-cases (head? (k.queue (pdq_rwait_queue i)))) [
    | inr (t, e) ↦
        rw (e, send_pridata)
          (record { sound = hand_over_pridata-IsSound t d pri e; failed = λ f. ground arith })
    | inl e ↦
        rw (e, send_pridata)
          (if-both (λ (r : Bool × Kernel). IsTried k r.0 r.1)
            (ltb (k.pdq.count i) (pdqinib_of i k).pdqcnt)
            (record { sound = enqueue_pridata-IsSound k i d pri s; failed = λ f. ground arith })
            (record { sound = s; failed = λ _. refl }))
  ]

  refill_pridata-IsSound : IsSound (refill_pridata i k)
  unfolding refill_pridata wait_complete queue_delete_next
  refill_pridata-IsSound = elim (Option-cases (head? (k.queue (pdq_swait_queue i)))) [
    | inl e ↦ rw (e, refill_pridata) s
    | inr (t, e) ↦
        let q = pdq_swait_queue i in
        let k1 = queue_delete_next q k in
        let k2 = enqueue_pridata i (k1.wdata t) (k1.wdatapri t) k1 in
        let same : core k1 ≡ core k2 =
          sym (enqueue_pridata-core i (k1.wdata t) (k1.wdatapri t) k1) in
        rw (e, refill_pridata)
          (end_wait-IsSound k2 t e_ok (core-IsSound k1 k2 same (first-IsSound k q (omega arith) s))
            (λ r. ap (λ (c : Core). has t (c.queue r)) (sym same) ∙ first-IsFree k q t s e r)
            (λ h.
              first-not_runnable k q t s (omega arith) e (ap (λ (c : Core). c.tstat t) same ∙ h)))
  ]

pub receive_pridata-IsTried :
    (k : Kernel) (i : ℕ)
    → IsSound k
    → IsTried k (is_some (receive_pridata i k).0) (receive_pridata i k).1
unfolding receive_pridata dequeue_pridata is_some
receive_pridata-IsTried k i s =
    if-both (λ (r : Option (ℕ × ℕ) × Kernel). IsTried k (is_some r.0) r.1) (ltb 0 (k.pdq.count i))
      (elim (Option-cases (k.pdq.p_head i)) [
        | inl e ↦ rw e (record { sound = s; failed = λ _. refl })
        | inr (m, e) ↦ rw e (record {
          sound = refill_pridata-IsSound (dequeue_pridata i m k) i (core-IsSound k _ refl s);
          failed = λ f. ground arith;
        })
      ])
      (elim (Option-cases (head? (k.queue (pdq_swait_queue i)))) [
        | inl e ↦ rw e (record { sound = s; failed = λ _. refl })
        | inr (t, e) ↦ rw e (record {
          sound = release-IsSound k (pdq_swait_queue i) t (omega arith) s e;
          failed = λ f. ground arith;
        })
      ])
