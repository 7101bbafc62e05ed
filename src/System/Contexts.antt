-- ===== src/System/Contexts.antt =====
-- Whether an interrupt handler runs, at the end of a wait with its time.
use toppers_hrp3_gr_rose.Common.{
  ℕ, zero, suc, ◌≡◌, refl, ◌∙◌, inl, inr, arith, length, leb, ◌==◌, if-both, Bool-cases,
  Option-cases,
}
use toppers_hrp3_gr_rose.Kernel.{
  Kernel, head?, queue_delete, tstat_suspended, tstat_wait_wobj, mbf_swait_queue, without_suspended,
  ts_waiting_smbf, e_ok, e_tmout,
}
use toppers_hrp3_gr_rose.Task.{make_runnable}
use toppers_hrp3_gr_rose.Wait.{
  wait_complete, wait_dequeue_tmevtb, wait_dequeue_wobj, wait_tmout, wait_tmout_ok, make_non_wait,
  set_wercd,
}
use toppers_hrp3_gr_rose.Messagebuf.{
  alloc_sz, store_message, signal_loop, messagebuf_signal, messagebuf_dequeue_wobj, p_mbfcb,
}

-- Whether a handler runs is not changed by the end of a wait.
make_non_wait-context :
    (k : Kernel) (t : ℕ) → (make_non_wait t k).nontask_context ≡ k.nontask_context
unfolding make_non_wait make_runnable
make_non_wait-context k t =
    if-both (λ (k' : Kernel). k'.nontask_context ≡ k.nontask_context) (tstat_suspended (k.tstat t))
      refl (ground arith)

signal_loop-context :
    (fuel i : ℕ) (k : Kernel) → (signal_loop fuel i k).nontask_context ≡ k.nontask_context
unfolding signal_loop wait_complete wait_dequeue_tmevtb store_message queue_delete
signal_loop-context zero i k = refl
signal_loop-context (suc fuel) i k = elim (Option-cases (head? (k.queue (mbf_swait_queue i)))) [
  | inl e ↦ rw (e, signal_loop) refl
  | inr (u, e) ↦ elim (Bool-cases (leb (alloc_sz (length (k.wmsg u))) (k.mbf.fmbfsz i))) [
    | inr full ↦ rw (e, full, signal_loop) refl
    | inl room ↦
        let k1 = queue_delete u (store_message i (k.wmsg u) k) in
        rw (e, room, signal_loop)
          (signal_loop-context fuel i (wait_complete u k1)
            ∙ make_non_wait-context (set_wercd u e_ok (wait_dequeue_tmevtb u k1)) u)
  ]
]

dequeued-context :
    (k : Kernel) (t : ℕ)
    → (wait_dequeue_wobj messagebuf_dequeue_wobj t k).nontask_context ≡ k.nontask_context
unfolding wait_dequeue_wobj messagebuf_dequeue_wobj messagebuf_signal queue_delete
dequeued-context k t =
    let Same = λ (k' : Kernel). k'.nontask_context ≡ k.nontask_context in
    let k1 = queue_delete t k in
    if-both Same (tstat_wait_wobj (k.tstat t))
      (if-both Same (without_suspended (k.tstat t) == ts_waiting_smbf)
        (signal_loop-context (length (k1.queue (mbf_swait_queue (p_mbfcb t k1)))) (p_mbfcb t k1) k1)
        refl)
      refl

pub wait_tmout-context :
    (k : Kernel) (t : ℕ)
    → (wait_tmout messagebuf_dequeue_wobj t k).nontask_context ≡ k.nontask_context
unfolding wait_tmout
wait_tmout-context k t =
    make_non_wait-context (set_wercd t e_tmout (wait_dequeue_wobj messagebuf_dequeue_wobj t k)) t
    ∙ dequeued-context k t

pub wait_tmout_ok-context :
    (k : Kernel) (t : ℕ) → (wait_tmout_ok t k).nontask_context ≡ k.nontask_context
unfolding wait_tmout_ok
wait_tmout_ok-context k t = make_non_wait-context (set_wercd t e_ok k) t
