-- ===== src/Notify/Callbacks.antt =====
-- What the callbacks of kernel/wait.c, kernel/messagebuf.c and kernel/alarm.c do to the events of the
-- kernel's heap.
use toppers_hrp3_gr_rose.Common.{
  ℕ, zero, suc, ◌≤◌, ◌≡◌, refl, ◌∙◌, inl, inr, Bool, true, false, arith, leb, ◌==◌, if-both,
  Bool-cases, Option-cases, none, some, length,
}
use toppers_hrp3_gr_rose.TimeEvent
use toppers_hrp3_gr_rose.TimeEvent.{
  Tmevt, Cback, call_cyclic, call_alarm, scyc_switch, tmevtb_dequeue, tmevt_heap_kernel,
  at_kernel_top, update_current_evttim, set_hrt_event, heap_store,
}
use toppers_hrp3_gr_rose.TimeEvent.Heap.Size.{tmevtb_delete-p_last}
use toppers_hrp3_gr_rose.Kernel.{
  Kernel, Winfo, wercd, p_tmevtb, head?, queue_delete, mbf_swait_queue, without_suspended,
  ts_waiting_smbf, tstat_wait_wobj,
}
use toppers_hrp3_gr_rose.Task.{make_runnable}
use toppers_hrp3_gr_rose.Wait
use toppers_hrp3_gr_rose.Wait.{
  make_non_wait, wait_complete, wait_dequeue_tmevtb, wait_dequeue_wobj, dequeue_pending, heap_of,
}
use toppers_hrp3_gr_rose.Messagebuf.{
  alloc_sz, store_message, signal_loop, messagebuf_signal, messagebuf_dequeue_wobj, p_mbfcb,
}
use toppers_hrp3_gr_rose.Notify.{run_callback, call_alarm_body}

-- No event is added to the kernel's heap, and every block keeps its callback.
pub record AddsNone (m m' : Tmevt) : Type 0 where
  pub fewer : m'.heap_last tmevt_heap_kernel ≤ m.heap_last tmevt_heap_kernel
  pub same : m'.callback ≡ m.callback

AddsNone-refl : (m : Tmevt) → AddsNone m m
AddsNone-refl m = record { fewer = omega arith; same = refl }

AddsNone-trans : (m m1 m2 : Tmevt) → AddsNone m m1 → AddsNone m1 m2 → AddsNone m m2
AddsNone-trans m m1 m2 a b = record {
  fewer = omega (arith, a.fewer, b.fewer);
  same = b.same ∙ a.same;
}

-- The callback is that of a task's wait or of an alarm notification, which does not register its
-- event again.
unfoldable pub one_shot : Cback → Bool
one_shot TimeEvent.wait_tmout = true
one_shot TimeEvent.wait_tmout_ok = true
one_shot call_alarm = true
one_shot call_cyclic = false
one_shot scyc_switch = false

tmevtb_dequeue-AddsNone : (b h : ℕ) (m : Tmevt) → AddsNone m (tmevtb_dequeue b h m)
unfolding tmevtb_dequeue set_hrt_event update_current_evttim
tmevtb_dequeue-AddsNone b h m =
    let one_less = tmevtb_delete-p_last m.boundary_evttim b (heap_store h m) in
    record { fewer = ground (arith, one_less); same = ground arith }

make_non_wait-tmevt : (k : Kernel) (t : ℕ) → (make_non_wait t k).tmevt ≡ k.tmevt
unfolding make_non_wait make_runnable
make_non_wait-tmevt k t = ground arith

wait_complete-AddsNone : (k : Kernel) (t : ℕ) → AddsNone k.tmevt (wait_complete t k).tmevt
unfolding wait_complete wait_dequeue_tmevtb dequeue_pending
wait_complete-AddsNone k t = rw (make_non_wait-tmevt _ t) (by_info (k.winfo t))
  where
    by_info : (w : Winfo) → AddsNone k.tmevt (dequeue_pending (heap_of t k) w k.tmevt)
    by_info (wercd e) = AddsNone-refl k.tmevt
    by_info (p_tmevtb none) = AddsNone-refl k.tmevt
    by_info (p_tmevtb (some b)) = tmevtb_dequeue-AddsNone b (heap_of t k) k.tmevt

signal_loop-AddsNone : (fuel i : ℕ) (k : Kernel) → AddsNone k.tmevt (signal_loop fuel i k).tmevt
unfolding signal_loop store_message queue_delete
signal_loop-AddsNone zero i k = AddsNone-refl k.tmevt
signal_loop-AddsNone (suc fuel) i k = elim (Option-cases (head? (k.queue (mbf_swait_queue i)))) [
  | inl e ↦ rw (e, signal_loop) (AddsNone-refl k.tmevt)
  | inr (u, e) ↦ elim (Bool-cases (leb (alloc_sz (length (k.wmsg u))) (k.mbf.fmbfsz i))) [
    | inr full ↦ rw (e, full, signal_loop) (AddsNone-refl k.tmevt)
    | inl room ↦
        let k1 = queue_delete u (store_message i (k.wmsg u) k) in
        rw (e, room, signal_loop)
          (AddsNone-trans k.tmevt (wait_complete u k1).tmevt _ (wait_complete-AddsNone k1 u)
            (signal_loop-AddsNone fuel i (wait_complete u k1)))
  ]
]

wait_dequeue_wobj-AddsNone :
    (k : Kernel) (t : ℕ) → AddsNone k.tmevt (wait_dequeue_wobj messagebuf_dequeue_wobj t k).tmevt
unfolding wait_dequeue_wobj messagebuf_dequeue_wobj messagebuf_signal queue_delete
wait_dequeue_wobj-AddsNone k t =
    let k1 = queue_delete t k in
    let i = p_mbfcb t k1 in
    if-both (λ (k' : Kernel). AddsNone k.tmevt k'.tmevt) (tstat_wait_wobj (k.tstat t))
      (if-both (λ (k' : Kernel). AddsNone k.tmevt k'.tmevt)
        (without_suspended (k.tstat t) == ts_waiting_smbf)
        (signal_loop-AddsNone (length (k1.queue (mbf_swait_queue i))) i k1) (AddsNone-refl k.tmevt))
      (AddsNone-refl k.tmevt)

module _ (cyc_nfyhdr : ℕ → Kernel → Kernel) (alm_nfyhdr : ℕ → Kernel → Kernel)
    (scyc : Kernel → Kernel)
    (quiet : (i : ℕ) (k : Kernel) → AddsNone k.tmevt (alm_nfyhdr i k).tmevt) where
  -- The callbacks that do not register their event again add none.
  pub run_callback-AddsNone :
      (c : Cback) (a : ℕ) (k : Kernel)
      → one_shot c ≡ true
      → AddsNone k.tmevt
          (run_callback cyc_nfyhdr alm_nfyhdr scyc messagebuf_dequeue_wobj c a k).tmevt
  unfolding run_callback Wait.wait_tmout Wait.wait_tmout_ok call_alarm_body one_shot
  run_callback-AddsNone TimeEvent.wait_tmout t k e =
      rw (make_non_wait-tmevt _ t) (wait_dequeue_wobj-AddsNone k t)
  run_callback-AddsNone TimeEvent.wait_tmout_ok t k e =
      rw (make_non_wait-tmevt _ t) (AddsNone-refl k.tmevt)
  run_callback-AddsNone call_alarm i k e = quiet i _
  run_callback-AddsNone call_cyclic i k e = ground arith
  run_callback-AddsNone scyc_switch i k e = ground arith
