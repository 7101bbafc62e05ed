-- ===== src/Notify/Due.antt =====
-- The loops of signal_time: they end, and leave no event whose time has come.
use toppers_hrp3_gr_rose.Common.{
  ℕ, zero, suc, ◌+◌, ◌-◌, ◌*◌, ◌%◌, ◌^◌, ◌≤◌, ◌<◌, ◌≡◌, refl, ap, ◌∙◌, ◌⊎◌, inl, inr, Bool, true,
  false, some, ◌&&◌, arith, leb, if◌then◌else◌, Bool-cases,
}
use toppers_hrp3_gr_rose.TimeEvent.{
  Tmevt, Cback, take_due, tmevt_heap_kernel, update_current_evttim, set_hrt_event, heap_store,
  top_evttim,
}
use toppers_hrp3_gr_rose.TimeEvent.Heap.{evttim_le, evttim_advance}
use toppers_hrp3_gr_rose.TimeEvent.Heap.Size.{tmevtb_delete_top-p_last}
use toppers_hrp3_gr_rose.Kernel.{Kernel}
use toppers_hrp3_gr_rose.Wait.{on_tmevt}
use toppers_hrp3_gr_rose.Messagebuf.{messagebuf_dequeue_wobj}
use toppers_hrp3_gr_rose.Notify.{run_callback, signal_loop, signal_time, enter_signal, leave_signal}
use toppers_hrp3_gr_rose.Notify.Callbacks.{AddsNone, one_shot, run_callback-AddsNone}

-- The event at the head of the kernel's heap has come.
unfoldable pub is_due : Kernel → Bool
is_due k = (take_due tmevt_heap_kernel k.tmevt).0

-- The number of events of the kernel's heap.
abbrev pub event_count : Kernel → ℕ
event_count k = k.tmevt.heap_last tmevt_heap_kernel

-- The callback of the event at the head, after that has left the heap.
abbrev call_head : (Cback → ℕ → Kernel → Kernel) → Kernel → Kernel
call_head run k =
    let r = (take_due tmevt_heap_kernel k.tmevt).1 in
    run (r.1.callback r.0) (r.1.cback_arg r.0) (record k { tmevt = r.1 })

-- The callbacks of all events are such as do not register their event again.
abbrev pub AllOneShot : Tmevt → Type 0
AllOneShot m = (b : ℕ) → one_shot (m.callback b) ≡ true

AddsNone-AllOneShot : (m m' : Tmevt) → AddsNone m m' → AllOneShot m → AllOneShot m'
AddsNone-AllOneShot m m' a all b = ap (λ (f : ℕ → Cback). one_shot (f b)) a.same ∙ all b

-- The head is taken where there is one.
take_due_count :
    (k : Kernel)
    → is_due k ≡ true
    → (take_due tmevt_heap_kernel k.tmevt).1.1.heap_last tmevt_heap_kernel < event_count k
unfolding is_due take_due
take_due_count k d =
    ground (
      arith,
      tmevtb_delete_top-p_last k.tmevt.boundary_evttim (heap_store tmevt_heap_kernel k.tmevt),
    )

module _ (run : Cback → ℕ → Kernel → Kernel) where
  signal_loop_due :
      (fuel : ℕ) (f : Bool) (k : Kernel)
      → is_due k ≡ true
      → signal_loop run (suc fuel) f k ≡ signal_loop run fuel true (call_head run k)
  unfolding signal_loop is_due
  signal_loop_due fuel f k e = rw (e, signal_loop) refl

  signal_loop_again :
      (fuel : ℕ) (k : Kernel)
      → is_due k ≡ false
      → signal_loop run (suc fuel) true k
        ≡ signal_loop run fuel false (on_tmevt update_current_evttim k)
  unfolding signal_loop is_due
  signal_loop_again fuel k e = rw (e, signal_loop) refl

  signal_loop_stop :
      (fuel : ℕ) (k : Kernel) → is_due k ≡ false → signal_loop run (suc fuel) false k ≡ some k
  unfolding signal_loop is_due
  signal_loop_stop fuel k e = rw (e, signal_loop) refl

  -- The callbacks that do not register their event again add no event.
  module _
      (quiet : (c : Cback) (a : ℕ) (k : Kernel)
        → one_shot c ≡ true
        → AddsNone k.tmevt (run c a k).tmevt) where
    call_head-AddsNone :
        (k : Kernel)
        → is_due k ≡ true
        → AllOneShot k.tmevt
        → (event_count (call_head run k) < event_count k) × AllOneShot (call_head run k).tmevt
    unfolding take_due
    call_head-AddsNone k d all =
        let r = (take_due tmevt_heap_kernel k.tmevt).1 in
        let taken = take_due_count k d in
        let kept : r.1.callback ≡ k.tmevt.callback = ground arith in
        let all1 : AllOneShot r.1 = λ b. ap (λ (f : ℕ → Cback). one_shot (f b)) kept ∙ all b in
        let none_added =
          quiet (r.1.callback r.0) (r.1.cback_arg r.0) (record k { tmevt = r.1 }) (all1 r.0) in
        (
          omega (arith, none_added.fewer, taken),
          AddsNone-AllOneShot r.1 (call_head run k).tmevt none_added all1,
        )

    -- The clock does not change the heap.
    clock_count : (k : Kernel) → event_count (on_tmevt update_current_evttim k) ≡ event_count k
    unfolding update_current_evttim
    clock_count k = refl

    clock-AllOneShot :
        (k : Kernel) → AllOneShot k.tmevt → AllOneShot (on_tmevt update_current_evttim k).tmevt
    unfolding update_current_evttim
    clock-AllOneShot k all = all

    -- Two rounds for each event, and two more where a callback has been called.
    signal_loop_enough :
        (fuel n : ℕ) (f : Bool) (k : Kernel)
        → AllOneShot k.tmevt
        → event_count k ≤ n
        → n * 2 + (if f then 2 else 1) ≤ fuel
        → (k1 : Kernel) × ((signal_loop run fuel f k ≡ some k1) × (is_due k1 ≡ false))
    signal_loop_enough zero n true k all c h = absurd (omega arith)
    signal_loop_enough zero n false k all c h = absurd (omega arith)
    signal_loop_enough (suc fuel) n true k all c h = elim (Bool-cases (is_due k)) [
      | inl d ↦
          let (fewer, all1) = call_head-AddsNone k d all in
          let r =
            signal_loop_enough fuel (n - 1) true (call_head run k) all1 (omega arith)
              (omega arith) in
          (r.0, (signal_loop_due fuel true k d ∙ r.1.0, r.1.1))
      | inr d ↦
          let k2 = on_tmevt update_current_evttim k in
          let same = clock_count k in
          let r =
            signal_loop_enough fuel n false k2 (clock-AllOneShot k all) (omega arith)
              (omega arith) in
          (r.0, (signal_loop_again fuel k d ∙ r.1.0, r.1.1))
    ]
    signal_loop_enough (suc fuel) n false k all c h = elim (Bool-cases (is_due k)) [
      | inl d ↦
          let (fewer, all1) = call_head-AddsNone k d all in
          let r =
            signal_loop_enough fuel (n - 1) true (call_head run k) all1 (omega arith)
              (omega arith) in
          (r.0, (signal_loop_due fuel false k d ∙ r.1.0, r.1.1))
      | inr d ↦ (k, (signal_loop_stop fuel k d, d))
    ]

take_due_test :
    (m : Tmevt)
    → (take_due tmevt_heap_kernel m).0 ≡ (
        leb 1 (m.heap_last tmevt_heap_kernel)
        && evttim_le m.boundary_evttim (top_evttim tmevt_heap_kernel m) m.current_evttim)
unfolding take_due
take_due_test m = ground arith

set_hrt_event-due :
    (m : Tmevt)
    → (take_due tmevt_heap_kernel (record (set_hrt_event m) { in_signal_time = false })).0
      ≡ (take_due tmevt_heap_kernel m).0
unfolding set_hrt_event
set_hrt_event-due m =
    let m1 = record (set_hrt_event m) { in_signal_time = false } in
    rw (take_due_test m, take_due_test m1) (ground arith)

-- The first event of the kernel's heap is later than the event time last read, as times from
-- `boundary_evttim` on; or there is none.
abbrev pub IsLater : Tmevt → Type 0
IsLater m =
    (m.heap_last tmevt_heap_kernel ≡ 0)
    ⊎ ((m.current_evttim + 2 ^ 32 - m.boundary_evttim) % 2 ^ 32
        < (top_evttim tmevt_heap_kernel m + 2 ^ 32 - m.boundary_evttim) % 2 ^ 32)

not_due-IsLater : (m : Tmevt) → (take_due tmevt_heap_kernel m).0 ≡ false → IsLater m
unfolding evttim_le evttim_advance
not_due-IsLater m d = elim (Bool-cases (leb 1 (m.heap_last tmevt_heap_kernel))) [
  | inl some_left ↦ let test = take_due_test m in inr (ground arith)
  | inr empty ↦ inl (ground arith)
]

-- Where no time event block has the callback of a cyclic notification or of the system cycle, and
-- the handlers of the alarm notifications add no event to the kernel's heap and leave the
-- callbacks as they are, signal_time with the callbacks of the kernel ends within two rounds for
-- each event and one more. Then the event at the head of the kernel's heap is later than the event
-- time that was read last, or no event is left; the flag of the interrupt is reset, and the CPU is
-- unlocked.
pub signal_time_ends :
    (cyc_nfyhdr alm_nfyhdr : ℕ → Kernel → Kernel) (scyc : Kernel → Kernel) (fuel : ℕ) (k : Kernel)
    → ((i : ℕ) (k : Kernel) → AddsNone k.tmevt (alm_nfyhdr i k).tmevt)
    → AllOneShot k.tmevt
    → event_count k * 2 + 1 ≤ fuel
    → (k1 : Kernel) × ((signal_time
            (run_callback cyc_nfyhdr alm_nfyhdr scyc messagebuf_dequeue_wobj)
            fuel
            k
          ≡ some k1)
        × (IsLater k1.tmevt × ((k1.tmevt.in_signal_time ≡ false) × (k1.cpu_locked ≡ false))))
unfolding signal_time update_current_evttim is_due
signal_time_ends cyc_nfyhdr alm_nfyhdr scyc fuel k quiet all h =
    let run = run_callback cyc_nfyhdr alm_nfyhdr scyc messagebuf_dequeue_wobj in
    let adds = run_callback-AddsNone cyc_nfyhdr alm_nfyhdr scyc quiet in
    let (k2, (ends, d)) =
      signal_loop_enough run adds fuel (event_count k) false (enter_signal k) all (omega arith) h in
    (
      leave_signal k2,
      (
        rw (ends, signal_time) refl,
        (not_due-IsLater (leave_signal k2).tmevt (set_hrt_event-due k2.tmevt ∙ d), (refl, refl)),
      ),
    )
