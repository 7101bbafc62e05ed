-- ===== src/Tests/Notifications.antt =====
-- Tests of the time events that signal_time handles, and of the adjustment of the system time.
use toppers_hrp3_gr_rose.Common.{ℕ, ◌+◌, ◌≤◌, ◌≡◌, refl, false, some, arith, update}
use toppers_hrp3_gr_rose.TimeEvent.{call_alarm}
use toppers_hrp3_gr_rose.TimeEvent.Times.{systim}
use toppers_hrp3_gr_rose.TimeManage.{negsuc, adjust, valid_adjtim}
use toppers_hrp3_gr_rose.TimeManage.Adjust.{forward, adjust_monotonic}
use toppers_hrp3_gr_rose.Kernel.{Kernel}
use toppers_hrp3_gr_rose.Messagebuf.{messagebuf_dequeue_wobj}
use toppers_hrp3_gr_rose.Notify.{run_callback, signal_time}
use toppers_hrp3_gr_rose.Notify.Callbacks.{AddsNone, one_shot}
use toppers_hrp3_gr_rose.Notify.Due.{AllOneShot, IsLater, signal_time_ends}
use toppers_hrp3_gr_rose.Tests.{blank, clock}

-- The handler of an alarm notification sets an event flag.
abbrev sets_flag : ℕ → Kernel → Kernel
sets_flag i k = record k { flgptn = update k.flgptn i 1 }

sets_flag-AddsNone : (i : ℕ) (k : Kernel) → AddsNone k.tmevt (sets_flag i k).tmevt
sets_flag-AddsNone i k = record { fewer = omega arith; same = refl }

-- The event of an alarm notification has come.
abbrev one_due : Kernel
one_due = record blank { tmevt = record clock { heap_last = λ _. 1; callback = λ _. call_alarm } }

one_due-AllOneShot : AllOneShot one_due.tmevt
unfolding one_shot
one_due-AllOneShot b = refl

signal_time_ends_example :
    (k1 : Kernel) × ((signal_time
          (run_callback (λ i k. k) sets_flag (λ k. k) messagebuf_dequeue_wobj)
          3
          one_due
        ≡ some k1)
      × (IsLater k1.tmevt × ((k1.tmevt.in_signal_time ≡ false) × (k1.cpu_locked ≡ false))))
signal_time_ends_example =
    signal_time_ends (λ i k. k) sets_flag (λ k. k) 3 one_due sets_flag-AddsNone one_due-AllOneShot
      (omega arith)

adjust_monotonic_example :
    (systim clock ≤ systim (adjust (negsuc 41) clock))
    × (systim (adjust (negsuc 41) clock) ≤ systim clock + forward (negsuc 41))
unfolding valid_adjtim
adjust_monotonic_example =
    adjust_monotonic (negsuc 41) clock refl (omega arith) (omega arith) (omega arith)
