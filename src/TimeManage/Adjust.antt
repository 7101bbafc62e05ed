-- ===== src/TimeManage/Adjust.antt =====
-- Adjusting the system time of kernel/time_manage.c.
use toppers_hrp3_gr_rose.Common.{ℕ, zero, suc, ◌+◌, ◌^◌, ◌≤◌, ◌<◌, ◌≡◌, true, arith}
use toppers_hrp3_gr_rose.TimeEvent.{Tmevt, set_hrt_event}
use toppers_hrp3_gr_rose.TimeEvent.Heap.{evttim_mod}
use toppers_hrp3_gr_rose.TimeEvent.Times.{systim}
use toppers_hrp3_gr_rose.TimeManage.{
  ℤ, pos, negsuc, move, adjust, valid_adjtim, to_evttim, positive,
}

-- The most that the system time moves on by.
abbrev pub forward : ℤ → ℕ
forward (pos n) = n
forward (negsuc n) = 0

set_hrt_event-systim : (m : Tmevt) → systim (set_hrt_event m) ≡ systim m
unfolding set_hrt_event
set_hrt_event-systim m = ground arith

moved_monotonic :
    (adjtim : ℤ) (m : Tmevt)
    → valid_adjtim adjtim ≡ true
    → m.current_evttim < evttim_mod
    → m.monotonic_evttim < evttim_mod
    → m.systim_offset + 2 ^ 32 < 2 ^ 64
    → (systim m ≤ systim (move adjtim m)) × (systim (move adjtim m) ≤ systim m + forward adjtim)
unfolding move valid_adjtim to_evttim positive
moved_monotonic (pos zero) m v c1 c2 room = ground arith
moved_monotonic (pos (suc n)) m v c1 c2 room = ground arith
moved_monotonic (negsuc n) m v c1 c2 room = ground arith

-- An adjustment that adj_tim allows never runs the system time backwards, and moves it on by no
-- more than the adjustment, and not at all where that is negative; where the event times fit in 32
-- bits and the offset has room for one more wrap.
pub adjust_monotonic :
    (adjtim : ℤ) (m : Tmevt)
    → valid_adjtim adjtim ≡ true
    → m.current_evttim < evttim_mod
    → m.monotonic_evttim < evttim_mod
    → m.systim_offset + 2 ^ 32 < 2 ^ 64
    → (systim m ≤ systim (adjust adjtim m)) × (systim (adjust adjtim m) ≤ systim m + forward adjtim)
unfolding adjust
adjust_monotonic adjtim m v c1 c2 room =
    let moved = moved_monotonic adjtim m v c1 c2 room in
    ground (arith, moved, set_hrt_event-systim (move adjtim m))
