-- ===== src/TimeEvent/Times.antt =====
-- Event times: the order of times that wrap round, and the clock that follows the counter.
use toppers_hrp3_gr_rose.Common.{ℕ, ◌+◌, ◌-◌, ◌%◌, ◌^◌, ◌≤◌, ◌<◌, ◌≡◌, ◌↔◌, true, arith, refl}
use toppers_hrp3_gr_rose.TimeEvent.Heap.{evttim_mod, evttim_advance, evttim_le, evttim_lt}
use toppers_hrp3_gr_rose.TimeEvent.{
  Tmevt, update_current_evttim, hrtcnt_advance, tcyc_hrtcnt, boundary_margin,
}

-- Times on an unbounded scale compare by EVTTIM_LT and EVTTIM_LE as their 32-bit representations
-- do, as long as both lie in the 2^32 time units from the boundary on.
pub evttim_order :
    (start t1 t2 : ℕ)
    → start ≤ t1
    → t1 < start + evttim_mod
    → start ≤ t2
    → t2 < start + evttim_mod
    → let boundary = start % evttim_mod in
      ((evttim_lt boundary (t1 % evttim_mod) (t2 % evttim_mod) ≡ true) ↔ (t1 < t2))
      × ((evttim_le boundary (t1 % evttim_mod) (t2 % evttim_mod) ≡ true) ↔ (t1 ≤ t2))
unfolding evttim_lt evttim_le evttim_advance
evttim_order start t1 t2 a b c d =
    let e1 : (t1 % evttim_mod + evttim_mod - start % evttim_mod) % evttim_mod ≡ t1 - start =
      omega arith in
    let e2 : (t2 % evttim_mod + evttim_mod - start % evttim_mod) % evttim_mod ≡ t2 - start =
      omega arith in
    (rw (e1, e2) (ground arith), rw (e1, e2) (ground arith))

-- Where a counter of the period of the board is read at two instants less than a period apart, the
-- advance that the code computes is the time between them.
pub hrtcnt_advance_exact :
    (before now : ℕ)
    → before ≤ now
    → now < before + tcyc_hrtcnt
    → hrtcnt_advance (now % tcyc_hrtcnt) (before % tcyc_hrtcnt) ≡ now - before
unfolding hrtcnt_advance
hrtcnt_advance_exact before now h p = ground arith

-- What a reading of the clock does, when the counter was last read at `before` and is read at
-- `now`: the event time moves on by the time between, and the boundary stays behind it.
pub record Updated (m m' : Tmevt) (now elapsed : ℕ) : Type 0 where
  pub counter : m'.current_hrtcnt ≡ now % tcyc_hrtcnt
  pub event_time : m'.current_evttim ≡ (m.current_evttim + elapsed) % evttim_mod
  pub boundary : (m'.boundary_evttim + boundary_margin) % evttim_mod ≡ m'.current_evttim
  pub heaps : (m'.heap_node ≡ m.heap_node) × (m'.heap_last ≡ m.heap_last) × (m'.evttim ≡ m.evttim)

-- Where the counter was last read at `before` and is now read less than a period later,
-- update_current_evttim takes over the counter, moves the event time on by the time between,
-- modulo 2^32, keeps the boundary its margin behind, and leaves the heaps alone.
pub update_current_evttim_correct :
    (m : Tmevt) (before now : ℕ)
    → m.current_hrtcnt ≡ before % tcyc_hrtcnt
    → m.hrt m.hrt_reads ≡ now % tcyc_hrtcnt
    → before ≤ now
    → now < before + tcyc_hrtcnt
    → Updated m (update_current_evttim m) now (now - before)
unfolding update_current_evttim
update_current_evttim_correct m before now last read h p =
    let exact : hrtcnt_advance (m.hrt m.hrt_reads) m.current_hrtcnt ≡ now - before =
      rw (last, read) (hrtcnt_advance_exact before now h p) in
    rw exact (record {
      counter = read;
      event_time = refl;
      boundary = omega arith;
      heaps = (refl, refl, refl);
    })

-- The system time, 64 bits wide: the offset and the most advanced event time.
abbrev pub systim : Tmevt → ℕ
systim m = m.systim_offset + m.monotonic_evttim

-- The system time that get_tim shows never runs backwards over update_current_evttim, across the
-- wrap of the event time, and moves by no more than the clock; where the counter was last read
-- less than a period before, the event times fit in 32 bits, and the offset has room for one more
-- wrap.
pub systim_monotonic :
    (m : Tmevt) (before now : ℕ)
    → m.current_hrtcnt ≡ before % tcyc_hrtcnt
    → m.hrt m.hrt_reads ≡ now % tcyc_hrtcnt
    → before ≤ now
    → now < before + tcyc_hrtcnt
    → m.current_evttim < evttim_mod
    → m.monotonic_evttim < evttim_mod
    → m.systim_offset + 2 ^ 32 < 2 ^ 64
    → (systim m ≤ systim (update_current_evttim m))
      × (systim (update_current_evttim m) ≤ systim m + (now - before))
unfolding update_current_evttim
systim_monotonic m before now last read h p c1 c2 room =
    let exact : hrtcnt_advance (m.hrt m.hrt_reads) m.current_hrtcnt ≡ now - before =
      rw (last, read) (hrtcnt_advance_exact before now h p) in
    rw exact (ground arith)
