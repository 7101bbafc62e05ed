-- ===== src/TimeEvent.antt =====
-- kernel/time_event.c and kernel/time_event.h: event times, the time event blocks, their heaps
-- and the high resolution timer, for a 32-bit counter with the period of target/gr_rose_gcc.
pub mod Heap
pub mod Times
use toppers_hrp3_gr_rose.Common.{
  ℕ, ◌+◌, ◌-◌, ◌%◌, ◌^◌, Bool, true, false, not, ◌&&◌, ◌||◌, List, [], ◌∷◌, ltb, leb, ◌==◌,
  if◌then◌else◌, update,
}
use Heap.{Store, evttim_mod, evttim_le, tmevtb_insert, tmevtb_delete, tmevtb_delete_top}

-- The callback functions that the kernel registers.
pub data Cback : Type 0 where
  wait_tmout wait_tmout_ok call_cyclic call_alarm scyc_switch : Cback

-- What the timer has last been told.
pub data HrtEvent : Type 0 where
  none_set : HrtEvent
  set_event : ℕ → HrtEvent
  raise_event : HrtEvent

-- The variables of the module. `hrt` is the sequence of values that target_hrt_get_current will
-- return, of which `hrt_reads` have been read.
pub record Tmevt : Type 0 where
  pub evttim : ℕ → ℕ
  pub p_tmevtn : ℕ → ℕ
  pub callback : ℕ → Cback
  pub cback_arg : ℕ → ℕ
  pub heap_node : ℕ → ℕ → ℕ
  pub heap_last : ℕ → ℕ
  pub boundary_evttim : ℕ
  pub current_evttim : ℕ
  pub current_hrtcnt : ℕ
  pub monotonic_evttim : ℕ
  pub systim_offset : ℕ
  pub in_signal_time : Bool
  pub hrt_event : HrtEvent
  pub hrt : ℕ → ℕ
  pub hrt_reads : ℕ

abbrev pub boundary_margin : ℕ
boundary_margin = 200000000

abbrev pub tcyc_hrtcnt : ℕ
tcyc_hrtcnt = 572662306

abbrev pub hrtcnt_bound : ℕ
hrtcnt_bound = tcyc_hrtcnt - 2000000

abbrev pub tstep_hrtcnt : ℕ
tstep_hrtcnt = 1

-- The heap of the kernel domain is heap 0.
abbrev pub tmevt_heap_kernel : ℕ
tmevt_heap_kernel = 0

-- The blocks and one heap, as the functions on a heap see them.
abbrev pub heap_store : ℕ → Tmevt → Store
heap_store h m = record {
  evttim = m.evttim;
  p_tmevtn = m.p_tmevtn;
  p_tmevtb = m.heap_node h;
  p_last = m.heap_last h;
}

abbrev pub put_store : ℕ → Store → Tmevt → Tmevt
put_store h s m = record m {
  evttim = s.evttim;
  p_tmevtn = s.p_tmevtn;
  heap_node = update m.heap_node h s.p_tmevtb;
  heap_last = update m.heap_last h s.p_last;
}

abbrev pub top_evttim : ℕ → Tmevt → ℕ
top_evttim h m = m.evttim (m.heap_node h 1)

abbrev pub tmevt_heap_idle : ℕ
tmevt_heap_idle = 1

-- The loop over the user domains, by the heap that each of them uses.
empty_heaps : List ℕ → (ℕ → ℕ) → ℕ → ℕ
empty_heaps [] heap_last = heap_last
empty_heaps (h ∷ hs) heap_last =
    empty_heaps hs (
      if (h == tmevt_heap_kernel) || (h == tmevt_heap_idle)
      then heap_last
      else update heap_last h 0)

pub initialize_tmevt : (system_cyctim : ℕ) → (domain_heaps : List ℕ) → Tmevt → Tmevt
unfolding empty_heaps
initialize_tmevt system_cyctim domain_heaps m =
    let kernel_last = update m.heap_last tmevt_heap_kernel 0 in
    let idle_last =
      if system_cyctim == 0 then kernel_last else update kernel_last tmevt_heap_idle 0 in
    record m {
      current_evttim = 0;
      boundary_evttim = (0 + evttim_mod - boundary_margin) % evttim_mod;
      monotonic_evttim = 0;
      systim_offset = 0;
      in_signal_time = false;
      heap_last = empty_heaps domain_heaps idle_last;
    }

-- The counter has run from `current_hrtcnt` to `new_hrtcnt`.
pub hrtcnt_advance : ℕ → ℕ → ℕ
hrtcnt_advance new_hrtcnt current_hrtcnt =
    let advance = (new_hrtcnt + 2 ^ 32 - current_hrtcnt) % 2 ^ 32 in
    if ltb new_hrtcnt current_hrtcnt then (advance + tcyc_hrtcnt) % 2 ^ 32 else advance

unfoldable pub update_current_evttim : Tmevt → Tmevt
update_current_evttim m =
    let new_hrtcnt = m.hrt m.hrt_reads in
    let advance = hrtcnt_advance new_hrtcnt m.current_hrtcnt in
    let current = (m.current_evttim + advance) % evttim_mod in
    let ahead = ltb ((m.monotonic_evttim + evttim_mod - m.current_evttim) % evttim_mod) advance in
    record m {
      hrt_reads = m.hrt_reads + 1;
      current_hrtcnt = new_hrtcnt;
      current_evttim = current;
      boundary_evttim = (current + evttim_mod - boundary_margin) % evttim_mod;
      systim_offset =
          if ahead && ltb current m.monotonic_evttim
          then (m.systim_offset + 2 ^ 32) % 2 ^ 64
          else m.systim_offset;
      monotonic_evttim = if ahead then current else m.monotonic_evttim;
    }

pub calc_current_evttim_ub : Tmevt → ℕ
calc_current_evttim_ub m = (m.current_evttim + tstep_hrtcnt) % evttim_mod

unfoldable pub set_hrt_event : Tmevt → Tmevt
set_hrt_event m =
    let hrtcnt = (top_evttim tmevt_heap_kernel m + evttim_mod - m.current_evttim) % evttim_mod in
    if ltb (m.heap_last tmevt_heap_kernel) 1
    then record m { hrt_event = set_event hrtcnt_bound }
    else if evttim_le m.boundary_evttim (top_evttim tmevt_heap_kernel m) m.current_evttim
    then record m { hrt_event = raise_event }
    else if ltb hrtcnt_bound hrtcnt
    then record m { hrt_event = set_event hrtcnt_bound }
    else record m { hrt_event = set_event hrtcnt }

pub tmevtb_register : ℕ → ℕ → Tmevt → Tmevt
tmevtb_register p_tmevtb h m =
    put_store h (tmevtb_insert m.boundary_evttim p_tmevtb (heap_store h m)) m

-- The block is at the root of the kernel's heap, and no timer interrupt is being handled.
pub at_kernel_top : ℕ → ℕ → Tmevt → Bool
at_kernel_top p_tmevtn h m = (h == tmevt_heap_kernel) && (not m.in_signal_time && (p_tmevtn == 1))

pub tmevtb_enqueue : ℕ → ℕ → Tmevt → Tmevt
unfolding tmevtb_register at_kernel_top
tmevtb_enqueue p_tmevtb h m =
    let m' = tmevtb_register p_tmevtb h m in
    if at_kernel_top (m'.p_tmevtn p_tmevtb) h m' then set_hrt_event m' else m'

pub tmevtb_enqueue_reltim : ℕ → ℕ → ℕ → Tmevt → Tmevt
unfolding tmevtb_enqueue
tmevtb_enqueue_reltim p_tmevtb time h m =
    let now = update_current_evttim m in
    let due = (calc_current_evttim_ub now + time) % evttim_mod in
    tmevtb_enqueue p_tmevtb h (record now { evttim = update now.evttim p_tmevtb due })

unfoldable pub tmevtb_dequeue : ℕ → ℕ → Tmevt → Tmevt
unfolding at_kernel_top
tmevtb_dequeue p_tmevtb h m =
    let p_tmevtn = m.p_tmevtn p_tmevtb in
    let m' = put_store h (tmevtb_delete m.boundary_evttim p_tmevtb (heap_store h m)) m in
    if at_kernel_top p_tmevtn h m' then set_hrt_event (update_current_evttim m') else m'

pub tmevt_lefttim : ℕ → Tmevt → ℕ × Tmevt
tmevt_lefttim p_tmevtb m =
    let now = update_current_evttim m in
    let ub = calc_current_evttim_ub now in
    let evttim = now.evttim p_tmevtb in
    (
      if evttim_le now.boundary_evttim evttim ub
          then 0
          else (evttim + evttim_mod - ub) % evttim_mod,
      now,
    )

-- The head of a heap, if its time has come, leaves the heap: tmevt_proc_top up to the callback.
unfoldable pub take_due : ℕ → Tmevt → Bool × (ℕ × Tmevt)
take_due h m =
    let (s, p_tmevtb) = tmevtb_delete_top m.boundary_evttim (heap_store h m) in
    if leb 1 (m.heap_last h) && evttim_le m.boundary_evttim (top_evttim h m) m.current_evttim
    then (true, (p_tmevtb, put_store h s m))
    else (false, (0, m))
