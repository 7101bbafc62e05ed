-- ===== src/TimeEvent/Heap.antt =====
-- kernel/time_event.c: the binary heap of time event blocks, up to tmevtb_delete_top.
pub mod Order
pub mod Sift
pub mod Laws
pub mod Removal
pub mod Size
use toppers_hrp3_gr_rose.Common.{
  ℕ, zero, suc, ◌+◌, ◌-◌, ◌*◌, ◌/◌, ◌%◌, ◌^◌, Bool, ◌&&◌, ltb, leb, if◌then◌else◌, update,
}

-- The fields `evttim` and `p_tmevtn` of the time event blocks, by the address of the block, and
-- the nodes of the heap that `p_tmevt_heap` points to, by their index, with the index `p_last`.
pub record Store : Type 0 where
  pub evttim : ℕ → ℕ
  pub p_tmevtn : ℕ → ℕ
  pub p_tmevtb : ℕ → ℕ
  pub p_last : ℕ

abbrev pub evttim_mod : ℕ
evttim_mod = 2 ^ 32

-- An unsigned 32-bit difference from `boundary_evttim`.
unfoldable pub evttim_advance : ℕ → ℕ → ℕ
evttim_advance boundary t = (t + evttim_mod - boundary) % evttim_mod

unfoldable pub evttim_lt : ℕ → ℕ → ℕ → Bool
evttim_lt boundary t1 t2 = ltb (evttim_advance boundary t1) (evttim_advance boundary t2)

unfoldable pub evttim_le : ℕ → ℕ → ℕ → Bool
evttim_le boundary t1 t2 = leb (evttim_advance boundary t1) (evttim_advance boundary t2)

abbrev pub parent : ℕ → ℕ
parent p_tmevtn = p_tmevtn / 2

abbrev pub lchild : ℕ → ℕ
lchild p_tmevtn = p_tmevtn * 2

-- `*p_tmevtn = *p_from; p_tmevtn->p_tmevtb->p_tmevtn = p_tmevtn;`
pub move_node : ℕ → ℕ → Store → Store
move_node p_from p_tmevtn s = record s {
  p_tmevtb = update s.p_tmevtb p_tmevtn (s.p_tmevtb p_from);
  p_tmevtn = update s.p_tmevtn (s.p_tmevtb p_from) p_tmevtn;
}

-- The time of the event in a node.
abbrev pub evttim_at : Store → ℕ → ℕ
evttim_at s p_tmevtn = s.evttim (s.p_tmevtb p_tmevtn)

-- The node is filled with the last one, after the search for its place.
pub place_last : Store × ℕ → Store
place_last (s, p_tmevtn) = move_node (s.p_last + 1) p_tmevtn s

module _ (boundary : ℕ) where
  -- The loop of tmevt_up, with fuel.
  pub up_loop : ℕ → ℕ → ℕ → Store → Store × ℕ
  up_loop zero p_tmevtn evttim s = (s, p_tmevtn)
  up_loop (suc fuel) p_tmevtn evttim s =
      let p_parent = parent p_tmevtn in
      let rest = up_loop fuel p_parent evttim (move_node p_parent p_tmevtn s) in
      let step = if evttim_le boundary (evttim_at s p_parent) evttim then (s, p_tmevtn) else rest in
      if ltb 1 p_tmevtn then step else (s, p_tmevtn)

  -- Half of an index is left after each round, so the index is fuel enough.
  pub tmevt_up : ℕ → ℕ → Store → Store × ℕ
  tmevt_up p_tmevtn evttim s = up_loop p_tmevtn p_tmevtn evttim s

  -- The child with the earlier event.
  pub earlier_child : ℕ → Store → ℕ
  earlier_child p_child s =
      if leb (p_child + 1) s.p_last
        && evttim_lt boundary (evttim_at s (p_child + 1)) (evttim_at s p_child)
      then p_child + 1
      else p_child

  pub down_loop : ℕ → ℕ → ℕ → Store → Store × ℕ
  down_loop zero p_tmevtn evttim s = (s, p_tmevtn)
  down_loop (suc fuel) p_tmevtn evttim s =
      let p_child = earlier_child (lchild p_tmevtn) s in
      let rest = down_loop fuel p_child evttim (move_node p_child p_tmevtn s) in
      let step = if evttim_le boundary evttim (evttim_at s p_child) then (s, p_tmevtn) else rest in
      if leb (lchild p_tmevtn) s.p_last then step else (s, p_tmevtn)

  -- The index at least doubles in each round, so the size of the heap is fuel enough.
  pub tmevt_down : ℕ → ℕ → Store → Store × ℕ
  tmevt_down p_tmevtn evttim s = down_loop s.p_last p_tmevtn evttim s

  pub tmevtb_insert : ℕ → Store → Store
  tmevtb_insert p_tmevtb s =
      let grown = record s { p_last = s.p_last + 1 } in
      let (s', p_tmevtn) = tmevt_up grown.p_last (s.evttim p_tmevtb) grown in
      record s' {
        p_tmevtb = update s'.p_tmevtb p_tmevtn p_tmevtb;
        p_tmevtn = update s'.p_tmevtn p_tmevtb p_tmevtn;
      }

  pub tmevtb_delete : ℕ → Store → Store
  unfolding place_last
  tmevtb_delete p_tmevtb s =
      let p_tmevtn = s.p_tmevtn p_tmevtb in
      let cut = record s { p_last = s.p_last - 1 } in
      let event_evttim = evttim_at s s.p_last in
      let p_parent = parent p_tmevtn in
      let up = tmevt_up p_parent event_evttim (move_node p_parent p_tmevtn cut) in
      let down = tmevt_down p_tmevtn event_evttim cut in
      if ltb cut.p_last 1
      then cut
      else place_last (
          if ltb 1 p_tmevtn && evttim_lt boundary event_evttim (evttim_at s p_parent)
          then up
          else down)

  unfoldable pub tmevtb_delete_top : Store → Store × ℕ
  unfolding place_last
  tmevtb_delete_top s =
      let p_top_tmevtb = s.p_tmevtb 1 in
      let cut = record s { p_last = s.p_last - 1 } in
      let down = tmevt_down 1 (evttim_at s s.p_last) cut in
      (if leb 1 cut.p_last then place_last down else cut, p_top_tmevtb)
