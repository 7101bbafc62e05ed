-- ===== src/TimeEvent/Heap/Size.antt =====
-- The size of a heap of time event blocks.
use toppers_hrp3_gr_rose.Common.{ℕ, zero, suc, ◌-◌, ◌≡◌, refl, ◌&&◌, ltb, leb, if-both}
use toppers_hrp3_gr_rose.TimeEvent.Heap.{
  Store, lchild, parent, up_loop, tmevt_up, tmevtb_delete, evttim_lt, move_node, evttim_at,
  evttim_le, earlier_child, down_loop, tmevt_down, place_last, tmevtb_delete_top,
}

module _ (boundary : ℕ) where
  down_loop-p_last :
      (fuel n t : ℕ) (s : Store) → (down_loop boundary fuel n t s).0.p_last ≡ s.p_last
  unfolding down_loop move_node
  down_loop-p_last zero n t s = refl
  down_loop-p_last (suc fuel) n t s =
      let c = earlier_child boundary (lchild n) s in
      if-both (λ (r : Store × ℕ). r.0.p_last ≡ s.p_last) (leb (lchild n) s.p_last)
        (if-both (λ (r : Store × ℕ). r.0.p_last ≡ s.p_last) (evttim_le boundary t (evttim_at s c))
          refl (down_loop-p_last fuel c t (move_node c n s)))
        refl

  up_loop-p_last : (fuel n t : ℕ) (s : Store) → (up_loop boundary fuel n t s).0.p_last ≡ s.p_last
  unfolding up_loop move_node
  up_loop-p_last zero n t s = refl
  up_loop-p_last (suc fuel) n t s =
      if-both (λ (r : Store × ℕ). r.0.p_last ≡ s.p_last) (ltb 1 n)
        (if-both (λ (r : Store × ℕ). r.0.p_last ≡ s.p_last)
          (evttim_le boundary (evttim_at s (parent n)) t) refl
          (up_loop-p_last fuel (parent n) t (move_node (parent n) n s)))
        refl

  -- Without a block it has one less too.
  pub tmevtb_delete-p_last :
      (b : ℕ) (s : Store) → (tmevtb_delete boundary b s).p_last ≡ s.p_last - 1
  unfolding tmevtb_delete place_last tmevt_down tmevt_up move_node down_loop up_loop
  tmevtb_delete-p_last b s =
      let n = s.p_tmevtn b in
      let cut = record s { p_last = s.p_last - 1 } in
      let t = evttim_at s s.p_last in
      let above = move_node (parent n) n cut in
      let up = tmevt_up boundary (parent n) t above in
      let down = tmevt_down boundary n t cut in
      if-both (λ (r : Store). r.p_last ≡ s.p_last - 1) (ltb cut.p_last 1) {x = cut} refl
        (if-both (λ (r : Store × ℕ). (place_last r).p_last ≡ s.p_last - 1)
          (ltb 1 n && evttim_lt boundary t (evttim_at s (parent n))) {x = up} {y = down}
          (up_loop-p_last (parent n) (parent n) t above) (down_loop-p_last cut.p_last n t cut))

  -- Without its root a heap has one block less.
  pub tmevtb_delete_top-p_last :
      (s : Store) → (tmevtb_delete_top boundary s).0.p_last ≡ s.p_last - 1
  unfolding tmevtb_delete_top place_last tmevt_down move_node down_loop
  tmevtb_delete_top-p_last s =
      let cut = record s { p_last = s.p_last - 1 } in
      let down = tmevt_down boundary 1 (evttim_at s s.p_last) cut in
      if-both (λ (r : Store). r.p_last ≡ s.p_last - 1) (leb 1 cut.p_last) {x = place_last down}
        {y = cut} (down_loop-p_last cut.p_last 1 (evttim_at s s.p_last) cut) refl
