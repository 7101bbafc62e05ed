-- ===== src/Task/Remove.antt =====
-- The invariant of the ready queues and make_non_runnable of kernel/task.c.
use toppers_hrp3_gr_rose.Common.{
  ℕ, ◌^◌, ◌<◌, ◌≡◌, sym, ◌≢◌, ◌⊎◌, inl, inr, true, false, subst, not, ◌&&◌, Option, none, some, [],
  arith, has, has-erase, erase, erase-id, bit, bit-clear, bit-high, bit-empty, bit_not, bit_and-lt,
  Bool-cases, Option-cases, ltb, ◌==◌, is_null,
}
use toppers_hrp3_gr_rose.Kernel.{Kernel, ready_queue, queue_empty, head?}
use toppers_hrp3_gr_rose.Task.{make_non_runnable, bitmap_search}
use toppers_hrp3_gr_rose.Task.Bitmap.{IsLowest, bitmap_search-IsLowest}
use toppers_hrp3_gr_rose.Task.Ready.{IsReady, IsTop, empty_of_head}
use toppers_hrp3_gr_rose.Task.Fields.{
  head-erase_other, head-erase_null, has-head, make_non_runnable-queue, last_of,
  make_non_runnable-primap, make_non_runnable-same, successor, make_non_runnable-predtsk,
}

module _ (k : Kernel) (t s : ℕ) (v : IsReady k s) (h : k.priority t < 16) where
  -- The task is in no other ready queue.
  erase_elsewhere :
      (p : ℕ)
      → p < 16
      → (k.p_schedcb t ≢ s) ⊎ (k.priority t ≢ p)
      → erase t (k.queue (ready_queue s p)) ≡ k.queue (ready_queue s p)
  erase_elsewhere p q other = elim (Bool-cases (has t (k.queue (ready_queue s p)))) [
    | inl here ↦ absurd (ground (arith, v.ours p t q here))
    | inr absent ↦ erase-id t (k.queue (ready_queue s p)) absent
  ]

  mapped_after :
      (p : ℕ)
      → p < 16
      → bit p ((make_non_runnable t k).ready_primap s)
        ≡ not (queue_empty (ready_queue s p) (make_non_runnable t k))
  unfolding last_of
  mapped_after p q = elim (Bool-cases ((k.p_schedcb t == s) && (k.priority t == p))) [
    | inl same ↦ ground (
      arith,
      make_non_runnable-queue k t (ready_queue s p),
      make_non_runnable-primap k t s,
      v.mapped p q,
      bit-clear p (k.priority t) 32 (k.ready_primap s),
      head-erase_null (k.queue (ready_queue s p)) t,
    )
    | inr other ↦ ground (
      arith,
      make_non_runnable-queue k t (ready_queue s p),
      make_non_runnable-primap k t s,
      v.mapped p q,
      bit-clear p (k.priority t) 32 (k.ready_primap s),
      erase_elsewhere p q (split other),
    )
  ]
    where
      split :
          ((k.p_schedcb t == s) && (k.priority t == p)) ≡ false
          → (k.p_schedcb t ≢ s) ⊎ (k.priority t ≢ p)
      split e = ground arith

  width_after : (make_non_runnable t k).ready_primap s < 2 ^ 16
  width_after = ground (
    arith,
    make_non_runnable-primap k t s,
    v.width,
    bit_and-lt 16 (k.ready_primap s) (bit_not 32 (2 ^ k.priority t)) v.width,
  )

  ours_after :
      (p u : ℕ)
      → p < 16
      → has u ((make_non_runnable t k).queue (ready_queue s p)) ≡ true
      → ((make_non_runnable t k).priority u ≡ p) × ((make_non_runnable t k).p_schedcb u ≡ s)
  ours_after p u q r = ground (
    arith,
    make_non_runnable-same k t,
    make_non_runnable-queue k t (ready_queue s p),
    has-erase t u (k.queue (ready_queue s p)),
    v.ours p u q,
  )

  -- Where the bitmap is empty, so are the ready queues; else its lowest bit leads to the first.
  empty_after :
      (p : ℕ)
      → p < 16
      → bit p ((make_non_runnable t k).ready_primap s) ≡ false
      → (make_non_runnable t k).queue (ready_queue s p) ≡ []
  empty_after p q e = empty_of_head ((make_non_runnable t k).queue (ready_queue s p)) (
      null (head? ((make_non_runnable t k).queue (ready_queue s p)))
        (ground (arith, mapped_after p q)))
    where
      null : (o : Option ℕ) → is_null o ≡ true → o ≡ none
      null o r = ground arith

  lowest_after :
      (u : ℕ)
      → let m = (make_non_runnable t k).ready_primap s in
        m ≢ 0
        → head? ((make_non_runnable t k).queue (ready_queue s (bitmap_search m))) ≡ some u
        → IsTop (make_non_runnable t k) s u
  lowest_after u nz e =
      let m = (make_non_runnable t k).ready_primap s in
      let low : IsLowest m (bitmap_search m) = bitmap_search-IsLowest m nz width_after in
      let n = bitmap_search m in
      let n_lt : n < 16 = elim (Bool-cases (ltb n 16)) [
        | inl inside ↦ ground arith
        | inr outside ↦
            let off : bit n m ≡ false = bit-high n 16 m (ground arith) width_after in
            absurd (ground (arith, low.here))
      ] in
      let at = ours_after n u n_lt (has-head _ u e) in
      record {
        in_range = omega (arith, at.0);
        first = rw at.0 e;
        above_empty =
            λ p q. empty_after p (omega (arith, at.0)) (low.lower p (omega (arith, at.0)));
      }

  next_in_queue :
      (u : ℕ)
      → IsTop k s t
      → k.p_schedcb t ≡ s
      → head? ((make_non_runnable t k).queue (ready_queue s (k.priority t))) ≡ some u
      → IsTop (make_non_runnable t k) s u
  next_in_queue u top mine e =
      let at = ours_after (k.priority t) u h (has-head _ u e) in
      record {
        in_range = omega (arith, at.0);
        first = rw at.0 e;
        above_empty = λ p q.
            ground (arith, make_non_runnable-queue k t (ready_queue s p), top.above_empty p, at);
      }

  -- The successor of the task of highest precedence.
  successor-IsTop :
      (u : ℕ)
      → IsTop k s t
      → k.p_schedcb t ≡ s
      → successor k t ≡ some u
      → IsTop (make_non_runnable t k) s u
  successor-IsTop u top mine e = elim (Bool-cases (last_of k t)) [
    | inl gone ↦ elim (Bool-cases ((make_non_runnable t k).ready_primap (k.p_schedcb t) == 0)) [
      | inl z ↦ absurd (unfold successor in ground arith)
      | inr nz ↦ lowest_after u (λ z. ground arith) (unfold successor in ground arith)
    ]
    | inr others ↦ next_in_queue u top mine (unfold successor in ground arith)
  ]

  stays-IsTop : (w : ℕ) → w ≢ t → IsTop k s w → IsTop (make_non_runnable t k) s w
  stays-IsTop w ne top = record {
    in_range = ground (arith, make_non_runnable-same k t, top.in_range);
    first = ground (
      arith,
      make_non_runnable-same k t,
      make_non_runnable-queue k t (ready_queue s ((make_non_runnable t k).priority w)),
      head-erase_other (k.queue (ready_queue s (k.priority w))) t w,
      top.first,
    );
    above_empty = λ p q. ground (
      arith,
      make_non_runnable-same k t,
      make_non_runnable-queue k t (ready_queue s p),
      top.above_empty p,
    );
  }

  -- A task of highest precedence belongs to its scheduling unit.
  top_is_ours : (w : ℕ) → IsTop k s w → k.p_schedcb w ≡ s
  top_is_ours w top = (v.ours (k.priority w) w top.in_range (has-head _ w top.first)).1

  no_successor :
      IsTop k s t
      → successor k t ≡ none
      → (p : ℕ) → p < 16
      → (make_non_runnable t k).queue (ready_queue s p) ≡ []
  no_successor top e p q =
      let mine = top_is_ours t top in
      elim (Bool-cases (last_of k t)) [
        | inl gone ↦ elim (Bool-cases ((make_non_runnable t k).ready_primap (k.p_schedcb t) == 0)) [
          | inl z ↦
              let none_set : (make_non_runnable t k).ready_primap s ≡ 0 = ground arith in
              empty_after p q (rw none_set (bit-empty p))
          | inr nz ↦
              let m = (make_non_runnable t k).ready_primap s in
              let nz' : m ≢ 0 = λ z. ground arith in
              let low : IsLowest m (bitmap_search m) = bitmap_search-IsLowest m nz' width_after in
              absurd (
                unfold successor in
                ground (
                  arith,
                  low.here,
                  mapped_after (bitmap_search m),
                  bit-high (bitmap_search m) 16 m,
                  width_after,
                ))
        ]
        | inr others ↦ absurd (
            unfold successor last_of in
            ground (arith, make_non_runnable-queue k t (ready_queue s (k.priority t))))
      ]

  -- A task that stops being runnable leaves the ready queues of every scheduling unit consistent.
  pub make_non_runnable-IsReady : IsReady (make_non_runnable t k) s
  make_non_runnable-IsReady = record {
    width = width_after;
    mapped = mapped_after;
    ours = ours_after;
    none_ready = λ e p q. elim (Option-cases (k.p_predtsk s)) [
      | inl n ↦ ground (arith, make_non_runnable-queue k t (ready_queue s p), v.none_ready n p q)
      | inr (w, ew) ↦ elim (Bool-cases (w == t)) [
        | inl same ↦
            let top : IsTop k s t = subst (IsTop k s) (ground arith) (v.top w ew) in
            no_successor top (ground (arith, make_non_runnable-predtsk k t s, top_is_ours t top)) p
              q
        | inr other ↦ absurd (ground (arith, make_non_runnable-predtsk k t s))
      ]
    ];
    top = λ u e. elim (Option-cases (k.p_predtsk s)) [
      | inl n ↦ absurd (ground (arith, make_non_runnable-predtsk k t s))
      | inr (w, ew) ↦ elim (Bool-cases (w == t)) [
        | inl same ↦
            let top : IsTop k s t = subst (IsTop k s) (ground arith) (v.top w ew) in
            let mine = top_is_ours t top in
            successor-IsTop u top mine (ground (arith, make_non_runnable-predtsk k t s))
        | inr other ↦
            let still : u ≡ w = ground (arith, make_non_runnable-predtsk k t s) in
            subst (IsTop (make_non_runnable t k) s) (sym still)
              (stays-IsTop w (λ z. ground arith) (v.top w ew))
      ]
    ];
  }
