-- ===== src/Task/Schedule.antt =====
-- update_schedtsk of kernel/task.h and the scheduling rule.
use toppers_hrp3_gr_rose.Common.{
  ℕ, ◌≤◌, ◌<◌, ◌≡◌, ◌⊎◌, inl, inr, true, none, some, [], arith, has, Bool-cases, Option-cases, ltb,
}
use toppers_hrp3_gr_rose.Kernel.{Kernel, ready_queue, schedcb_kernel}
use toppers_hrp3_gr_rose.Task.{choose_schedtsk}
use toppers_hrp3_gr_rose.Task.Ready.{IsTop}
use toppers_hrp3_gr_rose.Task.Consistent.{IsConsistent}

-- No task in a ready queue of the scheduling unit comes before the given one, which is the first
-- of the ready queue of its priority in one of the units.
abbrev pub IsBefore : Kernel → ℕ → ℕ → Type 0
IsBefore k t s =
    (p u : ℕ) → p < 16 → has u (k.queue (ready_queue s p)) ≡ true → k.priority t ≤ k.priority u

top-IsBefore : (k : Kernel) (s t : ℕ) → IsConsistent k → k.p_predtsk s ≡ some t → IsBefore k t s
top-IsBefore k s t c e p u l r =
    ground (arith, ((c.ready s).top t e).above_empty p, (c.ready s).ours p u l r)

none-IsBefore : (k : Kernel) (s t : ℕ) → IsConsistent k → k.p_predtsk s ≡ none → IsBefore k t s
none-IsBefore k s t c e p u l r = ground (arith, (c.ready s).none_ready e p l)

-- While the scheduler is consistent, the task that update_schedtsk chooses has a priority at least
-- as high as that of every ready task of the kernel domain and of the domain of the time window;
-- it is the first of its ready queue in one of these or in the idle domain; and the kernel domain
-- goes before the window where both have a task of that priority.
pub choose_schedtsk_best :
    (k : Kernel) (t : ℕ)
    → IsConsistent k
    → choose_schedtsk k ≡ some t
    → (IsBefore k t schedcb_kernel × IsBefore k t k.p_twdsched)
      × ((IsTop k schedcb_kernel t ⊎ (IsTop k k.p_twdsched t ⊎ IsTop k k.p_idlesched t))
          × ((u : ℕ) → k.p_predtsk schedcb_kernel ≡ some u → k.priority u ≡ k.priority t → u ≡ t))
unfolding choose_schedtsk
choose_schedtsk_best k t c e =
    let top = λ (s u : ℕ) (h : k.p_predtsk s ≡ some u). (c.ready s).top u h in
    elim (Option-cases (k.p_predtsk schedcb_kernel)) [
      | inl n ↦ elim (Option-cases (k.p_predtsk k.p_twdsched)) [
        | inl n' ↦ (
          (none-IsBefore k _ t c n, none-IsBefore k _ t c n'),
          (inr (inr (top k.p_idlesched t (ground arith))), λ u a b. ground arith),
        )
        | inr (w, w_top) ↦
            let same : w ≡ t = ground arith in
            let here : k.p_predtsk k.p_twdsched ≡ some t = ground arith in
            (
              (none-IsBefore k _ t c n, top-IsBefore k _ t c here),
              (inr (inl (top _ t here)), λ u a b. ground arith),
            )
      ]
      | inr (v, v_top) ↦ elim (Option-cases (k.p_predtsk k.p_twdsched)) [
        | inl n' ↦
            let here : k.p_predtsk schedcb_kernel ≡ some t = ground arith in
            (
              (top-IsBefore k _ t c here, none-IsBefore k _ t c n'),
              (inl (top _ t here), λ u a b. ground arith),
            )
        | inr (w, w_top) ↦ both v w v_top w_top
      ]
    ]
  where
    both :
        (v w : ℕ)
        → k.p_predtsk schedcb_kernel ≡ some v
        → k.p_predtsk k.p_twdsched ≡ some w
        → (IsBefore k t schedcb_kernel × IsBefore k t k.p_twdsched)
          × ((IsTop k schedcb_kernel t ⊎ (IsTop k k.p_twdsched t ⊎ IsTop k k.p_idlesched t))
              × ((u : ℕ)
                  → k.p_predtsk schedcb_kernel ≡ some u
                  → k.priority u ≡ k.priority t
                  → u ≡ t))
    both v w v_top w_top =
        let before_v = top-IsBefore k schedcb_kernel v c v_top in
        let before_w = top-IsBefore k k.p_twdsched w c w_top in
        (
          (
            λ p u l r. ground (arith, before_v p u l r),
            λ p u l r. ground (arith, before_w p u l r),
          ),
          (
            elim (Bool-cases (ltb (k.priority w) (k.priority v))) [
              | inl less ↦ inr (inl ((c.ready k.p_twdsched).top t (ground arith)))
              | inr not_less ↦ inl ((c.ready schedcb_kernel).top t (ground arith))
            ],
            λ u a b. ground arith,
          ),
        )

-- While the scheduler is consistent, where update_schedtsk chooses no task the ready queues of the
-- kernel domain, of the domain of the time window and of the idle domain are empty, at each of the
-- 16 priorities.
pub choose_schedtsk-none :
    (k : Kernel) (p : ℕ)
    → IsConsistent k
    → choose_schedtsk k ≡ none
    → p < 16
    → (k.queue (ready_queue schedcb_kernel p) ≡ [])
      × ((k.queue (ready_queue k.p_twdsched p) ≡ []) × (k.queue (ready_queue k.p_idlesched p) ≡ []))
unfolding choose_schedtsk
choose_schedtsk-none k p c e l = (
  (c.ready schedcb_kernel).none_ready (ground arith) p l,
  (
    (c.ready k.p_twdsched).none_ready (ground arith) p l,
    (c.ready k.p_idlesched).none_ready (ground arith) p l,
  ),
)
