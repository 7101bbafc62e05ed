-- ===== src/Task/Ready.antt =====
-- The invariant of the ready queues of a scheduling unit, and make_runnable.
use toppers_hrp3_gr_rose.Common.{
  ℕ, ◌^◌, ◌<◌, ◌≡◌, refl, inl, inr, true, not, ◌&&◌, none, some, List, [], ◌∷◌, ◌++◌, arith, has,
  has-append, bit, bit-set, bit_or, bit_or-lt, pow-lt, Option-cases, ◌==◌, if◌then◌else◌, is_null,
}
use toppers_hrp3_gr_rose.Kernel.{Kernel, ready_queue, queue_empty, head?}
use toppers_hrp3_gr_rose.Task.{make_runnable, precedes, choose_schedtsk}

-- The task at the head of the first ready queue that is not empty, from priority 0 on.
pub record IsTop (k : Kernel) (s t : ℕ) : Type 0 where
  pub in_range : k.priority t < 16
  pub first : head? (k.queue (ready_queue s (k.priority t))) ≡ some t
  pub above_empty : (p : ℕ) → p < k.priority t → k.queue (ready_queue s p) ≡ []

-- The ready queues, the bitmap and the task of highest precedence of a scheduling unit agree.
pub record IsReady (k : Kernel) (s : ℕ) : Type 0 where
  pub width : k.ready_primap s < 2 ^ 16
  pub mapped : (p : ℕ) → p < 16 → bit p (k.ready_primap s) ≡ not (queue_empty (ready_queue s p) k)
  pub ours :
      (p t : ℕ)
      → p < 16
      → has t (k.queue (ready_queue s p)) ≡ true
      → (k.priority t ≡ p) × (k.p_schedcb t ≡ s)
  pub none_ready : k.p_predtsk s ≡ none → (p : ℕ) → p < 16 → k.queue (ready_queue s p) ≡ []
  pub top : (t : ℕ) → k.p_predtsk s ≡ some t → IsTop k s t

-- While dispatching is enabled, p_schedtsk is what update_schedtsk would choose.
abbrev pub IsScheduled : Kernel → Type 0
IsScheduled k = k.dspflg ≡ true → k.p_schedtsk ≡ choose_schedtsk k

pub empty_of_head : (xs : List ℕ) → head? xs ≡ none → xs ≡ []
empty_of_head [] h = refl
empty_of_head (x ∷ xs) h = ground arith

pub head-append :
    (xs : List ℕ) (t : ℕ) → head? (xs ++ t ∷ []) ≡ (if is_null (head? xs) then some t else head? xs)
head-append [] t = refl
head-append (x ∷ xs) t = refl

-- What make_runnable does to the fields that the invariant reads.
pub make_runnable-queue :
    (k : Kernel) (t q : ℕ)
    → (make_runnable t k).queue q
      ≡ (if ready_queue (k.p_schedcb t) (k.priority t) == q then k.queue q ++ t ∷ [] else k.queue q)
unfolding make_runnable
make_runnable-queue k t q = ground arith

make_runnable-primap :
    (k : Kernel) (t s : ℕ)
    → (make_runnable t k).ready_primap s ≡ (
        if k.p_schedcb t == s
        then bit_or (k.ready_primap s) (2 ^ k.priority t)
        else k.ready_primap s)
unfolding make_runnable
make_runnable-primap k t s = ground arith

make_runnable-predtsk :
    (k : Kernel) (t s : ℕ)
    → (make_runnable t k).p_predtsk s ≡ (
        if (k.p_schedcb t == s) && precedes (k.priority t) (k.p_predtsk s) k
        then some t
        else k.p_predtsk s)
unfolding make_runnable
make_runnable-predtsk k t s = ground arith

make_runnable-same :
    (k : Kernel) (t : ℕ)
    → ((make_runnable t k).priority ≡ k.priority) × ((make_runnable t k).p_schedcb ≡ k.p_schedcb)
unfolding make_runnable
make_runnable-same k t = ground arith

make_runnable_first :
    (k : Kernel) (t s u : ℕ)
    → IsReady k s
    → k.priority t < 16
    → k.p_predtsk s ≡ none
    → (make_runnable t k).p_predtsk s ≡ some u
    → IsTop (make_runnable t k) s u
unfolding precedes
make_runnable_first k t s u v h n e =
    let same = make_runnable-same k t in
    let at = λ (p : ℕ). make_runnable-queue k t (ready_queue s p) in
    let pred = make_runnable-predtsk k t s in
    record {
      in_range = ground (arith, same, pred);
      first =
          ground
            (arith, same, pred, at ((make_runnable t k).priority u), v.none_ready n (k.priority u));
      above_empty = λ p q. ground (arith, same, pred, at p, v.none_ready n p);
    }

make_runnable-IsTop :
    (k : Kernel) (t s u w : ℕ)
    → IsTop k s w
    → k.priority t < 16
    → k.p_predtsk s ≡ some w
    → (make_runnable t k).p_predtsk s ≡ some u
    → IsTop (make_runnable t k) s u
unfolding precedes
make_runnable-IsTop k t s u w top h ew e =
    let same = make_runnable-same k t in
    let at = λ (p : ℕ). make_runnable-queue k t (ready_queue s p) in
    let pred = make_runnable-predtsk k t s in
    record {
      in_range = ground (arith, same, pred, top.in_range);
      first = ground (
        arith,
        same,
        pred,
        top.first,
        top.above_empty (k.priority t),
        at ((make_runnable t k).priority u),
        head-append (k.queue (ready_queue s (k.priority u))) t,
      );
      above_empty = λ p q. ground (arith, same, pred, at p, top.above_empty p);
    }

-- A task that becomes runnable leaves the ready queues of every scheduling unit consistent.
pub make_runnable-IsReady :
    (k : Kernel) (t s : ℕ) → IsReady k s → k.priority t < 16 → IsReady (make_runnable t k) s
make_runnable-IsReady k t s v h =
    let same = make_runnable-same k t in
    let at = λ (p : ℕ). make_runnable-queue k t (ready_queue s p) in
    record {
      width = ground (
        arith,
        make_runnable-primap k t s,
        v.width,
        bit_or-lt 16 (k.ready_primap s) (2 ^ k.priority t) v.width (pow-lt (k.priority t) 16 h),
      );
      mapped = λ p q. ground (
        arith,
        make_runnable-primap k t s,
        at p,
        v.mapped p q,
        bit-set p (k.priority t) (k.ready_primap s),
        head-append (k.queue (ready_queue s p)) t,
      );
      ours = λ p u q r.
          ground
            (arith, same, at p, v.ours p u q, has-append u (k.queue (ready_queue s p)) (t ∷ []));
      none_ready = λ e p q. elim (Option-cases (k.p_predtsk s)) [
        | inl n ↦
            unfold precedes in ground (arith, make_runnable-predtsk k t s, at p, v.none_ready n p q)
        | inr (w, ew) ↦ unfold precedes in ground (arith, make_runnable-predtsk k t s)
      ];
      top = λ u e. elim (Option-cases (k.p_predtsk s)) [
        | inl n ↦ make_runnable_first k t s u v h n e
        | inr (w, ew) ↦ make_runnable-IsTop k t s u w (v.top w ew) h ew e
      ];
    }
