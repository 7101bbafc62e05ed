-- ===== src/Task/Rotate.antt =====
-- rotate_ready_queue of kernel/task.c keeps the scheduler consistent.
use toppers_hrp3_gr_rose.Common.{
  ℕ, ◌+◌, ◌<◌, ◌≡◌, refl, sym, subst, ap, ◌∙◌, inl, inr, Bool, true, false, not, Option, none, some,
  List, [], ◌∷◌, ◌++◌, arith, ◌==◌, ==_ne, ==_refl, has, has-append, update, update_self, fun_ext,
  same_ptr, is_null, if◌then◌else◌, if-branch, Bool-cases, ltb,
}
use mathlib.Core.Option.{some-injective}
use toppers_hrp3_gr_rose.Kernel.{Kernel, ready_queue, head?, tail, queue_insert_prev, queue_empty}
use toppers_hrp3_gr_rose.Task.{choose_schedtsk, set_predtsk, rotate_entries, rotate_ready_queue}
use toppers_hrp3_gr_rose.Task.Ready.{IsTop, IsScheduled}
use toppers_hrp3_gr_rose.Task.Consistent.{IsConsistent}

same_ptr-eq : (p : Option ℕ) (e : ℕ) → same_ptr p (some e) ≡ true → p ≡ some e
same_ptr-eq none e h = ground arith
same_ptr-eq (some x) e h = ground arith

unequal : (x y : ℕ) → x ≡ y → (x == y) ≡ false → ⊥
unequal x y same other = ground arith

update_twice : (g : ℕ → List ℕ) (q : ℕ) (a b : List ℕ) → update (update g q a) q b ≡ update g q b
update_twice g q a b = fun_ext (λ j. ground arith)

clash : (t e : ℕ) → t ≡ e → same_ptr (some t) (some e) ≡ false → ⊥
clash t e q n = ground arith

not_empty : (x : ℕ) (xs : List ℕ) → x ∷ xs ≡ [] → ⊥
not_empty x xs h = ground arith

empty_of_null : (xs : List ℕ) → is_null (head? xs) ≡ true → xs ≡ []
empty_of_null [] h = refl
empty_of_null (x ∷ xs) h = ground arith

module _ (k : Kernel) (s pri e f : ℕ) (rest : List ℕ) (c : IsConsistent k) (range : pri < 16)
    (at : k.queue (ready_queue s pri) ≡ e ∷ f ∷ rest) where
  -- The queue with its first entry moved to its end.
  abbrev rotated : Kernel
  rotated = record k { queue = update k.queue (ready_queue s pri) (f ∷ rest ++ e ∷ []) }

  rotated-member :
      (u p t : ℕ)
      → p < 16
      → has t (rotated.queue (ready_queue u p)) ≡ has t (k.queue (ready_queue u p))
  rotated-member u p t r =
      if-branch (λ (q : List ℕ). has t q ≡ has t (k.queue (ready_queue u p)))
        (ready_queue s pri == ready_queue u p)
        (λ e1.
          let same : ready_queue s pri ≡ ready_queue u p = ground arith in
          subst (λ (a : ℕ). has t (f ∷ rest ++ e ∷ []) ≡ has t (k.queue a)) same
            (rw at (ground (arith, has-append t (f ∷ rest) (e ∷ [])))))
        (λ _. refl)

  rotated_empty :
      (u p : ℕ) → queue_empty (ready_queue u p) rotated ≡ queue_empty (ready_queue u p) k
  rotated_empty u p =
      if-branch (λ (q : List ℕ). is_null (head? q) ≡ is_null (head? (k.queue (ready_queue u p))))
        (ready_queue s pri == ready_queue u p)
        (λ e1.
          let same : ready_queue s pri ≡ ready_queue u p = ground arith in
          subst (λ (a : ℕ). false ≡ is_null (head? (k.queue a))) same (rw at refl))
        (λ _. refl)

  -- The other queues.
  rotated_other :
      (u p : ℕ)
      → (ready_queue s pri == ready_queue u p) ≡ false
      → rotated.queue (ready_queue u p) ≡ k.queue (ready_queue u p)
  rotated_other u p h = rw h refl

  -- A task of highest precedence that stays so.
  keep-IsTop : (u t : ℕ) → IsTop k u t → (s ≡ u → k.priority t < pri) → IsTop rotated u t
  keep-IsTop u t v above =
      let other = λ (p : ℕ) (h : p < k.priority t + 1). rotated_other u p (
        ==_ne (ready_queue s pri) (ready_queue u p) (λ e1.
          let same : s ≡ u = omega (arith, v.in_range) in
          let lower = above same in omega (arith, v.in_range))) in
      record {
        in_range = v.in_range;
        first = rw (other (k.priority t) (omega arith)) v.first;
        above_empty = λ p h. other p (omega arith) ∙ v.above_empty p h;
      }

  second : (k.priority f ≡ pri) × (k.p_schedcb f ≡ s)
  second = (c.ready s).ours pri f range (rw at (ground arith))

  first_priority : k.priority e ≡ pri
  first_priority = ((c.ready s).ours pri e range (rw at (ground arith))).0

  -- The second task takes the place of the first.
  second-IsTop : k.p_predtsk s ≡ some e → IsTop rotated s f
  second-IsTop h =
      let v = (c.ready s).top e h in
      record {
        in_range = c.priorities f;
        first = rw (second.0) (rw (==_refl (ready_queue s pri)) refl);
        above_empty = λ p l.
            rotated_other s p
              (==_ne (ready_queue s pri) (ready_queue s p) (λ e1. omega (arith, second.0)))
            ∙ v.above_empty p (omega (arith, second.0, first_priority));
      }

  -- Where the first task was not the one of highest precedence, that one comes before it.
  higher :
      (u t : ℕ)
      → k.p_predtsk u ≡ some t
      → same_ptr (k.p_predtsk s) (some e) ≡ false
      → s ≡ u
      → k.priority t < pri
  higher u t h n same =
      let h1 : k.p_predtsk s ≡ some t = ap k.p_predtsk same ∙ h in
      let v = (c.ready s).top t h1 in
      elim (Bool-cases (ltb (k.priority t) pri)) [
        | inl lower ↦ ground arith
        | inr l ↦ elim (Bool-cases (k.priority t == pri)) [
          | inl q ↦
              let level : k.priority t ≡ pri = ground arith in
              let head : head? (k.queue (ready_queue s pri)) ≡ some t =
                subst (λ (p : ℕ). head? (k.queue (ready_queue s p)) ≡ some t) level v.first in
              let is_first : e ≡ t =
                some-injective e t (sym (ap (λ (q : List ℕ). head? q) at) ∙ head) in
              absurd
                (clash t e (sym is_first) (ap (λ (p : Option ℕ). same_ptr p (some e)) (sym h1) ∙ n))
          | inr q ↦ absurd (not_empty e (f ∷ rest) (sym at ∙ v.above_empty pri (ground arith)))
        ]
      ]

  module _ (pred : ℕ → Option ℕ) (sched : Option ℕ)
      (none_pred : (u : ℕ) → pred u ≡ none → k.p_predtsk u ≡ none)
      (tops : (u t : ℕ) → pred u ≡ some t → IsTop rotated u t)
      (chosen : IsScheduled (record rotated { p_predtsk = pred; p_schedtsk = sched })) where
    rotated-IsConsistent : IsConsistent (record rotated { p_predtsk = pred; p_schedtsk = sched })
    rotated-IsConsistent = record {
      ready = λ u. record {
        width = (c.ready u).width;
        mapped = λ p r. (c.ready u).mapped p r ∙ ap (λ (b : Bool). not b) (sym (rotated_empty u p));
        ours = λ p t r h. (c.ready u).ours p t r (sym (rotated-member u p t r) ∙ h);
        none_ready = λ h p r.
            empty_of_null (rotated.queue (ready_queue u p))
              (rotated_empty u p ∙ rw ((c.ready u).none_ready (none_pred u h) p r) refl);
        top = λ t h.
            let v = tops u t h in
            record { in_range = v.in_range; first = v.first; above_empty = v.above_empty };
      };
      priorities = c.priorities;
      scheduled = chosen;
      in_ready = λ u p t r h. c.in_ready u p t r (sym (rotated-member u p t r) ∙ h);
    }

  replaced-IsTop :
      (u t : ℕ)
      → k.p_predtsk s ≡ some e
      → update k.p_predtsk s (some f) u ≡ some t
      → IsTop rotated u t
  replaced-IsTop u t h h1 = elim (Bool-cases (s == u)) [
    | inl same ↦
        let unit : s ≡ u = ground arith in
        let task : f ≡ t = some-injective f t (sym (rw same refl) ∙ h1) in
        subst (λ (u : ℕ). IsTop rotated u t) unit
          (subst (λ (t : ℕ). IsTop rotated s t) task (second-IsTop h))
    | inr other ↦
        let old : k.p_predtsk u ≡ some t = sym (rw other refl) ∙ h1 in
        keep-IsTop u t ((c.ready u).top t old) (λ same. absurd (unequal s u same other))
  ]

  moved :
      queue_insert_prev (ready_queue s pri) e (record k {
        queue = update k.queue (ready_queue s pri) (tail (k.queue (ready_queue s pri)));
      })
      ≡ rotated
  unfolding queue_insert_prev
  moved =
      let q = ready_queue s pri in
      let queues : update (update k.queue q (tail (k.queue q))) q
            (update k.queue q (tail (k.queue q)) q ++ e ∷ [])
          ≡ update k.queue q (f ∷ rest ++ e ∷ []) =
        rw (update_self k.queue q (tail (k.queue q)), at)
          (update_twice k.queue q (f ∷ rest) (f ∷ rest ++ e ∷ [])) in
      ap (λ (r : ℕ → List ℕ). record k { queue = r }) queues

  -- The first task of the queue takes the place of `e` as the one of highest precedence.
  abbrev advanced : Kernel → Kernel
  advanced k1 =
      if same_ptr (k1.p_predtsk s) (some e)
      then set_predtsk s (head? (k1.queue (ready_queue s pri))) k1
      else k1

  -- What rotate_ready_queue does to such a queue.
  rotate_two :
      rotate_ready_queue pri s k
      ≡ (if same_ptr (k.p_predtsk s) (some e) then set_predtsk s (some f) rotated else rotated)
  unfolding rotate_ready_queue rotate_entries
  rotate_two =
      let q = ready_queue s pri in
      let before =
        queue_insert_prev q e (record k { queue = update k.queue q (tail (k.queue q)) }) in
      let start : rotate_ready_queue pri s k ≡ advanced before =
        ap (λ (xs : List ℕ). rotate_entries xs pri s k) at in
      start ∙ ap advanced moved ∙ rw (==_refl q) refl

  rotate-IsConsistent : IsConsistent (rotate_ready_queue pri s k)
  unfolding set_predtsk choose_schedtsk
  rotate-IsConsistent = rw (rotate_two) (
      if-branch IsConsistent (same_ptr (k.p_predtsk s) (some e))
        (λ h.
          rotated-IsConsistent (update k.p_predtsk s (some f)) _ (λ u n. ground arith)
            (λ u t h1. replaced-IsTop u t (same_ptr-eq (k.p_predtsk s) e h) h1) (λ d. rw d refl))
        (λ h.
          rotated-IsConsistent k.p_predtsk k.p_schedtsk (λ u n. n)
            (λ u t h1. keep-IsTop u t ((c.ready u).top t h1) (higher u t h1 h)) c.scheduled))

rotate_by_queue :
    (pri s : ℕ) (k : Kernel)
    → pri < 16
    → IsConsistent k
    → (q : List ℕ) → k.queue (ready_queue s pri) ≡ q
    → IsConsistent (rotate_ready_queue pri s k)
unfolding rotate_ready_queue rotate_entries
rotate_by_queue pri s k range c [] h =
    subst (λ (xs : List ℕ). IsConsistent (rotate_entries xs pri s k)) (sym h) c
rotate_by_queue pri s k range c (e ∷ []) h =
    subst (λ (xs : List ℕ). IsConsistent (rotate_entries xs pri s k)) (sym h) c
rotate_by_queue pri s k range c (e ∷ f ∷ rest) h = rotate-IsConsistent k s pri e f rest c range h

-- rotate_ready_queue, for one of the 16 priorities, keeps the scheduler consistent: whether the
-- ready queue is empty, has one task, or has its first task moved to its end, also where that was
-- the task of highest precedence.
pub rotate_ready_queue-IsConsistent :
    (pri s : ℕ) (k : Kernel) → pri < 16 → IsConsistent k → IsConsistent (rotate_ready_queue pri s k)
rotate_ready_queue-IsConsistent pri s k range c =
    rotate_by_queue pri s k range c (k.queue (ready_queue s pri)) refl
