-- ===== src/Task/Consistent.antt =====
-- The invariant of the scheduler, and the transitions that begin and end the runnable state.
use toppers_hrp3_gr_rose.Common.{
  ℕ, ◌<◌, ◌≡◌, refl, true, [], ◌∷◌, arith, update, has, has-append, has-erase,
}
use toppers_hrp3_gr_rose.Kernel.{Kernel, ready_queue, ts_runnable}
use toppers_hrp3_gr_rose.Task.{make_runnable, make_non_runnable, choose_schedtsk}
use toppers_hrp3_gr_rose.Task.Ready.{
  IsReady, IsScheduled, make_runnable-IsReady, make_runnable-queue,
}
use toppers_hrp3_gr_rose.Task.Fields.{make_non_runnable-queue}
use toppers_hrp3_gr_rose.Task.Remove.{make_non_runnable-IsReady}

-- The ready queues of every scheduling unit are consistent, the task to run is the one that the
-- scheduling rule chooses, and every task in a ready queue is in the runnable state.
pub record IsConsistent (k : Kernel) : Type 0 where
  pub ready : (s : ℕ) → IsReady k s
  pub priorities : (t : ℕ) → k.priority t < 16
  pub scheduled : IsScheduled k
  pub in_ready :
      (s p t : ℕ) → p < 16 → has t (k.queue (ready_queue s p)) ≡ true → k.tstat t ≡ ts_runnable

-- The invariant reads no more than these fields.
pub IsReady-cong :
    (k k' : Kernel) (s : ℕ)
    → k'.priority ≡ k.priority
    → k'.p_schedcb ≡ k.p_schedcb
    → k'.ready_primap ≡ k.ready_primap
    → k'.p_predtsk ≡ k.p_predtsk
    → ((p : ℕ) → p < 16 → k'.queue (ready_queue s p) ≡ k.queue (ready_queue s p))
    → IsReady k s
    → IsReady k' s
IsReady-cong k k' s pri scb map pred qs v = record {
  width = ground (arith, v.width);
  mapped = λ p q. ground (arith, v.mapped p q, qs p q);
  ours = λ p t q r. ground (arith, v.ours p t q, qs p q);
  none_ready = λ e p q. ground (arith, v.none_ready (ground arith) p q, qs p q);
  top = λ t e.
      let top = v.top t (ground arith) in
      record {
        in_range = ground (arith, top.in_range);
        first = ground (arith, top.first, top.in_range, qs (k.priority t));
        above_empty = λ p q. ground (arith, top.in_range, top.above_empty p, qs p);
      };
}

pub make_runnable-tstat :
    (k : Kernel) (t : ℕ)
    → ((make_runnable t k).tstat ≡ k.tstat) × ((make_runnable t k).priority ≡ k.priority)
unfolding make_runnable
make_runnable-tstat k t = ground arith

pub make_non_runnable-tstat :
    (k : Kernel) (t : ℕ)
    → ((make_non_runnable t k).tstat ≡ k.tstat) × ((make_non_runnable t k).priority ≡ k.priority)
unfolding make_non_runnable
make_non_runnable-tstat k t = ground arith

make_runnable-IsScheduled : (k : Kernel) (t : ℕ) → IsScheduled k → IsScheduled (make_runnable t k)
unfolding make_runnable choose_schedtsk
make_runnable-IsScheduled k t v e = ground arith

make_non_runnable-IsScheduled :
    (k : Kernel) (t : ℕ) → IsScheduled k → IsScheduled (make_non_runnable t k)
unfolding make_non_runnable choose_schedtsk
make_non_runnable-IsScheduled k t v e = ground arith

-- IsReady does not read the task states.
retag-IsReady :
    (k : Kernel) (t v s : ℕ) → IsReady k s → IsReady (record k { tstat = update k.tstat t v }) s
retag-IsReady k t v s r = IsReady-cong k _ s refl refl refl refl (λ _ _. refl) r

module _ (k : Kernel) (t : ℕ) (c : IsConsistent k) where
  -- From a consistent scheduler, marking a task as runnable and make_runnable give a consistent
  -- scheduler again: in every scheduling unit the bitmap, the ready queues and the task of highest
  -- precedence agree, the task to run is the one that the rule chooses, and the ready tasks are
  -- runnable.
  pub make_runnable-IsConsistent :
      IsConsistent (make_runnable t (record k { tstat = update k.tstat t ts_runnable }))
  unfolding choose_schedtsk
  make_runnable-IsConsistent =
      let k' = record k { tstat = update k.tstat t ts_runnable } in
      let same = make_runnable-tstat k' t in
      record {
        ready =
            λ s. make_runnable-IsReady k' t s (retag-IsReady k t _ s (c.ready s)) (c.priorities t);
        priorities = λ u. ground (arith, same, c.priorities u);
        scheduled = make_runnable-IsScheduled k' t c.scheduled;
        in_ready = λ s p u q r. ground (
          arith,
          same,
          make_runnable-queue k' t (ready_queue s p),
          has-append u (k.queue (ready_queue s p)) (t ∷ []),
          c.in_ready s p u q,
        );
      }

  -- From a consistent scheduler, giving a task any other state and make_non_runnable give a
  -- consistent scheduler again, also where the task was the only one of its priority or the one of
  -- highest precedence.
  pub make_non_runnable-IsConsistent :
      (v : ℕ) → IsConsistent (make_non_runnable t (record k { tstat = update k.tstat t v }))
  unfolding choose_schedtsk
  make_non_runnable-IsConsistent v =
      let k' = record k { tstat = update k.tstat t v } in
      let same = make_non_runnable-tstat k' t in
      record {
        ready = λ s.
            make_non_runnable-IsReady k' t s (retag-IsReady k t v s (c.ready s)) (c.priorities t);
        priorities = λ u. ground (arith, same, c.priorities u);
        scheduled = make_non_runnable-IsScheduled k' t c.scheduled;
        in_ready = λ s p u q r. ground (
          arith,
          same,
          make_non_runnable-queue k' t (ready_queue s p),
          has-erase t u (k.queue (ready_queue s p)),
          c.in_ready s p u q,
        );
      }

-- The invariant reads no more than these fields.
pub IsConsistent-cong :
    (k k' : Kernel)
    → k'.priority ≡ k.priority
    → k'.p_schedcb ≡ k.p_schedcb
    → k'.ready_primap ≡ k.ready_primap
    → k'.p_predtsk ≡ k.p_predtsk
    → k'.tstat ≡ k.tstat
    → (IsScheduled k → IsScheduled k')
    → ((s p : ℕ) → p < 16 → k'.queue (ready_queue s p) ≡ k.queue (ready_queue s p))
    → IsConsistent k
    → IsConsistent k'
IsConsistent-cong k k' pri scb map pred st sch qs c = record {
  ready = λ s. IsReady-cong k k' s pri scb map pred (qs s) (c.ready s);
  priorities = λ t. ground (arith, c.priorities t);
  scheduled = sch c.scheduled;
  in_ready = λ s p t q r. ground (arith, c.in_ready s p t q, qs s p q);
}
