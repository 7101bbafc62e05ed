-- ===== src/System/Steady.antt =====
-- The invariant of the whole kernel: a settled scheduler and queues linked as they should be.
use toppers_hrp3_gr_rose.Common.{
  ℕ, ◌≡◌, refl, sym, subst, ap, ◌∙◌, Bool, Option, List, same_ptr, if-both,
}
use toppers_hrp3_gr_rose.Kernel.{
  Kernel, Er, Svc, check, lock_cpu, unlock_cpu, dispatch, dispatch_if_needed, dispatch_or_request,
}
use toppers_hrp3_gr_rose.Task.{choose_schedtsk}
use toppers_hrp3_gr_rose.Task.Consistent.{IsConsistent-cong}
use toppers_hrp3_gr_rose.Service.{
  Leaves, IsSettled, dispatch-IsSettled, dispatch_if_needed-IsSettled,
  dispatch_or_request-IsSettled, lock-IsSettled, unlock-IsSettled, check-Leaves,
}
use toppers_hrp3_gr_rose.System.Linked.{IsLinked}
use toppers_hrp3_gr_rose.System.Moves.{IsSound}

pub record IsSteady (k : Kernel) : Type 0 where
  pub settled : IsSettled k
  pub linked : IsLinked k.queue k.tstat

pub IsSteady-IsSound : (k : Kernel) → IsSteady k → IsSound k
IsSteady-IsSound k v = record { consistent = v.settled.consistent; linked = v.linked }

-- The fields that the invariant reads.
pub record Core : Type 0 where
  pub queue : ℕ → List ℕ
  pub tstat : ℕ → ℕ
  priority : ℕ → ℕ
  p_schedcb : ℕ → ℕ
  ready_primap : ℕ → ℕ
  p_predtsk : ℕ → Option ℕ
  p_schedtsk : Option ℕ
  dspflg : Bool
  p_twdsched : ℕ
  p_idlesched : ℕ

abbrev pub core : Kernel → Core
core k = record {
  queue = k.queue;
  tstat = k.tstat;
  priority = k.priority;
  p_schedcb = k.p_schedcb;
  ready_primap = k.ready_primap;
  p_predtsk = k.p_predtsk;
  p_schedtsk = k.p_schedtsk;
  dspflg = k.dspflg;
  p_twdsched = k.p_twdsched;
  p_idlesched = k.p_idlesched;
}

-- The kernel with the fields that the invariant reads taken from elsewhere.
abbrev with_core : Core → Kernel → Kernel
with_core c k = record k {
  queue = c.queue;
  tstat = c.tstat;
  priority = c.priority;
  p_schedcb = c.p_schedcb;
  ready_primap = c.ready_primap;
  p_predtsk = c.p_predtsk;
  p_schedtsk = c.p_schedtsk;
  dspflg = c.dspflg;
  p_twdsched = c.p_twdsched;
  p_idlesched = c.p_idlesched;
}

with_core-IsSound : (k k' : Kernel) → IsSound k → IsSound (with_core (core k) k')
unfolding choose_schedtsk
with_core-IsSound k k' s = record {
  consistent = IsConsistent-cong k _ refl refl refl refl refl (λ v. v) (λ _ _ _. refl) s.consistent;
  linked = s.linked;
}

-- A change of other fields keeps a sound kernel sound.
pub core-IsSound : (k k' : Kernel) → core k ≡ core k' → IsSound k → IsSound k'
core-IsSound k k' e s = subst (λ (c : Core). IsSound (with_core c k')) e (with_core-IsSound k k' s)

module _ (k : Kernel) (s : IsSound k) where
  pub dispatch-IsSteady : IsSteady (unlock_cpu (dispatch k))
  unfolding dispatch
  dispatch-IsSteady = record { settled = dispatch-IsSettled k s.consistent; linked = s.linked }

  pub dispatch_if_needed-IsSteady : IsSteady (unlock_cpu (dispatch_if_needed k))
  unfolding dispatch_if_needed dispatch
  dispatch_if_needed-IsSteady = record {
    settled = dispatch_if_needed-IsSettled k s.consistent;
    linked =
        if-both (λ (k' : Kernel). IsLinked k'.queue k'.tstat) (same_ptr k.p_runtsk k.p_schedtsk)
          s.linked s.linked;
  }

  pub dispatch_or_request-IsSteady : IsSteady (unlock_cpu (dispatch_or_request k))
  unfolding dispatch_or_request
  dispatch_or_request-IsSteady = record {
    settled = dispatch_or_request-IsSettled k s.consistent;
    linked =
        if-both (λ (k' : Kernel). IsLinked k'.queue k'.tstat) k.nontask_context s.linked
          dispatch_if_needed-IsSteady.linked;
  }

pub lock-IsSteady : (k : Kernel) → IsSteady k → IsSteady (lock_cpu k)
lock-IsSteady k v = record { settled = lock-IsSettled k v.settled; linked = v.linked }

pub unlock-IsSteady : (k : Kernel) → IsSteady k → IsSteady (unlock_cpu k)
unlock-IsSteady k v = record { settled = unlock-IsSettled k v.settled; linked = v.linked }

-- A change of fields that the invariant does not read keeps a steady kernel steady.
pub core-IsSteady :
    (k k' : Kernel)
    → core k ≡ core k'
    → k.p_runtsk ≡ k'.p_runtsk
    → k.nontask_context ≡ k'.nontask_context
    → IsSteady k
    → IsSteady k'
core-IsSteady k k' e same task v =
    let s = core-IsSound k k' e (IsSteady-IsSound k v) in
    record {
      settled = record {
        consistent = s.consistent;
        running = λ n.
            let sched : k.p_schedtsk ≡ k'.p_schedtsk = ap (λ (c : Core). c.p_schedtsk) e in
            sym same ∙ v.settled.running (task ∙ n) ∙ sched;
      };
      linked = s.linked;
    }

-- The checks at the head of a service call.
pub check-IsSteady :
    (a : Bool) (e : Er) (k : Kernel) (body : Svc)
    → IsSteady k
    → Leaves IsSteady body
    → Leaves IsSteady (check a e k body)
check-IsSteady a e k body v h = check-Leaves IsSteady a e k body v (λ _. h)

pub check3-IsSteady :
    (a b c : Bool) (e f g : Er) (k : Kernel) (body : Svc)
    → IsSteady k
    → Leaves IsSteady body
    → Leaves IsSteady (check a e k (check b f k (check c g k body)))
check3-IsSteady a b c e f g k body v h =
    check-IsSteady a e k _ v (check-IsSteady b f k _ v (check-IsSteady c g k body v h))
