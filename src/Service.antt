-- ===== src/Service.antt =====
-- The predicate on what a service call leaves behind: a consistent scheduler and, in a task context,
-- a running task that is the one chosen to run; and the parts that the calls share.
use toppers_hrp3_gr_rose.Common.{
  ℕ, ◌≡◌, refl, Bool, true, false, Option, none, some, arith, same_ptr, if-branch,
}
use toppers_hrp3_gr_rose.Kernel.{
  Kernel, Er, e_ctx, e_id, e_oacv, Svc, returned, returned_out, waits, exited, fault, check,
  with_runtsk, lock_cpu, unlock_cpu, dispatch, dispatch_if_needed, dispatch_or_request,
}
use toppers_hrp3_gr_rose.Task.{choose_schedtsk}
use toppers_hrp3_gr_rose.Task.Consistent.{IsConsistent, IsConsistent-cong}

-- The state that a service call leaves satisfies the predicate, and there is no fault.
unfoldable pub Leaves : (Kernel → Type 0) → Svc → Type 0
Leaves P (returned e k) = P k
Leaves P (returned_out e out k) = P k
Leaves P (waits t k) = P k
Leaves P (exited k) = P k
Leaves P fault = ⊥

pub record IsSettled (k : Kernel) : Type 0 where
  pub consistent : IsConsistent k
  pub running : k.nontask_context ≡ false → k.p_runtsk ≡ k.p_schedtsk

same_ptr-eq : (a b : Option ℕ) → same_ptr a b ≡ true → a ≡ b
same_ptr-eq none none e = refl
same_ptr-eq none (some b) e = ground arith
same_ptr-eq (some a) none e = ground arith
same_ptr-eq (some a) (some b) e = ground arith

-- The scheduler reads neither of these fields.
pub switched-IsConsistent :
    (k : Kernel) (r : Option ℕ) (l : Bool)
    → IsConsistent k
    → IsConsistent (record k { p_runtsk = r; cpu_locked = l })
unfolding choose_schedtsk
switched-IsConsistent k r l c =
    IsConsistent-cong k _ refl refl refl refl refl (λ v. v) (λ _ _ _. refl) c

pub dispatch-IsSettled : (k : Kernel) → IsConsistent k → IsSettled (unlock_cpu (dispatch k))
unfolding dispatch
dispatch-IsSettled k c = record { consistent = switched-IsConsistent k _ _ c; running = λ _. refl }

pub dispatch_if_needed-IsSettled :
    (k : Kernel) → IsConsistent k → IsSettled (unlock_cpu (dispatch_if_needed k))
unfolding dispatch_if_needed
dispatch_if_needed-IsSettled k c =
    if-branch (λ k. IsSettled (unlock_cpu k)) (same_ptr k.p_runtsk k.p_schedtsk)
      (λ e. record {
        consistent = switched-IsConsistent k _ _ c;
        running = λ _. same_ptr-eq k.p_runtsk k.p_schedtsk e;
      })
      (λ _. dispatch-IsSettled k c)

pub dispatch_or_request-IsSettled :
    (k : Kernel) → IsConsistent k → IsSettled (unlock_cpu (dispatch_or_request k))
unfolding dispatch_or_request
dispatch_or_request-IsSettled k c =
    if-branch (λ k. IsSettled (unlock_cpu k)) k.nontask_context
      (λ e. record { consistent = switched-IsConsistent k _ _ c; running = λ f. ground arith })
      (λ _. dispatch_if_needed-IsSettled k c)

pub lock-IsSettled : (k : Kernel) → IsSettled k → IsSettled (lock_cpu k)
lock-IsSettled k v = record {
  consistent = switched-IsConsistent k _ _ v.consistent;
  running = v.running;
}

pub unlock-IsSettled : (k : Kernel) → IsSettled k → IsSettled (unlock_cpu k)
unlock-IsSettled k v = record {
  consistent = switched-IsConsistent k _ _ v.consistent;
  running = v.running;
}

pub check-Leaves :
    (P : Kernel → Type 0) (b : Bool) (e : Er) (k : Kernel) (rest : Svc)
    → P k
    → (b ≡ true → Leaves P rest)
    → Leaves P (check b e k rest)
unfolding Leaves check
check-Leaves P true e k rest p h = h refl
check-Leaves P false e k rest p h = p

pub with_runtsk-Leaves :
    (P : Kernel → Type 0) (k : Kernel) (me : ℕ) (f : ℕ → Svc)
    → k.p_runtsk ≡ some me
    → Leaves P (f me)
    → Leaves P (with_runtsk k f)
unfolding with_runtsk
with_runtsk-Leaves P k me f e h = rw (e, with_runtsk) h

-- The three checks that every service call on an object makes.
pub checks-Leaves :
    (ctx : Bool) (id : Bool) (acp : Bool) (k : Kernel) (body : Svc)
    → IsSettled k
    → (ctx ≡ true → Leaves IsSettled body)
    → Leaves IsSettled (check ctx e_ctx k (check id e_id k (check acp e_oacv k body)))
checks-Leaves ctx id acp k body v h = check-Leaves IsSettled ctx e_ctx k _ v (λ c.
    check-Leaves IsSettled id e_id k _ v (λ _. check-Leaves IsSettled acp e_oacv k _ v (λ _. h c)))
