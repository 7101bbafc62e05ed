-- ===== src/System/Steps.antt =====
-- The steps of the kernel: service calls of the running task, interrupts of the task contexts,
-- service calls of interrupt handlers, and waits that end with their time.
use toppers_hrp3_gr_rose.Common.{
  ℕ, ◌%◌, ◌<◌, ◌≤◌, ◌≡◌, subst, ◌∙◌, ◌⊎◌, inl, inr, ◌==◌, Option-cases, Bool-cases, ◌≢◌, true,
  false, Option, none, some, arith, has,
}
use mathlib.Core.Option.{some-injective}
use toppers_hrp3_gr_rose.Kernel.{
  ts_runnable, Kernel, Svc, returned, returned_out, waits, exited, fault, ready_queue,
  schedcb_kernel, tstat_waiting, tstat_wait_wobj,
}
use toppers_hrp3_gr_rose.Task.{choose_schedtsk}
use toppers_hrp3_gr_rose.Task.Schedule.{choose_schedtsk_best, choose_schedtsk-none}
use toppers_hrp3_gr_rose.Wait.{wait_tmout, wait_tmout_ok}
use toppers_hrp3_gr_rose.Messagebuf.{messagebuf_dequeue_wobj}
use toppers_hrp3_gr_rose.SysManage.{rot_rdq}
use toppers_hrp3_gr_rose.Service.{Leaves}
use toppers_hrp3_gr_rose.System.Moves.{ready-runnable}
use toppers_hrp3_gr_rose.System.Messages.{wait_tmout-IsSound, wait_tmout_ok-IsSound}
use toppers_hrp3_gr_rose.System.Contexts.{wait_tmout-context, wait_tmout_ok-context}
use toppers_hrp3_gr_rose.System.Manage.{rot_rdq-IsSteady}
use toppers_hrp3_gr_rose.System.Steady.{IsSteady, IsSteady-IsSound}
use toppers_hrp3_gr_rose.System.Interrupts.{
  enter_interrupt, leave_interrupt, handler-IsSteady, enter_interrupt-IsSteady,
  leave_interrupt-IsSteady,
}
use toppers_hrp3_gr_rose.System.Calls.{Call, perform, perform-IsSteady}
use toppers_hrp3_gr_rose.System.Handlers.{perform_in_handler-IsSteady}

-- The state that a call leaves, where it does not fault.
unfoldable pub state_after : Svc → Option Kernel
state_after (returned e k) = some k
state_after (returned_out e out k) = some k
state_after (waits t k) = some k
state_after (exited k) = some k
state_after fault = none

-- A callback of the time events runs in an interrupt handler, for a task that waits: the event of a
-- task is registered only while it does.
pub data Step : Kernel → Kernel → Type 0 where
  by_call :
      (c : Call) (me : ℕ) (k k' : Kernel)
      → k.p_runtsk ≡ some me
      → state_after (perform c k) ≡ some k'
      → Step k k'
  by_rotation :
      (tskpri me : ℕ) (k k' : Kernel)
      → k.p_runtsk ≡ some me
      → k.bpriority me < 16
      → state_after (rot_rdq tskpri k) ≡ some k'
      → Step k k'
  by_handler :
      (c : Call) (k k' : Kernel)
      → k.nontask_context ≡ true
      → state_after (perform c k) ≡ some k'
      → Step k k'
  by_entry : (k : Kernel) → Step k (enter_interrupt k)
  by_return : (rundom : ℕ) (k : Kernel) → Step k (leave_interrupt rundom k)
  by_timeout :
      (t : ℕ) (k : Kernel)
      → k.nontask_context ≡ true
      → tstat_waiting (k.tstat t) ≡ true
      → Step k (wait_tmout messagebuf_dequeue_wobj t k)
  by_delay :
      (t : ℕ) (k : Kernel)
      → k.nontask_context ≡ true
      → tstat_waiting (k.tstat t) ≡ true
      → tstat_wait_wobj (k.tstat t) ≡ false
      → Step k (wait_tmout_ok t k)

-- The states that the steps reach.
pub data Reach (k0 : Kernel) : Kernel → Type 0 where
  start : Reach k0 k0
  next : (k k' : Kernel) → Reach k0 k → Step k k' → Reach k0 k'

after-IsSteady : (r : Svc) (k : Kernel) → Leaves IsSteady r → state_after r ≡ some k → IsSteady k
unfolding state_after Leaves
after-IsSteady (returned e k1) k v h = subst IsSteady (some-injective k1 k h) v
after-IsSteady (returned_out e out k1) k v h = subst IsSteady (some-injective k1 k h) v
after-IsSteady (waits t k1) k v h = subst IsSteady (some-injective k1 k h) v
after-IsSteady (exited k1) k v h = subst IsSteady (some-injective k1 k h) v
after-IsSteady fault k v h = absurd v

pub Step-IsSteady : (k k' : Kernel) → Step k k' → IsSteady k → IsSteady k'
Step-IsSteady _ _ (by_call c me k k' run e) v =
    after-IsSteady (perform c k) k' (perform-IsSteady c k me v run) e
Step-IsSteady _ _ (by_rotation tskpri me k k' run base e) v =
    after-IsSteady (rot_rdq tskpri k) k' (rot_rdq-IsSteady tskpri me k v run base) e
Step-IsSteady _ _ (by_handler c k k' h e) v =
    after-IsSteady (perform c k) k' (perform_in_handler-IsSteady k v h c) e
Step-IsSteady _ _ (by_entry k) v = enter_interrupt-IsSteady k v
Step-IsSteady _ _ (by_return rundom k) v = leave_interrupt-IsSteady rundom k v
Step-IsSteady _ _ (by_timeout t k h w) v =
    handler-IsSteady _ (wait_tmout-context k t ∙ h)
      (wait_tmout-IsSound k t (IsSteady-IsSound k v) w)
Step-IsSteady _ _ (by_delay t k h w o) v =
    handler-IsSteady _ (wait_tmout_ok-context k t ∙ h)
      (wait_tmout_ok-IsSound k t (IsSteady-IsSound k v) w o)

-- A kernel that is reached from a steady one is steady, over any sequence of the steps: the
-- running task makes one of the 49 service calls of the list or rot_rdq; an interrupt handler is
-- entered, makes one of the 49 calls, or returns; and a wait or a delay ends with its time, in a
-- handler. A wait ends only for a task that waits, a delay only for one that waits for no object,
-- and a task calls rot_rdq with one of the 16 priorities as its base priority.
pub Reach-IsSteady : (k0 k : Kernel) → IsSteady k0 → Reach k0 k → IsSteady k
Reach-IsSteady k0 _ v start = v
Reach-IsSteady k0 _ v (next k k' r s) = Step-IsSteady k k' s (Reach-IsSteady k0 k v r)

-- In every kernel that is reached from a steady one, in a task context with dispatching enabled,
-- where a task of the kernel domain or of the domain of the time window is in a ready queue, there
-- is a running task, and its priority is at least as high as that of the ready task.
pub Reach-runs_best :
    (k0 k : Kernel) (s p u : ℕ)
    → IsSteady k0
    → Reach k0 k
    → k.nontask_context ≡ false
    → k.dspflg ≡ true
    → (s ≡ schedcb_kernel) ⊎ (s ≡ k.p_twdsched)
    → p < 16
    → has u (k.queue (ready_queue s p)) ≡ true
    → (t : ℕ) × ((k.p_runtsk ≡ some t) × (k.priority t ≤ k.priority u))
Reach-runs_best k0 k s p u v0 r task enabled unit range ready =
    let v = Reach-IsSteady k0 k v0 r in
    let c = v.settled.consistent in
    let runs : k.p_runtsk ≡ choose_schedtsk k = v.settled.running task ∙ c.scheduled enabled in
    elim (Option-cases (choose_schedtsk k)) [
      | inl none_chosen ↦
          let empty = choose_schedtsk-none k p c none_chosen range in
          absurd (elim unit [ inl at ↦ ground (arith, empty) | inr at ↦ ground (arith, empty) ])
      | inr (t, chosen) ↦
          let best = (choose_schedtsk_best k t c chosen).0 in
          (
            t,
            (
              runs ∙ chosen,
              elim unit [
                | inl at ↦ ground (arith, best.0 p u)
                | inr at ↦ ground (arith, best.1 p u)
              ],
            ),
          )
    ]

-- In every kernel that is reached from a steady one, two queues with the same task are the same
-- queue: where that is a ready queue the task is runnable, and where it is the queue of an object
-- the task waits for an object.
pub Reach-one_queue :
    (k0 k : Kernel) (t q r : ℕ)
    → IsSteady k0
    → Reach k0 k
    → has t (k.queue q) ≡ true
    → has t (k.queue r) ≡ true
    → (q ≡ r)
      × (((q % 16 ≡ 0) × (k.tstat t ≡ ts_runnable))
          ⊎ ((q % 16 ≢ 0) × (tstat_wait_wobj (k.tstat t) ≡ true)))
Reach-one_queue k0 k t q r v0 reach here there =
    let v = Reach-IsSteady k0 k v0 reach in
    (
      v.linked.once q r t here there,
      elim (Bool-cases (q % 16 == 0)) [
        | inl e ↦
            let ready : q % 16 ≡ 0 = ground arith in
            inl (ready, ready-runnable k q t (IsSteady-IsSound k v) ready here)
        | inr e ↦
            let object : q % 16 ≢ 0 = λ z. ground arith in
            inr (object, v.linked.waiting q t object here)
      ],
    )
