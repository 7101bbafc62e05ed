-- ===== src/System/Interrupts.antt =====
-- The entry of an interrupt handler and the return from it, of
-- arch/rx_gcc/common/core_support.S, over steady kernels.
use toppers_hrp3_gr_rose.Common.{
  ◌≡◌, refl, ℕ, Option, none, some, true, false, not, arith, if◌then◌else◌, if-both,
}
use toppers_hrp3_gr_rose.Kernel.{Kernel, dispatch_if_needed, unlock_cpu, tacp_kernel}
use toppers_hrp3_gr_rose.Domain.{twdtimer_start, twdtimer_stop, twdtimer_control, in_kernel_domain}
use toppers_hrp3_gr_rose.System.Moves.{IsSound}
use toppers_hrp3_gr_rose.System.Steady.{
  IsSteady, IsSteady-IsSound, core-IsSound, core-IsSteady, dispatch_if_needed-IsSteady,
}

-- The entry. In a task context, the timer of the time window stops while the handler runs.
unfoldable pub enter_interrupt : Kernel → Kernel
unfolding twdtimer_stop
enter_interrupt k =
    if k.nontask_context
    then k
    else (let k1 = if k.twd.twdtimer_enable then twdtimer_stop k else k in
        record k1 { nontask_context = true; rundom = tacp_kernel })

-- The timer of the time window runs while no task does, and otherwise as the domain of the task asks.
unfoldable switch_twdtimer : Option ℕ → Kernel → Kernel
unfolding twdtimer_start twdtimer_control
switch_twdtimer none k = twdtimer_start k
switch_twdtimer (some t) k = twdtimer_control k

-- The return from the outermost handler, with the domain that the stack of the task to run has.
unfoldable pub leave_interrupt : ℕ → Kernel → Kernel
unfolding switch_twdtimer dispatch_if_needed
leave_interrupt rundom k =
    let k1 = dispatch_if_needed (record k { nontask_context = false }) in
    let k2 = unlock_cpu (record k1 { rundom = rundom }) in
    if k2.twd.twdtimer_enable then switch_twdtimer k2.p_runtsk k2 else k2

-- In an interrupt handler, the running task need not be the one to run.
pub handler-IsSteady : (k : Kernel) → k.nontask_context ≡ true → IsSound k → IsSteady k
handler-IsSteady k h s = record {
  settled = record { consistent = s.consistent; running = λ n. ground (arith, h) };
  linked = s.linked;
}

pub enter_interrupt-IsSteady : (k : Kernel) → IsSteady k → IsSteady (enter_interrupt k)
unfolding enter_interrupt twdtimer_stop
enter_interrupt-IsSteady k v =
    let s = IsSteady-IsSound k v in
    let Entered =
      λ (k' : Kernel). IsSteady (record k' { nontask_context = true; rundom = tacp_kernel }) in
    let same : Entered k = handler-IsSteady _ refl (core-IsSound k _ refl s) in
    if-both IsSteady k.nontask_context v (
      if-both Entered k.twd.twdtimer_enable
        (if-both Entered k.twd.twdtimer_flag (handler-IsSteady _ refl (core-IsSound k _ refl s))
          same)
        same)

switch_twdtimer-IsSteady : (p : Option ℕ) (k : Kernel) → IsSteady k → IsSteady (switch_twdtimer p k)
unfolding switch_twdtimer twdtimer_control twdtimer_start twdtimer_stop
switch_twdtimer-IsSteady none k v =
    if-both IsSteady (not k.twd.twdtimer_flag) (core-IsSteady k _ refl refl refl v) v
switch_twdtimer-IsSteady (some t) k v =
    if-both IsSteady (not (in_kernel_domain k.p_runtsk k))
      (if-both IsSteady (not k.twd.twdtimer_flag) (core-IsSteady k _ refl refl refl v) v)
      (if-both IsSteady k.twd.twdtimer_flag (core-IsSteady k _ refl refl refl v) v)

pub leave_interrupt-IsSteady :
    (rundom : ℕ) (k : Kernel) → IsSteady k → IsSteady (leave_interrupt rundom k)
unfolding leave_interrupt
leave_interrupt-IsSteady rundom k v =
    let k1 = dispatch_if_needed (record k { nontask_context = false }) in
    let k2 = unlock_cpu (record k1 { rundom = rundom }) in
    let v1 =
      dispatch_if_needed-IsSteady (record k { nontask_context = false })
        (core-IsSound k _ refl (IsSteady-IsSound k v)) in
    let v2 : IsSteady k2 = core-IsSteady (unlock_cpu k1) k2 refl refl refl v1 in
    if-both IsSteady k2.twd.twdtimer_enable (switch_twdtimer-IsSteady k2.p_runtsk k2 v2) v2
