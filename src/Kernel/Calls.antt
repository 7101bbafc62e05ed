-- ===== src/Kernel/Calls.antt =====
-- The results of service calls, the checks of kernel/check.h, the CPU lock and the dispatcher of
-- arch/rx_gcc/common.
use toppers_hrp3_gr_rose.Common.{
  ℕ, ◌+◌, Bool, true, false, not, ◌&&◌, ◌||◌, Option, none, some, List, leb, ◌==◌, if◌then◌else◌,
  bit_and, same_ptr,
}
use toppers_hrp3_gr_rose.Kernel.State.{Kernel, Er, wercd, p_tmevtb}

-- What a service call comes to: a result, or a task that waits and will read its result from its
-- wait information when it runs again. `fault` is a use of p_runtsk while it is NULL.
-- `returned_out` also gives what the call stores through its pointer arguments, and `exited` is a
-- call that does not return, since its task has ended.
pub data Svc : Type 0 where
  returned : Er → Kernel → Svc
  returned_out : Er → List ℕ → Kernel → Svc
  waits : ℕ → Kernel → Svc
  exited : Kernel → Svc
  fault : Svc

-- The checks at the head of a service call: the first that fails gives the result.
unfoldable pub check : Bool → Er → Kernel → Svc → Svc
check true e k rest = rest
check false e k rest = returned e k

-- VIOLATE_ACPTN. TACP_KERNEL is the pattern of the kernel domain.
abbrev pub tacp_kernel : ℕ
tacp_kernel = 0

unfoldable pub violate_acptn : ℕ → Kernel → Bool
violate_acptn acptn k = not (k.rundom == tacp_kernel) && (bit_and k.rundom acptn == 0)

abbrev pub valid_id : ℕ → ℕ → Bool
valid_id id tmax = leb 1 id && leb id tmax

unfoldable pub with_runtsk : Kernel → (ℕ → Svc) → Svc
with_runtsk k f = elim k.p_runtsk [ none ↦ fault | some me ↦ f me ]

-- The result that a task which waited reads when it runs again.
unfoldable pub resumed : ℕ → Kernel → Svc
resumed t k = elim (k.winfo t) [ wercd e ↦ returned e k | p_tmevtb _ ↦ fault ]

abbrev pub lock_cpu : Kernel → Kernel
lock_cpu k = record k { cpu_locked = true }

abbrev pub unlock_cpu : Kernel → Kernel
unlock_cpu k = record k { cpu_locked = false }

-- The dispatcher makes the task that should run the running one.
unfoldable pub dispatch : Kernel → Kernel
dispatch k = record k { p_runtsk = k.p_schedtsk }

-- `if (p_runtsk != p_schedtsk) dispatch();`
unfoldable pub dispatch_if_needed : Kernel → Kernel
unfolding dispatch
dispatch_if_needed k = if same_ptr k.p_runtsk k.p_schedtsk then k else dispatch k

-- The same where the caller may be an interrupt handler, which leaves the switch to its return.
unfoldable pub dispatch_or_request : Kernel → Kernel
unfolding dispatch_if_needed
dispatch_or_request k = if k.nontask_context then k else dispatch_if_needed k

-- CHECK_DISPATCH.
abbrev pub can_dispatch : Kernel → Bool
can_dispatch k = not (k.nontask_context || (k.cpu_locked || not k.dspflg))

-- CHECK_TSKCTX_UNL.
abbrev pub in_task_unlocked : Kernel → Bool
in_task_unlocked k = not (k.nontask_context || k.cpu_locked)

-- TSKID of the first task that waits, or TSK_NONE.
abbrev pub wait_tskid : Option ℕ → ℕ
wait_tskid none = 0
wait_tskid (some t) = t + 1
