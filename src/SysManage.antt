-- ===== src/SysManage.antt =====
-- kernel/sys_manage.c: the state of the system, and its ready queues.
use toppers_hrp3_gr_rose.Common.{
  ℕ, zero, suc, ◌-◌, ◌^◌, Option, Bool, true, false, not, ◌&&◌, ◌||◌, none, some, List, [], ◌∷◌,
  ◌==◌, if◌then◌else◌, length,
}
use toppers_hrp3_gr_rose.Kernel.{
  Kernel, Dominib, e_ok, e_ctx, e_id, e_par, e_oacv, e_macv, Svc, returned, returned_out, check,
  violate_acptn, tacp_kernel, valid_id, with_runtsk, in_task_unlocked, wait_tskid, lock_cpu,
  unlock_cpu, dispatch_if_needed, dispatch_or_request, ready_queue, schedcb_kernel, tdom_kernel,
}
use toppers_hrp3_gr_rose.Task.{rotate_ready_queue}
use toppers_hrp3_gr_rose.TaskManage.{valid_tpri}
use toppers_hrp3_gr_rose.TaskTerm.{terminate, exit_and_dispatch}
use toppers_hrp3_gr_rose.TimeManage.{ℤ, pos, negsuc}

abbrev pub tpri_self : ℕ
tpri_self = 0

-- The domain of a task.
abbrev pub dominib_of : ℕ → Kernel → Dominib
dominib_of t k = k.cfg.dominib (k.p_dominib t)

-- The priority that an argument gives, where TPRI_SELF is allowed if `self` holds.
unfoldable pub with_tpri : Bool → ℕ → Kernel → (ℕ → Svc) → Svc
with_tpri self tskpri k body =
    if (tskpri == tpri_self) && self
    then with_runtsk k (λ me. body (k.bpriority me))
    else check (valid_tpri tskpri) e_par k (body (tskpri - 1))

unfoldable pub rotate_locked : ℕ → ℕ → Kernel → Svc
rotate_locked pri s k =
    returned e_ok (unlock_cpu (dispatch_or_request (rotate_ready_queue pri s k)))

unfoldable pub rot_rdq : ℕ → Kernel → Svc
unfolding with_tpri rotate_locked
rot_rdq tskpri k = check (not k.cpu_locked) e_ctx k (
    with_tpri (not k.nontask_context) tskpri k (λ pri.
      if k.nontask_context
      then rotate_locked pri schedcb_kernel (lock_cpu k)
      else with_runtsk k (λ me.
        check (not (violate_acptn (dominib_of me k).acvct.acptn1 k)) e_oacv k
          (rotate_locked pri (k.p_schedcb me) (lock_cpu k)))))

-- get_dominib: the user domain `domid` has entry `domid`, the kernel domain entry 0.
abbrev pub get_dominib : ℕ → Kernel → Dominib
get_dominib domid k = k.cfg.dominib domid

-- The domain that a schedno names: TDOM_KERNEL is -1, TDOM_SELF is 0. `kernel_self` says whether
-- TDOM_SELF is the kernel domain while that is running.
unfoldable pub with_schedno : Bool → ℤ → Kernel → (Dominib → Svc) → Svc
with_schedno kernel_self (negsuc zero) k body = body (get_dominib 0 k)
with_schedno kernel_self (negsuc (suc n)) k body = returned e_id k
with_schedno kernel_self (pos zero) k body =
    if kernel_self && (k.rundom == tacp_kernel)
    then body (get_dominib 0 k)
    else with_runtsk k (λ me. body (dominib_of me k))
with_schedno kernel_self (pos (suc n)) k body =
    check (valid_id (suc n) k.cfg.tmax_domid) e_id k (body (get_dominib (suc n) k))

unfoldable pub mrot_rdq : ℤ → ℕ → Kernel → Svc
unfolding with_schedno with_tpri rotate_locked
mrot_rdq schedno tskpri k = check (not k.cpu_locked) e_ctx k (
    with_schedno true schedno k (λ dom. with_tpri (not k.nontask_context) tskpri k (λ pri.
      check (not (violate_acptn dom.acvct.acptn1 k)) e_oacv k
        (rotate_locked pri dom.p_schedcb (lock_cpu k)))))

unfoldable pub get_tid : Bool → Kernel → Svc
get_tid writable k =
    check (not k.cpu_locked) e_ctx k
      (check writable e_macv k (returned_out e_ok (wait_tskid k.p_runtsk ∷ []) k))

-- TDOM_NONE and TDOM_KERNEL, in the 32 bits of an ID.
abbrev tdom_none : ℕ
tdom_none = 2 ^ 32 - 2

abbrev kernel_id : ℕ
kernel_id = 2 ^ 32 - 1

-- The domain ID of a task, where the table of tasks has 0 for the kernel domain.
unfoldable domid_of : Option ℕ → Kernel → ℕ
domid_of none k = tdom_none
domid_of (some t) k =
    let domid = (k.cfg.tinib t).domid in if domid == tdom_kernel then kernel_id else domid

unfoldable pub get_did : Bool → Kernel → Svc
unfolding domid_of
get_did writable k =
    check (not k.cpu_locked) e_ctx k
      (check writable e_macv k (returned_out e_ok (domid_of k.p_runtsk k ∷ []) k))

unfoldable pub get_lod : ℕ → Bool → Kernel → Svc
unfolding with_tpri
get_lod tskpri writable k = check (in_task_unlocked k) e_ctx k (
    with_tpri true tskpri k (λ pri. check writable e_macv k (
      with_runtsk k (λ me. check (not (violate_acptn (dominib_of me k).acvct.acptn4 k)) e_oacv k (
        returned_out e_ok (length (k.queue (ready_queue (k.p_schedcb me) pri)) ∷ [])
          (unlock_cpu (lock_cpu k)))))))

unfoldable pub mget_lod : ℤ → ℕ → Bool → Kernel → Svc
unfolding with_schedno with_tpri
mget_lod schedno tskpri writable k = check (in_task_unlocked k) e_ctx k (
    with_schedno false schedno k (λ dom. with_tpri true tskpri k (λ pri. check writable e_macv k (
      check (not (violate_acptn dom.acvct.acptn4 k)) e_oacv k (
        returned_out e_ok (length (k.queue (ready_queue dom.p_schedcb pri)) ∷ [])
          (unlock_cpu (lock_cpu k)))))))

-- The loop of get_nth: TSKID of the entry `nth`, or TSK_NONE.
unfoldable pub nth_tskid : List ℕ → ℕ → ℕ
nth_tskid [] nth = 0
nth_tskid (t ∷ ts) zero = wait_tskid (some t)
nth_tskid (t ∷ ts) (suc nth) = nth_tskid ts nth

unfoldable pub get_nth : ℕ → ℕ → Bool → Kernel → Svc
unfolding with_tpri nth_tskid
get_nth tskpri nth writable k = check (in_task_unlocked k) e_ctx k (
    with_tpri true tskpri k (λ pri. check writable e_macv k (
      with_runtsk k (λ me. check (not (violate_acptn (dominib_of me k).acvct.acptn4 k)) e_oacv k (
        returned_out e_ok (nth_tskid (k.queue (ready_queue (k.p_schedcb me) pri)) nth ∷ [])
          (unlock_cpu (lock_cpu k)))))))

unfoldable pub mget_nth : ℤ → ℕ → ℕ → Bool → Kernel → Svc
unfolding with_schedno with_tpri nth_tskid
mget_nth schedno tskpri nth writable k = check (in_task_unlocked k) e_ctx k (
    with_schedno false schedno k (λ dom. with_tpri true tskpri k (λ pri. check writable e_macv k (
      check (not (violate_acptn dom.acvct.acptn4 k)) e_oacv k (
        returned_out e_ok (nth_tskid (k.queue (ready_queue dom.p_schedcb pri)) nth ∷ [])
          (unlock_cpu (lock_cpu k)))))))

unfoldable pub loc_cpu : Kernel → Svc
loc_cpu k =
    check (not (violate_acptn k.cfg.sysstat_acvct.acptn2 k)) e_oacv k
      (returned e_ok (if not k.cpu_locked then lock_cpu k else k))

unfoldable pub unl_cpu : Kernel → Svc
unl_cpu k =
    check (not (violate_acptn k.cfg.sysstat_acvct.acptn2 k)) e_oacv k
      (returned e_ok (if k.cpu_locked then unlock_cpu k else k))

unfoldable pub dis_dsp : Kernel → Svc
dis_dsp k = check (in_task_unlocked k) e_ctx k (
    check (not (violate_acptn k.cfg.sysstat_acvct.acptn1 k)) e_oacv k
      (returned e_ok (unlock_cpu (record (lock_cpu k) { enadsp = false; dspflg = false }))))

-- set_dspflg of kernel/domain.c is an argument, which is in Domain/Windows.
module _ (set_dspflg : Kernel → Kernel) where
  unfoldable pub ena_dsp_locked : ℕ → Kernel → Svc
  ena_dsp_locked me k =
      let k1 = record k { enadsp = true } in
      let k2 = set_dspflg k1 in
      if k.ipm_enaall
      then if k2.raster me && k2.enater me
        then exit_and_dispatch (terminate me k2)
        else returned e_ok (unlock_cpu (dispatch_if_needed k2))
      else returned e_ok (unlock_cpu k1)

  unfoldable pub ena_dsp : Kernel → Svc
  unfolding ena_dsp_locked
  ena_dsp k = check (in_task_unlocked k) e_ctx k (
      check (not (violate_acptn k.cfg.sysstat_acvct.acptn1 k)) e_oacv k
        (with_runtsk k (λ me. ena_dsp_locked me (lock_cpu k))))

unfoldable pub sns_ker : Kernel → Bool
sns_ker k = not k.kerflg

unfoldable pub sns_ctx : Kernel → Bool
sns_ctx k = k.nontask_context

unfoldable pub sns_loc : Kernel → Bool
sns_loc k = k.cpu_locked

unfoldable pub sns_dsp : Kernel → Bool
sns_dsp k = not k.enadsp

unfoldable pub sns_dpn : Kernel → Bool
sns_dpn k = k.nontask_context || (k.cpu_locked || not k.dspflg)
