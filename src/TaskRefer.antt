-- ===== src/TaskRefer.antt =====
-- kernel/task_refer.c: the state of a task, as ref_tsk reports it.
use toppers_hrp3_gr_rose.Common.{
  ℕ, ◌+◌, ◌/◌, Bool, true, not, List, [], ◌∷◌, ◌++◌, none, some, ◌==◌, if◌then◌else◌, bit_and,
}
use toppers_hrp3_gr_rose.TimeEvent.{Tmevt, tmevt_lefttim}
use toppers_hrp3_gr_rose.Kernel.{
  Kernel, Winfo, wercd, p_tmevtb, e_ok, e_ctx, e_oacv, e_macv, Svc, returned_out, check,
  violate_acptn, in_task_unlocked, lock_cpu, unlock_cpu, tstat_dormant, tstat_waiting,
  ts_waiting_mask, ts_waiting_slp, ts_waiting_dly, ts_waiting_sem, ts_waiting_flg, ts_waiting_sdtq,
  ts_waiting_rdtq, ts_waiting_spdq, ts_waiting_rpdq, ts_waiting_mtx, ts_waiting_smbf,
  ts_waiting_rmbf, ts_waiting_mpf,
}
use toppers_hrp3_gr_rose.Wait.{tmo_fevr}
use toppers_hrp3_gr_rose.TaskSync.{with_task}
use toppers_hrp3_gr_rose.TaskManage.{tskstat}

abbrev ttw_slp : ℕ
ttw_slp = 0x0001

abbrev ttw_dly : ℕ
ttw_dly = 0x0002

abbrev ttw_sem : ℕ
ttw_sem = 0x0004

abbrev ttw_flg : ℕ
ttw_flg = 0x0008

abbrev ttw_sdtq : ℕ
ttw_sdtq = 0x0010

abbrev ttw_rdtq : ℕ
ttw_rdtq = 0x0020

abbrev ttw_spdq : ℕ
ttw_spdq = 0x0100

abbrev ttw_rpdq : ℕ
ttw_rpdq = 0x0200

abbrev ttw_mtx : ℕ
ttw_mtx = 0x0080

abbrev ttw_smbf : ℕ
ttw_smbf = 0x0400

abbrev ttw_rmbf : ℕ
ttw_rmbf = 0x0800

abbrev ttw_mpf : ℕ
ttw_mpf = 0x2000

-- The ID of the object that a task waits for: control blocks are 16 apart.
abbrev wobjid : ℕ → Kernel → ℕ
wobjid t k = k.p_wobjcb t / 16 + 1

-- What the switch stores: tskwait, and wobjid where the task waits for an object.
unfoldable wait_factor : ℕ → Kernel → List ℕ
wait_factor t k =
    let factor = bit_and (k.tstat t) ts_waiting_mask in
    if factor == ts_waiting_slp
    then ttw_slp ∷ []
    else if factor == ts_waiting_dly
    then ttw_dly ∷ []
    else if factor == ts_waiting_sem
    then ttw_sem ∷ wobjid t k ∷ []
    else if factor == ts_waiting_flg
    then ttw_flg ∷ wobjid t k ∷ []
    else if factor == ts_waiting_sdtq
    then ttw_sdtq ∷ wobjid t k ∷ []
    else if factor == ts_waiting_rdtq
    then ttw_rdtq ∷ wobjid t k ∷ []
    else if factor == ts_waiting_spdq
    then ttw_spdq ∷ wobjid t k ∷ []
    else if factor == ts_waiting_rpdq
    then ttw_rpdq ∷ wobjid t k ∷ []
    else if factor == ts_waiting_mtx
    then ttw_mtx ∷ wobjid t k ∷ []
    else if factor == ts_waiting_smbf
    then ttw_smbf ∷ wobjid t k ∷ []
    else if factor == ts_waiting_rmbf
    then ttw_rmbf ∷ wobjid t k ∷ []
    else if factor == ts_waiting_mpf
    then ttw_mpf ∷ wobjid t k ∷ []
    else []

-- lefttmo, by the wait information. A task that waits has no result in it.
unfoldable lefttmo : Winfo → Tmevt → ℕ × Tmevt
lefttmo (wercd e) m = (tmo_fevr, m)
lefttmo (p_tmevtb none) m = (tmo_fevr, m)
lefttmo (p_tmevtb (some b)) m = tmevt_lefttim b m

abbrev bit_of : Bool → ℕ
bit_of b = if b then 1 else 0

-- The fields that a task has only while it is not dormant, behind tskstat: tskpri, tskbpri, for a
-- task that waits tskwait, wobjid and lefttmo, and wupcnt, raster, dister and svclevel.
unfoldable ref_active : ℕ → Kernel → List ℕ × Kernel
unfolding wait_factor lefttmo
ref_active t k =
    let (left, m) = lefttmo (k.winfo t) k.tmevt in
    let head = (k.priority t + 1) ∷ (k.bpriority t + 1) ∷ [] in
    let tail =
      bit_of (k.wupque t) ∷ bit_of (k.raster t) ∷ bit_of (not (k.enater t)) ∷ k.svclevel t ∷ [] in
    if tstat_waiting (k.tstat t)
    then (head ++ wait_factor t k ++ left ∷ tail, record k { tmevt = m })
    else (head ++ tail, k)

-- actcnt comes last.
unfoldable ref_tsk_locked : ℕ → Kernel → Svc
unfolding ref_active
ref_tsk_locked t k =
    let actcnt = bit_of (k.actque t) in
    if tstat_dormant (k.tstat t)
    then returned_out e_ok (tskstat t k ∷ actcnt ∷ []) (unlock_cpu k)
    else (let (out, k1) = ref_active t k in
        returned_out e_ok (tskstat t k ∷ out ++ actcnt ∷ []) (unlock_cpu k1))

-- `writable` is what the probe of the memory behind pk_rtsk says.
unfoldable ref_tsk : ℕ → Bool → Kernel → Svc
unfolding ref_tsk_locked
ref_tsk tskid writable k = check (in_task_unlocked k) e_ctx k (
    with_task true tskid k (λ t. check writable e_macv k (
      check (not (violate_acptn (k.cfg.tinib t).acvct.acptn4 k)) e_oacv k
        (ref_tsk_locked t (lock_cpu k)))))
