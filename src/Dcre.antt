-- ===== src/Dcre.antt =====
-- extension/dcre/kernel/semaphore.c: semaphores that are created and deleted while the kernel runs,
-- and the control blocks that are free. A semaphore that is there works as in Semaphore.
pub mod Calls
pub mod Pool
use toppers_hrp3_gr_rose.Common.{
  ℕ, zero, suc, ◌+◌, ◌-◌, ◌*◌, ◌/◌, ◌%◌, ◌^◌, Bool, true, false, not, ◌&&◌, ◌||◌, List, [], ◌∷◌,
  ◌++◌, leb, ◌==◌, if◌then◌else◌, update, none, some,
}
use toppers_hrp3_gr_rose.Kernel.{
  Kernel, Seminib, Acvct, Dominib, Er, e_ok, e_ctx, e_id, e_par, e_oacv, e_macv, e_obj, e_rsatr,
  e_noid, e_noexs, value, Svc, returned, returned_out, check, violate_acptn, valid_id, with_runtsk,
  can_dispatch, in_task_unlocked, tacp_kernel, wait_tskid, head?, lock_cpu, unlock_cpu,
  dispatch_if_needed, sem_wait_queue,
}
use toppers_hrp3_gr_rose.Wait.{init_wait_queue, tmo_pol, valid_tmout}
use toppers_hrp3_gr_rose.Semaphore.{
  index_sem, seminib_of, sig_sem_locked, wai_sem_locked, pol_sem_locked, twai_sem_locked,
  ini_sem_locked,
}

-- The kernel with the lists of free control blocks, by the byte that names a domain. The semaphores
-- up to tmax_ssemid are those of the configuration.
pub record Dynamic : Type 0 where
  pub kernel : Kernel
  pub free_semcb : ℕ → List ℕ
  pub dominib_none : Dominib
  pub tmax_ssemid : ℕ

-- The attribute of a control block without an object, (ATR)(-1).
abbrev pub ta_noexs : ℕ
ta_noexs = 2 ^ 32 - 1

-- TDOM_KERNEL and TDOM_NONE as bytes: -1 and -2.
abbrev pub dom_kernel : ℕ
dom_kernel = 255

abbrev pub dom_none : ℕ
dom_none = 254

abbrev pub get_atrdomid : ℕ → ℕ
get_atrdomid atr = atr / 2 ^ 16 % 256

abbrev pub set_atrdomid : ℕ → ℕ → ℕ
set_atrdomid atr domid = atr / 2 ^ 24 * 2 ^ 24 + domid % 256 * 2 ^ 16 + atr % 2 ^ 16

-- No bit of the attribute is set but TA_TPRI, which is bit 0, and those of the domain.
abbrev pub valid_sematr : ℕ → Bool
valid_sematr atr = (atr / 2 ^ 24 == 0) && leb (atr % 2 ^ 16) 1

abbrev pub sematr_of : ℕ → Kernel → ℕ
sematr_of i k = k.cfg.wobjatr (sem_wait_queue i)

abbrev pub dominib_of_byte : ℕ → Dynamic → Dominib
dominib_of_byte domid d =
    if domid == dom_kernel
    then d.kernel.cfg.dominib 0
    else if domid == dom_none
    then d.dominib_none
    else d.kernel.cfg.dominib domid

-- default_acptn, with TACP_SHARED and TACP(domid).
abbrev pub default_acptn : ℕ → ℕ
default_acptn domid =
    if domid == dom_kernel
    then tacp_kernel
    else if domid == dom_none
    then 2 ^ 32 - 1
    else 2 ^ (domid - 1)

-- The block of a semaphore with another attribute.
abbrev pub set_sematr : ℕ → ℕ → Kernel → Kernel
set_sematr i atr k = record k {
  cfg = record (k.cfg) { wobjatr = update k.cfg.wobjatr (sem_wait_queue i) atr };
}

unfoldable pub initialize_semcb : ℕ → ℕ → Dynamic → Dynamic
initialize_semcb i domid d = record d {
  kernel = set_sematr i ta_noexs d.kernel;
  free_semcb = update d.free_semcb domid (d.free_semcb domid ++ i ∷ []);
}

-- A new semaphore in the block, which is not in the list of free ones any more.
unfoldable pub create_sem : ℕ → ℕ → ℕ → ℕ → ℕ → Dynamic → Dynamic
create_sem i domid sematr isemcnt maxsem d =
    let acptn = default_acptn domid in
    let k = set_sematr i sematr d.kernel in
    let inib : Seminib = record {
      isemcnt = isemcnt;
      maxsem = maxsem;
      acvct = record {
        acptn1 = acptn;
        acptn2 = acptn;
        acptn3 = (dominib_of_byte domid d).acvct.acptn1;
        acptn4 = acptn;
      };
    } in
    record d {
      kernel = record k {
        cfg = record (k.cfg) { seminib = update k.cfg.seminib i inib };
        queue = update k.queue (sem_wait_queue i) [];
        semcnt = update k.semcnt i isemcnt;
      };
    }

-- acre_sem between lock_cpu and its return. With no semaphores at all the lists are empty.
unfoldable pub acre_sem_locked : ℕ → ℕ → ℕ → ℕ → Dynamic → Er × Dynamic
unfolding create_sem
acre_sem_locked domid sematr isemcnt maxsem d = elim (d.free_semcb domid) [
  | [] ↦ (e_noid, d)
  | i ∷ rest ↦ (
    value (i + 1),
    create_sem i domid sematr isemcnt maxsem
        (record d { free_semcb = update d.free_semcb domid rest }),
  )
]

-- TDOM_SELF is the domain that runs. Where the check of the context passes there is a running task.
unfoldable pub own_domid : ℕ → Kernel → ℕ
own_domid domid k =
    if domid == 0
    then if k.rundom == tacp_kernel
      then dom_kernel
      else (elim k.p_runtsk [ none ↦ dom_kernel | some me ↦ (k.cfg.tinib me).domid % 256 ])
    else domid

-- The checks before it; `readable` is what the probe of the packet says. CHECK_PAR compares
-- unsigned numbers with 0 and with UINT_MAX as well, which all of them pass.
unfoldable pub acre_sem : ℕ → ℕ → ℕ → Bool → Dynamic → Er × Dynamic
unfolding acre_sem_locked own_domid
acre_sem atr isemcnt maxsem readable d =
    let domid = own_domid (get_atrdomid atr) d.kernel in
    let sematr = if get_atrdomid atr == 0 then set_atrdomid atr domid else atr in
    let known =
      (domid == dom_kernel) || ((domid == dom_none) || valid_id domid d.kernel.cfg.tmax_domid) in
    if not (in_task_unlocked d.kernel)
    then (e_ctx, d)
    else if not readable
    then (e_macv, d)
    else if not (valid_sematr atr)
    then (e_rsatr, d)
    else if not (leb isemcnt maxsem && leb 1 maxsem)
    then (e_par, d)
    else if not known
    then (e_rsatr, d)
    else if violate_acptn (dominib_of_byte domid d).acvct.acptn1 d.kernel
    then (e_oacv, d)
    else acre_sem_locked domid sematr isemcnt maxsem d

-- del_sem between lock_cpu and its return.
unfoldable pub del_sem_locked : ℕ → Dynamic → Er × Dynamic
unfolding init_wait_queue
del_sem_locked i d =
    let domid = get_atrdomid (sematr_of i d.kernel) in
    if sematr_of i d.kernel == ta_noexs
    then (e_noexs, d)
    else if violate_acptn (seminib_of i d.kernel).acvct.acptn3 d.kernel
    then (e_oacv, d)
    else if leb (i + 1) d.tmax_ssemid
    then (e_obj, d)
    else (
      e_ok,
      record d {
        kernel =
            dispatch_if_needed
              (set_sematr i ta_noexs (init_wait_queue (sem_wait_queue i) d.kernel));
        free_semcb = update d.free_semcb domid (d.free_semcb domid ++ i ∷ []);
      },
    )

unfoldable pub del_sem : ℕ → Dynamic → Er × Dynamic
unfolding del_sem_locked
del_sem semid d =
    if not (in_task_unlocked d.kernel)
    then (e_ctx, d)
    else if not (valid_id semid d.kernel.cfg.tmax_semid)
    then (e_id, d)
    else del_sem_locked (index_sem semid) d

unfoldable pub sac_sem : ℕ → Acvct → Bool → Dynamic → Er × Dynamic
sac_sem semid acvct readable d =
    let i = index_sem semid in
    let k = d.kernel in
    let inib = record (seminib_of i k) { acvct = acvct } in
    if not (in_task_unlocked k)
    then (e_ctx, d)
    else if not (valid_id semid k.cfg.tmax_semid)
    then (e_id, d)
    else if not readable
    then (e_macv, d)
    else if sematr_of i k == ta_noexs
    then (e_noexs, d)
    else if violate_acptn (seminib_of i k).acvct.acptn3 k
    then (e_oacv, d)
    else if leb (i + 1) d.tmax_ssemid
    then (e_obj, d)
    else (
      e_ok,
      record d {
        kernel = record k { cfg = record (k.cfg) { seminib = update k.cfg.seminib i inib } };
      },
    )
