-- ===== src/Eventflag.antt =====
-- kernel/eventflag.c: event flags.
pub mod Release
use toppers_hrp3_gr_rose.Common.{
  ℕ, zero, suc, ◌-◌, Bool, true, false, not, ◌&&◌, ◌||◌, Option, none, some, List, [], ◌∷◌, ◌==◌,
  if◌then◌else◌, update, bit_and, bit_or,
}
use toppers_hrp3_gr_rose.Kernel.{
  Kernel, Flginib, e_ok, e_ctx, e_id, e_par, e_oacv, e_macv, e_iluse, e_tmout, e_raster, wercd,
  p_tmevtb, Svc, returned, returned_out, waits, fault, check, violate_acptn, valid_id, with_runtsk,
  can_dispatch, in_task_unlocked, wait_tskid, lock_cpu, unlock_cpu, dispatch, dispatch_if_needed,
  dispatch_or_request, flg_wait_queue, head?, queue_delete, queue_empty, ts_waiting_flg,
}
use toppers_hrp3_gr_rose.Wait.{
  wait_complete, wobj_make_wait, wobj_make_wait_tmout, init_wait_queue, tmo_pol, valid_tmout,
}

abbrev pub ta_wmul : ℕ
ta_wmul = 0x02

abbrev pub ta_clr : ℕ
ta_clr = 0x04

abbrev pub twf_orw : ℕ
twf_orw = 0x01

abbrev pub twf_andw : ℕ
twf_andw = 0x02

-- INDEX_FLG.
abbrev pub index_flg : ℕ → ℕ
index_flg flgid = flgid - 1

abbrev pub flginib_of : ℕ → Kernel → Flginib
flginib_of i k = k.cfg.flginib i

-- The loop of initialize_eventflag, over the event flags below `n`.
unfoldable initialize_eventflag : ℕ → Kernel → Kernel
initialize_eventflag zero k = k
initialize_eventflag (suc i) k = initialize_eventflag i (record k {
  queue = update k.queue (flg_wait_queue i) [];
  flgptn = update k.flgptn i (k.cfg.flginib i).iflgptn;
})

-- The condition that check_flg_cond tests.
unfoldable pub flg_cond : ℕ → ℕ → ℕ → Bool
flg_cond flgptn waiptn wfmode =
    if not (bit_and wfmode twf_orw == 0)
    then not (bit_and flgptn waiptn == 0)
    else bit_and flgptn waiptn == waiptn

-- check_flg_cond: what it stores through p_flgptn, where it returns true, and the flag after it.
unfoldable pub check_flg_cond : ℕ → ℕ → ℕ → Kernel → Option ℕ × Kernel
unfolding flg_cond
check_flg_cond i waiptn wfmode k =
    if flg_cond (k.flgptn i) waiptn wfmode
    then (
      some (k.flgptn i),
      if not (bit_and (flginib_of i k).flgatr ta_clr == 0)
          then record k { flgptn = update k.flgptn i 0 }
          else k,
    )
    else (none, k)

-- A task of the wait queue whose condition holds, with the pattern that released it.
unfoldable pub release_flg : ℕ → ℕ → Kernel → Kernel
unfolding queue_delete wait_complete
release_flg t ptn k = wait_complete t (queue_delete t (record k { waiptn = update k.waiptn t ptn }))

-- The loop of set_flg over the entries of the wait queue. Each step reads the next entry before
-- it takes the present one out.
unfoldable pub set_flg_loop : ℕ → List ℕ → Kernel → Kernel
unfolding check_flg_cond release_flg
set_flg_loop i [] k = k
set_flg_loop i (t ∷ ts) k =
    let (found, k1) = check_flg_cond i (k.waiptn t) (k.wfmode t) k in
    elim found [
      | none ↦ set_flg_loop i ts k1
      | some ptn ↦ elim (not (bit_and (flginib_of i k).flgatr ta_clr == 0)) [
        | true ↦ release_flg t ptn k1
        | false ↦ set_flg_loop i ts (release_flg t ptn k1)
      ]
    ]

unfoldable pub set_flg_locked : ℕ → ℕ → Kernel → Svc
unfolding set_flg_loop
set_flg_locked i setptn k =
    let k1 = record k { flgptn = update k.flgptn i (bit_or (k.flgptn i) setptn) } in
    returned e_ok
      (unlock_cpu (dispatch_or_request (set_flg_loop i (k.queue (flg_wait_queue i)) k1)))

unfoldable pub set_flg : ℕ → ℕ → Kernel → Svc
unfolding set_flg_locked
set_flg flgid setptn k =
    let i = index_flg flgid in
    check (not k.cpu_locked) e_ctx k (
      check (valid_id flgid k.cfg.tmax_flgid) e_id k (
        check (not (violate_acptn (flginib_of i k).acvct.acptn1 k)) e_oacv k
          (set_flg_locked i setptn (lock_cpu k))))

unfoldable pub clr_flg : ℕ → ℕ → Kernel → Svc
clr_flg flgid clrptn k =
    let i = index_flg flgid in
    check (in_task_unlocked k) e_ctx k (
      check (valid_id flgid k.cfg.tmax_flgid) e_id k (
        check (not (violate_acptn (flginib_of i k).acvct.acptn1 k)) e_oacv k (
          returned e_ok (
            unlock_cpu
              (record (lock_cpu k) { flgptn = update k.flgptn i (bit_and (k.flgptn i) clrptn) })))))

-- CHECK_PAR on the pattern and the mode, CHECK_MACV_WRITE on the result, as wai_flg orders them.
abbrev pub check_wait_args : ℕ → ℕ → Bool → Kernel → Svc → Svc
check_wait_args waiptn wfmode writable k rest =
    check (not (waiptn == 0)) e_par k
      (check ((wfmode == twf_orw) || (wfmode == twf_andw)) e_par k (check writable e_macv k rest))

-- No second task may wait for a flag without TA_WMUL.
abbrev pub in_use : ℕ → Kernel → Bool
in_use i k =
    (bit_and (flginib_of i k).flgatr ta_wmul == 0) && not (queue_empty (flg_wait_queue i) k)

-- The common part of wai_flg, pol_flg and twai_flg; `blocked` is what each does at its end.
unfoldable pub try_flg : ℕ → ℕ → ℕ → (Kernel → Svc) → Kernel → Svc
unfolding check_flg_cond
try_flg i waiptn wfmode blocked k =
    if in_use i k
    then returned e_iluse (unlock_cpu k)
    else (let (found, k1) = check_flg_cond i waiptn wfmode k in
        elim found [ some ptn ↦ returned_out e_ok (ptn ∷ []) (unlock_cpu k1) | none ↦ blocked k1 ])

-- The task stores what it waits for in its wait information.
abbrev pub set_winfo_flg : ℕ → ℕ → ℕ → Kernel → Kernel
set_winfo_flg me waiptn wfmode k = record k {
  waiptn = update k.waiptn me waiptn;
  wfmode = update k.wfmode me wfmode;
}

unfoldable pub wai_flg_locked : ℕ → ℕ → ℕ → ℕ → Kernel → Svc
unfolding try_flg
wai_flg_locked i waiptn wfmode me k =
    if k.raster me
    then returned e_raster (unlock_cpu k)
    else try_flg i waiptn wfmode
        (λ k1. waits me (
          unlock_cpu (
            dispatch (
              wobj_make_wait (flg_wait_queue i) ts_waiting_flg me
                (set_winfo_flg me waiptn wfmode k1)))))
        k

-- `writable` is what the probe of the memory behind p_flgptn says.
unfoldable pub wai_flg : ℕ → ℕ → ℕ → Bool → Kernel → Svc
unfolding wai_flg_locked
wai_flg flgid waiptn wfmode writable k =
    let i = index_flg flgid in
    check (can_dispatch k) e_ctx k (
      check (valid_id flgid k.cfg.tmax_flgid) e_id k (
        check_wait_args waiptn wfmode writable k (
          check (not (violate_acptn (flginib_of i k).acvct.acptn2 k)) e_oacv k
            (with_runtsk k (λ me. wai_flg_locked i waiptn wfmode me (lock_cpu k))))))

unfoldable pub pol_flg : ℕ → ℕ → ℕ → Bool → Kernel → Svc
unfolding try_flg
pol_flg flgid waiptn wfmode writable k =
    let i = index_flg flgid in
    check (in_task_unlocked k) e_ctx k (
      check (valid_id flgid k.cfg.tmax_flgid) e_id k (
        check_wait_args waiptn wfmode writable k (
          check (not (violate_acptn (flginib_of i k).acvct.acptn2 k)) e_oacv k
            (try_flg i waiptn wfmode (λ k1. returned e_tmout (unlock_cpu k1)) (lock_cpu k)))))

unfoldable pub twai_flg_locked : ℕ → ℕ → ℕ → ℕ → ℕ → Kernel → Svc
unfolding try_flg
twai_flg_locked i waiptn wfmode tmout me k =
    if k.raster me
    then returned e_raster (unlock_cpu k)
    else try_flg i waiptn wfmode
        (λ k1.
          if tmout == tmo_pol
          then returned e_tmout (unlock_cpu k1)
          else waits me (
              unlock_cpu (
                dispatch (
                  wobj_make_wait_tmout (flg_wait_queue i) ts_waiting_flg tmout me
                    (set_winfo_flg me waiptn wfmode k1)))))
        k

unfoldable pub twai_flg : ℕ → ℕ → ℕ → ℕ → Bool → Kernel → Svc
unfolding twai_flg_locked
twai_flg flgid waiptn wfmode tmout writable k =
    let i = index_flg flgid in
    check (can_dispatch k) e_ctx k (
      check (valid_id flgid k.cfg.tmax_flgid) e_id k (
        check_wait_args waiptn wfmode writable k (
          check (valid_tmout tmout) e_par k (
            check (not (violate_acptn (flginib_of i k).acvct.acptn2 k)) e_oacv k
              (with_runtsk k (λ me. twai_flg_locked i waiptn wfmode tmout me (lock_cpu k)))))))

-- What wai_flg and twai_flg return when the task runs again.
unfoldable resumed_flg : ℕ → Kernel → Svc
resumed_flg t k = elim (k.winfo t) [
  | wercd e_ok ↦ returned_out e_ok (k.waiptn t ∷ []) k
  | wercd e ↦ returned e k
  | p_tmevtb _ ↦ fault
]

unfoldable pub ini_flg_locked : ℕ → Kernel → Svc
unfolding init_wait_queue
ini_flg_locked i k =
    let k1 = init_wait_queue (flg_wait_queue i) k in
    returned e_ok (
      unlock_cpu
        (dispatch_if_needed (record k1 { flgptn = update k1.flgptn i (flginib_of i k1).iflgptn })))

unfoldable pub ini_flg : ℕ → Kernel → Svc
unfolding ini_flg_locked
ini_flg flgid k =
    let i = index_flg flgid in
    check (in_task_unlocked k) e_ctx k (
      check (valid_id flgid k.cfg.tmax_flgid) e_id k (
        check (not (violate_acptn (flginib_of i k).acvct.acptn3 k)) e_oacv k
          (ini_flg_locked i (lock_cpu k))))

unfoldable ref_flg : ℕ → Bool → Kernel → Svc
ref_flg flgid writable k =
    let i = index_flg flgid in
    check (in_task_unlocked k) e_ctx k (
      check (valid_id flgid k.cfg.tmax_flgid) e_id k (
        check writable e_macv k (
          check (not (violate_acptn (flginib_of i k).acvct.acptn4 k)) e_oacv k (
            returned_out e_ok (wait_tskid (head? (k.queue (flg_wait_queue i))) ∷ k.flgptn i ∷ [])
              (unlock_cpu (lock_cpu k))))))
