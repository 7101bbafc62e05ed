-- ===== src/TimeManage.antt =====
-- kernel/time_manage.c, and check_adjtim of kernel/time_event.c.
pub mod Adjust
use toppers_hrp3_gr_rose.Common.{
  ℕ, zero, suc, ◌+◌, ◌-◌, ◌%◌, ◌^◌, Bool, true, false, not, ◌&&◌, [], ◌∷◌, ltb, leb, if◌then◌else◌,
}
use toppers_hrp3_gr_rose.TimeEvent.{
  Tmevt, boundary_margin, tmevt_heap_kernel, top_evttim, update_current_evttim, set_hrt_event,
}
use toppers_hrp3_gr_rose.TimeEvent.Heap.{evttim_mod, evttim_le}
use toppers_hrp3_gr_rose.Kernel.{
  Kernel, e_ok, e_ctx, e_par, e_oacv, e_macv, e_obj, Svc, returned, returned_out, check,
  violate_acptn, in_task_unlocked, lock_cpu, unlock_cpu,
}
use toppers_hrp3_gr_rose.Wait.{on_tmevt}

-- Signed numbers, over the native natural numbers.
pub data ℤ : Type 0 where
  pos : ℕ → ℤ
  negsuc : ℕ → ℤ

unfoldable pub set_tim : ℕ → Kernel → Svc
set_tim systim k = check (in_task_unlocked k) e_ctx k (
    check (not (violate_acptn k.cfg.sysstat_acvct.acptn3 k)) e_oacv k (
      returned e_ok (
        unlock_cpu (
          on_tmevt
            (λ m.
              let now = update_current_evttim m in
              record now { systim_offset = (systim + 2 ^ 64 - now.monotonic_evttim) % 2 ^ 64 })
            (lock_cpu k)))))

-- `writable` is what the probe of the memory behind p_systim says.
unfoldable pub get_tim : Bool → Kernel → Svc
get_tim writable k = check (in_task_unlocked k) e_ctx k (
    check writable e_macv k (
      check (not (violate_acptn k.cfg.sysstat_acvct.acptn4 k)) e_oacv k (
        let k1 = on_tmevt update_current_evttim (lock_cpu k) in
        returned_out e_ok ((k1.tmevt.systim_offset + k1.tmevt.monotonic_evttim) % 2 ^ 64 ∷ [])
          (unlock_cpu k1))))

-- TMAX_ADJTIM, which is -TMIN_ADJTIM too.
abbrev pub tmax_adjtim : ℕ
tmax_adjtim = 1000000

unfoldable pub check_adjtim : ℤ → Tmevt → Bool
check_adjtim (pos zero) m = false
check_adjtim (pos (suc n)) m =
    leb 1 (m.heap_last tmevt_heap_kernel)
    && evttim_le m.boundary_evttim ((top_evttim tmevt_heap_kernel m + tmax_adjtim) % evttim_mod)
        m.current_evttim
check_adjtim (negsuc n) m =
    leb tmax_adjtim ((m.monotonic_evttim + evttim_mod - m.current_evttim) % evttim_mod)

-- `(EVTTIM) adjtim`.
unfoldable pub to_evttim : ℤ → ℕ
to_evttim (pos n) = n % evttim_mod
to_evttim (negsuc n) = (evttim_mod - suc n % evttim_mod) % evttim_mod

unfoldable pub positive : ℤ → Bool
positive (pos zero) = false
positive (pos (suc n)) = true
positive (negsuc n) = false

-- The event time moves by `adjtim`.
unfoldable pub move : ℤ → Tmevt → Tmevt
unfolding to_evttim positive
move adjtim m =
    let current = (m.current_evttim + to_evttim adjtim) % evttim_mod in
    let ahead =
      positive adjtim
      && ltb ((m.monotonic_evttim + evttim_mod - m.current_evttim) % evttim_mod)
          (to_evttim adjtim) in
    record m {
      current_evttim = current;
      boundary_evttim = (current + evttim_mod - boundary_margin) % evttim_mod;
      systim_offset =
          if ahead && ltb current m.monotonic_evttim
          then (m.systim_offset + 2 ^ 32) % 2 ^ 64
          else m.systim_offset;
      monotonic_evttim = if ahead then current else m.monotonic_evttim;
    }

unfoldable pub adjust : ℤ → Tmevt → Tmevt
unfolding move
adjust adjtim m = if not m.in_signal_time then set_hrt_event (move adjtim m) else move adjtim m

-- `TMIN_ADJTIM <= adjtim && adjtim <= TMAX_ADJTIM`.
unfoldable pub valid_adjtim : ℤ → Bool
valid_adjtim (pos n) = leb n tmax_adjtim
valid_adjtim (negsuc n) = ltb n tmax_adjtim

unfoldable pub adj_tim_locked : ℤ → Kernel → Svc
unfolding check_adjtim adjust
adj_tim_locked adjtim k =
    let k1 = on_tmevt update_current_evttim k in
    if check_adjtim adjtim k1.tmevt
    then returned e_obj (unlock_cpu k1)
    else returned e_ok (unlock_cpu (on_tmevt (adjust adjtim) k1))

unfoldable pub adj_tim : ℤ → Kernel → Svc
unfolding adj_tim_locked valid_adjtim
adj_tim adjtim k = check (not k.cpu_locked) e_ctx k (
    check (valid_adjtim adjtim) e_par k (
      check (not (violate_acptn k.cfg.sysstat_acvct.acptn3 k)) e_oacv k
        (adj_tim_locked adjtim (lock_cpu k))))

-- The value read, and the state after the reading.
unfoldable pub fch_hrt : Kernel → ℕ × Kernel
fch_hrt k =
    (k.tmevt.hrt k.tmevt.hrt_reads, on_tmevt (λ m. record m { hrt_reads = m.hrt_reads + 1 }) k)
