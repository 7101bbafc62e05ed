-- ===== src/Kernel/Status.antt =====
-- kernel/task.h: the encoding of the task states and the tests on it.
use toppers_hrp3_gr_rose.Common.{ℕ, ◌*◌, Bool, not, ◌==◌, bit_and}

-- Task states.
abbrev pub ts_dormant : ℕ
ts_dormant = 0x00

abbrev pub ts_runnable : ℕ
ts_runnable = 0x01

abbrev pub ts_suspended : ℕ
ts_suspended = 0x02

abbrev pub ts_waiting_slp : ℕ
ts_waiting_slp = 0x01 * 4

abbrev pub ts_waiting_dly : ℕ
ts_waiting_dly = 0x02 * 4

abbrev pub ts_waiting_rdtq : ℕ
ts_waiting_rdtq = 0x08 * 4

abbrev pub ts_waiting_sem : ℕ
ts_waiting_sem = 0x10 * 4

abbrev pub ts_waiting_flg : ℕ
ts_waiting_flg = 0x11 * 4

abbrev pub ts_waiting_sdtq : ℕ
ts_waiting_sdtq = 0x12 * 4

abbrev pub ts_waiting_mtx : ℕ
ts_waiting_mtx = 0x14 * 4

abbrev pub ts_waiting_rpdq : ℕ
ts_waiting_rpdq = 0x09 * 4

abbrev pub ts_waiting_rmbf : ℕ
ts_waiting_rmbf = 0x0a * 4

abbrev pub ts_waiting_spdq : ℕ
ts_waiting_spdq = 0x13 * 4

abbrev pub ts_waiting_mpf : ℕ
ts_waiting_mpf = 0x16 * 4

abbrev pub ts_waiting_smbf : ℕ
ts_waiting_smbf = 0x15 * 4

abbrev pub ts_waiting_mask : ℕ
ts_waiting_mask = 0x1f * 4

unfoldable pub tstat_dormant : ℕ → Bool
tstat_dormant tstat = tstat == ts_dormant

unfoldable pub tstat_runnable : ℕ → Bool
tstat_runnable tstat = not (bit_and tstat ts_runnable == 0)

unfoldable pub tstat_waiting : ℕ → Bool
tstat_waiting tstat = not (bit_and tstat ts_waiting_mask == 0)

unfoldable pub tstat_suspended : ℕ → Bool
tstat_suspended tstat = not (bit_and tstat ts_suspended == 0)

-- `tstat & ~TS_SUSPENDED`, of a byte.
abbrev pub without_suspended : ℕ → ℕ
without_suspended tstat = bit_and tstat 0xfd

unfoldable pub tstat_wait_slp : ℕ → Bool
tstat_wait_slp tstat = without_suspended tstat == ts_waiting_slp

unfoldable pub tstat_wait_wobj : ℕ → Bool
tstat_wait_wobj tstat = not (bit_and tstat (0x18 * 4) == 0)

unfoldable pub tstat_wait_wobjcb : ℕ → Bool
tstat_wait_wobjcb tstat = not (bit_and tstat (0x10 * 4) == 0)
