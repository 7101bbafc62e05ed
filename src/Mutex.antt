-- ===== src/Mutex.antt =====
-- kernel/mutex.c: mutexes, with and without a priority ceiling.
pub mod Calls
pub mod Ceiling
pub mod Release
pub mod Nest
use toppers_hrp3_gr_rose.Common.{
  ℕ, zero, suc, ◌+◌, ◌-◌, ◌*◌, ◌/◌, Bool, true, false, not, ◌&&◌, ◌||◌, Option, none, some, List,
  [], ◌∷◌, ltb, ◌==◌, if◌then◌else◌, update, bit_and, same_ptr,
}
use toppers_hrp3_gr_rose.Kernel.{
  Kernel, Mtxinib, wercd, e_ok, mtx_wait_queue, head?, queue_delete_next, without_suspended,
  ts_waiting_mtx,
}
use toppers_hrp3_gr_rose.Wait.{change_priority, make_non_wait, wait_dequeue_tmevtb, set_wercd}

-- INDEX_MTX.
abbrev pub index_mtx : ℕ → ℕ
index_mtx mtxid = mtxid - 1

abbrev pub mtxinib_of : ℕ → Kernel → Mtxinib
mtxinib_of i k = k.cfg.mtxinib i

abbrev pub ta_ceiling : ℕ
ta_ceiling = 0x03

abbrev pub mtxproto_mask : ℕ
mtxproto_mask = 0x03

unfoldable pub mtx_ceiling : ℕ → Kernel → Bool
mtx_ceiling i k = bit_and (mtxinib_of i k).mtxatr mtxproto_mask == ta_ceiling

-- The loop of initialize_mutex, over the mutexes below `n`. The hooks that it sets are the
-- functions below.
unfoldable initialize_mutex : ℕ → Kernel → Kernel
initialize_mutex zero k = k
initialize_mutex (suc i) k = initialize_mutex i (record k {
  queue = update k.queue (mtx_wait_queue i) [];
  mtx = record (k.mtx) { p_loctsk = update k.mtx.p_loctsk i none };
})

-- The loops over the mutexes that a task has locked have the number of mutexes as fuel.
abbrev pub tnum_mtx : Kernel → ℕ
tnum_mtx k = k.cfg.tmax_mtxid

-- A ceiling mutex whose ceiling is below the base priority.
unfoldable pub violates_ceiling : ℕ → ℕ → Kernel → Bool
violates_ceiling bpriority i k = mtx_ceiling i k && ltb bpriority (mtxinib_of i k).ceilpri

unfoldable pub check_locked : ℕ → Option ℕ → ℕ → Kernel → Bool
unfolding violates_ceiling
check_locked zero p bpriority k = true
check_locked (suc fuel) none bpriority k = true
check_locked (suc fuel) (some i) bpriority k = elim (violates_ceiling bpriority i k) [
  | true ↦ false
  | false ↦ check_locked fuel (k.mtx.p_prevmtx i) bpriority k
]

-- The index of the mutex that a task waits for, from the address of its queue.
abbrev pub p_mtxcb : ℕ → Kernel → ℕ
p_mtxcb t k = (k.p_wobjcb t - 5) / 16

unfoldable pub mutex_check_ceilpri : ℕ → ℕ → Kernel → Bool
unfolding check_locked violates_ceiling
mutex_check_ceilpri t bpriority k =
    if not (check_locked (tnum_mtx k) (k.p_lastmtx t) bpriority k)
    then false
    else if without_suspended (k.tstat t) == ts_waiting_mtx
    then not (violates_ceiling bpriority (p_mtxcb t k) k)
    else true

unfoldable pub scan_locked : ℕ → Option ℕ → Kernel → Bool
unfolding mtx_ceiling
scan_locked zero p k = false
scan_locked (suc fuel) none k = false
scan_locked (suc fuel) (some i) k = elim (mtx_ceiling i k) [
  | true ↦ true
  | false ↦ scan_locked fuel (k.mtx.p_prevmtx i) k
]

unfoldable pub mutex_scan_ceilmtx : ℕ → Kernel → Bool
unfolding scan_locked
mutex_scan_ceilmtx t k = scan_locked (tnum_mtx k) (k.p_lastmtx t) k

-- `if (MTX_CEILING(p_mtxcb) && ceilpri < priority) priority = ceilpri;`
unfoldable pub raised_by : ℕ → ℕ → Kernel → ℕ
unfolding mtx_ceiling
raised_by priority i k =
    if mtx_ceiling i k && ltb (mtxinib_of i k).ceilpri priority
    then (mtxinib_of i k).ceilpri
    else priority

unfoldable pub calc_locked : ℕ → Option ℕ → ℕ → Kernel → ℕ
unfolding raised_by
calc_locked zero p priority k = priority
calc_locked (suc fuel) none priority k = priority
calc_locked (suc fuel) (some i) priority k =
    calc_locked fuel (k.mtx.p_prevmtx i) (raised_by priority i k) k

unfoldable pub mutex_calc_priority : ℕ → Kernel → ℕ
unfolding calc_locked
mutex_calc_priority t k = calc_locked (tnum_mtx k) (k.p_lastmtx t) (k.bpriority t) k

unfoldable pub mutex_drop_priority : ℕ → ℕ → Kernel → Kernel
unfolding mutex_calc_priority mtx_ceiling
mutex_drop_priority t i k =
    let newpri = mutex_calc_priority t k in
    if mtx_ceiling i k && ((mtxinib_of i k).ceilpri == k.priority t)
    then if not (newpri == k.priority t) then change_priority t newpri true k else k
    else k

-- The task is entered as the one that has locked the mutex, and the mutex as its last one.
unfoldable pub link_mutex : ℕ → ℕ → Kernel → Kernel
link_mutex t i k = record k {
  mtx = record {
    p_loctsk = update k.mtx.p_loctsk i (some t);
    p_prevmtx = update k.mtx.p_prevmtx i (k.p_lastmtx t);
  };
  p_lastmtx = update k.p_lastmtx t (some i);
}

unfoldable pub mutex_acquire : ℕ → ℕ → Kernel → Kernel
unfolding link_mutex mtx_ceiling
mutex_acquire t i k =
    let k1 = link_mutex t i k in
    if mtx_ceiling i k && ltb (mtxinib_of i k).ceilpri (k.priority t)
    then change_priority t (mtxinib_of i k).ceilpri true k1
    else k1

-- The first task of the queue locks the mutex.
unfoldable pub pass_mutex : ℕ → ℕ → Kernel → Kernel
unfolding link_mutex raised_by
pass_mutex i t k =
    let k1 =
      link_mutex t i
        (set_wercd t e_ok (wait_dequeue_tmevtb t (queue_delete_next (mtx_wait_queue i) k))) in
    make_non_wait t (record k1 { priority = update k1.priority t (raised_by (k1.priority t) i k1) })

unfoldable pub mutex_release : ℕ → Kernel → Kernel
unfolding pass_mutex
mutex_release i k = elim (head? (k.queue (mtx_wait_queue i))) [
  | none ↦ record k { mtx = record (k.mtx) { p_loctsk = update k.mtx.p_loctsk i none } }
  | some t ↦ pass_mutex i t k
]

unfoldable pub release_all_loop : ℕ → ℕ → Kernel → Kernel
unfolding mutex_release
release_all_loop zero t k = k
release_all_loop (suc fuel) t k = elim (k.p_lastmtx t) [
  | none ↦ k
  | some i ↦
      release_all_loop fuel t
        (mutex_release i (record k { p_lastmtx = update k.p_lastmtx t (k.mtx.p_prevmtx i) }))
]

unfoldable pub mutex_release_all : ℕ → Kernel → Kernel
unfolding release_all_loop
mutex_release_all t k = release_all_loop (tnum_mtx k) t k

-- The loop of ini_mtx: the mutex leaves the list of the mutexes that a task has locked. `at` is
-- the mutex whose p_prevmtx is looked at, or the p_lastmtx of the task.
unfoldable pub unlink_loop : ℕ → ℕ → ℕ → Kernel → Kernel
unlink_loop zero i at k = k
unlink_loop (suc fuel) i at k = elim (k.mtx.p_prevmtx at) [
  | none ↦ k
  | some m ↦ elim (m == i) [
    | true ↦ record k {
      mtx = record (k.mtx) { p_prevmtx = update k.mtx.p_prevmtx at (k.mtx.p_prevmtx i) };
    }
    | false ↦ unlink_loop fuel i m k
  ]
]

unfoldable pub unlink_mutex : ℕ → ℕ → Kernel → Kernel
unfolding unlink_loop
unlink_mutex t i k = elim (k.p_lastmtx t) [
  | none ↦ k
  | some m ↦ elim (m == i) [
    | true ↦ record k { p_lastmtx = update k.p_lastmtx t (k.mtx.p_prevmtx i) }
    | false ↦ unlink_loop (tnum_mtx k) i m k
  ]
]
