-- ===== src/Task.antt =====
-- kernel/task.c, kernel/task.h: the ready queues, the choice of the task to run, and the
-- transitions of a task between the dormant and the runnable state.
pub mod Bitmap
pub mod Ready
pub mod Fields
pub mod Remove
pub mod Consistent
pub mod Schedule
pub mod Rotate
use toppers_hrp3_gr_rose.Common.{
  ℕ, zero, suc, ◌+◌, ◌-◌, ◌/◌, ◌^◌, Bool, true, false, not, ◌&&◌, ◌||◌, Option, none, some, List,
  [], ◌∷◌, ltb, leb, ◌==◌, if◌then◌else◌, update, bit_and, bit_or, bit_not, same_ptr, is_null,
}
use toppers_hrp3_gr_rose.Kernel.{
  Kernel, ready_queue, schedcb_kernel, queue_insert_prev, queue_insert_next, queue_delete,
  queue_empty, head?, tail, tstat_runnable, tstat_waiting, tstat_wait_wobjcb, ts_dormant,
  ts_runnable,
}

abbrev pub bitmap_search_table : List ℕ
bitmap_search_table = 0 ∷ 1 ∷ 0 ∷ 2 ∷ 0 ∷ 1 ∷ 0 ∷ 3 ∷ 0 ∷ 1 ∷ 0 ∷ 2 ∷ 0 ∷ 1 ∷ 0 ∷ []

abbrev pub table_at : List ℕ → ℕ → ℕ
table_at [] i = 0
table_at (x ∷ xs) zero = x
table_at (x ∷ xs) (suc i) = table_at xs i

unfoldable pub bitmap_search : ℕ → ℕ
bitmap_search bitmap =
    let skip8 = bit_and bitmap 0x00ff == 0 in
    let bitmap1 = if skip8 then bitmap / 2 ^ 8 else bitmap in
    let n1 = if skip8 then 8 else 0 in
    let skip4 = bit_and bitmap1 0x0f == 0 in
    let bitmap2 = if skip4 then bitmap1 / 2 ^ 4 else bitmap1 in
    let n2 = if skip4 then n1 + 4 else n1 in
    n2 + table_at bitmap_search_table (bit_and bitmap2 0x0f - 1)

unfoldable pub primap_empty : ℕ → Kernel → Bool
primap_empty s k = k.ready_primap s == 0

unfoldable pub primap_search : ℕ → Kernel → ℕ
primap_search s k = bitmap_search (k.ready_primap s)

abbrev pub primap_bit : ℕ → ℕ
primap_bit pri = 2 ^ pri

unfoldable pub primap_set : ℕ → ℕ → Kernel → Kernel
primap_set pri s k = record k {
  ready_primap = update k.ready_primap s (bit_or (k.ready_primap s) (primap_bit pri));
}

-- The complement is taken at the 32 bits of `unsigned int`.
unfoldable pub primap_clear : ℕ → ℕ → Kernel → Kernel
primap_clear pri s k = record k {
  ready_primap = update k.ready_primap s (bit_and (k.ready_primap s) (bit_not 32 (primap_bit pri)));
}

unfoldable pub search_predtsk : ℕ → Kernel → Option ℕ
unfolding primap_search
search_predtsk s k = head? (k.queue (ready_queue s (primap_search s k)))

-- The task that update_schedtsk chooses.
unfoldable pub choose_schedtsk : Kernel → Option ℕ
choose_schedtsk k = elim (k.p_predtsk schedcb_kernel) [
  | some kernel_tsk ↦ elim (k.p_predtsk k.p_twdsched) [
    | some window_tsk ↦
        if ltb (k.priority window_tsk) (k.priority kernel_tsk)
        then some window_tsk
        else some kernel_tsk
    | none ↦ some kernel_tsk
  ]
  | none ↦ elim (k.p_predtsk k.p_twdsched) [
    | some window_tsk ↦ some window_tsk
    | none ↦ k.p_predtsk k.p_idlesched
  ]
]

pub update_schedtsk : Kernel → Kernel
unfolding choose_schedtsk
update_schedtsk k = record k { p_schedtsk = choose_schedtsk k }

-- `p_schedcb->p_predtsk = p; if (dspflg) update_schedtsk();`
unfoldable pub set_predtsk : ℕ → Option ℕ → Kernel → Kernel
unfolding choose_schedtsk
set_predtsk s p k = record k {
  p_predtsk = update k.p_predtsk s p;
  p_schedtsk =
      if k.dspflg
      then choose_schedtsk (record k { p_predtsk = update k.p_predtsk s p })
      else k.p_schedtsk;
}

-- The test `p_predtsk == NULL || pri < p_predtsk->priority`.
pub precedes : ℕ → Option ℕ → Kernel → Bool
precedes pri none k = true
precedes pri (some p) k = ltb pri (k.priority p)

unfoldable pub make_runnable : ℕ → Kernel → Kernel
unfolding primap_set set_predtsk precedes queue_insert_prev
make_runnable t k =
    let s = k.p_schedcb t in
    let pri = k.priority t in
    let k1 = primap_set pri s (queue_insert_prev (ready_queue s pri) t k) in
    if precedes pri (k1.p_predtsk s) k1 then set_predtsk s (some t) k1 else k1

unfoldable pub make_non_runnable : ℕ → Kernel → Kernel
unfolding primap_clear primap_empty search_predtsk set_predtsk queue_delete
make_non_runnable t k =
    let s = k.p_schedcb t in
    let pri = k.priority t in
    let q = ready_queue s pri in
    let k1 = queue_delete t k in
    let was_top = same_ptr (k1.p_predtsk s) (some t) in
    if queue_empty q k1
    then (let k2 = primap_clear pri s k1 in
        if was_top
        then set_predtsk s (if primap_empty s k2 then none else search_predtsk s k2) k2
        else k2)
    else if was_top
    then set_predtsk s (head? (k1.queue q)) k1
    else k1

unfoldable pub make_dormant : ℕ → Kernel → Kernel
make_dormant t k = record k {
  tstat = update k.tstat t ts_dormant;
  svclevel = update k.svclevel t 0;
  bpriority = update k.bpriority t (k.cfg.tinib t).ipriority;
  priority = update k.priority t (k.cfg.tinib t).ipriority;
  wupque = update k.wupque t false;
  raster = update k.raster t false;
  enater = update k.enater t true;
}

unfoldable pub make_active : ℕ → Kernel → Kernel
unfolding make_runnable
make_active t k = make_runnable t (record k { tstat = update k.tstat t ts_runnable })

-- The tests of rotate_ready_queue on the entries of the ready queue.
unfoldable pub rotate_entries : List ℕ → ℕ → ℕ → Kernel → Kernel
unfolding set_predtsk queue_insert_prev
rotate_entries [] pri s k = k
rotate_entries (e ∷ []) pri s k = k
rotate_entries (e ∷ _ ∷ _) pri s k =
    let q = ready_queue s pri in
    let k1 = queue_insert_prev q e (record k { queue = update k.queue q (tail (k.queue q)) }) in
    if same_ptr (k1.p_predtsk s) (some e) then set_predtsk s (head? (k1.queue q)) k1 else k1

unfoldable pub rotate_ready_queue : ℕ → ℕ → Kernel → Kernel
unfolding rotate_entries
rotate_ready_queue pri s k = rotate_entries (k.queue (ready_queue s pri)) pri s k
