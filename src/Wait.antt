-- ===== src/Wait.antt =====
-- kernel/wait.c, kernel/wait.h: tasks that begin to wait, and the ends of their waits; and
-- change_priority of kernel/task.c, which moves a task within its queue.
pub mod Consistent
pub mod Queue
pub mod Complete
use toppers_hrp3_gr_rose.Common.{
  ℕ, zero, suc, ◌+◌, ◌*◌, ◌^◌, Bool, true, false, not, ◌&&◌, ◌||◌, Option, none, some, List, [],
  ◌∷◌, ltb, leb, ◌==◌, if◌then◌else◌, update, bit_and, same_ptr, length,
}
use toppers_hrp3_gr_rose.TimeEvent
use toppers_hrp3_gr_rose.TimeEvent.{tmevtb_dequeue, tmevtb_enqueue_reltim}
use toppers_hrp3_gr_rose.Kernel.{
  Kernel, Er, e_ok, e_tmout, e_dlt, Winfo, wercd, p_tmevtb, ready_queue, queue_insert_prev,
  queue_insert_next, queue_delete, queue_delete_next, queue_empty, head?, tstat_runnable,
  tstat_suspended, tstat_wait_wobj, tstat_wait_wobjcb, without_suspended, ts_runnable, ts_suspended,
  ts_waiting_smbf,
}
use toppers_hrp3_gr_rose.Task.{
  make_runnable, make_non_runnable, primap_set, primap_clear, set_predtsk, search_predtsk,
}

-- TMO_POL, TMO_FEVR and the longest relative time.
abbrev pub tmo_pol : ℕ
tmo_pol = 0

abbrev pub tmo_fevr : ℕ
tmo_fevr = 0xffff_ffff

abbrev pub tmax_reltim : ℕ
tmax_reltim = 4000000000

-- VALID_TMOUT.
abbrev pub valid_tmout : ℕ → Bool
valid_tmout tmout = leb tmout tmax_reltim || (tmout == tmo_fevr)

abbrev pub ta_tpri : ℕ
ta_tpri = 0x01

-- The time event block on the stack of a waiting task.
abbrev pub task_tmevtb : ℕ → ℕ
task_tmevtb t = t * 4

abbrev pub set_wercd : ℕ → Er → Kernel → Kernel
set_wercd t e k = record k { winfo = update k.winfo t (wercd e) }

abbrev pub set_tstat : ℕ → ℕ → Kernel → Kernel
set_tstat t v k = record k { tstat = update k.tstat t v }

-- The walk of queue_insert_tpri over the entries.
unfoldable pub insert_tpri : (ℕ → ℕ) → ℕ → List ℕ → List ℕ
insert_tpri priority t [] = t ∷ []
insert_tpri priority t (x ∷ xs) =
    if ltb (priority t) (priority x) then t ∷ x ∷ xs else x ∷ insert_tpri priority t xs

unfoldable pub queue_insert_tpri : ℕ → ℕ → Kernel → Kernel
unfolding insert_tpri
queue_insert_tpri q t k = record k {
  queue = update k.queue q (insert_tpri k.priority t (k.queue q));
}

pub wobj_change_priority : ℕ → ℕ → Kernel → Kernel
unfolding queue_insert_tpri queue_delete
wobj_change_priority q t k =
    if bit_and (k.cfg.wobjatr q) ta_tpri == 0 then k else queue_insert_tpri q t (queue_delete t k)

-- The part of change_priority for a task that is runnable, its priority already changed.
unfoldable pub requeue : ℕ → ℕ → ℕ → Bool → Kernel → Kernel
unfolding queue_insert_next queue_insert_prev queue_delete primap_clear primap_set
requeue t oldpri newpri mtxmode k =
    let s = k.p_schedcb t in
    let k1 = queue_delete t k in
    let k2 = if queue_empty (ready_queue s oldpri) k1 then primap_clear oldpri s k1 else k1 in
    let k3 =
      if mtxmode
      then queue_insert_next (ready_queue s newpri) t k2
      else queue_insert_prev (ready_queue s newpri) t k2 in
    primap_set newpri s k3

-- The test of the new priority against that of p_predtsk.
overtakes : ℕ → Bool → Option ℕ → Kernel → Bool
overtakes newpri mtxmode none k = false
overtakes newpri mtxmode (some p) k =
    if mtxmode then leb newpri (k.priority p) else ltb newpri (k.priority p)

unfoldable pub change_priority : ℕ → ℕ → Bool → Kernel → Kernel
unfolding requeue overtakes wobj_change_priority set_predtsk search_predtsk
change_priority t newpri mtxmode k =
    let s = k.p_schedcb t in
    let oldpri = k.priority t in
    let k0 = record k { priority = update k.priority t newpri } in
    let k1 = requeue t oldpri newpri mtxmode k0 in
    let pred = k1.p_predtsk s in
    let runnable =
      if same_ptr pred (some t)
      then set_predtsk s (if leb oldpri newpri then search_predtsk s k1 else pred) k1
      else if overtakes newpri mtxmode pred k1
      then set_predtsk s (some t) k1
      else k1 in
    let waiting =
      if tstat_wait_wobjcb (k.tstat t) then wobj_change_priority (k0.p_wobjcb t) t k0 else k0 in
    if tstat_runnable (k.tstat t) then runnable else waiting

unfoldable pub make_wait : ℕ → ℕ → Kernel → Kernel
make_wait tstat me k =
    let k1 = make_non_runnable me (set_tstat me tstat k) in
    record k1 { winfo = update k1.winfo me (p_tmevtb none) }

abbrev pub heap_of : ℕ → Kernel → ℕ
heap_of t k = (k.cfg.dominib (k.p_dominib t)).p_tmevt_heap

abbrev pub on_tmevt : (TimeEvent.Tmevt → TimeEvent.Tmevt) → Kernel → Kernel
on_tmevt f k = record k { tmevt = f k.tmevt }

-- Registration of a time event block of the running task, with its callback.
unfoldable pub register_wait : ℕ → TimeEvent.Cback → ℕ → Kernel → Kernel
register_wait me callback time k =
    on_tmevt
      (λ m. tmevtb_enqueue_reltim (task_tmevtb me) time (heap_of me k) (record m {
        callback = update m.callback (task_tmevtb me) callback;
        cback_arg = update m.cback_arg (task_tmevtb me) me;
      }))
      (record k { winfo = update k.winfo me (p_tmevtb (some (task_tmevtb me))) })

unfoldable pub make_wait_tmout : ℕ → ℕ → ℕ → Kernel → Kernel
unfolding register_wait make_wait
make_wait_tmout tstat tmout me k =
    if tmout == tmo_fevr
    then make_wait tstat me k
    else register_wait me TimeEvent.wait_tmout tmout (make_non_runnable me (set_tstat me tstat k))

unfoldable pub make_non_wait : ℕ → Kernel → Kernel
make_non_wait t k =
    if tstat_suspended (k.tstat t)
    then set_tstat t ts_suspended k
    else make_runnable t (set_tstat t ts_runnable k)

-- The test of wait_dequeue_tmevtb on the wait information of the task.
unfoldable pub dequeue_pending : ℕ → Winfo → TimeEvent.Tmevt → TimeEvent.Tmevt
dequeue_pending h (wercd e) m = m
dequeue_pending h (p_tmevtb none) m = m
dequeue_pending h (p_tmevtb (some b)) m = tmevtb_dequeue b h m

unfoldable pub wait_dequeue_tmevtb : ℕ → Kernel → Kernel
unfolding dequeue_pending
wait_dequeue_tmevtb t k = on_tmevt (dequeue_pending (heap_of t k) (k.winfo t)) k

unfoldable pub wait_complete : ℕ → Kernel → Kernel
unfolding make_non_wait wait_dequeue_tmevtb
wait_complete t k = make_non_wait t (set_wercd t e_ok (wait_dequeue_tmevtb t k))

-- The hook that kernel/messagebuf.c installs for tasks that wait to send is an argument.
module _ (mbfhook_dequeue_wobj : ℕ → Kernel → Kernel) where
  unfoldable pub wait_dequeue_wobj : ℕ → Kernel → Kernel
  wait_dequeue_wobj t k =
      let k1 = queue_delete t k in
      if tstat_wait_wobj (k.tstat t)
      then if without_suspended (k.tstat t) == ts_waiting_smbf
        then mbfhook_dequeue_wobj t k1
        else k1
      else k

  -- A dispatch, if one is needed, is left to the return from the timer interrupt.
  unfoldable pub wait_tmout : ℕ → Kernel → Kernel
  unfolding wait_dequeue_wobj make_non_wait
  wait_tmout t k = make_non_wait t (set_wercd t e_tmout (wait_dequeue_wobj t k))

unfoldable pub wait_tmout_ok : ℕ → Kernel → Kernel
unfolding make_non_wait
wait_tmout_ok t k = make_non_wait t (set_wercd t e_ok k)

unfoldable pub wobj_queue_insert : ℕ → ℕ → Kernel → Kernel
unfolding queue_insert_tpri queue_insert_prev
wobj_queue_insert q me k =
    if bit_and (k.cfg.wobjatr q) ta_tpri == 0
    then queue_insert_prev q me k
    else queue_insert_tpri q me k

-- The object that a task waits for, by the queue with which its control block begins.
abbrev pub set_wobjcb : ℕ → ℕ → Kernel → Kernel
set_wobjcb me q k = record k { p_wobjcb = update k.p_wobjcb me q }

unfoldable pub wobj_make_wait : ℕ → ℕ → ℕ → Kernel → Kernel
unfolding wobj_queue_insert make_wait
wobj_make_wait q tstat me k = set_wobjcb me q (wobj_queue_insert q me (make_wait tstat me k))

unfoldable pub wobj_make_wait_tmout : ℕ → ℕ → ℕ → ℕ → Kernel → Kernel
unfolding wobj_queue_insert make_wait_tmout
wobj_make_wait_tmout q tstat tmout me k =
    set_wobjcb me q (wobj_queue_insert q me (make_wait_tmout tstat tmout me k))

-- The task at the head of a queue that is re-initialised.
unfoldable pub release_deleted : ℕ → ℕ → Kernel → Kernel
unfolding make_non_wait wait_dequeue_tmevtb queue_delete_next
release_deleted q t k =
    make_non_wait t (set_wercd t e_dlt (wait_dequeue_tmevtb t (queue_delete_next q k)))

-- The loop of init_wait_queue, with fuel.
unfoldable pub init_wait_loop : ℕ → ℕ → Kernel → Kernel
unfolding release_deleted
init_wait_loop zero q k = k
init_wait_loop (suc fuel) q k = elim (head? (k.queue q)) [
  | none ↦ k
  | some t ↦ init_wait_loop fuel q (release_deleted q t k)
]

-- Each round takes one entry, so the length of the queue is fuel enough.
unfoldable pub init_wait_queue : ℕ → Kernel → Kernel
unfolding init_wait_loop
init_wait_queue q k = init_wait_loop (length (k.queue q)) q k
