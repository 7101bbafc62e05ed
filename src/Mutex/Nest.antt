-- ===== src/Mutex/Nest.antt =====
-- Locking and unlocking of kernel/mutex.c: the last mutex is unlocked first, and the priority comes
-- back.
use toppers_hrp3_gr_rose.Common.{
  ℕ, ◌≤◌, ◌≡◌, refl, sym, ap, ◌∙◌, ◌≢◌, Bool, true, false, not, ◌&&◌, Option, none, some, List, [],
  ◌∷◌, arith, ltb, ◌==◌, has, Chain, Chain-cong, erase, ◌%◌, length, update, update_self, update_ne,
  if-branch,
}
use toppers_hrp3_gr_rose.Kernel.{
  Kernel, Mtxcbs, mtx_wait_queue, tstat_runnable, queue_insert_next, queue_insert_prev,
  queue_delete,
}
use toppers_hrp3_gr_rose.Wait.{change_priority, requeue}
use toppers_hrp3_gr_rose.Mutex.{
  tnum_mtx, raised_by, mutex_release, mtxinib_of, mtx_ceiling, link_mutex, mutex_acquire,
  mutex_drop_priority, mutex_calc_priority,
}
use toppers_hrp3_gr_rose.Mutex.Calls.{unlock_last}
use toppers_hrp3_gr_rose.Mutex.Ceiling.{highest, calc_locked-highest}

-- What change_priority leaves alone, and the priority that it sets.
record Changed (t newpri : ℕ) (k k' : Kernel) : Type 0 where
  mtx : k'.mtx ≡ k.mtx
  last : k'.p_lastmtx ≡ k.p_lastmtx
  bpriority : k'.bpriority ≡ k.bpriority
  cfg : k'.cfg ≡ k.cfg
  priority : k'.priority ≡ update k.priority t newpri

change_priority-Changed :
    (t newpri : ℕ) (m : Bool) (k : Kernel) → Changed t newpri k (change_priority t newpri m k)
unfolding change_priority
change_priority-Changed t newpri m k = record {
  mtx = ground arith;
  last = ground arith;
  bpriority = ground arith;
  cfg = ground arith;
  priority = ground arith;
}

requeue-queue :
    (t o n q : ℕ) (m : Bool) (k : Kernel)
    → q % 16 ≢ 0
    → (requeue t o n m k).queue q ≡ erase t (k.queue q)
unfolding requeue queue_insert_next queue_insert_prev queue_delete
requeue-queue t o n q m k h = ground arith

-- For a task that is runnable, the queues of objects only lose the task.
change_priority-queue :
    (t newpri q : ℕ) (m : Bool) (k : Kernel)
    → tstat_runnable (k.tstat t) ≡ true
    → q % 16 ≢ 0
    → (change_priority t newpri m k).queue q ≡ erase t (k.queue q)
unfolding change_priority
change_priority-queue t newpri q m k r n =
    let k0 = record k { priority = update k.priority t newpri } in
    ground (arith, requeue-queue t (k.priority t) newpri q m k0)

change_priority-tstat :
    (t newpri : ℕ) (m : Bool) (k : Kernel) → (change_priority t newpri m k).tstat ≡ k.tstat
unfolding change_priority
change_priority-tstat t newpri m k = ground arith

highest-cong :
    (base : ℕ) (xs : List ℕ) (k k' : Kernel)
    → k'.cfg ≡ k.cfg
    → highest base xs k' ≡ highest base xs k
unfolding highest raised_by mtx_ceiling
highest-cong base [] k k' e = refl
highest-cong base (x ∷ xs) k k' e =
    let same : raised_by base x k' ≡ raised_by base x k = rw e refl in
    rw same (highest-cong (raised_by base x k) xs k k' e)

raised_by-cong : (p i : ℕ) (k k' : Kernel) → k'.cfg ≡ k.cfg → raised_by p i k' ≡ raised_by p i k
unfolding raised_by mtx_ceiling
raised_by-cong p i k k' e = rw e refl

-- The same mutexes and base priority give the same priority.
mutex_calc_priority-cong :
    (me : ℕ) (xs : List ℕ) (k k' : Kernel)
    → Chain k.mtx.p_prevmtx (k.p_lastmtx me) xs
    → Chain k'.mtx.p_prevmtx (k'.p_lastmtx me) xs
    → length xs ≤ tnum_mtx k
    → k'.cfg ≡ k.cfg
    → k'.bpriority ≡ k.bpriority
    → mutex_calc_priority me k' ≡ mutex_calc_priority me k
unfolding mutex_calc_priority
mutex_calc_priority-cong me xs k k' h h' l c b =
    let l' : length xs ≤ tnum_mtx k' = rw c l in
    calc_locked-highest xs (tnum_mtx k') (k'.bpriority me) (k'.p_lastmtx me) k' h' l'
    ∙ highest-cong (k'.bpriority me) xs k k' c
    ∙ ap (λ (f : ℕ → ℕ). highest (f me) xs k) b
    ∙ sym (calc_locked-highest xs (tnum_mtx k) (k.bpriority me) (k.p_lastmtx me) k h l)

-- Where nobody waits for the mutex, it is locked by nobody then.
mutex_release-none :
    (i : ℕ) (k : Kernel)
    → k.queue (mtx_wait_queue i) ≡ []
    → mutex_release i k
      ≡ record k { mtx = record (k.mtx) { p_loctsk = update k.mtx.p_loctsk i none } }
unfolding mutex_release
mutex_release-none i k e = rw (e, mutex_release) refl

-- What stays the same for the task `me`, but for its priority, while it locks the mutex `i`.
record Locked (me i : ℕ) (k k' : Kernel) : Type 0 where
  mtx : k'.mtx ≡ (link_mutex me i k).mtx
  last : k'.p_lastmtx ≡ update k.p_lastmtx me (some i)
  bpriority : k'.bpriority ≡ k.bpriority
  cfg : k'.cfg ≡ k.cfg
  tstat : k'.tstat ≡ k.tstat
  priority : k'.priority me ≡ raised_by (k.priority me) i k
  queue : k.queue (mtx_wait_queue i) ≡ [] → k'.queue (mtx_wait_queue i) ≡ []

mutex_acquire-Locked :
    (me i : ℕ) (k : Kernel)
    → tstat_runnable (k.tstat me) ≡ true
    → Locked me i k (mutex_acquire me i k)
unfolding mutex_acquire link_mutex raised_by
mutex_acquire-Locked me i k run =
    let ceilpri = (mtxinib_of i k).ceilpri in
    let k1 = link_mutex me i k in
    let c = change_priority-Changed me ceilpri true k1 in
    let b = mtx_ceiling i k && ltb ceilpri (k.priority me) in
    if-branch (Locked me i k) b
      (λ e. record {
        mtx = c.mtx;
        last = c.last;
        bpriority = c.bpriority;
        cfg = c.cfg;
        tstat = change_priority-tstat me ceilpri true k1;
        priority =
            ap (λ (f : ℕ → ℕ). f me) c.priority ∙ update_self k.priority me ceilpri ∙ rw e refl;
        queue = λ h.
            change_priority-queue me ceilpri (mtx_wait_queue i) true k1 run (omega arith)
            ∙ rw h refl;
      })
      (λ e. record {
        mtx = refl;
        last = refl;
        bpriority = refl;
        cfg = refl;
        tstat = refl;
        priority = rw e refl;
        queue = λ h. h;
      })

-- A task gives up the ceiling of a mutex that is no longer among those it has locked.
record Dropped (me i p : ℕ) (k k' : Kernel) : Type 0 where
  mtx : k'.mtx ≡ k.mtx
  last : k'.p_lastmtx ≡ k.p_lastmtx
  priority : k'.priority me ≡ p
  queue : k.queue (mtx_wait_queue i) ≡ [] → k'.queue (mtx_wait_queue i) ≡ []

Dropped-refl : (me i p : ℕ) (k : Kernel) → k.priority me ≡ p → Dropped me i p k k
Dropped-refl me i p k e = record { mtx = refl; last = refl; priority = e; queue = λ h. h }

mutex_drop_priority-Dropped :
    (me i p : ℕ) (k : Kernel)
    → tstat_runnable (k.tstat me) ≡ true
    → mutex_calc_priority me k ≡ p
    → k.priority me ≡ raised_by p i k
    → Dropped me i p k (mutex_drop_priority me i k)
unfolding mutex_drop_priority raised_by
mutex_drop_priority-Dropped me i p k run calc at =
    let c = change_priority-Changed me (mutex_calc_priority me k) true k in
    if-branch (Dropped me i p k) (mtx_ceiling i k && ((mtxinib_of i k).ceilpri == k.priority me))
      (λ _.
        if-branch (Dropped me i p k) (not (mutex_calc_priority me k == k.priority me))
          (λ _. record {
            mtx = c.mtx;
            last = c.last;
            priority =
                ap (λ (f : ℕ → ℕ). f me) c.priority
                ∙ update_self k.priority me (mutex_calc_priority me k)
                ∙ calc;
            queue = λ h.
                change_priority-queue me (mutex_calc_priority me k) (mtx_wait_queue i) true k run
                  (omega arith)
                ∙ rw h refl;
          })
          (λ e. Dropped-refl me i p k (ground arith)))
      (λ e. Dropped-refl me i p k (ground arith))

differs : (i x : ℕ) (xs : List ℕ) → has i xs ≡ false → has x xs ≡ true → i ≢ x
differs i x xs f r = λ (e : i ≡ x). ground arith

-- A mutex that nobody waits for, once a task has locked it and then unlocks it, is locked by
-- nobody again; the task has the last mutex and the priority that it had before, where that was
-- the one that mutex_calc_priority gives. The task is runnable, has not locked the mutex before,
-- and has locked no more mutexes than there are.
pub unlock_last-mutex_acquire :
    (me i : ℕ) (xs : List ℕ) (k : Kernel)
    → tstat_runnable (k.tstat me) ≡ true
    → Chain k.mtx.p_prevmtx (k.p_lastmtx me) xs
    → length xs ≤ tnum_mtx k
    → has i xs ≡ false
    → k.queue (mtx_wait_queue i) ≡ []
    → k.priority me ≡ mutex_calc_priority me k
    → ((unlock_last me i (mutex_acquire me i k)).mtx.p_loctsk i ≡ none)
      × (((unlock_last me i (mutex_acquire me i k)).p_lastmtx me ≡ k.p_lastmtx me)
          × ((unlock_last me i (mutex_acquire me i k)).priority me ≡ k.priority me))
unfolding unlock_last mutex_calc_priority
unlock_last-mutex_acquire me i xs k run h l fresh empty current =
    let k1 = mutex_acquire me i k in
    let a = mutex_acquire-Locked me i k run in
    let k2 = record k1 { p_lastmtx = update k1.p_lastmtx me (k1.mtx.p_prevmtx i) } in
    let apart = λ (x : ℕ) (r : has x xs ≡ true). differs i x xs fresh r in
    let prev : k1.mtx.p_prevmtx i ≡ k.p_lastmtx me =
      ap (λ (m : Mtxcbs). m.p_prevmtx i) a.mtx ∙ update_self k.mtx.p_prevmtx i (k.p_lastmtx me) in
    let same : (x : ℕ) → has x xs ≡ true → k1.mtx.p_prevmtx x ≡ k.mtx.p_prevmtx x = λ x r.
      ap (λ (m : Mtxcbs). m.p_prevmtx x) a.mtx
      ∙ update_ne k.mtx.p_prevmtx i x (k.p_lastmtx me) (apart x r) in
    let last : k2.p_lastmtx me ≡ k.p_lastmtx me =
      update_self k1.p_lastmtx me (k1.mtx.p_prevmtx i) ∙ prev in
    let holds : Chain k2.mtx.p_prevmtx (k2.p_lastmtx me) xs =
      rw last (Chain-cong k.mtx.p_prevmtx k1.mtx.p_prevmtx (k.p_lastmtx me) xs same h) in
    let calc : mutex_calc_priority me k2 ≡ k.priority me =
      mutex_calc_priority-cong me xs k k2 h holds l a.cfg a.bpriority ∙ sym current in
    let running : tstat_runnable (k2.tstat me) ≡ true =
      ap (λ (f : ℕ → ℕ). tstat_runnable (f me)) a.tstat ∙ run in
    let at : k2.priority me ≡ raised_by (k.priority me) i k2 =
      a.priority ∙ sym (raised_by-cong (k.priority me) i k k2 a.cfg) in
    let d = mutex_drop_priority-Dropped me i (k.priority me) k2 running calc at in
    let k3 = mutex_drop_priority me i k2 in
    rw (mutex_release-none i k3 (d.queue (a.queue empty))) (
      update_self k3.mtx.p_loctsk i none,
      (ap (λ (f : ℕ → Option ℕ). f me) d.last ∙ last, d.priority),
    )
