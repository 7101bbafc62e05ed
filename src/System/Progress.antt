-- ===== src/System/Progress.antt =====
-- Several signals of a semaphore of kernel/semaphore.c, one after another.
use toppers_hrp3_gr_rose.Common.{
  ℕ, zero, suc, ◌%◌, ◌≡◌, ◌≢◌, refl, sym, subst, ap, ◌⊎◌, inl, inr, true, false, Option, none, some,
  List, [], ◌∷◌, ◌++◌, length, arith, has, has-append, distinct, Bool-cases,
}
use toppers_hrp3_gr_rose.Kernel.{
  Kernel, returned, wercd, e_ok, sem_wait_queue, ready_queue, queue_delete_next, ts_runnable,
  ts_suspended, tstat_suspended,
}
use toppers_hrp3_gr_rose.Service.{Leaves}
use toppers_hrp3_gr_rose.Wait.Complete.{IsCompleted}
use toppers_hrp3_gr_rose.Semaphore.{sig_sem_locked}
use toppers_hrp3_gr_rose.Semaphore.Release.{sig_sem_locked-release}
use toppers_hrp3_gr_rose.System.Steady.{IsSteady}
use toppers_hrp3_gr_rose.System.Semaphores.{sig_sem_locked-IsSteady}
use toppers_hrp3_gr_rose.System.Steps.{state_after}

-- Several signals of one semaphore, one after another, each past its checks.
unfoldable pub signals : ℕ → ℕ → Kernel → Option Kernel
unfolding sig_sem_locked
signals zero i k = some k
signals (suc n) i k = elim (state_after (sig_sem_locked i k)) [
  | none ↦ none
  | some k' ↦ signals n i k'
]

-- A task that waited in `k` for a semaphore runs again, or may in its turn, in `k'`: it is in no
-- queue of an object, it has the result E_OK, and it is in its ready queue as a runnable task,
-- unless it was suspended and is so still.
pub record IsReleased (t : ℕ) (k k' : Kernel) : Type 0 where
  pub steady : IsSteady k'
  pub result : k'.winfo t ≡ wercd e_ok
  pub away : (q : ℕ) → q % 16 ≢ 0 → has t (k'.queue q) ≡ false
  pub runs :
      ((tstat_suspended (k.tstat t) ≡ true) × (k'.tstat t ≡ ts_suspended))
      ⊎ ((tstat_suspended (k.tstat t) ≡ false)
          × ((k'.tstat t ≡ ts_runnable)
              × (has t (k'.queue (ready_queue (k'.p_schedcb t) (k'.priority t))) ≡ true)))

-- One signal takes the first task out of the queue and keeps the kernel steady.
signal-first :
    (i t : ℕ) (ts : List ℕ) (k : Kernel)
    → IsSteady k
    → k.queue (sem_wait_queue i) ≡ t ∷ ts
    → (k' : Kernel) × ((sig_sem_locked i k ≡ returned e_ok k')
        × ((IsSteady k' × (k'.queue (sem_wait_queue i) ≡ ts))
            × IsCompleted t (queue_delete_next (sem_wait_queue i) k) k'))
unfolding Leaves queue_delete_next
signal-first i t ts k v e =
    let (k', (ret, done)) = sig_sem_locked-release i t ts k e in
    let steady = subst (Leaves IsSteady) ret (sig_sem_locked-IsSteady k i v) in
    let q = sem_wait_queue i in (k', (ret, ((steady, ground (arith, done.objects q)), done)))

first-IsReleased :
    (i t : ℕ) (ts : List ℕ) (k k' : Kernel)
    → IsSteady k
    → k.queue (sem_wait_queue i) ≡ t ∷ ts
    → IsSteady k'
    → IsCompleted t (queue_delete_next (sem_wait_queue i) k) k'
    → IsReleased t k k'
unfolding queue_delete_next
first-IsReleased i t ts k k' v e v' done = record {
  steady = v';
  result = ground (arith, done.info t);
  away = λ q n.
      ground (arith, done.objects q n, v.linked.single q, v.linked.once q (sem_wait_queue i) t);
  runs = elim (Bool-cases (tstat_suspended (k.tstat t))) [
    | inl s ↦ inl (s, ground (arith, done.states t))
    | inr s ↦ inr (s, (ground (arith, done.states t), done.ready s))
  ];
}

-- From a steady kernel, a task that waits for a semaphore behind others is released after as many
-- signals, past their checks, as there are tasks before it and one more: it has the result E_OK
-- then, it is in no queue of an object, and it is runnable and in its ready queue, or suspended
-- where it was suspended. The tasks behind it are still in the queue, and the kernel is steady.
pub signals-release :
    (i t : ℕ) (before after : List ℕ) (k : Kernel)
    → IsSteady k
    → k.queue (sem_wait_queue i) ≡ before ++ t ∷ after
    → (k' : Kernel) × ((signals (suc (length before)) i k ≡ some k')
        × ((k'.queue (sem_wait_queue i) ≡ after) × IsReleased t k k'))
unfolding signals state_after queue_delete_next
signals-release i t [] after k v e =
    let (k', (ret, ((v', queue), done))) = signal-first i t after k v e in
    (k', (rw (ret, signals) refl, (queue, first-IsReleased i t after k k' v e v' done)))
signals-release i t (b ∷ before) after k v e =
    let (k1, (ret, ((v1, queue), done))) = signal-first i b (before ++ t ∷ after) k v e in
    let (k', (rest, (left, r))) = signals-release i t before after k1 v1 queue in
    let other : b ≢ t = λ s.
      ground (
        arith,
        has-append t before (t ∷ after),
        ap distinct e,
        v.linked.single (sem_wait_queue i),
      ) in
    let same : k1.tstat t ≡ k.tstat t = ground (arith, done.states t) in
    (
      k',
      (
        rw (ret, signals) rest,
        (
          left,
          record {
            steady = r.steady;
            result = r.result;
            away = r.away;
            runs = rw (sym same) r.runs;
          },
        ),
      ),
    )
