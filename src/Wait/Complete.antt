-- ===== src/Wait/Complete.antt =====
-- What wait_complete of kernel/wait.c does to the state, and what a dispatch after it leaves alone.
use toppers_hrp3_gr_rose.Common.{
  ℕ, ◌%◌, ◌≡◌, ◌≢◌, false, true, Option, [], ◌∷◌, arith, ◌==◌, has, has-append, same_ptr,
  if◌then◌else◌, if-both,
}
use toppers_hrp3_gr_rose.Kernel.{
  Kernel, wercd, e_ok, unlock_cpu, dispatch, dispatch_if_needed, dispatch_or_request,
  tstat_suspended, ts_suspended, ts_runnable, ready_queue,
}
use toppers_hrp3_gr_rose.Task.{make_runnable}
use toppers_hrp3_gr_rose.Task.Ready.{make_runnable-queue}
use toppers_hrp3_gr_rose.Wait.{
  make_non_wait, wait_complete, wait_dequeue_tmevtb, set_wercd, set_tstat,
}

-- The state of a task whose wait is over, from that of the waiting task.
abbrev pub awake : ℕ → ℕ
awake v = if tstat_suspended v then ts_suspended else ts_runnable

-- A kernel in which the wait of one task has ended with E_OK.
pub record IsCompleted (t : ℕ) (k k' : Kernel) : Type 0 where
  pub objects : (q : ℕ) → q % 16 ≢ 0 → k'.queue q ≡ k.queue q
  pub info : (u : ℕ) → k'.winfo u ≡ (if t == u then wercd e_ok else k.winfo u)
  pub states : (u : ℕ) → k'.tstat u ≡ (if t == u then awake (k.tstat t) else k.tstat u)
  pub ready :
      tstat_suspended (k.tstat t) ≡ false
      → has t (k'.queue (ready_queue (k'.p_schedcb t) (k'.priority t))) ≡ true
  pub counts : k'.semcnt ≡ k.semcnt
  pub pools : k'.mpf ≡ k.mpf
  pub blocks : k'.wblk ≡ k.wblk
  pub config : k'.cfg ≡ k.cfg

pub wait_complete-IsCompleted : (k : Kernel) (t : ℕ) → IsCompleted t k (wait_complete t k)
unfolding wait_complete wait_dequeue_tmevtb make_non_wait make_runnable
wait_complete-IsCompleted k t =
    let k1 = set_wercd t e_ok (wait_dequeue_tmevtb t k) in
    record {
      objects = λ q n. ground (arith, make_runnable-queue (set_tstat t ts_runnable k1) t q);
      info = λ u. ground arith;
      states = λ u. ground arith;
      ready = λ e.
          let q = ready_queue (k1.p_schedcb t) (k1.priority t) in
          ground (
            arith,
            make_runnable-queue (set_tstat t ts_runnable k1) t q,
            has-append t (k1.queue q) (t ∷ []),
          );
      counts = ground arith;
      pools = ground arith;
      blocks = ground arith;
      config = ground arith;
    }

-- The dispatcher and the CPU lock leave all of that alone.
module _ (t : ℕ) (k k' : Kernel) (v : IsCompleted t k k') where
  running : (run : Option ℕ) → IsCompleted t k (unlock_cpu (record k' { p_runtsk = run }))
  running run = record {
    objects = v.objects;
    info = v.info;
    states = v.states;
    ready = v.ready;
    counts = v.counts;
    pools = v.pools;
    blocks = v.blocks;
    config = v.config;
  }

  pub dispatch_if_needed-IsCompleted : IsCompleted t k (unlock_cpu (dispatch_if_needed k'))
  unfolding dispatch_if_needed dispatch
  dispatch_if_needed-IsCompleted =
      if-both (λ (k' : Kernel). IsCompleted t k (unlock_cpu k'))
        (same_ptr k'.p_runtsk k'.p_schedtsk) (running k'.p_runtsk) (running k'.p_schedtsk)

  pub dispatch_or_request-IsCompleted : IsCompleted t k (unlock_cpu (dispatch_or_request k'))
  unfolding dispatch_or_request
  dispatch_or_request-IsCompleted =
      if-both (λ (k' : Kernel). IsCompleted t k (unlock_cpu k')) k'.nontask_context
        (running k'.p_runtsk) dispatch_if_needed-IsCompleted
