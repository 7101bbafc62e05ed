-- ===== src/Mutex/Release.antt =====
-- To whom mutex_release and mutex_release_all of kernel/mutex.c pass the mutexes.
use toppers_hrp3_gr_rose.Common.{
  ℕ, zero, suc, ◌+◌, ◌*◌, ◌≤◌, ◌≡◌, refl, sym, ap, subst, ◌∙◌, ◌≢◌, inl, inr, true, false, Option,
  none, some, List, [], ◌∷◌, arith, ◌==◌, has, Chain, Chain-cong, distinct, length, update,
  update_self, update_ne, if-both, Bool-cases, Option-cases,
}
use mathlib.Core.Option.{some-injective, none-ne-some}
use toppers_hrp3_gr_rose.Kernel.{
  Kernel, Mtxcbs, wercd, e_ok, head?, mtx_wait_queue, queue_delete_next, tstat_suspended,
}
use toppers_hrp3_gr_rose.Task.{make_runnable}
use toppers_hrp3_gr_rose.Wait.{make_non_wait, wait_dequeue_tmevtb, set_wercd}
use toppers_hrp3_gr_rose.Wait.Queue.{make_non_wait-queue, make_non_wait-winfo}
use toppers_hrp3_gr_rose.Mutex.{
  tnum_mtx, link_mutex, raised_by, pass_mutex, mutex_release, release_all_loop, mutex_release_all,
}

abbrev SameLocks : Kernel → Kernel → Type 0
SameLocks k k' = (k'.mtx ≡ k.mtx) × (k'.p_lastmtx ≡ k.p_lastmtx)

make_non_wait-SameLocks : (t : ℕ) (k : Kernel) → SameLocks k (make_non_wait t k)
unfolding make_non_wait make_runnable
make_non_wait-SameLocks t k =
    if-both (SameLocks k) (tstat_suspended (k.tstat t)) (refl, refl) (ground arith)

-- What mutex_release does: the first task that waits has the mutex, with the result E_OK, or
-- nobody; the other mutexes, the mutexes of the other tasks and their queues are as they were.
pub record Passed (i : ℕ) (k k' : Kernel) : Type 0 where
  pub holder :
      (j : ℕ) → k'.mtx.p_loctsk j ≡ update k.mtx.p_loctsk i (head? (k.queue (mtx_wait_queue i))) j
  pub gained :
      (u : ℕ)
      → head? (k.queue (mtx_wait_queue i)) ≡ some u
      → (k'.p_lastmtx u ≡ some i)
        × ((k'.mtx.p_prevmtx i ≡ k.p_lastmtx u) × (k'.winfo u ≡ wercd e_ok))
  pub prev : (j : ℕ) → i ≢ j → k'.mtx.p_prevmtx j ≡ k.mtx.p_prevmtx j
  pub last : (u : ℕ) → head? (k.queue (mtx_wait_queue i)) ≢ some u → k'.p_lastmtx u ≡ k.p_lastmtx u
  pub queues : (j : ℕ) → i ≢ j → k'.queue (mtx_wait_queue j) ≡ k.queue (mtx_wait_queue j)

pass_mutex-Passed :
    (i t : ℕ) (k : Kernel)
    → head? (k.queue (mtx_wait_queue i)) ≡ some t
    → Passed i k (pass_mutex i t k)
unfolding pass_mutex link_mutex wait_dequeue_tmevtb queue_delete_next
pass_mutex-Passed i t k e =
    let k1 =
      link_mutex t i
        (set_wercd t e_ok (wait_dequeue_tmevtb t (queue_delete_next (mtx_wait_queue i) k))) in
    let k2 = record k1 { priority = update k1.priority t (raised_by (k1.priority t) i k1) } in
    let same = make_non_wait-SameLocks t k2 in
    record {
      holder = λ j. rw e (ap (λ (m : Mtxcbs). m.p_loctsk j) same.0);
      gained = λ u h.
          let at : t ≡ u = some-injective t u (sym e ∙ h) in
          subst
            (λ (u : ℕ).
              ((pass_mutex i t k).p_lastmtx u ≡ some i)
              × (((pass_mutex i t k).mtx.p_prevmtx i ≡ k.p_lastmtx u)
                  × ((pass_mutex i t k).winfo u ≡ wercd e_ok)))
            at
            (
              ap (λ (f : ℕ → Option ℕ). f t) same.1 ∙ update_self k.p_lastmtx t (some i),
              (
                ap (λ (m : Mtxcbs). m.p_prevmtx i) same.0
                    ∙ update_self k.mtx.p_prevmtx i (k.p_lastmtx t),
                make_non_wait-winfo k2 t t ∙ update_self k.winfo t (wercd e_ok),
              ),
            );
      prev = λ j n.
          ap (λ (m : Mtxcbs). m.p_prevmtx j) same.0
          ∙ update_ne k.mtx.p_prevmtx i j (k.p_lastmtx t) n;
      last = λ u n.
          ap (λ (f : ℕ → Option ℕ). f u) same.1
          ∙ update_ne k.p_lastmtx t u (some i) (λ (q : t ≡ u). n (e ∙ ap {B = Option ℕ} some q));
      queues = λ j n.
          make_non_wait-queue k2 t (mtx_wait_queue j) (omega arith)
          ∙ update_ne k.queue (mtx_wait_queue i) (mtx_wait_queue j) _
              (λ (q : i * 16 + 5 ≡ j * 16 + 5). n (omega arith));
    }

-- mutex_release passes a mutex to the first task that waits for it, with the result E_OK and as
-- the last mutex of that task, or to nobody where none waits; it changes neither the holders of the
-- other mutexes, nor what the other tasks have locked, nor the other queues of mutexes.
pub mutex_release-Passed : (i : ℕ) (k : Kernel) → Passed i k (mutex_release i k)
unfolding mutex_release
mutex_release-Passed i k = elim (Option-cases (head? (k.queue (mtx_wait_queue i)))) [
  | inr (t, e) ↦ rw (e, mutex_release) (pass_mutex-Passed i t k e)
  | inl e ↦
      rw (e, mutex_release)
        (record {
          holder = λ j. rw e refl;
          gained = λ u h. absurd (none-ne-some u (sym e ∙ h));
          prev = λ j n. refl;
          last = λ u n. refl;
          queues = λ j n. refl;
        })
]

not_in : (x y : ℕ) (xs : List ℕ) → distinct (x ∷ xs) ≡ true → has y xs ≡ true → x ≢ y
not_in x y xs d r = λ (e : x ≡ y). ground arith

-- What mutex_release_all does to the mutexes `xs` of a task.
pub record AllPassed (t : ℕ) (xs : List ℕ) (k k' : Kernel) : Type 0 where
  pub holds_none : k'.p_lastmtx t ≡ none
  pub passed : (x : ℕ) → has x xs ≡ true → k'.mtx.p_loctsk x ≡ head? (k.queue (mtx_wait_queue x))
  pub kept : (x : ℕ) → has x xs ≡ false → k'.mtx.p_loctsk x ≡ k.mtx.p_loctsk x

-- The task is not the first to wait for one of the mutexes.
abbrev pub WaitsForNone : ℕ → List ℕ → Kernel → Type 0
WaitsForNone t xs k = (x : ℕ) → has x xs ≡ true → head? (k.queue (mtx_wait_queue x)) ≢ some t

release_all_loop-AllPassed :
    (xs : List ℕ) (fuel t : ℕ) (k : Kernel)
    → Chain k.mtx.p_prevmtx (k.p_lastmtx t) xs
    → length xs ≤ fuel
    → distinct xs ≡ true
    → WaitsForNone t xs k
    → AllPassed t xs k (release_all_loop fuel t k)
unfolding release_all_loop
release_all_loop-AllPassed [] zero t k h l d w = record {
  holds_none = h;
  passed = λ x r. ground arith;
  kept = λ x r. refl;
}
release_all_loop-AllPassed [] (suc fuel) t k h l d w =
    rw (h, release_all_loop)
      (record { holds_none = h; passed = λ x r. ground arith; kept = λ x r. refl })
release_all_loop-AllPassed (x ∷ xs) zero t k h l d w = absurd (omega arith)
release_all_loop-AllPassed (x ∷ xs) (suc fuel) t k h l d w =
    let k1 = record k { p_lastmtx = update k.p_lastmtx t (k.mtx.p_prevmtx x) } in
    let k2 = mutex_release x k1 in
    let p = mutex_release-Passed x k1 in
    let apart = λ (y : ℕ) (r : has y xs ≡ true). not_in x y xs d r in
    let last : k2.p_lastmtx t ≡ k.mtx.p_prevmtx x =
      p.last t (w x (ground arith)) ∙ update_self k.p_lastmtx t (k.mtx.p_prevmtx x) in
    let holds =
      Chain-cong k.mtx.p_prevmtx k2.mtx.p_prevmtx (k.mtx.p_prevmtx x) xs
        (λ y r. p.prev y (apart y r)) h.1 in
    let rest =
      release_all_loop-AllPassed xs fuel t k2 (rw last holds) (omega arith) (ground arith)
        (λ y r. rw (p.queues y (apart y r)) (w y (ground arith))) in
    rw (h.0, release_all_loop)
      (record {
        holds_none = rest.holds_none;
        passed = λ y r. elim (Bool-cases (x == y)) [
          | inl s ↦
              let at : x ≡ y = ground arith in
              subst
                (λ (y : ℕ).
                  (release_all_loop fuel t k2).mtx.p_loctsk y ≡ head? (k.queue (mtx_wait_queue y)))
                at
                (rest.kept x (ground arith)
                  ∙ p.holder x
                  ∙ update_self k.mtx.p_loctsk x (head? (k.queue (mtx_wait_queue x))))
          | inr s ↦
              let in_rest : has y xs ≡ true = ground arith in
              rest.passed y in_rest ∙ ap (λ (q : List ℕ). head? q) (p.queues y (apart y in_rest))
        ];
        kept = λ y r. rest.kept y (ground arith) ∙ p.holder y ∙ ground arith;
      })

-- mutex_release_all comes to the end of the mutexes of a task, in at most as many rounds as there
-- are mutexes: it leaves the task with no mutex, and passes each mutex that it had to the first
-- task that waits for it, or to nobody, and no other mutex; where the task had no more mutexes
-- than there are, none of them twice, and is not the first to wait for one of them.
pub mutex_release_all-AllPassed :
    (t : ℕ) (xs : List ℕ) (k : Kernel)
    → Chain k.mtx.p_prevmtx (k.p_lastmtx t) xs
    → length xs ≤ tnum_mtx k
    → distinct xs ≡ true
    → WaitsForNone t xs k
    → AllPassed t xs k (mutex_release_all t k)
unfolding mutex_release_all
mutex_release_all-AllPassed t xs k h l d w = release_all_loop-AllPassed xs (tnum_mtx k) t k h l d w
