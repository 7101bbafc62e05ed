-- ===== src/System/Moves.antt =====
-- The scheduler and the links of the queues together, over the transitions of kernel/task.c and
-- kernel/wait.c that make a task runnable or stop it, and those that end a wait.
use toppers_hrp3_gr_rose.Common.{
  ℕ, ◌/◌, ◌%◌, ◌<◌, ◌≡◌, refl, subst, ap, ◌∙◌, ◌≢◌, inl, inr, true, false, some, List, [], ◌∷◌,
  ◌++◌, arith, fun_ext, has, has-append, erase, update, update_self, if-both, ◌==◌, Bool-cases,
}
use toppers_hrp3_gr_rose.Kernel.{
  Kernel, Er, ready_queue, head?, tail, queue_delete, queue_delete_next, ts_runnable, ts_suspended,
  tstat_suspended, tstat_wait_wobj,
}
use toppers_hrp3_gr_rose.Task.{make_runnable, make_non_runnable}
use toppers_hrp3_gr_rose.Task.Ready.{make_runnable-queue}
use toppers_hrp3_gr_rose.Task.Fields.{make_non_runnable-queue}
use toppers_hrp3_gr_rose.Task.Consistent.{
  IsConsistent, make_runnable-tstat, make_non_runnable-tstat, make_runnable-IsConsistent,
  make_non_runnable-IsConsistent,
}
use toppers_hrp3_gr_rose.Wait.{make_non_wait, wait_dequeue_tmevtb, set_tstat, set_wercd}
use toppers_hrp3_gr_rose.Wait.Consistent.{
  others-IsConsistent, wait_dequeue_tmevtb-IsConsistent, set_tstat-IsConsistent,
  object_queue-IsConsistent, queue_delete-IsConsistent,
}
use toppers_hrp3_gr_rose.System.Linked.{
  IsLinked, IsFree, erase-IsLinked, erase-IsFree, restate-IsLinked, insert-IsLinked, tail-IsLinked,
  tail-IsFree, wobj_ne, distinct-snoc,
}

-- A scheduler that is consistent, with queues that are linked as they should.
pub record IsSound (k : Kernel) : Type 0 where
  pub consistent : IsConsistent k
  pub linked : IsLinked k.queue k.tstat

-- A task that waits for an object is not runnable.
pub wobj-not_runnable : (v : ℕ) → tstat_wait_wobj v ≡ true → v ≢ ts_runnable
unfolding tstat_wait_wobj
wobj-not_runnable v e = wobj_ne v ts_runnable e refl

-- The first task of the queue of an object is not runnable.
pub first-not_runnable :
    (k : Kernel) (q t : ℕ)
    → IsSound k
    → q % 16 ≢ 0
    → head? (k.queue q) ≡ some t
    → k.tstat t ≢ ts_runnable
first-not_runnable k q t s n e =
    wobj-not_runnable (k.tstat t) (s.linked.waiting q t n (in_front (k.queue q) e))
  where
    in_front : (xs : List ℕ) → head? xs ≡ some t → has t xs ≡ true
    in_front [] h = ground arith
    in_front (x ∷ xs) h = ground arith

-- The entries of the ready queues are runnable.
pub ready-runnable :
    (k : Kernel) (q t : ℕ)
    → IsSound k
    → q % 16 ≡ 0
    → has t (k.queue q) ≡ true
    → k.tstat t ≡ ts_runnable
ready-runnable k q t s ready here =
    let at : q ≡ ready_queue (q / 256) (q / 16 % 16) = omega arith in
    s.consistent.in_ready (q / 256) (q / 16 % 16) t (omega arith)
      (subst (λ (q : ℕ). has t (k.queue q) ≡ true) at here)

-- A task that is neither runnable nor waits for an object is in no queue.
pub idle-IsFree :
    (k : Kernel) (t : ℕ)
    → IsSound k
    → k.tstat t ≢ ts_runnable
    → tstat_wait_wobj (k.tstat t) ≡ false
    → IsFree t k.queue
idle-IsFree k t s n w q = elim (Bool-cases (has t (k.queue q))) [
  | inr gone ↦ gone
  | inl here ↦ elim (Bool-cases (q % 16 == 0)) [
    | inr object ↦ absurd (ground (arith, s.linked.waiting q t (λ e. ground arith) here))
    | inl ready ↦ absurd (n (ready-runnable k q t s (ground arith) here))
  ]
]

pub make_runnable-queues :
    (k : Kernel) (t : ℕ)
    → (make_runnable t k).queue
      ≡ update k.queue
          (ready_queue (k.p_schedcb t) (k.priority t))
          (k.queue (ready_queue (k.p_schedcb t) (k.priority t)) ++ t ∷ [])
make_runnable-queues k t = fun_ext (λ q. ground (arith, make_runnable-queue k t q))

make_non_runnable-queues :
    (k : Kernel) (t : ℕ) → (make_non_runnable t k).queue ≡ (λ q. erase t (k.queue q))
make_non_runnable-queues k t = fun_ext (λ q. make_non_runnable-queue k t q)

-- A task at the end of a queue.
pub snoc-IsLinked :
    (qs : ℕ → List ℕ) (st : ℕ → ℕ) (q t : ℕ)
    → IsLinked qs st
    → IsFree t qs
    → (q % 16 ≢ 0 → tstat_wait_wobj (st t) ≡ true)
    → IsLinked (update qs q (qs q ++ t ∷ [])) st
snoc-IsLinked qs st q t v f w =
    insert-IsLinked qs st v q t (qs q ++ t ∷ []) f w (distinct-snoc t (qs q) (f q) (v.single q))
      (λ u. ground (arith, has-append u (qs q) (t ∷ [])))

-- A task in no queue becomes runnable.
pub make_runnable-IsSound :
    (k : Kernel) (t : ℕ)
    → IsSound k
    → IsFree t k.queue
    → IsSound (make_runnable t (set_tstat t ts_runnable k))
make_runnable-IsSound k t s f =
    let k1 = set_tstat t ts_runnable k in
    let q = ready_queue (k.p_schedcb t) (k.priority t) in
    record {
      consistent = make_runnable-IsConsistent k t s.consistent;
      linked =
          rw (make_runnable-queues k1 t, (make_runnable-tstat k1 t).0)
            (snoc-IsLinked k.queue k1.tstat q t
              (restate-IsLinked k.queue k.tstat s.linked t ts_runnable f (omega arith)) f
              (λ n. absurd (n (omega arith))));
    }

-- A task that is not runnable any more: it has the state `v`, and is in no queue.
pub record IsStopped (t v : ℕ) (k : Kernel) : Type 0 where
  pub sound : IsSound k
  pub free : IsFree t k.queue
  pub state : k.tstat t ≡ v

pub make_non_runnable-IsSound :
    (k : Kernel) (t v : ℕ)
    → IsSound k
    → v < 128
    → IsStopped t v (make_non_runnable t (set_tstat t v k))
make_non_runnable-IsSound k t v s l =
    let k1 = set_tstat t v k in
    let gone = erase-IsFree t k.queue in
    record {
      sound = record {
        consistent = make_non_runnable-IsConsistent k t s.consistent v;
        linked =
            rw (make_non_runnable-queues k1 t, (make_non_runnable-tstat k1 t).0)
              (restate-IsLinked _ k.tstat (erase-IsLinked k.queue k.tstat s.linked t) t v gone l);
      };
      free = rw (make_non_runnable-queues k1 t) gone;
      state = ap (λ (f : ℕ → ℕ). f t) (make_non_runnable-tstat k1 t).0 ∙ update_self k.tstat t v;
    }

-- A task in no queue ends its wait.
pub make_non_wait-IsSound :
    (k : Kernel) (t : ℕ)
    → IsSound k
    → IsFree t k.queue
    → k.tstat t ≢ ts_runnable
    → IsSound (make_non_wait t k)
unfolding make_non_wait
make_non_wait-IsSound k t s f n =
    if-both IsSound (tstat_suspended (k.tstat t))
      (record {
        consistent = set_tstat-IsConsistent k t ts_suspended s.consistent n;
        linked = restate-IsLinked k.queue k.tstat s.linked t ts_suspended f (omega arith);
      })
      (make_runnable-IsSound k t s f)

pub wait_dequeue_tmevtb-IsSound :
    (k : Kernel) (t : ℕ) → IsSound k → IsSound (wait_dequeue_tmevtb t k)
unfolding wait_dequeue_tmevtb
wait_dequeue_tmevtb-IsSound k t s = record {
  consistent = wait_dequeue_tmevtb-IsConsistent k t s.consistent;
  linked = s.linked;
}

pub set_wercd-IsSound : (k : Kernel) (t : ℕ) (e : Er) → IsSound k → IsSound (set_wercd t e k)
set_wercd-IsSound k t e s = record {
  consistent = others-IsConsistent k _ k.wdata k.p_wobjcb k.tmevt s.consistent;
  linked = s.linked;
}

-- A task in no queue ends its wait with a result.
pub end_wait-IsSound :
    (k : Kernel) (t : ℕ) (e : Er)
    → IsSound k
    → IsFree t k.queue
    → k.tstat t ≢ ts_runnable
    → IsSound (make_non_wait t (set_wercd t e (wait_dequeue_tmevtb t k)))
unfolding wait_dequeue_tmevtb
end_wait-IsSound k t e s f n =
    make_non_wait-IsSound (set_wercd t e (wait_dequeue_tmevtb t k)) t
      (set_wercd-IsSound (wait_dequeue_tmevtb t k) t e (wait_dequeue_tmevtb-IsSound k t s)) f n

-- The first task of the queue of an object leaves it.
pub first-IsSound : (k : Kernel) (q : ℕ) → q % 16 ≢ 0 → IsSound k → IsSound (queue_delete_next q k)
unfolding queue_delete_next
first-IsSound k q n s = record {
  consistent = object_queue-IsConsistent k q _ n s.consistent;
  linked = tail-IsLinked k.queue k.tstat s.linked q;
}

pub first-IsFree :
    (k : Kernel) (q t : ℕ)
    → IsSound k
    → head? (k.queue q) ≡ some t
    → IsFree t (queue_delete_next q k).queue
unfolding queue_delete_next
first-IsFree k q t s e =
    tail-IsFree k.queue k.tstat s.linked q t (tail (k.queue q)) (headed (k.queue q) e)
  where
    headed : (xs : List ℕ) → head? xs ≡ some t → xs ≡ t ∷ tail xs
    headed [] h = ground arith
    headed (x ∷ xs) h = ground arith

-- A task leaves whatever queue it is in, where it is not runnable.
pub queue_delete-IsSound :
    (k : Kernel) (t : ℕ)
    → IsSound k
    → k.tstat t ≢ ts_runnable
    → IsSound (queue_delete t k) × IsFree t (queue_delete t k).queue
unfolding queue_delete
queue_delete-IsSound k t s n = (
  record {
    consistent = queue_delete-IsConsistent k t s.consistent n;
    linked = erase-IsLinked k.queue k.tstat s.linked t;
  },
  erase-IsFree t k.queue,
)
