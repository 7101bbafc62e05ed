-- ===== src/Wait/Queue.antt =====
-- The wait queues: the order of queue_insert_tpri, and init_wait_queue.
use toppers_hrp3_gr_rose.Common.{
  ℕ, zero, suc, ◌%◌, ◌≤◌, ◌≡◌, refl, ◌∙◌, ◌≢◌, inl, inr, true, ◌||◌, List, [], ◌∷◌, ◌++◌, arith,
  has, length, Bool-cases, Option-cases, ltb, ◌==◌, update, if◌then◌else◌, if-both,
}
use toppers_hrp3_gr_rose.Kernel.{
  Kernel, wercd, e_dlt, queue_delete_next, head?, tail, ts_runnable, tstat_suspended,
}
use toppers_hrp3_gr_rose.Task.{make_runnable}
use toppers_hrp3_gr_rose.Task.Ready.{make_runnable-queue}
use toppers_hrp3_gr_rose.Wait.{
  insert_tpri, make_non_wait, wait_dequeue_tmevtb, release_deleted, init_wait_loop, init_wait_queue,
  set_wercd,
}

-- Every entry comes before those of lower priority.
unfoldable pub IsByPriority : (ℕ → ℕ) → List ℕ → Type 0
IsByPriority priority [] = 0 ≤ 0
IsByPriority priority (x ∷ xs) =
    ((y : ℕ) → has y xs ≡ true → priority x ≤ priority y) × IsByPriority priority xs

pub has-insert_tpri :
    (priority : ℕ → ℕ) (t u : ℕ) (xs : List ℕ)
    → has u (insert_tpri priority t xs) ≡ ((t == u) || has u xs)
unfolding insert_tpri
has-insert_tpri priority t u [] = refl
has-insert_tpri priority t u (x ∷ xs) = ground (arith, has-insert_tpri priority t u xs)

-- The entries of one priority, in order.
abbrev pub of_priority : (ℕ → ℕ) → ℕ → List ℕ → List ℕ
of_priority priority p [] = []
of_priority priority p (x ∷ xs) =
    if priority x == p then x ∷ of_priority priority p xs else of_priority priority p xs

insert_tpri-IsByPriority :
    (priority : ℕ → ℕ) (t : ℕ) (xs : List ℕ)
    → IsByPriority priority xs
    → IsByPriority priority (insert_tpri priority t xs)
unfolding insert_tpri IsByPriority
insert_tpri-IsByPriority priority t [] v = (λ y r. ground arith, omega arith)
insert_tpri-IsByPriority priority t (x ∷ xs) v = elim (Bool-cases (ltb (priority t) (priority x))) [
  | inl before ↦ rw before (λ y r. ground (arith, v.0 y), v)
  | inr after ↦ rw after (
    λ y r. ground (arith, v.0 y, has-insert_tpri priority t y xs),
    insert_tpri-IsByPriority priority t xs v.1,
  )
]

of_priority_none :
    (priority : ℕ → ℕ) (p : ℕ) (xs : List ℕ)
    → ((y : ℕ) → has y xs ≡ true → priority y ≢ p)
    → of_priority priority p xs ≡ []
of_priority_none priority p [] h = refl
of_priority_none priority p (x ∷ xs) h =
    ground (arith, h x, of_priority_none priority p xs (λ y r. h y (ground arith)))

insert_tpri-of_priority :
    (priority : ℕ → ℕ) (t p : ℕ) (xs : List ℕ)
    → IsByPriority priority xs
    → of_priority priority p (insert_tpri priority t xs)
      ≡ (if priority t == p then of_priority priority p xs ++ t ∷ [] else of_priority priority p xs)
unfolding insert_tpri IsByPriority
insert_tpri-of_priority priority t p [] v = ground arith
insert_tpri-of_priority priority t p (x ∷ xs) v =
    elim (Bool-cases (ltb (priority t) (priority x))) [
      | inl before ↦
          ground
            (arith, of_priority_none priority (priority t) (x ∷ xs) (λ y r. ground (arith, v.0 y)))
      | inr after ↦ ground (arith, insert_tpri-of_priority priority t p xs v.1)
    ]

-- Into a queue in the order of priorities, queue_insert_tpri links a task so that the queue stays
-- in that order, and the task is the last of its priority while the other priorities keep their
-- entries as they were.
pub insert_tpri_correct :
    (priority : ℕ → ℕ) (t p : ℕ) (xs : List ℕ)
    → IsByPriority priority xs
    → IsByPriority priority (insert_tpri priority t xs)
      × (of_priority priority p (insert_tpri priority t xs) ≡ (
          if priority t == p
          then of_priority priority p xs ++ t ∷ []
          else of_priority priority p xs))
insert_tpri_correct priority t p xs v =
    (insert_tpri-IsByPriority priority t xs v, insert_tpri-of_priority priority t p xs v)

-- The queues that are not ready queues, in the transition of a task out of its wait.
pub make_non_wait-queue :
    (k : Kernel) (t q : ℕ) → q % 16 ≢ 0 → (make_non_wait t k).queue q ≡ k.queue q
unfolding make_non_wait
make_non_wait-queue k t q h =
    if-both (λ (k' : Kernel). k'.queue q ≡ k.queue q) (tstat_suspended (k.tstat t)) refl
      (ground (arith, make_runnable-queue (record k { tstat = update k.tstat t ts_runnable }) t q))

pub make_non_wait-winfo : (k : Kernel) (t u : ℕ) → (make_non_wait t k).winfo u ≡ k.winfo u
unfolding make_non_wait make_runnable
make_non_wait-winfo k t u =
    if-both (λ (k' : Kernel). k'.winfo u ≡ k.winfo u) (tstat_suspended (k.tstat t)) refl
      (ground arith)

release_deleted-queue :
    (k : Kernel) (q t r : ℕ)
    → r % 16 ≢ 0
    → (release_deleted q t k).queue r ≡ (if q == r then tail (k.queue r) else k.queue r)
unfolding release_deleted wait_dequeue_tmevtb queue_delete_next
release_deleted-queue k q t r h =
    make_non_wait-queue (set_wercd t e_dlt (wait_dequeue_tmevtb t (queue_delete_next q k))) t r h
    ∙ ground arith

release_deleted-winfo :
    (k : Kernel) (q t u : ℕ)
    → (release_deleted q t k).winfo u ≡ (if t == u then wercd e_dlt else k.winfo u)
unfolding release_deleted wait_dequeue_tmevtb queue_delete_next
release_deleted-winfo k q t u =
    make_non_wait-winfo (set_wercd t e_dlt (wait_dequeue_tmevtb t (queue_delete_next q k))) t u
    ∙ ground arith

empty_of_length : (xs : List ℕ) → length xs ≡ 0 → xs ≡ []
empty_of_length [] e = refl
empty_of_length (x ∷ xs) e = absurd (omega arith)

-- With fuel for every entry, the loop empties its queue, leaves the queues of the other objects
-- as they were, and gives the result to the tasks that were in its queue, and to no other.
init_wait_loop-result :
    (fuel q : ℕ) (k : Kernel)
    → q % 16 ≢ 0
    → length (k.queue q) ≡ fuel
    → ((init_wait_loop fuel q k).queue q ≡ [])
      × (((r : ℕ) → r % 16 ≢ 0 → r ≢ q → (init_wait_loop fuel q k).queue r ≡ k.queue r)
          × ((t : ℕ)
              → (init_wait_loop fuel q k).winfo t
                ≡ (if has t (k.queue q) then wercd e_dlt else k.winfo t)))
unfolding init_wait_loop
init_wait_loop-result zero q k h e =
    let nothing = empty_of_length (k.queue q) e in (nothing, (λ r a b. refl, λ t. ground arith))
init_wait_loop-result (suc fuel) q k h e = elim (Option-cases (head? (k.queue q))) [
  | inl none_there ↦ absurd (ground arith)
  | inr (u, first) ↦
      let k1 = release_deleted q u k in
      let rest =
        init_wait_loop-result fuel q k1 h (ground (arith, release_deleted-queue k q u q h)) in
      rw (first, init_wait_loop)
        (
          rest.0,
          (
            λ r a b. rest.1.0 r a b ∙ ground (arith, release_deleted-queue k q u r a),
            λ t.
                rest.1.1 t
                ∙ ground (arith, release_deleted-queue k q u q h, release_deleted-winfo k q u t),
          ),
        )
]

-- init_wait_queue, on the queue of an object, empties that queue, leaves the queues of the other
-- objects as they were, and gives E_DLT to the tasks that were in the queue and to no other.
pub init_wait_queue_correct :
    (q : ℕ) (k : Kernel)
    → q % 16 ≢ 0
    → ((init_wait_queue q k).queue q ≡ [])
      × (((r : ℕ) → r % 16 ≢ 0 → r ≢ q → (init_wait_queue q k).queue r ≡ k.queue r)
          × ((t : ℕ)
              → (init_wait_queue q k).winfo t
                ≡ (if has t (k.queue q) then wercd e_dlt else k.winfo t)))
unfolding init_wait_queue
init_wait_queue_correct q k h = init_wait_loop-result (length (k.queue q)) q k h refl
