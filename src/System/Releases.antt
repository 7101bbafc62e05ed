-- ===== src/System/Releases.antt =====
-- Tasks that are released from the queue of an object: wait_complete and init_wait_queue of
-- kernel/wait.c.
use toppers_hrp3_gr_rose.Common.{ℕ, zero, suc, ◌%◌, ◌≡◌, ◌≢◌, inl, inr, some, Option-cases, length}
use toppers_hrp3_gr_rose.Kernel.{Kernel, head?, queue_delete_next, e_ok, e_dlt}
use toppers_hrp3_gr_rose.Wait.{wait_complete, release_deleted, init_wait_loop, init_wait_queue}
use toppers_hrp3_gr_rose.System.Moves.{
  IsSound, first-not_runnable, first-IsSound, first-IsFree, end_wait-IsSound,
}

-- The first task of the queue of an object leaves it, and its wait ends.
pub release-IsSound :
    (k : Kernel) (q t : ℕ)
    → q % 16 ≢ 0
    → IsSound k
    → head? (k.queue q) ≡ some t
    → IsSound (wait_complete t (queue_delete_next q k))
unfolding wait_complete queue_delete_next
release-IsSound k q t n s e =
    end_wait-IsSound (queue_delete_next q k) t e_ok (first-IsSound k q n s) (first-IsFree k q t s e)
      (first-not_runnable k q t s n e)

release_deleted-IsSound :
    (k : Kernel) (q t : ℕ)
    → q % 16 ≢ 0
    → IsSound k
    → head? (k.queue q) ≡ some t
    → IsSound (release_deleted q t k)
unfolding release_deleted queue_delete_next
release_deleted-IsSound k q t n s e =
    end_wait-IsSound (queue_delete_next q k) t e_dlt (first-IsSound k q n s)
      (first-IsFree k q t s e) (first-not_runnable k q t s n e)

init_wait_loop-IsSound :
    (fuel q : ℕ) (k : Kernel) → q % 16 ≢ 0 → IsSound k → IsSound (init_wait_loop fuel q k)
unfolding init_wait_loop
init_wait_loop-IsSound zero q k n s = s
init_wait_loop-IsSound (suc fuel) q k n s = elim (Option-cases (head? (k.queue q))) [
  | inl e ↦ rw (e, init_wait_loop) s
  | inr (t, e) ↦
      rw (e, init_wait_loop)
        (init_wait_loop-IsSound fuel q (release_deleted q t k) n
          (release_deleted-IsSound k q t n s e))
]

-- The queue of an object is emptied.
pub init_wait_queue-IsSound :
    (q : ℕ) (k : Kernel) → q % 16 ≢ 0 → IsSound k → IsSound (init_wait_queue q k)
unfolding init_wait_queue
init_wait_queue-IsSound q k n s = init_wait_loop-IsSound (length (k.queue q)) q k n s
