-- ===== src/Task/Fields.antt =====
-- What make_non_runnable does to the fields that the invariant of the ready queues reads.
use toppers_hrp3_gr_rose.Common.{
  ℕ, ◌^◌, ◌≡◌, refl, ◌≢◌, Bool, true, ◌&&◌, Option, none, some, List, [], ◌∷◌, arith, has, erase,
  bit_not, bit_and, ◌==◌, if◌then◌else◌, is_null, same_ptr,
}
use toppers_hrp3_gr_rose.Kernel.{Kernel, ready_queue, head?}
use toppers_hrp3_gr_rose.Task.{make_non_runnable, bitmap_search}

pub head-erase_other :
    (xs : List ℕ) (t w : ℕ) → head? xs ≡ some w → w ≢ t → head? (erase t xs) ≡ some w
head-erase_other [] t w h ne = ground arith
head-erase_other (x ∷ xs) t w h ne = ground arith

pub head-erase_null : (xs : List ℕ) (t : ℕ) → head? xs ≡ none → head? (erase t xs) ≡ none
head-erase_null [] t h = refl
head-erase_null (x ∷ xs) t h = ground arith

pub has-head : (xs : List ℕ) (t : ℕ) → head? xs ≡ some t → has t xs ≡ true
has-head [] t h = ground arith
has-head (x ∷ xs) t h = ground arith

-- What make_non_runnable does to the fields that the invariant reads.
pub make_non_runnable-queue :
    (k : Kernel) (t q : ℕ) → (make_non_runnable t k).queue q ≡ erase t (k.queue q)
unfolding make_non_runnable
make_non_runnable-queue k t q = ground arith

-- The ready queue of the task is empty after the task has left it.
unfoldable pub last_of : Kernel → ℕ → Bool
last_of k t = is_null (head? (erase t (k.queue (ready_queue (k.p_schedcb t) (k.priority t)))))

pub make_non_runnable-primap :
    (k : Kernel) (t s : ℕ)
    → (make_non_runnable t k).ready_primap s ≡ (
        if (k.p_schedcb t == s) && last_of k t
        then bit_and (k.ready_primap s) (bit_not 32 (2 ^ k.priority t))
        else k.ready_primap s)
unfolding make_non_runnable last_of
make_non_runnable-primap k t s = ground arith

pub make_non_runnable-same :
    (k : Kernel) (t : ℕ)
    → ((make_non_runnable t k).priority ≡ k.priority)
      × ((make_non_runnable t k).p_schedcb ≡ k.p_schedcb)
unfolding make_non_runnable
make_non_runnable-same k t = ground arith

-- The task that takes the place of the one of highest precedence.
unfoldable pub successor : Kernel → ℕ → Option ℕ
successor k t =
    let k' = make_non_runnable t k in
    let s = k.p_schedcb t in
    if last_of k t
    then if k'.ready_primap s == 0
      then none
      else head? (k'.queue (ready_queue s (bitmap_search (k'.ready_primap s))))
    else head? (k'.queue (ready_queue s (k.priority t)))

pub make_non_runnable-predtsk :
    (k : Kernel) (t s : ℕ)
    → (make_non_runnable t k).p_predtsk s ≡ (
        if (k.p_schedcb t == s) && same_ptr (k.p_predtsk s) (some t)
        then successor k t
        else k.p_predtsk s)
unfolding make_non_runnable last_of successor
make_non_runnable-predtsk k t s = ground arith
