-- ===== src/Kernel/Queues.antt =====
-- include/queue.h: the operations on queue headers, as what they do to the lists of entries.
use toppers_hrp3_gr_rose.Common.{
  ℕ, Bool, Option, none, some, List, [], ◌∷◌, ◌++◌, update, erase, is_null,
}
use toppers_hrp3_gr_rose.Kernel.State.{Kernel}

unfoldable pub queue_insert_prev : ℕ → ℕ → Kernel → Kernel
queue_insert_prev q t k = record k { queue = update k.queue q (k.queue q ++ t ∷ []) }

unfoldable pub queue_insert_next : ℕ → ℕ → Kernel → Kernel
queue_insert_next q t k = record k { queue = update k.queue q (t ∷ k.queue q) }

-- The entry leaves the ring that it is linked in.
unfoldable pub queue_delete : ℕ → Kernel → Kernel
queue_delete t k = record k { queue = λ q. erase t (k.queue q) }

abbrev pub head? : List ℕ → Option ℕ
head? [] = none
head? (x ∷ xs) = some x

abbrev pub tail : List ℕ → List ℕ
tail [] = []
tail (x ∷ xs) = xs

-- queue_delete_next on a header: the first entry, which the caller has seen to be there.
unfoldable pub queue_delete_next : ℕ → Kernel → Kernel
queue_delete_next q k = record k { queue = update k.queue q (tail (k.queue q)) }

abbrev pub queue_empty : ℕ → Kernel → Bool
queue_empty q k = is_null (head? (k.queue q))
