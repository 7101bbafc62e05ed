-- ===== src/Pridataq/Entries.antt =====
-- The management area of kernel/pridataq.c against the list of its blocks: an order of priorities,
-- and first in, first out within a priority.
use toppers_hrp3_gr_rose.Common.{
  ℕ, ◌≡◌, refl, sym, ap, subst, ◌∙◌, true, false, Option, none, some, List, [], ◌∷◌, ◌++◌, arith,
  ==_refl, has, Chain, Chain-cong, update, update_self, update_ne,
}
use toppers_hrp3_gr_rose.Kernel.{Kernel}
use toppers_hrp3_gr_rose.Wait.{insert_tpri}
use toppers_hrp3_gr_rose.Wait.Queue.{IsByPriority, insert_tpri_correct, of_priority}
use toppers_hrp3_gr_rose.Pridataq.Sorted.{Placed, find_place-Placed}
use toppers_hrp3_gr_rose.Pridataq.{
  find_place, take_pdqmb, fill_pdqmb, link_pdqmb, enqueue_pridata, dequeue_pridata,
}
use toppers_hrp3_gr_rose.Pridataq.Blocks.{
  IsPdq, Taken, outside, take_unused, take_freed, link_pdqmb-Kept, link-IsPdq, fill-IsPdq, filled,
  filled_others,
}

-- What enqueue_pridata does, for the block `m` that it takes.
pub record Enqueued (i datum pri m : ℕ) (xs free : List ℕ) (k k' : Kernel) : Type 0 where
  pub pdq : IsPdq i k' (insert_tpri (k'.pdq.datapri i) m xs) free
  pub entry : (k'.pdq.datum i m ≡ datum) × (k'.pdq.datapri i m ≡ pri)
  pub others :
      (x : ℕ)
      → has x xs ≡ true
      → (k'.pdq.datum i x ≡ k.pdq.datum i x) × (k'.pdq.datapri i x ≡ k.pdq.datapri i x)
  pub last :
      of_priority (k'.pdq.datapri i) pri (insert_tpri (k'.pdq.datapri i) m xs)
      ≡ of_priority (k'.pdq.datapri i) pri xs ++ m ∷ []

enqueue-Taken :
    (i datum pri : ℕ) (xs free : List ℕ) (k : Kernel)
    → Taken i (take_pdqmb i k).0 xs free k (take_pdqmb i k).1
    → Enqueued i datum pri (take_pdqmb i k).0 xs free k (enqueue_pridata i datum pri k)
unfolding enqueue_pridata
enqueue-Taken i datum pri xs free k t =
    let m = (take_pdqmb i k).0 in
    let k1 = (take_pdqmb i k).1 in
    let k2 = fill_pdqmb i m datum pri k1 in
    let v = fill-IsPdq i m datum pri xs free k1 t.pdq t.fresh in
    let at = filled i m datum pri k1 in
    let placed =
      subst
        (λ (p : ℕ).
          Placed i m none xs k2 (link_pdqmb i m (find_place (k2.pdq.count i) i p none k2) k2))
        at.1
        (find_place-Placed i m xs (k2.pdq.count i) none k2 v.data_chain (omega (arith, v.count))
          v.data_distinct t.fresh refl refl) in
    let prev = find_place (k2.pdq.count i) i pri none k2 in
    let k3 = link_pdqmb i m prev k2 in
    let same = link_pdqmb-Kept i m prev k2 in
    let pri_at : k3.pdq.datapri i m ≡ pri = rw (same.datapri) at.1 in
    record {
      pdq = link-IsPdq i m xs free k2 v t.fresh t.not_free t.used k3 same placed;
      entry = (rw (same.datum) at.0, pri_at);
      others = λ x r.
          let o = filled_others i m datum pri x k1 (outside m x xs t.fresh r) in
          (
            rw (same.datum) (o.0 ∙ ap (λ (f : ℕ → ℕ → ℕ). f i x) t.same.0),
            rw (same.datapri) (o.1 ∙ ap (λ (f : ℕ → ℕ → ℕ). f i x) t.same.1),
          );
      last =
          (insert_tpri_correct (k3.pdq.datapri i) m pri xs (rw (same.datapri) (v.by_priority))).1
          ∙ rw (pri_at, ==_refl pri) refl;
    }

-- Where the management area agrees with its lists, the datum and its priority go to a block that
-- was not in the list of data, which comes there behind the blocks of the same or a higher
-- priority and before the others; the others keep their data, and the area agrees with the new
-- lists.
pub enqueue_pridata_correct :
    (i datum pri : ℕ) (xs free : List ℕ) (k : Kernel)
    → IsPdq i k xs free
    → (m : ℕ) × ((free1 : List ℕ) × Enqueued i datum pri m xs free1 k
          (enqueue_pridata i datum pri k))
enqueue_pridata_correct i datum pri xs [] k v =
    ((take_pdqmb i k).0, ([], enqueue-Taken i datum pri xs [] k (take_unused i xs k v)))
enqueue_pridata_correct i datum pri xs (m ∷ free) k v =
    ((take_pdqmb i k).0, (free, enqueue-Taken i datum pri xs free k (take_freed i m xs free k v)))

-- dequeue_pridata, on an area with data that agrees with its lists, takes the first block out of
-- the list of data and puts it first in the list of free blocks; the area agrees with the new
-- lists.
pub dequeue_pridata-IsPdq :
    (i m : ℕ) (xs free : List ℕ) (k : Kernel)
    → IsPdq i k (m ∷ xs) free
    → IsPdq i (dequeue_pridata i m k) xs (m ∷ free)
unfolding dequeue_pridata IsByPriority
dequeue_pridata-IsPdq i m xs free k v =
    let next = update (k.pdq.p_next i) m (k.pdq.p_freelist i) in
    let fresh : has m xs ≡ false = ground (arith, v.data_distinct) in
    let not_free : has m free ≡ false = v.apart m (ground arith) in
    let same = λ (ys : List ℕ) (o : has m ys ≡ false) (y : ℕ) (r : has y ys ≡ true).
      update_ne (k.pdq.p_next i) m y (k.pdq.p_freelist i) (outside m y ys o r) in
    let freed : Chain next (some m) (m ∷ free) = (
      refl,
      rw (update_self (k.pdq.p_next i) m (k.pdq.p_freelist i)) (
          Chain-cong (k.pdq.p_next i) next (k.pdq.p_freelist i) free (same free not_free)
            v.free_chain),
    ) in
    record {
      data_chain =
          rw (update_self k.pdq.p_next i next, ==_refl i)
            (Chain-cong (k.pdq.p_next i) next (k.pdq.p_next i m) xs (same xs fresh) v.data_chain.1);
      free_chain =
          subst (λ (p : Option ℕ). Chain ((dequeue_pridata i m k).pdq.p_next i) p (m ∷ free))
            (sym (update_self k.pdq.p_freelist i (some m)))
            (subst (λ (f : ℕ → Option ℕ). Chain f (some m) (m ∷ free))
              (sym (update_self k.pdq.p_next i next)) freed);
      data_distinct = ground (arith, v.data_distinct);
      free_distinct = ground (arith, v.free_distinct);
      apart = λ y h. ground (arith, v.apart y, outside m y xs fresh);
      below = λ y h. v.below y (ground arith);
      count = ground (arith, v.count);
      by_priority = v.by_priority.1;
    }
