-- ===== src/Pridataq/Blocks.antt =====
-- The management area of kernel/pridataq.c as lists of blocks, and what the parts of
-- enqueue_pridata do to it.
use toppers_hrp3_gr_rose.Common.{
  ℕ, ◌+◌, ◌<◌, ◌≡◌, refl, sym, subst, ◌≢◌, true, false, ◌||◌, Option, none, some, List, [], ◌∷◌,
  arith, ==_refl, has, Chain, Chain-cong, distinct, length, update, update_self, update_ne,
}
use toppers_hrp3_gr_rose.Kernel.{Kernel}
use toppers_hrp3_gr_rose.Wait.{insert_tpri}
use toppers_hrp3_gr_rose.Wait.Queue.{IsByPriority, has-insert_tpri, insert_tpri_correct}
use toppers_hrp3_gr_rose.Pridataq.Sorted.{Placed, differs}
use toppers_hrp3_gr_rose.Pridataq.{pointed, set_pointed, take_pdqmb, fill_pdqmb, link_pdqmb}

-- The management area of a queue agrees with the lists of its blocks with data, and of those that
-- are free.
pub record IsPdq (i : ℕ) (k : Kernel) (xs free : List ℕ) : Type 0 where
  pub data_chain : Chain (k.pdq.p_next i) (k.pdq.p_head i) xs
  pub free_chain : Chain (k.pdq.p_next i) (k.pdq.p_freelist i) free
  pub data_distinct : distinct xs ≡ true
  pub free_distinct : distinct free ≡ true
  pub apart : (m : ℕ) → has m xs ≡ true → has m free ≡ false
  pub below : (m : ℕ) → (has m xs || has m free) ≡ true → m < k.pdq.unused i
  pub count : k.pdq.count i ≡ length xs
  pub by_priority : IsByPriority (k.pdq.datapri i) xs

pub outside : (m x : ℕ) (xs : List ℕ) → has m xs ≡ false → has x xs ≡ true → m ≢ x
outside m x xs o h = λ (e : m ≡ x). ground arith

-- The block that enqueue_pridata takes, with what is free then.
pub record Taken (i m : ℕ) (xs free : List ℕ) (k k1 : Kernel) : Type 0 where
  pub pdq : IsPdq i k1 xs free
  pub fresh : has m xs ≡ false
  pub not_free : has m free ≡ false
  pub used : m < k1.pdq.unused i
  pub same : (k1.pdq.datum ≡ k.pdq.datum) × (k1.pdq.datapri ≡ k.pdq.datapri)

pub take_unused :
    (i : ℕ) (xs : List ℕ) (k : Kernel)
    → IsPdq i k xs []
    → Taken i (take_pdqmb i k).0 xs [] k (take_pdqmb i k).1
unfolding take_pdqmb
take_unused i xs k v =
    rw (v.free_chain, take_pdqmb)
      (record {
        pdq = record {
          data_chain = v.data_chain;
          free_chain = v.free_chain;
          data_distinct = v.data_distinct;
          free_distinct = refl;
          apart = λ m h. refl;
          below = λ m h. ground (arith, v.below m h);
          count = v.count;
          by_priority = v.by_priority;
        };
        fresh = ground (arith, v.below (k.pdq.unused i));
        not_free = refl;
        used = ground arith;
        same = (refl, refl);
      })

pub take_freed :
    (i m : ℕ) (xs free : List ℕ) (k : Kernel)
    → IsPdq i k xs (m ∷ free)
    → Taken i (take_pdqmb i k).0 xs free k (take_pdqmb i k).1
unfolding take_pdqmb
take_freed i m xs free k v =
    rw (v.free_chain.0, take_pdqmb)
      (record {
        pdq = record {
          data_chain = v.data_chain;
          free_chain = rw (==_refl i) v.free_chain.1;
          data_distinct = v.data_distinct;
          free_distinct = ground (arith, v.free_distinct);
          apart = λ m h. ground (arith, v.apart m h);
          below = λ m h. v.below m (ground arith);
          count = v.count;
          by_priority = v.by_priority;
        };
        fresh = ground (arith, v.apart m);
        not_free = ground (arith, v.free_distinct);
        used = v.below m (ground arith);
        same = (refl, refl);
      })

IsByPriority-cong :
    (f g : ℕ → ℕ) (xs : List ℕ)
    → ((x : ℕ) → has x xs ≡ true → g x ≡ f x)
    → IsByPriority f xs
    → IsByPriority g xs
unfolding IsByPriority
IsByPriority-cong f g [] c v = v
IsByPriority-cong f g (x ∷ xs) c v = (
  λ y r. ground (arith, c x, c y, v.0 y),
  IsByPriority-cong f g xs (λ y r. c y (ground arith)) v.1,
)

length-insert_tpri : (f : ℕ → ℕ) (m : ℕ) (xs : List ℕ) → length (insert_tpri f m xs) ≡ length xs + 1
unfolding insert_tpri
length-insert_tpri f m [] = refl
length-insert_tpri f m (x ∷ xs) = ground (arith, length-insert_tpri f m xs)

insert_tpri-distinct :
    (f : ℕ → ℕ) (m : ℕ) (xs : List ℕ)
    → has m xs ≡ false
    → distinct xs ≡ true
    → distinct (insert_tpri f m xs) ≡ true
unfolding insert_tpri
insert_tpri-distinct f m [] h d = refl
insert_tpri-distinct f m (x ∷ xs) h d =
    ground (arith, insert_tpri-distinct f m xs, has-insert_tpri f m x xs)

-- What linking a block leaves alone.
pub record Kept (k k' : Kernel) : Type 0 where
  pub count : k'.pdq.count ≡ k.pdq.count
  pub datum : k'.pdq.datum ≡ k.pdq.datum
  pub datapri : k'.pdq.datapri ≡ k.pdq.datapri
  pub unused : k'.pdq.unused ≡ k.pdq.unused
  pub freelist : k'.pdq.p_freelist ≡ k.pdq.p_freelist

pub link_pdqmb-Kept : (i m : ℕ) (prev : Option ℕ) (k : Kernel) → Kept k (link_pdqmb i m prev k)
unfolding link_pdqmb set_pointed
link_pdqmb-Kept i m none k = record {
  count = refl;
  datum = refl;
  datapri = refl;
  unused = refl;
  freelist = refl;
}
link_pdqmb-Kept i m (some x) k = record {
  count = refl;
  datum = refl;
  datapri = refl;
  unused = refl;
  freelist = refl;
}

-- One more block has data.
abbrev counted : ℕ → Kernel → Kernel
counted i k = record k { pdq = record (k.pdq) { count = update k.pdq.count i (k.pdq.count i + 1) } }

pub link-IsPdq :
    (i m : ℕ) (xs free : List ℕ) (k : Kernel)
    → IsPdq i k xs free
    → has m xs ≡ false
    → has m free ≡ false
    → m < k.pdq.unused i
    → (k3 : Kernel) → Kept k k3
    → Placed i m none xs k k3
    → IsPdq i (counted i k3) (insert_tpri (k3.pdq.datapri i) m xs) free
unfolding pointed
link-IsPdq i m xs free k v fresh not_free used k3 same p =
    let f = k.pdq.datapri i in
    let member = λ (y : ℕ). has-insert_tpri f m y xs in
    let out = λ (y : ℕ) (r : has y free ≡ true).
      p.others (some y) (differs (some m) y free not_free r) refl (ground (arith, v.apart y)) in
    let linked : IsPdq i (counted i k3) (insert_tpri f m xs) free = record {
      data_chain = p.chain;
      free_chain = rw (same.freelist) (
          Chain-cong (k.pdq.p_next i) (k3.pdq.p_next i) (k.pdq.p_freelist i) free out v.free_chain);
      data_distinct = insert_tpri-distinct f m xs fresh v.data_distinct;
      free_distinct = v.free_distinct;
      apart = λ y h. ground (arith, member y, v.apart y);
      below = λ y h. ground (arith, member y, v.below y, same.unused);
      count = ground (arith, length-insert_tpri f m xs, v.count, same.count);
      by_priority = rw (same.datapri) (insert_tpri_correct f m 0 xs v.by_priority).0;
    } in
    subst (λ (g : ℕ → ℕ → ℕ). IsPdq i (counted i k3) (insert_tpri (g i) m xs) free)
      (sym same.datapri) linked

pub fill-IsPdq :
    (i m datum pri : ℕ) (xs free : List ℕ) (k : Kernel)
    → IsPdq i k xs free
    → has m xs ≡ false
    → IsPdq i (fill_pdqmb i m datum pri k) xs free
unfolding fill_pdqmb
fill-IsPdq i m datum pri xs free k v fresh = record {
  data_chain = v.data_chain;
  free_chain = v.free_chain;
  data_distinct = v.data_distinct;
  free_distinct = v.free_distinct;
  apart = v.apart;
  below = v.below;
  count = v.count;
  by_priority = rw (update_self k.pdq.datapri i (update (k.pdq.datapri i) m pri)) (
      IsByPriority-cong (k.pdq.datapri i) (update (k.pdq.datapri i) m pri) xs
        (λ x r. update_ne (k.pdq.datapri i) m x pri (outside m x xs fresh r)) v.by_priority);
}

pub filled :
    (i m datum pri : ℕ) (k : Kernel)
    → ((fill_pdqmb i m datum pri k).pdq.datum i m ≡ datum)
      × ((fill_pdqmb i m datum pri k).pdq.datapri i m ≡ pri)
unfolding fill_pdqmb
filled i m datum pri k = (ground arith, ground arith)

pub filled_others :
    (i m datum pri x : ℕ) (k : Kernel)
    → m ≢ x
    → ((fill_pdqmb i m datum pri k).pdq.datum i x ≡ k.pdq.datum i x)
      × ((fill_pdqmb i m datum pri k).pdq.datapri i x ≡ k.pdq.datapri i x)
unfolding fill_pdqmb
filled_others i m datum pri x k n = (ground arith, ground arith)
