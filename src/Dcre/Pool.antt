-- ===== src/Dcre/Pool.antt =====
-- The free control blocks of extension/dcre/kernel/semaphore.c.
use toppers_hrp3_gr_rose.Common.{
  ℕ, zero, suc, length, leb, ◌&&◌, if-branch, if-both, Option-cases, same_ptr, ◌⊎◌, ◌+◌, ◌≡◌, refl,
  ap, ◌∙◌, ◌≢◌, inl, inr, true, false, ◌||◌, List, [], ◌∷◌, ◌++◌, arith, has, has-append, distinct,
  update, if◌then◌else◌, ◌==◌, Bool-cases,
}
use toppers_hrp3_gr_rose.Kernel.{
  Config, dispatch, dispatch_if_needed, head?, queue_delete_next, tstat_suspended, Kernel, Er, e_ok,
  e_noid, e_noexs, e_oacv, e_obj, value, sem_wait_queue, violate_acptn,
}
use toppers_hrp3_gr_rose.Task.{make_runnable}
use toppers_hrp3_gr_rose.Wait.{
  init_wait_queue, init_wait_loop, release_deleted, make_non_wait, wait_dequeue_tmevtb,
}
use toppers_hrp3_gr_rose.Wait.Queue.{init_wait_queue_correct}
use toppers_hrp3_gr_rose.Semaphore.{seminib_of}
use toppers_hrp3_gr_rose.System.Linked.{distinct-snoc}
use toppers_hrp3_gr_rose.Dcre.{
  Dynamic, ta_noexs, sematr_of, set_sematr, create_sem, acre_sem_locked, del_sem_locked,
  get_atrdomid,
}

-- The free control blocks have no object, and each is in one list, once.
pub record IsFreePool (d : Dynamic) : Type 0 where
  pub absent : (dom i : ℕ) → has i (d.free_semcb dom) ≡ true → sematr_of i d.kernel ≡ ta_noexs
  pub single : (dom : ℕ) → distinct (d.free_semcb dom) ≡ true
  pub once :
      (dom e i : ℕ) → has i (d.free_semcb dom) ≡ true → has i (d.free_semcb e) ≡ true → dom ≡ e

-- What an acre_sem that returns an ID has done: the block had no object and has one now, the
-- others are as they were.
pub record Created (i sematr isemcnt maxsem : ℕ) (d d' : Dynamic) : Type 0 where
  pub absent : sematr_of i d.kernel ≡ ta_noexs
  pub present : sematr_of i d'.kernel ≡ sematr
  pub count : d'.kernel.semcnt i ≡ isemcnt
  pub bound : (d'.kernel.cfg.seminib i).maxsem ≡ maxsem
  pub empty : d'.kernel.queue (sem_wait_queue i) ≡ []
  pub others : (j : ℕ) → j ≢ i → sematr_of j d'.kernel ≡ sematr_of j d.kernel
  pub pool : IsFreePool d'

created :
    (d : Dynamic) (domid i sematr isemcnt maxsem : ℕ) (rest : List ℕ)
    → IsFreePool d
    → d.free_semcb domid ≡ i ∷ rest
    → Created i sematr isemcnt maxsem d (
        create_sem i domid sematr isemcnt maxsem
          (record d { free_semcb = update d.free_semcb domid rest }))
unfolding create_sem
created d domid i sematr isemcnt maxsem rest v e = record {
  absent = v.absent domid i (ground (arith, e));
  present = ground arith;
  count = ground arith;
  bound = ground arith;
  empty = ground arith;
  others = λ j n. ground arith;
  pool = record {
    absent = λ dom j h.
        ground (arith, v.absent dom j, v.absent domid j, v.once dom domid j, v.single domid, e);
    single = λ dom. ground (arith, v.single domid, v.single dom, e);
    once = λ dom f j a b. ground (arith, v.once dom f j, v.once domid f j, v.once dom domid j, e);
  };
}

-- Where the free control blocks have no object and each is in one list, once, acre_sem past its
-- checks returns E_NOID and changes nothing, or returns the ID of a block that had no object: this
-- has the attribute, the count and the maximum that were asked for then, nobody waits for it, the
-- attributes of the other semaphores are as they were, and the free control blocks are again as
-- they should be.
pub acre_sem_locked-Created :
    (domid sematr isemcnt maxsem : ℕ) (d : Dynamic)
    → IsFreePool d
    → (acre_sem_locked domid sematr isemcnt maxsem d ≡ (e_noid, d))
      ⊎ ((i : ℕ) × (d' : Dynamic) × ((acre_sem_locked domid sematr isemcnt maxsem d
              ≡ (value (i + 1), d'))
            × Created i sematr isemcnt maxsem d d'))
unfolding acre_sem_locked
acre_sem_locked-Created domid sematr isemcnt maxsem d v = from (d.free_semcb domid) refl
  where
    from :
        (free : List ℕ)
        → d.free_semcb domid ≡ free
        → (acre_sem_locked domid sematr isemcnt maxsem d ≡ (e_noid, d))
          ⊎ ((i : ℕ) × (d' : Dynamic) × ((acre_sem_locked domid sematr isemcnt maxsem d
                  ≡ (value (i + 1), d'))
                × Created i sematr isemcnt maxsem d d'))
    from [] e = inl (rw (e, acre_sem_locked) refl)
    from (i ∷ rest) e =
        inr (i, _, (rw (e, acre_sem_locked) refl, created d domid i sematr isemcnt maxsem rest v e))

-- The configuration is not changed by the release of the tasks that wait.
init_wait_loop-cfg : (fuel q : ℕ) (k : Kernel) → (init_wait_loop fuel q k).cfg ≡ k.cfg
unfolding init_wait_loop release_deleted make_non_wait make_runnable wait_dequeue_tmevtb
    queue_delete_next
init_wait_loop-cfg zero q k = refl
init_wait_loop-cfg (suc fuel) q k = elim (Option-cases (head? (k.queue q))) [
  | inl e ↦ rw (e, init_wait_loop) refl
  | inr (t, e) ↦
      rw (e, init_wait_loop)
        (init_wait_loop-cfg fuel q (release_deleted q t k)
          ∙ if-both (λ (k' : Kernel). k'.cfg ≡ k.cfg) (tstat_suspended (k.tstat t)) refl
              (ground arith))
]

dispatch_if_needed-cfg :
    (k : Kernel) → ((dispatch_if_needed k).cfg ≡ k.cfg) × ((dispatch_if_needed k).queue ≡ k.queue)
unfolding dispatch_if_needed dispatch
dispatch_if_needed-cfg k =
    if-both (λ (k' : Kernel). (k'.cfg ≡ k.cfg) × (k'.queue ≡ k.queue))
      (same_ptr k.p_runtsk k.p_schedtsk) (refl, refl) (refl, refl)

-- What a del_sem that returns E_OK has done: the block has no object any more and is a free one,
-- nobody waits for it, and the others are as they were.
pub record Deleted (i : ℕ) (d d' : Dynamic) : Type 0 where
  pub present : sematr_of i d.kernel ≢ ta_noexs
  pub absent : sematr_of i d'.kernel ≡ ta_noexs
  pub freed : has i (d'.free_semcb (get_atrdomid (sematr_of i d.kernel))) ≡ true
  pub empty : d'.kernel.queue (sem_wait_queue i) ≡ []
  pub others : (j : ℕ) → j ≢ i → sematr_of j d'.kernel ≡ sematr_of j d.kernel
  pub pool : IsFreePool d'

module _ (d : Dynamic) (i : ℕ) (v : IsFreePool d) (there : sematr_of i d.kernel ≢ ta_noexs) where
  domid : ℕ
  domid = get_atrdomid (sematr_of i d.kernel)

  released : Kernel
  released = init_wait_queue (sem_wait_queue i) d.kernel

  left : Dynamic
  left = record d {
    kernel = dispatch_if_needed (set_sematr i ta_noexs released);
    free_semcb = update d.free_semcb domid (d.free_semcb domid ++ i ∷ []);
  }

  left-sematr :
      (j : ℕ) → sematr_of j left.kernel ≡ (if i == j then ta_noexs else sematr_of j d.kernel)
  unfolding left released init_wait_queue
  left-sematr j =
      let same : released.cfg.wobjatr (sem_wait_queue j) ≡ sematr_of j d.kernel =
        ap (λ (c : Config). c.wobjatr (sem_wait_queue j))
          (init_wait_loop-cfg (length (d.kernel.queue (sem_wait_queue i))) (sem_wait_queue i)
            d.kernel) in
      ap (λ (c : Config). c.wobjatr (sem_wait_queue j))
        (dispatch_if_needed-cfg (set_sematr i ta_noexs released)).0
      ∙ ground arith

  -- A block with an object is in no list of free blocks.
  not_free : (dom : ℕ) → has i (d.free_semcb dom) ≡ false
  not_free dom = elim (Bool-cases (has i (d.free_semcb dom))) [
    | inl h ↦ absurd (there (v.absent dom i h))
    | inr h ↦ h
  ]

  left-member :
      (dom j : ℕ)
      → has j (left.free_semcb dom) ≡ (has j (d.free_semcb dom) || ((dom == domid) && (i == j)))
  unfolding left
  left-member dom j = ground (arith, has-append j (d.free_semcb dom) (i ∷ []))

  left-IsFreePool : IsFreePool left
  unfolding left
  left-IsFreePool = record {
    absent = λ dom j h. left-sematr j ∙ ground (arith, left-member dom j, v.absent dom j, h);
    single = λ dom. ground (arith, distinct-snoc i (d.free_semcb dom), not_free dom, v.single dom);
    once = λ dom e j a b.
        ground
          (arith, left-member dom j, left-member e j, v.once dom e j, not_free dom, not_free e);
  }

  deleted : Deleted i d left
  unfolding left released domid
  deleted = record {
    present = there;
    absent = left-sematr i ∙ ground arith;
    freed = left-member domid i ∙ ground arith;
    empty =
        ap (λ (f : ℕ → List ℕ). f (sem_wait_queue i))
          (dispatch_if_needed-cfg (set_sematr i ta_noexs released)).1
        ∙ (init_wait_queue_correct (sem_wait_queue i) d.kernel (omega arith)).0;
    others = λ j n. left-sematr j ∙ ground arith;
    pool = left-IsFreePool;
  }

-- Where the free control blocks have no object and each is in one list, once, del_sem past its
-- checks either returns E_OK, and then the semaphore existed, has no object any more and is a free
-- block of its domain, nobody waits for it, the attributes of the others are as they were, and the
-- free control blocks are again as they should be; or it returns E_NOEXS, E_OACV or E_OBJ and
-- changes nothing.
pub del_sem_locked-Deleted :
    (d : Dynamic) (i : ℕ)
    → IsFreePool d
    → (((del_sem_locked i d).0 ≡ e_ok) × Deleted i d (del_sem_locked i d).1)
      ⊎ (((del_sem_locked i d).1 ≡ d)
          × (((del_sem_locked i d).0 ≡ e_noexs)
              ⊎ (((del_sem_locked i d).0 ≡ e_oacv) ⊎ ((del_sem_locked i d).0 ≡ e_obj))))
unfolding del_sem_locked left released domid
del_sem_locked-Deleted d i v =
    let Done = λ (r : Er × Dynamic).
      (((r.0 ≡ e_ok) × Deleted i d r.1)
        ⊎ ((r.1 ≡ d) × ((r.0 ≡ e_noexs) ⊎ ((r.0 ≡ e_oacv) ⊎ (r.0 ≡ e_obj))))) in
    if-branch Done (sematr_of i d.kernel == ta_noexs) (λ _. inr (refl, inl refl))
      (λ there.
        if-both Done (violate_acptn (seminib_of i d.kernel).acvct.acptn3 d.kernel)
          (inr (refl, inr (inl refl)))
          (if-both Done (leb (i + 1) d.tmax_ssemid) (inr (refl, inr (inr refl)))
            (inl (refl, deleted d i v (λ e. ground arith)))))
