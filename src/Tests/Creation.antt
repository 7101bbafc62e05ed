-- ===== src/Tests/Creation.antt =====
-- Tests of the creation and deletion of semaphores.
use toppers_hrp3_gr_rose.Common.{ℕ, ◌+◌, ◌≡◌, ◌⊎◌, [], arith}
use toppers_hrp3_gr_rose.Kernel.{e_ok, e_noid, e_noexs, e_oacv, e_obj, value}
use toppers_hrp3_gr_rose.Dcre.{Dynamic, initialize_semcb, acre_sem_locked, del_sem_locked}
use toppers_hrp3_gr_rose.Dcre.Pool.{
  IsFreePool, Created, Deleted, acre_sem_locked-Created, del_sem_locked-Deleted,
}
use toppers_hrp3_gr_rose.Tests.{blank}

-- The block of semaphore 2 is free, in the kernel domain.
one_free : Dynamic
one_free = initialize_semcb 1 255 (record {
  kernel = record blank { cfg = record (blank.cfg) { tmax_semid = 2 } };
  free_semcb = λ _. [];
  dominib_none = blank.cfg.dominib 0;
  tmax_ssemid = 0;
})

one_free-IsFreePool : IsFreePool one_free
unfolding one_free initialize_semcb
one_free-IsFreePool = record {
  absent = λ dom i h. ground arith;
  single = λ dom. ground arith;
  once = λ dom e i a b. ground arith;
}

acre_sem_locked-Created_example :
    (acre_sem_locked 255 1 0 4 one_free ≡ (e_noid, one_free))
    ⊎ ((i : ℕ) × (d' : Dynamic) × ((acre_sem_locked 255 1 0 4 one_free ≡ (value (i + 1), d'))
          × Created i 1 0 4 one_free d'))
acre_sem_locked-Created_example = acre_sem_locked-Created 255 1 0 4 one_free one_free-IsFreePool

del_sem_locked-Deleted_example :
    (((del_sem_locked 0 one_free).0 ≡ e_ok) × Deleted 0 one_free (del_sem_locked 0 one_free).1)
    ⊎ (((del_sem_locked 0 one_free).1 ≡ one_free)
        × (((del_sem_locked 0 one_free).0 ≡ e_noexs)
            ⊎ (((del_sem_locked 0 one_free).0 ≡ e_oacv) ⊎ ((del_sem_locked 0 one_free).0 ≡ e_obj))))
del_sem_locked-Deleted_example = del_sem_locked-Deleted one_free 0 one_free-IsFreePool
