-- ===== src/System/Manage.antt =====
-- rel_wai of kernel/task_sync.c and calls of kernel/sys_manage.c, over steady kernels.
use toppers_hrp3_gr_rose.Common.{
  ℕ, ◌-◌, ◌<◌, ◌≡◌, refl, subst, Bool, true, not, ◌&&◌, some, List, [], ◌∷◌, ◌++◌, arith,
  has-append, distinct, ◌==◌, fun_ext, update, if◌then◌else◌, if-both, if-branch, same_ptr,
}
use toppers_hrp3_gr_rose.Kernel.{
  Kernel, Svc, check, violate_acptn, with_runtsk, e_oacv, e_rlwai, ready_queue, tail,
  queue_insert_prev, schedcb_kernel, lock_cpu, tstat_waiting,
}
use toppers_hrp3_gr_rose.Task.{set_predtsk, rotate_entries, rotate_ready_queue}
use toppers_hrp3_gr_rose.Task.Consistent.{IsConsistent-cong}
use toppers_hrp3_gr_rose.Task.Rotate.{rotate_ready_queue-IsConsistent}
use toppers_hrp3_gr_rose.TaskManage.{valid_tpri}
use toppers_hrp3_gr_rose.TaskSync.{index_tsk, rel_wai, rel_wai_locked}
use toppers_hrp3_gr_rose.Messagebuf.{messagebuf_dequeue_wobj}
use toppers_hrp3_gr_rose.SysManage.{
  dominib_of, tpri_self, with_tpri, rotate_locked, rot_rdq, loc_cpu, unl_cpu, dis_dsp,
}
use toppers_hrp3_gr_rose.Service.{Leaves, with_runtsk-Leaves, check-Leaves}
use toppers_hrp3_gr_rose.System.Linked.{IsLinked, permute-IsLinked, distinct-rotate}
use toppers_hrp3_gr_rose.System.Messages.{released-IsSound}
use toppers_hrp3_gr_rose.System.Steady.{
  IsSteady, IsSteady-IsSound, dispatch_or_request-IsSteady, lock-IsSteady, unlock-IsSteady,
  check-IsSteady, check3-IsSteady,
}

rel_wai_locked-IsSteady :
    (k : Kernel)
    → IsSteady k
    → (t : ℕ) → Leaves IsSteady (rel_wai_locked messagebuf_dequeue_wobj t k)
unfolding rel_wai_locked Leaves
rel_wai_locked-IsSteady k v t =
    if-branch (Leaves IsSteady) (not (tstat_waiting (k.tstat t))) (λ _. unlock-IsSteady k v)
      (λ e.
        dispatch_or_request-IsSteady _
          (released-IsSound k t e_rlwai (IsSteady-IsSound k v) (ground arith)))

pub rel_wai-IsSteady :
    (k : Kernel)
    → IsSteady k
    → (tskid : ℕ) → Leaves IsSteady (rel_wai messagebuf_dequeue_wobj tskid k)
unfolding rel_wai
rel_wai-IsSteady k v tskid =
    check3-IsSteady _ _ _ _ _ _ k _ v
      (rel_wai_locked-IsSteady (lock_cpu k) (lock-IsSteady k v) (index_tsk tskid))

-- The first task of a ready queue goes to its end.
rotated-IsLinked :
    (k : Kernel) (q e : ℕ) (es : List ℕ)
    → IsLinked k.queue k.tstat
    → k.queue q ≡ e ∷ es
    → IsLinked (update k.queue q (es ++ e ∷ [])) k.tstat
rotated-IsLinked k q e es v at =
    permute-IsLinked k.queue k.tstat v q (es ++ e ∷ [])
      (distinct-rotate e es (subst (λ (xs : List ℕ). distinct xs ≡ true) at (v.single q)))
      (λ u h. ground (arith, has-append u es (e ∷ []), at))

rotate_ready_queue-IsLinked :
    (pri s : ℕ) (k : Kernel)
    → IsLinked k.queue k.tstat
    → (q : List ℕ) → k.queue (ready_queue s pri) ≡ q
    → IsLinked (rotate_entries q pri s k).queue (rotate_entries q pri s k).tstat
unfolding rotate_entries queue_insert_prev set_predtsk
rotate_ready_queue-IsLinked pri s k v [] at = v
rotate_ready_queue-IsLinked pri s k v (e ∷ []) at = v
rotate_ready_queue-IsLinked pri s k v (e ∷ f ∷ rest) at =
    let q = ready_queue s pri in
    let k1 = queue_insert_prev q e (record k { queue = update k.queue q (tail (k.queue q)) }) in
    let Linked = λ (k' : Kernel). IsLinked k'.queue k'.tstat in
    let moved : IsLinked k1.queue k1.tstat =
      subst (λ (g : ℕ → List ℕ). IsLinked g k.tstat) (fun_ext (λ (r : ℕ). rotated_at r))
        (rotated-IsLinked k q e (f ∷ rest) v at) in
    if-both Linked (same_ptr (k1.p_predtsk s) (some e)) moved moved
  where
    rotated_at :
        (r : ℕ)
        → update k.queue (ready_queue s pri) (f ∷ rest ++ e ∷ []) r
          ≡ (queue_insert_prev (ready_queue s pri) e (record k {
            queue = update k.queue (ready_queue s pri) (tail (k.queue (ready_queue s pri)));
          })).queue
              r
    rotated_at r = ground (arith, at)

rotate_locked-IsSteady :
    (pri s : ℕ) (k : Kernel) → pri < 16 → IsSteady k → Leaves IsSteady (rotate_locked pri s k)
unfolding rotate_locked rotate_ready_queue Leaves
rotate_locked-IsSteady pri s k r v =
    dispatch_or_request-IsSteady (rotate_ready_queue pri s k) (record {
      consistent = rotate_ready_queue-IsConsistent pri s k r v.settled.consistent;
      linked = rotate_ready_queue-IsLinked pri s k v.linked (k.queue (ready_queue s pri)) refl;
    })

-- The priority of an argument is one of the 16, and so is that of a running task.
with_tpri-IsSteady :
    (self : Bool) (tskpri me : ℕ) (k : Kernel) (body : ℕ → Svc)
    → IsSteady k
    → k.p_runtsk ≡ some me
    → k.bpriority me < 16
    → ((pri : ℕ) → pri < 16 → Leaves IsSteady (body pri))
    → Leaves IsSteady (with_tpri self tskpri k body)
unfolding with_tpri
with_tpri-IsSteady self tskpri me k body v run base h =
    if-both (Leaves IsSteady) ((tskpri == tpri_self) && self)
      (with_runtsk-Leaves IsSteady k me (λ me. body (k.bpriority me)) run (h (k.bpriority me) base))
      (check-Leaves IsSteady (valid_tpri tskpri) _ k _ v (λ e. h (tskpri - 1) (ground arith)))

-- Whatever rot_rdq returns, a steady kernel stays steady and there is no fault, where there is a
-- running task and its base priority is one of the 16.
pub rot_rdq-IsSteady :
    (tskpri me : ℕ) (k : Kernel)
    → IsSteady k
    → k.p_runtsk ≡ some me
    → k.bpriority me < 16
    → Leaves IsSteady (rot_rdq tskpri k)
unfolding rot_rdq
rot_rdq-IsSteady tskpri me k v run base =
    let locked = lock-IsSteady k v in
    let own = λ (pri me : ℕ).
      check (not (violate_acptn (dominib_of me k).acvct.acptn1 k)) e_oacv k
        (rotate_locked pri (k.p_schedcb me) (lock_cpu k)) in
    let act = λ (pri : ℕ).
      (if k.nontask_context
        then rotate_locked pri schedcb_kernel (lock_cpu k)
        else with_runtsk k (own pri)) in
    check-IsSteady _ _ k _ v (
      with_tpri-IsSteady (not k.nontask_context) tskpri me k act v run base (λ pri range.
        if-both (Leaves IsSteady) k.nontask_context
          (rotate_locked-IsSteady pri schedcb_kernel (lock_cpu k) range locked)
          (with_runtsk-Leaves IsSteady k me (own pri) run (
            check-IsSteady _ _ k _ v
              (rotate_locked-IsSteady pri (k.p_schedcb me) (lock_cpu k) range locked)))))

module _ (k : Kernel) (v : IsSteady k) where
  pub loc_cpu-IsSteady : Leaves IsSteady (loc_cpu k)
  unfolding loc_cpu Leaves
  loc_cpu-IsSteady =
      check-IsSteady _ _ k _ v (if-both IsSteady (not k.cpu_locked) (lock-IsSteady k v) v)

  pub unl_cpu-IsSteady : Leaves IsSteady (unl_cpu k)
  unfolding unl_cpu Leaves
  unl_cpu-IsSteady =
      check-IsSteady _ _ k _ v (if-both IsSteady k.cpu_locked (unlock-IsSteady k v) v)

  -- While dispatching is disabled, p_schedtsk stays as it is.
  pub dis_dsp-IsSteady : Leaves IsSteady (dis_dsp k)
  unfolding dis_dsp Leaves
  dis_dsp-IsSteady = check-IsSteady _ _ k _ v (
      check-IsSteady _ _ k _ v (record {
        settled = record {
          consistent =
              IsConsistent-cong k _ refl refl refl refl refl (λ _ e. ground arith) (λ _ _ _. refl)
                v.settled.consistent;
          running = v.settled.running;
        };
        linked = v.linked;
      }))
