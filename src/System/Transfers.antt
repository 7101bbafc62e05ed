-- ===== src/System/Transfers.antt =====
-- What the calls that send and receive data have in common: an attempt that succeeds or changes
-- nothing, and a wait after one that fails.
use toppers_hrp3_gr_rose.Common.{
  ℕ, ◌%◌, ◌<◌, ◌≡◌, sym, subst, ◌≢◌, Bool, true, false, Option, none, some, if◌then◌else◌,
  if-branch, ◌==◌, if-both,
}
use toppers_hrp3_gr_rose.Kernel.{
  Kernel, Svc, returned, waits, unlock_cpu, dispatch, dispatch_if_needed, dispatch_or_request,
  queue_insert_prev, tstat_wait_wobj, e_ok, e_tmout, e_raster,
}
use toppers_hrp3_gr_rose.Wait.{
  set_wobjcb, wobj_make_wait, wobj_make_wait_tmout, make_wait, make_wait_tmout, tmo_pol,
}
use toppers_hrp3_gr_rose.Service.{Leaves}
use toppers_hrp3_gr_rose.System.Moves.{IsSound}
use toppers_hrp3_gr_rose.System.Waits.{
  make_wait-IsSound, make_wait_tmout-IsSound, queue_insert_prev-IsSound, set_wobjcb-IsSound,
  wobj_make_wait-IsSound, wobj_make_wait_tmout-IsSound,
}
use toppers_hrp3_gr_rose.System.Steady.{
  IsSteady, dispatch-IsSteady, dispatch_if_needed-IsSteady, dispatch_or_request-IsSteady,
  unlock-IsSteady,
}

-- An attempt: the kernel stays sound, and does not change where the attempt fails.
pub record IsTried (k : Kernel) (done : Bool) (k1 : Kernel) : Type 0 where
  pub sound : IsSound k1
  pub failed : done ≡ false → k1 ≡ k

unfoldable pub is_some {ℓ} : {A : Type ℓ} → Option A → Bool
is_some none = false
is_some (some x) = true

module _ (k : Kernel) (v : IsSteady k) where
  -- A call that sends, after its attempt.
  pub sent-IsSteady :
      (b : Bool) (k1 : Kernel) (blocked : Kernel → Svc)
      → IsTried k b k1
      → Leaves IsSteady (blocked k)
      → Leaves IsSteady
          (if b then returned e_ok (unlock_cpu (dispatch_if_needed k1)) else blocked k1)
  unfolding Leaves
  sent-IsSteady b k1 blocked t h =
      if-branch (Leaves IsSteady) b (λ _. dispatch_if_needed-IsSteady k1 t.sound)
        (λ e. subst (λ (k : Kernel). Leaves IsSteady (blocked k)) (sym (t.failed e)) h)

  -- The same for a call that an interrupt may make, and that does not wait.
  pub sent_now-IsSteady :
      (b : Bool) (k1 : Kernel)
      → IsTried k b k1
      → Leaves IsSteady (
          if b
          then returned e_ok (unlock_cpu (dispatch_or_request k1))
          else returned e_tmout (unlock_cpu k1))
  unfolding Leaves
  sent_now-IsSteady b k1 t =
      if-branch (Leaves IsSteady) b (λ _. dispatch_or_request-IsSteady k1 t.sound)
        (λ e.
          subst (λ (k : Kernel). IsSteady (unlock_cpu k)) (sym (t.failed e)) (unlock-IsSteady k v))

  -- A task that is asked to end does not begin to wait.
  pub raster-IsSteady : Leaves IsSteady (returned e_raster (unlock_cpu k))
  unfolding Leaves
  raster-IsSteady = unlock-IsSteady k v

  pub poll-IsSteady : Leaves IsSteady (returned e_tmout (unlock_cpu k))
  unfolding Leaves
  poll-IsSteady = unlock-IsSteady k v

  -- A wait with a limit, which may be none.
  pub limit-IsSteady :
      (tmout : ℕ) (rest : Svc)
      → Leaves IsSteady rest
      → Leaves IsSteady (if tmout == tmo_pol then returned e_tmout (unlock_cpu k) else rest)
  limit-IsSteady tmout rest h = if-both (Leaves IsSteady) (tmout == tmo_pol) poll-IsSteady h

module _ (k : Kernel) (s : IsSound k) (q me w : ℕ) (object : q % 16 ≢ 0)
    (kind : tstat_wait_wobj w ≡ true) (small : w < 128) where
  pub wait-IsSteady : Leaves IsSteady (waits me (unlock_cpu (dispatch (wobj_make_wait q w me k))))
  unfolding Leaves
  wait-IsSteady = dispatch-IsSteady _ (wobj_make_wait-IsSound k q me w object kind small s)

  pub wait_tmout-IsSteady :
      (tmout : ℕ)
      → Leaves IsSteady (waits me (unlock_cpu (dispatch (wobj_make_wait_tmout q w tmout me k))))
  unfolding Leaves
  wait_tmout-IsSteady tmout =
      dispatch-IsSteady _ (wobj_make_wait_tmout-IsSound k q me w tmout object kind small s)

  -- A wait to receive, in the order of arrival, whatever the attribute of the object.
  pub wait_to_receive-IsSteady :
      (p : ℕ)
      → Leaves IsSteady (
          waits me
            (unlock_cpu (dispatch (set_wobjcb me p (queue_insert_prev q me (make_wait w me k))))))
  unfolding Leaves
  wait_to_receive-IsSteady p = dispatch-IsSteady _ (
      set_wobjcb-IsSound (queue_insert_prev q me (make_wait w me k)) me p (
        queue_insert_prev-IsSound (make_wait w me k) q me w object kind
          (make_wait-IsSound k me w s small)))

  pub wait_to_receive_tmout-IsSteady :
      (p tmout : ℕ)
      → Leaves IsSteady (
          waits me (
            unlock_cpu
              (dispatch (set_wobjcb me p (queue_insert_prev q me (make_wait_tmout w tmout me k))))))
  unfolding Leaves
  wait_to_receive_tmout-IsSteady p tmout =
      let k1 = make_wait_tmout w tmout me k in
      dispatch-IsSteady _ (
        set_wobjcb-IsSound (queue_insert_prev q me k1) me p (
          queue_insert_prev-IsSound k1 q me w object kind
            (make_wait_tmout-IsSound k me w tmout s small)))
