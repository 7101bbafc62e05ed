-- ===== src/System/FlagLoop.antt =====
-- The loop of set_flg of kernel/eventflag.c, over sound kernels.
use toppers_hrp3_gr_rose.Common.{
  ℕ, ◌≡◌, refl, sym, subst, ◌≢◌, inl, inr, true, not, Option, List, [], ◌∷◌, arith, ◌==◌, update,
  has, has-erase, erase, distinct, bit_and, if-both, Bool-cases, Option-cases,
}
use toppers_hrp3_gr_rose.Kernel.{Kernel, queue_delete, e_ok, ts_runnable, flg_wait_queue}
use toppers_hrp3_gr_rose.Wait.{wait_complete, wait_dequeue_tmevtb, set_wercd}
use toppers_hrp3_gr_rose.Wait.Queue.{make_non_wait-queue}
use toppers_hrp3_gr_rose.Eventflag.{
  flginib_of, ta_clr, check_flg_cond, flg_cond, release_flg, set_flg_loop,
}
use toppers_hrp3_gr_rose.System.Moves.{
  IsSound, wobj-not_runnable, queue_delete-IsSound, end_wait-IsSound,
}
use toppers_hrp3_gr_rose.System.Steady.{core-IsSound}

-- check_flg_cond changes no more than the pattern of the flag.
check_flg_cond-core :
    (i waiptn wfmode : ℕ) (k : Kernel)
    → (f : ℕ → ℕ) × ((check_flg_cond i waiptn wfmode k).1 ≡ record k { flgptn = f })
unfolding check_flg_cond
check_flg_cond-core i waiptn wfmode k =
    let Result = λ (r : Option ℕ × Kernel). (f : ℕ → ℕ) × (r.1 ≡ record k { flgptn = f }) in
    if-both Result (flg_cond (k.flgptn i) waiptn wfmode)
      (if-both (λ (k' : Kernel). (f : ℕ → ℕ) × (k' ≡ record k { flgptn = f }))
        (not (bit_and (flginib_of i k).flgatr ta_clr == 0)) (update k.flgptn i 0, refl)
        (k.flgptn, refl))
      (k.flgptn, refl)

-- A property of kernels that a new pattern of the flag keeps holds after check_flg_cond.
pub check_flg_cond-keeps :
    (P : Kernel → Type 0) (i waiptn wfmode : ℕ) (k : Kernel)
    → ((f : ℕ → ℕ) → P (record k { flgptn = f }))
    → P (check_flg_cond i waiptn wfmode k).1
check_flg_cond-keeps P i waiptn wfmode k h =
    let (f, e) = check_flg_cond-core i waiptn wfmode k in subst P (sym e) (h f)

-- The loop of set_flg is at an entry of the queue: the entries that are left are all in it.
pub record IsAt (i : ℕ) (ts : List ℕ) (k : Kernel) : Type 0 where
  pub sound : IsSound k
  pub inside : (u : ℕ) → has u ts ≡ true → has u (k.queue (flg_wait_queue i)) ≡ true
  pub single : distinct ts ≡ true

at-not_runnable : (i t : ℕ) (ts : List ℕ) (k : Kernel) → IsAt i (t ∷ ts) k → k.tstat t ≢ ts_runnable
at-not_runnable i t ts k a =
    wobj-not_runnable (k.tstat t)
      (a.sound.linked.waiting (flg_wait_queue i) t (omega arith) (a.inside t (ground arith)))

tail-IsAt : (i t : ℕ) (ts : List ℕ) (k : Kernel) → IsAt i (t ∷ ts) k → IsAt i ts k
tail-IsAt i t ts k a = record {
  sound = a.sound;
  inside = λ u h. a.inside u (ground arith);
  single = ground (arith, a.single);
}

flags-IsAt :
    (i : ℕ) (ts : List ℕ) (k : Kernel) (f : ℕ → ℕ)
    → IsAt i ts k
    → IsAt i ts (record k { flgptn = f })
flags-IsAt i ts k f a = record {
  sound = core-IsSound k _ refl a.sound;
  inside = a.inside;
  single = a.single;
}

release_flg-queue :
    (i t ptn : ℕ) (k : Kernel)
    → (release_flg t ptn k).queue (flg_wait_queue i) ≡ erase t (k.queue (flg_wait_queue i))
unfolding release_flg wait_complete wait_dequeue_tmevtb queue_delete
release_flg-queue i t ptn k =
    make_non_wait-queue
      (set_wercd t e_ok
        (wait_dequeue_tmevtb t (queue_delete t (record k { waiptn = update k.waiptn t ptn }))))
      t (flg_wait_queue i) (omega arith)

release_flg-IsAt :
    (i t ptn : ℕ) (ts : List ℕ) (k : Kernel) → IsAt i (t ∷ ts) k → IsAt i ts (release_flg t ptn k)
unfolding release_flg wait_complete queue_delete
release_flg-IsAt i t ptn ts k a =
    let k1 = record k { waiptn = update k.waiptn t ptn } in
    let n = at-not_runnable i t ts k a in
    let (gone, free) = queue_delete-IsSound k1 t (core-IsSound k k1 refl a.sound) n in
    record {
      sound = end_wait-IsSound (queue_delete t k1) t e_ok gone free n;
      inside = λ u h.
          rw (release_flg-queue i t ptn k)
            (ground (arith, has-erase t u (k.queue (flg_wait_queue i)), a.inside u, a.single));
      single = ground (arith, a.single);
    }

pub set_flg_loop-IsSound :
    (i : ℕ) (ts : List ℕ) (k : Kernel) → IsAt i ts k → IsSound (set_flg_loop i ts k)
unfolding set_flg_loop
set_flg_loop-IsSound i [] k a = a.sound
set_flg_loop-IsSound i (t ∷ ts) k a =
    let r = check_flg_cond i (k.waiptn t) (k.wfmode t) k in
    let a1 =
      check_flg_cond-keeps (IsAt i (t ∷ ts)) i (k.waiptn t) (k.wfmode t) k
        (λ f. flags-IsAt i (t ∷ ts) k f a) in
    elim (Option-cases r.0) [
      | inl e ↦ rw (e, set_flg_loop) (set_flg_loop-IsSound i ts r.1 (tail-IsAt i t ts r.1 a1))
      | inr (ptn, e) ↦
          let a2 = release_flg-IsAt i t ptn ts r.1 a1 in
          elim (Bool-cases (not (bit_and (flginib_of i k).flgatr ta_clr == 0))) [
            | inl c ↦ rw (e, c, set_flg_loop) (a2.sound)
            | inr c ↦ rw (e, c, set_flg_loop) (set_flg_loop-IsSound i ts (release_flg t ptn r.1) a2)
          ]
    ]
