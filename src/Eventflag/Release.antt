-- ===== src/Eventflag/Release.antt =====
-- Which tasks set_flg of kernel/eventflag.c releases.
use toppers_hrp3_gr_rose.Common.{
  ℕ, ◌≡◌, ◌≢◌, refl, ap, ◌∙◌, ◌⊎◌, inl, inr, Bool, true, false, ◌&&◌, Option, none, some, List, [],
  ◌∷◌, arith, has, update, bit_and, bit, bit-bit_and, bit_zero, some_bit, bits_ext, if◌then◌else◌,
  Bool-cases,
}
use toppers_hrp3_gr_rose.Kernel.{
  Kernel, Winfo, Flginib, wercd, e_ok, queue_delete, tstat_suspended, ts_suspended, ts_runnable,
}
use toppers_hrp3_gr_rose.Task.{make_runnable}
use toppers_hrp3_gr_rose.Wait.{make_non_wait, wait_complete, wait_dequeue_tmevtb, set_wercd}
use toppers_hrp3_gr_rose.Wait.Complete.{awake}
use toppers_hrp3_gr_rose.Eventflag.{
  flg_cond, check_flg_cond, release_flg, set_flg_loop, ta_clr, twf_orw, twf_andw,
}

-- What a flag and its waiting tasks have in the state.
record Flags : Type 0 where
  flgptn : ℕ → ℕ
  waiptn : ℕ → ℕ
  wfmode : ℕ → ℕ
  winfo : ℕ → Winfo
  tstat : ℕ → ℕ
  flginib : ℕ → Flginib

abbrev flags : Kernel → Flags
flags k = record {
  flgptn = k.flgptn;
  waiptn = k.waiptn;
  wfmode = k.wfmode;
  winfo = k.winfo;
  tstat = k.tstat;
  flginib = k.cfg.flginib;
}

awake_twice : (v : ℕ) → awake (awake v) ≡ awake v
unfolding tstat_suspended
awake_twice v = elim (Bool-cases (tstat_suspended v)) [ inl e ↦ rw e refl | inr e ↦ rw e refl ]

make_non_wait-flags :
    (k : Kernel) (t : ℕ)
    → flags (make_non_wait t k) ≡ record (flags k) { tstat = update k.tstat t (awake (k.tstat t)) }
unfolding make_non_wait make_runnable
make_non_wait-flags k t = elim (Bool-cases (tstat_suspended (k.tstat t))) [
  | inl e ↦ rw (e, make_non_wait) refl
  | inr e ↦ rw (e, make_non_wait) (ground arith)
]

release_flg-flags :
    (k : Kernel) (t ptn : ℕ)
    → flags (release_flg t ptn k) ≡ record {
      flgptn = k.flgptn;
      waiptn = update k.waiptn t ptn;
      wfmode = k.wfmode;
      winfo = update k.winfo t (wercd e_ok);
      tstat = update k.tstat t (awake (k.tstat t));
      flginib = k.cfg.flginib;
    }
unfolding release_flg wait_complete wait_dequeue_tmevtb queue_delete
release_flg-flags k t ptn =
    make_non_wait-flags
      (set_wercd t e_ok
        (wait_dequeue_tmevtb t (queue_delete t (record k { waiptn = update k.waiptn t ptn }))))
      t

-- The condition of a task holds for the pattern of the flag.
abbrev pub satisfied : ℕ → ℕ → Kernel → Bool
satisfied i u k = flg_cond (k.flgptn i) (k.waiptn u) (k.wfmode u)

check_fails :
    (i t : ℕ) (k : Kernel)
    → satisfied i t k ≡ false
    → check_flg_cond i (k.waiptn t) (k.wfmode t) k ≡ (none, k)
unfolding check_flg_cond
check_fails i t k e = ground arith

check_holds :
    (i t : ℕ) (k : Kernel)
    → bit_and (k.cfg.flginib i).flgatr ta_clr ≡ 0
    → satisfied i t k ≡ true
    → check_flg_cond i (k.waiptn t) (k.wfmode t) k ≡ (some (k.flgptn i), k)
unfolding check_flg_cond
check_holds i t k h e = ground arith

step_fails :
    (i t : ℕ) (ts : List ℕ) (k : Kernel)
    → satisfied i t k ≡ false
    → set_flg_loop i (t ∷ ts) k ≡ set_flg_loop i ts k
unfolding set_flg_loop
step_fails i t ts k e =
    rw (check_fails i t k e, set_flg_loop)
      (ap (λ (r : Option ℕ × Kernel). set_flg_loop i ts r.1) (check_fails i t k e))

step_holds :
    (i t : ℕ) (ts : List ℕ) (k : Kernel)
    → bit_and (k.cfg.flginib i).flgatr ta_clr ≡ 0
    → satisfied i t k ≡ true
    → set_flg_loop i (t ∷ ts) k ≡ set_flg_loop i ts (release_flg t (k.flgptn i) k)
unfolding set_flg_loop
step_holds i t ts k h e =
    rw (check_holds i t k h e, h, set_flg_loop)
      (ap (λ (r : Option ℕ × Kernel). set_flg_loop i ts (release_flg t (k.flgptn i) r.1))
        (check_holds i t k h e))

set_flg_loop-satisfied :
    (i u : ℕ) (ts : List ℕ) (k : Kernel)
    → bit_and (k.cfg.flginib i).flgatr ta_clr ≡ 0
    → ((set_flg_loop i ts k).winfo u
        ≡ (if has u ts && satisfied i u k then wercd e_ok else k.winfo u))
      × ((set_flg_loop i ts k).tstat u
          ≡ (if has u ts && satisfied i u k then awake (k.tstat u) else k.tstat u))
unfolding set_flg_loop check_flg_cond
set_flg_loop-satisfied i u [] k h = (refl, refl)
set_flg_loop-satisfied i u (t ∷ ts) k h =
    let k1 = release_flg t (k.flgptn i) k in
    let after = release_flg-flags k t (k.flgptn i) in
    let ptn : k1.flgptn i ≡ k.flgptn i = ap (λ (f : Flags). f.flgptn i) after in
    let wai : k1.waiptn u ≡ update k.waiptn t (k.flgptn i) u =
      ap (λ (f : Flags). f.waiptn u) after in
    let mode : k1.wfmode u ≡ k.wfmode u = ap (λ (f : Flags). f.wfmode u) after in
    let info : k1.winfo u ≡ update k.winfo t (wercd e_ok) u = ap (λ (f : Flags). f.winfo u) after in
    let stat : k1.tstat u ≡ update k.tstat t (awake (k.tstat t)) u =
      ap (λ (f : Flags). f.tstat u) after in
    let twice = awake_twice (k.tstat u) in
    let atr : (k1.cfg.flginib i).flgatr ≡ (k.cfg.flginib i).flgatr =
      ap (λ (f : Flags). (f.flginib i).flgatr) after in
    elim (Bool-cases (satisfied i t k)) [
      | inr fails ↦
          let rest = set_flg_loop-satisfied i u ts k h in
          rw (step_fails i t ts k fails) (rest.0 ∙ ground arith, rest.1 ∙ ground arith)
      | inl holds ↦
          let rest = set_flg_loop-satisfied i u ts k1 (ap (λ (a : ℕ). bit_and a ta_clr) atr ∙ h) in
          rw (step_holds i t ts k h holds) (rest.0 ∙ ground arith, rest.1 ∙ ground arith)
    ]

-- The flag has what a task waits for: one of the bits of its pattern for TWF_ORW, all of them for
-- TWF_ANDW.
abbrev pub IsMet : ℕ → ℕ → ℕ → Type 0
IsMet flgptn waiptn wfmode =
    ((wfmode ≡ twf_orw) × ((b : ℕ) × ((bit b waiptn ≡ true) × (bit b flgptn ≡ true))))
    ⊎ ((wfmode ≡ twf_andw) × ((b : ℕ) → bit b waiptn ≡ true → bit b flgptn ≡ true))

flg_cond-IsMet :
    (flgptn waiptn wfmode : ℕ)
    → (wfmode ≡ twf_orw) ⊎ (wfmode ≡ twf_andw)
    → flg_cond flgptn waiptn wfmode ≡ true
    → IsMet flgptn waiptn wfmode
unfolding flg_cond
flg_cond-IsMet flgptn waiptn wfmode (inl m) e =
    let (b, one) = some_bit (bit_and flgptn waiptn) (λ z. ground arith) in
    inl (
      m,
      (
        b,
        (ground (arith, bit-bit_and b flgptn waiptn), ground (arith, bit-bit_and b flgptn waiptn)),
      ),
    )
flg_cond-IsMet flgptn waiptn wfmode (inr m) e =
    let same : bit_and flgptn waiptn ≡ waiptn = ground arith in
    inr (m, λ b w. ground (arith, bit-bit_and b flgptn waiptn, ap (bit b) same))

IsMet-flg_cond :
    (flgptn waiptn wfmode : ℕ) → IsMet flgptn waiptn wfmode → flg_cond flgptn waiptn wfmode ≡ true
unfolding flg_cond
IsMet-flg_cond flgptn waiptn wfmode (inl (m, (b, (w, f)))) =
    let none_common : bit_and flgptn waiptn ≢ 0 =
      λ z. ground (arith, bit-bit_and b flgptn waiptn, ap (bit b) z, bit_zero b) in
    ground arith
IsMet-flg_cond flgptn waiptn wfmode (inr (m, all)) =
    let same : bit_and flgptn waiptn ≡ waiptn =
      bits_ext (bit_and flgptn waiptn) waiptn
        (λ b. ground (arith, bit-bit_and b flgptn waiptn, all b)) in
    ground arith

-- For an event flag without TA_CLR, the loop of set_flg ends the wait of each task of the wait
-- queue for which the flag has one of the bits that it waits for, in the mode TWF_ORW, or all of
-- them, in the mode TWF_ANDW: such a task has the result E_OK, and is runnable, or suspended where
-- it was suspended. Every other task has the wait information and the state that it had. The task
-- has one of the two modes.
pub set_flg_loop-release :
    (i u : ℕ) (ts : List ℕ) (k : Kernel)
    → bit_and (k.cfg.flginib i).flgatr ta_clr ≡ 0
    → (k.wfmode u ≡ twf_orw) ⊎ (k.wfmode u ≡ twf_andw)
    → (((has u ts ≡ true) × IsMet (k.flgptn i) (k.waiptn u) (k.wfmode u))
        × (((set_flg_loop i ts k).winfo u ≡ wercd e_ok)
            × ((set_flg_loop i ts k).tstat u
                ≡ (if tstat_suspended (k.tstat u) then ts_suspended else ts_runnable))))
      ⊎ ((¬ ((has u ts ≡ true) × IsMet (k.flgptn i) (k.waiptn u) (k.wfmode u)))
          × (((set_flg_loop i ts k).winfo u ≡ k.winfo u)
              × ((set_flg_loop i ts k).tstat u ≡ k.tstat u)))
set_flg_loop-release i u ts k h mode =
    let (info, stat) = set_flg_loop-satisfied i u ts k h in
    elim (Bool-cases (has u ts && satisfied i u k)) [
      | inl e ↦
          let met : satisfied i u k ≡ true = ground arith in
          inl (
            (ground arith, flg_cond-IsMet (k.flgptn i) (k.waiptn u) (k.wfmode u) mode met),
            (ground arith, ground arith),
          )
      | inr e ↦ inr (
        λ r.
            let met = IsMet-flg_cond (k.flgptn i) (k.waiptn u) (k.wfmode u) r.1 in
            let there = r.0 in ground arith,
        (ground arith, ground arith),
      )
    ]
