-- ===== src/Mutex/Ceiling.antt =====
-- The priority ceilings of kernel/mutex.c, over the mutexes that a task has locked.
use toppers_hrp3_gr_rose.Common.{
  ℕ, zero, suc, ◌<◌, ◌≤◌, ◌≡◌, refl, sym, subst, ◌⊎◌, inl, inr, Bool, true, false, not, ◌&&◌,
  Option, none, some, List, [], ◌∷◌, arith, ltb, ◌==◌, has, Chain, length, if◌then◌else◌,
  Bool-cases, if-branch, bit_and,
}
use toppers_hrp3_gr_rose.Kernel.{Kernel, without_suspended, ts_waiting_mtx}
use toppers_hrp3_gr_rose.Mutex.{
  mtxinib_of, mtx_ceiling, ta_ceiling, mtxproto_mask, tnum_mtx, violates_ceiling, check_locked,
  p_mtxcb, mutex_check_ceilpri, scan_locked, mutex_scan_ceilmtx, raised_by, calc_locked,
  mutex_calc_priority,
}

-- The priority ceiling that applies to the holder of a mutex, where it has one.
abbrev pub ceiling_of : ℕ → Kernel → Option ℕ
ceiling_of i k = if mtx_ceiling i k then some (mtxinib_of i k).ceilpri else none

-- The highest, that is the least, of a priority and the ceilings of a list of mutexes.
unfoldable pub highest : ℕ → List ℕ → Kernel → ℕ
highest priority [] k = priority
highest priority (x ∷ xs) k = highest (raised_by priority x k) xs k

pub calc_locked-highest :
    (xs : List ℕ) (fuel priority : ℕ) (p : Option ℕ) (k : Kernel)
    → Chain k.mtx.p_prevmtx p xs
    → length xs ≤ fuel
    → calc_locked fuel p priority k ≡ highest priority xs k
unfolding calc_locked highest
calc_locked-highest [] zero priority p k h l = refl
calc_locked-highest [] (suc fuel) priority p k h l = rw (h, calc_locked) refl
calc_locked-highest (x ∷ xs) zero priority p k h l = absurd (omega arith)
calc_locked-highest (x ∷ xs) (suc fuel) priority p k h l =
    rw (h.0, calc_locked)
      (calc_locked-highest xs fuel (raised_by priority x k) (k.mtx.p_prevmtx x) k h.1 (omega arith))

-- A priority is a value of a task, or the ceiling of one of its mutexes.
abbrev pub Attained : Kernel → ℕ → List ℕ → ℕ → Type 0
Attained k base xs priority =
    (priority ≡ base)
    ⊎ ((x : ℕ) × ((has x xs ≡ true)
          × ((mtx_ceiling x k ≡ true) × (priority ≡ (mtxinib_of x k).ceilpri))))

-- A priority that holds for a task with these mutexes: no lower than the base priority and the
-- ceilings.
pub record IsCurrent (k : Kernel) (base : ℕ) (xs : List ℕ) (priority : ℕ) : Type 0 where
  pub at_least_base : priority ≤ base
  pub at_least_ceilings :
      (x : ℕ) → has x xs ≡ true → mtx_ceiling x k ≡ true → priority ≤ (mtxinib_of x k).ceilpri
  pub attained : Attained k base xs priority

raised :
    (x : ℕ) (xs : List ℕ) (base : ℕ) (k : Kernel) {priority : ℕ}
    → Attained k (raised_by base x k) xs priority
    → Attained k base (x ∷ xs) priority
unfolding raised_by mtx_ceiling
raised x xs base k (inr (y, (h, (c, e)))) = inr (y, (ground arith, (c, e)))
raised x xs base k {priority} (inl e) =
    if-branch (λ (r : ℕ). priority ≡ r → Attained k base (x ∷ xs) priority)
      (mtx_ceiling x k && ltb (mtxinib_of x k).ceilpri base)
      (λ b q. inr (x, (ground arith, (ground arith, q)))) (λ b q. inl q) e

highest-IsCurrent : (xs : List ℕ) (base : ℕ) (k : Kernel) → IsCurrent k base xs (highest base xs k)
unfolding highest raised_by
highest-IsCurrent [] base k = record {
  at_least_base = omega arith;
  at_least_ceilings = λ x h c. ground arith;
  attained = inl refl;
}
highest-IsCurrent (x ∷ xs) base k =
    let r = highest-IsCurrent xs (raised_by base x k) k in
    record {
      at_least_base = ground (arith, r.at_least_base);
      at_least_ceilings = λ y h c. ground (arith, r.at_least_base, r.at_least_ceilings y);
      attained = raised x xs base k r.attained;
    }

-- The current priority that mutex_calc_priority computes for a task is no lower than the base
-- priority and the ceilings of the ceiling mutexes that the task has locked, and is one of these;
-- where there are no more of them than mutexes.
pub mutex_calc_priority-IsCurrent :
    (t : ℕ) (xs : List ℕ) (k : Kernel)
    → Chain k.mtx.p_prevmtx (k.p_lastmtx t) xs
    → length xs ≤ tnum_mtx k
    → IsCurrent k (k.bpriority t) xs (mutex_calc_priority t k)
unfolding mutex_calc_priority
mutex_calc_priority-IsCurrent t xs k h l =
    rw (calc_locked-highest xs (tnum_mtx k) (k.bpriority t) (k.p_lastmtx t) k h l)
      (highest-IsCurrent xs (k.bpriority t) k)

-- The mutex has a priority ceiling, by the protocol in its attribute.
abbrev pub HasCeiling : ℕ → Kernel → Type 0
HasCeiling x k = bit_and (mtxinib_of x k).mtxatr mtxproto_mask ≡ ta_ceiling

-- The mutex has a priority ceiling, and the base priority is higher: a number below it.
abbrev pub IsExceeded : ℕ → ℕ → Kernel → Type 0
IsExceeded bpriority x k = HasCeiling x k × (bpriority < (mtxinib_of x k).ceilpri)

-- The task has locked the mutex, as one of a list, or waits for it.
abbrev pub IsConcerned : ℕ → List ℕ → ℕ → Kernel → Type 0
IsConcerned t xs x k =
    (has x xs ≡ true) ⊎ ((without_suspended (k.tstat t) ≡ ts_waiting_mtx) × (x ≡ p_mtxcb t k))

violates_ceiling-IsExceeded :
    (bpriority x : ℕ) (k : Kernel)
    → violates_ceiling bpriority x k ≡ true
    → IsExceeded bpriority x k
unfolding violates_ceiling mtx_ceiling
violates_ceiling-IsExceeded bpriority x k e = (ground arith, ground arith)

not-IsExceeded :
    (bpriority x : ℕ) (k : Kernel)
    → violates_ceiling bpriority x k ≡ false
    → ¬ IsExceeded bpriority x k
unfolding violates_ceiling mtx_ceiling
not-IsExceeded bpriority x k e h = ground (arith, h.0, h.1)

-- What a test says of the members of a list: one of them is such, or none is.
abbrev pub Finds : Bool → (ℕ → Type 0) → (ℕ → Type 0) → Type 0
Finds b In Bad =
    ((b ≡ true) × ((x : ℕ) × (In x × Bad x))) ⊎ ((b ≡ false) × ((x : ℕ) → In x → ¬ Bad x))

check_locked-Finds :
    (xs : List ℕ) (fuel bpriority : ℕ) (p : Option ℕ) (k : Kernel)
    → Chain k.mtx.p_prevmtx p xs
    → length xs ≤ fuel
    → Finds
        (not (check_locked fuel p bpriority k))
        (λ x. has x xs ≡ true)
        (λ x. IsExceeded bpriority x k)
unfolding check_locked
check_locked-Finds [] zero bpriority p k h l = inr (refl, λ x i. ground arith)
check_locked-Finds [] (suc fuel) bpriority p k h l =
    rw (h, check_locked) (inr (refl, λ x i. ground arith))
check_locked-Finds (x ∷ xs) zero bpriority p k h l = absurd (omega arith)
check_locked-Finds (x ∷ xs) (suc fuel) bpriority p k h l =
    elim (Bool-cases (violates_ceiling bpriority x k)) [
      | inl e ↦
          rw (h.0, check_locked, e)
            (inl (refl, (x, (ground arith, violates_ceiling-IsExceeded bpriority x k e))))
      | inr e ↦
          rw (h.0, check_locked, e)
            (elim (check_locked-Finds xs fuel bpriority (k.mtx.p_prevmtx x) k h.1 (omega arith)) [
              | inl (b, (y, (i, v))) ↦ inl (b, (y, (ground arith, v)))
              | inr (b, none_bad) ↦ inr (
                b,
                λ y i. elim (Bool-cases (x == y)) [
                  | inl s ↦
                      let at : x ≡ y = ground arith in
                      subst (λ y. ¬ IsExceeded bpriority y k) at (not-IsExceeded bpriority x k e)
                  | inr d ↦ none_bad y (ground arith)
                ],
              )
            ])
    ]

scan_locked-Finds :
    (xs : List ℕ) (fuel : ℕ) (p : Option ℕ) (k : Kernel)
    → Chain k.mtx.p_prevmtx p xs
    → length xs ≤ fuel
    → Finds (scan_locked fuel p k) (λ x. has x xs ≡ true) (λ x. HasCeiling x k)
unfolding scan_locked mtx_ceiling
scan_locked-Finds [] zero p k h l = inr (refl, λ x i. ground arith)
scan_locked-Finds [] (suc fuel) p k h l = rw (h, scan_locked) (inr (refl, λ x i. ground arith))
scan_locked-Finds (x ∷ xs) zero p k h l = absurd (omega arith)
scan_locked-Finds (x ∷ xs) (suc fuel) p k h l = elim (Bool-cases (mtx_ceiling x k)) [
  | inl e ↦ rw (h.0, scan_locked, e) (inl (refl, (x, (ground arith, ground arith))))
  | inr e ↦
      rw (h.0, scan_locked, e)
        (elim (scan_locked-Finds xs fuel (k.mtx.p_prevmtx x) k h.1 (omega arith)) [
          | inl (b, (y, (i, v))) ↦ inl (b, (y, (ground arith, v)))
          | inr (b, none_bad) ↦ inr (
            b,
            λ y i. elim (Bool-cases (x == y)) [
              | inl s ↦
                  let at : x ≡ y = ground arith in
                  subst (λ y. ¬ HasCeiling y k) at (λ c. ground arith)
              | inr d ↦ none_bad y (ground arith)
            ],
          )
        ])
]

waiting_too :
    (t bpriority : ℕ) (xs : List ℕ) (k : Kernel)
    → Finds
        (not (check_locked (tnum_mtx k) (k.p_lastmtx t) bpriority k))
        (λ x. has x xs ≡ true)
        (λ x. IsExceeded bpriority x k)
    → Finds
        (not (mutex_check_ceilpri t bpriority k))
        (λ x. IsConcerned t xs x k)
        (λ x. IsExceeded bpriority x k)
unfolding mutex_check_ceilpri
waiting_too t bpriority xs k (inl (b, (x, (i, v)))) = inl (ground arith, (x, (inl i, v)))
waiting_too t bpriority xs k (inr (b, none_bad)) =
    elim (Bool-cases (without_suspended (k.tstat t) == ts_waiting_mtx)) [
      | inr other ↦ inr (
        ground arith,
        λ x i. elim i [ inl h ↦ none_bad x h | inr (w, s) ↦ absurd (ground arith) ],
      )
      | inl w ↦ elim (Bool-cases (violates_ceiling bpriority (p_mtxcb t k) k)) [
        | inl e ↦ inl (
          ground arith,
          (
            p_mtxcb t k,
            (inr (ground arith, refl), violates_ceiling-IsExceeded bpriority (p_mtxcb t k) k e),
          ),
        )
        | inr e ↦ inr (
          ground arith,
          λ x i. elim i [
            | inl h ↦ none_bad x h
            | inr (w, s) ↦
                subst (λ x. ¬ IsExceeded bpriority x k) (sym s)
                  (not-IsExceeded bpriority (p_mtxcb t k) k e)
          ],
        )
      ]
    ]

-- mutex_check_ceilpri refuses a base priority exactly where it is a lower number, that is a higher
-- priority, than the ceiling of a ceiling mutex that the task has locked or waits for, and
-- mutex_scan_ceilmtx finds out whether the task has locked a ceiling mutex; where it has locked no
-- more mutexes than there are.
pub mutex_check_ceilpri_correct :
    (t bpriority : ℕ) (xs : List ℕ) (k : Kernel)
    → Chain k.mtx.p_prevmtx (k.p_lastmtx t) xs
    → length xs ≤ tnum_mtx k
    → Finds
        (not (mutex_check_ceilpri t bpriority k))
        (λ x. IsConcerned t xs x k)
        (λ x. IsExceeded bpriority x k)
      × Finds (mutex_scan_ceilmtx t k) (λ x. has x xs ≡ true) (λ x. HasCeiling x k)
unfolding mutex_check_ceilpri mutex_scan_ceilmtx
mutex_check_ceilpri_correct t bpriority xs k h l = (
  waiting_too t bpriority xs k (check_locked-Finds xs (tnum_mtx k) bpriority (k.p_lastmtx t) k h l),
  scan_locked-Finds xs (tnum_mtx k) (k.p_lastmtx t) k h l,
)
