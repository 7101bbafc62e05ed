-- ===== src/System/Linked.antt =====
-- The links of the queues of include/queue.h, and the invariant on them: each task is in one queue at
-- most, and the queues of the objects link tasks that wait for an object.
use toppers_hrp3_gr_rose.Common.{
  ℕ, zero, suc, ◌%◌, ◌<◌, ◌≡◌, refl, sym, subst, ◌≢◌, inl, inr, Bool, true, false, not, ◌&&◌, ◌||◌,
  List, [], ◌∷◌, ◌++◌, arith, has, has-append, has-erase, erase, distinct, update, ◌==◌, Bool-cases,
  bit_or,
}
use toppers_hrp3_gr_rose.Kernel.{
  ts_suspended, tstat_waiting, tstat_wait_wobj, tstat_wait_slp, without_suspended, tail,
}

-- What the links and the task states have to do with each other.
pub record IsLinked (queue : ℕ → List ℕ) (tstat : ℕ → ℕ) : Type 0 where
  pub single : (q : ℕ) → distinct (queue q) ≡ true
  pub once : (q r t : ℕ) → has t (queue q) ≡ true → has t (queue r) ≡ true → q ≡ r
  pub waiting : (q t : ℕ) → q % 16 ≢ 0 → has t (queue q) ≡ true → tstat_wait_wobj (tstat t) ≡ true
  pub small : (t : ℕ) → tstat t < 128

-- The task is in no queue.
abbrev pub IsFree : ℕ → (ℕ → List ℕ) → Type 0
IsFree t queue = (q : ℕ) → has t (queue q) ≡ false

-- A test of the states of a byte without its top bit.
all_states : ℕ → (ℕ → Bool) → Bool
all_states zero f = true
all_states (suc n) f = f n && all_states n f

all_states-holds : (n : ℕ) (f : ℕ → Bool) → all_states n f ≡ true → (v : ℕ) → v < n → f v ≡ true
unfolding all_states
all_states-holds zero f h v l = absurd (omega arith)
all_states-holds (suc n) f h v l = elim (Bool-cases (v == n)) [
  | inl e ↦
      let same : v ≡ n = ground arith in subst (λ (v : ℕ). f v ≡ true) (sym same) (ground arith)
  | inr e ↦ all_states-holds n f (ground arith) v (ground arith)
]

abbrev implies : Bool → Bool → Bool
implies a b = not a || b

modus : (a b : Bool) → implies a b ≡ true → a ≡ true → b ≡ true
modus true b h e = h
modus false b h e = ground arith

-- The states that the codes of kernel/task.h tell apart.
pub sleeping-not_wobj : (v : ℕ) → v < 128 → tstat_wait_slp v ≡ true → tstat_wait_wobj v ≡ false
unfolding all_states tstat_wait_slp tstat_wait_wobj
sleeping-not_wobj v l e =
    let h =
      all_states-holds 128 (λ v. implies (tstat_wait_slp v) (not (tstat_wait_wobj v))) refl v l in
    ground arith

pub not_waiting-not_wobj : (v : ℕ) → v < 128 → tstat_waiting v ≡ false → tstat_wait_wobj v ≡ false
unfolding all_states tstat_waiting tstat_wait_wobj
not_waiting-not_wobj v l e =
    let h =
      all_states-holds 128 (λ v. implies (not (tstat_waiting v)) (not (tstat_wait_wobj v))) refl v
        l in
    ground arith

pub suspend-wobj :
    (v : ℕ) → v < 128 → tstat_wait_wobj v ≡ true → tstat_wait_wobj (bit_or v ts_suspended) ≡ true
unfolding all_states tstat_wait_wobj
suspend-wobj v l e =
    modus (tstat_wait_wobj v) (tstat_wait_wobj (bit_or v ts_suspended))
      (all_states-holds 128
        (λ v. implies (tstat_wait_wobj v) (tstat_wait_wobj (bit_or v ts_suspended))) refl v l)
      e

pub resume-wobj :
    (v : ℕ) → v < 128 → tstat_wait_wobj v ≡ true → tstat_wait_wobj (without_suspended v) ≡ true
unfolding all_states tstat_wait_wobj
resume-wobj v l e =
    modus (tstat_wait_wobj v) (tstat_wait_wobj (without_suspended v))
      (all_states-holds 128
        (λ v. implies (tstat_wait_wobj v) (tstat_wait_wobj (without_suspended v))) refl v l)
      e

pub wobj_ne : (v w : ℕ) → tstat_wait_wobj v ≡ true → tstat_wait_wobj w ≡ false → v ≢ w
wobj_ne v w e h s = ground arith

distinct-erase : (t : ℕ) (xs : List ℕ) → distinct xs ≡ true → distinct (erase t xs) ≡ true
distinct-erase t [] h = refl
distinct-erase t (x ∷ xs) h = ground (arith, distinct-erase t xs, has-erase t x xs)

pub distinct-snoc :
    (t : ℕ) (xs : List ℕ) → has t xs ≡ false → distinct xs ≡ true → distinct (xs ++ t ∷ []) ≡ true
distinct-snoc t [] f h = refl
distinct-snoc t (x ∷ xs) f h = ground (arith, distinct-snoc t xs, has-append x xs (t ∷ []))

pub distinct-rotate :
    (t : ℕ) (xs : List ℕ) → distinct (t ∷ xs) ≡ true → distinct (xs ++ t ∷ []) ≡ true
distinct-rotate t xs h = distinct-snoc t xs (ground arith) (ground arith)

module _ (qs : ℕ → List ℕ) (st : ℕ → ℕ) (v : IsLinked qs st) where
  -- A task that leaves whatever queue it is in.
  pub erase-IsLinked : (t : ℕ) → IsLinked (λ q. erase t (qs q)) st
  erase-IsLinked t = record {
    single = λ q. distinct-erase t (qs q) (v.single q);
    once = λ q r u a b.
        v.once q r u (ground (arith, has-erase t u (qs q))) (ground (arith, has-erase t u (qs r)));
    waiting = λ q u n a. v.waiting q u n (ground (arith, has-erase t u (qs q)));
    small = v.small;
  }

  -- A task in no queue may change to any state.
  pub restate-IsLinked : (t w : ℕ) → IsFree t qs → w < 128 → IsLinked qs (update st t w)
  restate-IsLinked t w f l = record {
    single = v.single;
    once = v.once;
    waiting = λ q u n a. ground (arith, v.waiting q u n a, f q);
    small = λ u. ground (arith, v.small u);
  }

  -- Any task may change to a state of the same kind.
  pub retag-IsLinked :
      (t w : ℕ)
      → (tstat_wait_wobj (st t) ≡ true → tstat_wait_wobj w ≡ true)
      → w < 128
      → IsLinked qs (update st t w)
  retag-IsLinked t w k l = record {
    single = v.single;
    once = v.once;
    waiting = λ q u n a. elim (Bool-cases (t == u)) [
      | inl e ↦ let at : t ≡ u = ground arith in rw e (k (rw at (v.waiting q u n a)))
      | inr e ↦ rw e (v.waiting q u n a)
    ];
    small = λ u. ground (arith, v.small u);
  }

  -- A task in no queue enters one, with the state that the queue asks for.
  pub insert-IsLinked :
      (q t : ℕ) (xs : List ℕ)
      → IsFree t qs
      → (q % 16 ≢ 0 → tstat_wait_wobj (st t) ≡ true)
      → distinct xs ≡ true
      → ((u : ℕ) → has u xs ≡ ((t == u) || has u (qs q)))
      → IsLinked (update qs q xs) st
  insert-IsLinked q t xs f w d m = record {
    single = λ r. ground (arith, d, v.single r);
    once = λ r s u a b. ground (arith, m u, v.once r s u, v.once q s u, v.once r q u, f r, f s);
    waiting = λ r u n a. elim (Bool-cases (t == u)) [
      | inl e ↦
          let at : t ≡ u = ground arith in
          subst (λ (u : ℕ). tstat_wait_wobj (st u) ≡ true) at (w (ground (arith, f r)))
      | inr e ↦ v.waiting r u n (ground (arith, m u))
    ];
    small = v.small;
  }

  -- The entries of a queue in another order.
  pub permute-IsLinked :
      (q : ℕ) (xs : List ℕ)
      → distinct xs ≡ true
      → ((u : ℕ) → has u xs ≡ true → has u (qs q) ≡ true)
      → IsLinked (update qs q xs) st
  permute-IsLinked q xs d m = record {
    single = λ r. ground (arith, d, v.single r);
    once = λ r s u a b. ground (arith, m u, v.once r s u, v.once q s u, v.once r q u);
    waiting = λ r u n a. v.waiting r u n (ground (arith, m u));
    small = v.small;
  }

  -- The first task of a queue leaves it, and is in none then.
  pub tail-IsLinked : (q : ℕ) → IsLinked (update qs q (tail (qs q))) st
  tail-IsLinked q =
      permute-IsLinked q (tail (qs q)) (by_entries (qs q) (v.single q)) (members (qs q))
    where
      by_entries : (xs : List ℕ) → distinct xs ≡ true → distinct (tail xs) ≡ true
      by_entries [] h = refl
      by_entries (x ∷ xs) h = ground arith

      members : (xs : List ℕ) (u : ℕ) → has u (tail xs) ≡ true → has u xs ≡ true
      members [] u h = h
      members (x ∷ xs) u h = ground arith

  pub tail-IsFree : (q t : ℕ) (ts : List ℕ) → qs q ≡ t ∷ ts → IsFree t (update qs q (tail (qs q)))
  tail-IsFree q t ts e r = elim (Bool-cases (has t (update qs q (tail (qs q)) r))) [
    | inr gone ↦ gone
    | inl here ↦ absurd (ground (arith, e, v.single q, v.once q r t))
  ]

pub erase-IsFree : (t : ℕ) (qs : ℕ → List ℕ) → IsFree t (λ q. erase t (qs q))
erase-IsFree t qs q = ground (arith, has-erase t t (qs q))
