-- ===== src/Syslog/Buffer.antt =====
-- The buffer of syssvc/syslog.c against the list of logs that it holds, oldest first.
use toppers_hrp3_gr_rose.Common.{
  ℕ, zero, suc, ◌+◌, ◌-◌, ◌^◌, ◌%◌, ◌≤◌, ◌<◌, ◌≡◌, refl, sym, ap, ◌∙◌, Bool, not, Option, none,
  some, List, [], ◌∷◌, ◌++◌, arith, ltb, leb, ◌==◌, if◌then◌else◌, if-both, Bool-cases, inl, inr,
  bit_not, update, bit_and, ring_list, wrap, ring_list-update, ring_list_snoc, ring_list_first,
  full_ring, length,
}
use toppers_hrp3_gr_rose.Syslog.{
  Syslog, Logger, tcnt_syslog_buffer, log_mask, stamped, put_log, put_low, syslog_wri_log, read_log,
  to_er_uint, ercd_obj,
}

-- The logs in the buffer, and the number of the lost ones.
pub record Log : Type 0 where
  pub logs : List Syslog
  pub lost : ℕ

unfoldable pub held : Logger → List Syslog
held s = ring_list s.syslog_buffer tcnt_syslog_buffer s.syslog_head s.syslog_count

abbrev pub log_of : Logger → Log
log_of s = record { logs = held s; lost = s.syslog_lost }

-- The indices of the buffer are consistent.
pub record IsBuffer (s : Logger) : Type 0 where
  pub count_le : s.syslog_count ≤ tcnt_syslog_buffer
  pub head_lt : s.syslog_head < tcnt_syslog_buffer
  pub tail_at : s.syslog_tail ≡ wrap tcnt_syslog_buffer (s.syslog_head + s.syslog_count)

-- The logs without the oldest one.
abbrev pub newer : List Syslog → List Syslog
newer [] = []
newer (e ∷ es) = es

-- A log enters, and where there is no room the oldest one is lost.
unfoldable pub enter : Syslog → Log → Log
enter log l =
    if ltb (length l.logs) tcnt_syslog_buffer
    then record l { logs = l.logs ++ log ∷ [] }
    else record { logs = newer l.logs ++ log ∷ []; lost = (l.lost + 1) % 2 ^ 32 }

-- The oldest log leaves, and the count of the lost ones starts again.
unfoldable pub leave : Log → Option Syslog × Log
leave l = elim l.logs [ [] ↦ (none, l) | e ∷ es ↦ (some e, record { logs = es; lost = 0 }) ]

length-ring_list : (mb : ℕ → Syslog) (n h c : ℕ) → length (ring_list mb n h c) ≡ c
unfolding ring_list
length-ring_list mb n h zero = refl
length-ring_list mb n h (suc c) =
    ap suc (length-ring_list mb n (if leb n (h + 1) then 0 else h + 1) c)

length-held : (s : Logger) → length (held s) ≡ s.syslog_count
unfolding held
length-held s = length-ring_list s.syslog_buffer tcnt_syslog_buffer s.syslog_head s.syslog_count

put_log_lem :
    (log : Syslog) (s : Logger)
    → IsBuffer s
    → (held (put_log log s)
        ≡ (if ltb s.syslog_count tcnt_syslog_buffer then held s else newer (held s))
          ++ stamped log s ∷ [])
      × IsBuffer (put_log log s)
unfolding put_log held
put_log_lem log s v =
    let n = tcnt_syslog_buffer in
    let h = s.syslog_head in
    let c = s.syslog_count in
    let e = stamped log s in
    let mb = update s.syslog_buffer s.syslog_tail e in
    (
      ground (
        arith,
        v.count_le,
        v.head_lt,
        v.tail_at,
        ring_list_snoc mb n h c,
        ring_list-update s.syslog_buffer n h c s.syslog_tail e,
        ring_list_first s.syslog_buffer n h c,
        full_ring mb n h,
        ring_list-update s.syslog_buffer n (wrap n (h + 1)) (n - 1) h e,
      ),
      record {
        count_le = ground (arith, v.count_le);
        head_lt = ground (arith, v.head_lt, v.tail_at);
        tail_at = ground (arith, v.count_le, v.head_lt, v.tail_at);
      },
    )

put_log-lost :
    (log : Syslog) (s : Logger)
    → (put_log log s).syslog_lost ≡ (
        if ltb s.syslog_count tcnt_syslog_buffer
        then s.syslog_lost
        else (s.syslog_lost + 1) % 2 ^ 32)
unfolding put_log
put_log-lost log s = ground arith

put_log-enter :
    (log : Syslog) (s : Logger)
    → IsBuffer s
    → log_of (put_log log s) ≡ enter (stamped log s) (log_of s)
unfolding enter
put_log-enter log s v = ground (arith, (put_log_lem log s v).0, put_log-lost log s, length-held s)

-- The low-level output leaves the buffer alone.
put_low_lem :
    (low : Bool) (log : Syslog) (s : Logger) (l : Log)
    → (log_of s ≡ l) × IsBuffer s
    → (log_of (if low then put_low log s else s) ≡ l) × IsBuffer (if low then put_low log s else s)
unfolding put_low held
put_low_lem low log s l h =
    if-both (λ (s' : Logger). (log_of s' ≡ l) × IsBuffer s') low
      (h.0, record { count_le = h.1.count_le; head_lt = h.1.head_lt; tail_at = h.1.tail_at }) h

-- Where the indices of the buffer are consistent, _syslog_wri_log appends a log with its time to
-- the logs that the buffer holds, where its priority is to be recorded, and drops the oldest of 32
-- and counts it as lost where there is no room; a log of another priority leaves the buffer alone;
-- the indices stay consistent.
pub syslog_wri_log-enter :
    (prio : ℕ) (log : Syslog) (s : Logger)
    → IsBuffer s
    → (log_of (syslog_wri_log prio log s).1 ≡ (
        if not (bit_and s.syslog_logmask (log_mask prio) == 0)
        then enter (stamped log s) (log_of s)
        else log_of s))
      × IsBuffer (syslog_wri_log prio log s).1
unfolding syslog_wri_log
syslog_wri_log-enter prio log s v =
    let buffered = not (bit_and s.syslog_logmask (log_mask prio) == 0) in
    let s1 = if buffered then put_log log s else s in
    let low = bit_and (bit_not 32 s1.syslog_lowmask_not) (log_mask prio) in
    put_low_lem (not (low == 0)) log s1
      (if buffered then enter (stamped log s) (log_of s) else log_of s)
      (elim (Bool-cases buffered) [
        | inl e ↦ rw e (put_log-enter log s v, (put_log_lem log s v).1)
        | inr e ↦ rw e (refl, v)
      ])

leave_first :
    (l : Log) (e : Syslog) (es : List Syslog)
    → l.logs ≡ e ∷ es
    → leave l ≡ (some e, record { logs = es; lost = 0 })
unfolding leave
leave_first l e es h = rw (h, leave) refl

pub held_first :
    (s : Logger)
    → IsBuffer s
    → 0 < s.syslog_count
    → (held s ≡ s.syslog_buffer s.syslog_head ∷ held (read_log s).1.1) × IsBuffer (read_log s).1.1
unfolding held read_log
held_first s v h = (
  ground (arith, ring_list_first s.syslog_buffer tcnt_syslog_buffer s.syslog_head s.syslog_count),
  record {
    count_le = ground (arith, v.count_le);
    head_lt = ground (arith, v.head_lt);
    tail_at = ground (arith, v.count_le, v.head_lt, v.tail_at);
  },
)

pub held_none : (s : Logger) → s.syslog_count ≡ 0 → held s ≡ []
unfolding held ring_list
held_none s h = ap (ring_list s.syslog_buffer tcnt_syslog_buffer s.syslog_head) h

-- Where the indices of the buffer are consistent, read_log takes the oldest log out and returns
-- the number of the lost ones, of which the count starts again, as a signed number of 32 bits; or
-- returns E_OBJ where the buffer is empty; the indices stay consistent.
pub read_log-leave :
    (s : Logger)
    → IsBuffer s
    → ((read_log s).0 ≡ (if ltb 0 s.syslog_count then to_er_uint s.syslog_lost else ercd_obj))
      × (((read_log s).1.0 ≡ (leave (log_of s)).0)
          × ((log_of (read_log s).1.1 ≡ (leave (log_of s)).1) × IsBuffer (read_log s).1.1))
unfolding read_log leave
read_log-leave s v = elim (Bool-cases (ltb 0 s.syslog_count)) [
  | inl e ↦
      let (first, ring) = held_first s v (ground arith) in
      let left = leave_first (log_of s) _ _ first in
      let rest : log_of (read_log s).1.1 ≡ record { logs = held (read_log s).1.1; lost = 0 } =
        ground arith in
      (
        ground arith,
        (ground (arith, first), (rest ∙ sym (ap (λ (r : Option Syslog × Log). r.1) left), ring)),
      )
  | inr e ↦
      let empty = held_none s (ground arith) in
      (ground arith, (ground (arith, empty), (ground (arith, empty), ground (arith, v))))
]
