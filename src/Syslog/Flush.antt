-- ===== src/Syslog/Flush.antt =====
-- _syslog_fls_log of syssvc/syslog.c against the logs that the buffer holds.
use toppers_hrp3_gr_rose.Common.{
  ℕ, zero, suc, ◌^◌, ◌<◌, ◌≡◌, refl, sym, ap, ◌∙◌, Option, none, some, List, [], ◌∷◌, ◌++◌, arith,
  ltb, if◌then◌else◌, inl, inr, Bool-cases,
}
use mathlib.Core.List.{append_assoc, append-nil}
use toppers_hrp3_gr_rose.TimeManage.{ℤ, pos, negsuc}
use toppers_hrp3_gr_rose.Syslog.{
  Syslog, Printed, syslog_print, syslog_lostmsg, Logger, read_log, print_read, fls_loop,
  syslog_fls_log, ercd_ok, ercd_obj,
}
use toppers_hrp3_gr_rose.Syslog.Buffer.{IsBuffer, held, held_first, held_none}

-- The message on lost logs, where there are some.
unfoldable pub lost_message : ℕ → List Printed
lost_message lost = if ltb 0 lost then syslog_lostmsg lost ∷ [] else []

-- What is printed of the logs, with a message before the first of them where logs were lost.
unfoldable pub print_all : ℕ → List Syslog → List Printed
unfolding lost_message
print_all lost [] = []
print_all lost (e ∷ es) = lost_message lost ++ (syslog_print e ∷ print_all 0 es)

-- A round of the loop, from what read_log gives.
abbrev continue : ℕ → ℤ × (Option Syslog × Logger) → Option Logger
continue fuel r = elim (r.0) [
  | negsuc n ↦ some r.1.1
  | pos lost ↦ fls_loop fuel (print_read lost r.1.0 r.1.1)
]

fls_loop_stop : (fuel : ℕ) (s : Logger) → s.syslog_count ≡ 0 → fls_loop (suc fuel) s ≡ some s
unfolding fls_loop read_log
fls_loop_stop fuel s h = ap (continue fuel) none_left
  where
    none_left : read_log s ≡ (ercd_obj, (none, s))
    none_left = ground arith

fls_loop_next :
    (fuel : ℕ) (s : Logger)
    → 0 < s.syslog_count
    → s.syslog_lost < 2 ^ 31
    → fls_loop (suc fuel) s
      ≡ fls_loop fuel
          (print_read s.syslog_lost (some (s.syslog_buffer s.syslog_head)) (read_log s).1.1)
unfolding fls_loop read_log
fls_loop_next fuel s h l = ap (continue fuel) one_read
  where
    one_read :
        read_log s ≡ (pos s.syslog_lost, (some (s.syslog_buffer s.syslog_head), (read_log s).1.1))
    one_read = ground arith

-- One log is printed, with the message before it.
printed_one :
    (lost : ℕ) (e : Syslog) (s : Logger)
    → (print_read lost (some e) s).printed
      ≡ (s.printed ++ lost_message lost) ++ (syslog_print e ∷ [])
unfolding print_read lost_message
printed_one lost e s = elim (Bool-cases (ltb 0 lost)) [
  | inl h ↦ ground arith
  | inr h ↦
      rw h (ap (λ (r : List Printed). r ++ (syslog_print e ∷ [])) (sym (append-nil s.printed)))
]

print_read-IsBuffer :
    (lost : ℕ) (e : Syslog) (s : Logger) → IsBuffer s → IsBuffer (print_read lost (some e) s)
unfolding print_read
print_read-IsBuffer lost e s v = record {
  count_le = v.count_le;
  head_lt = v.head_lt;
  tail_at = v.tail_at;
}

fls_loop_prints :
    (c : ℕ) (s : Logger)
    → IsBuffer s
    → s.syslog_count ≡ c
    → s.syslog_lost < 2 ^ 31
    → (s' : Logger) × ((fls_loop (suc c) s ≡ some s')
        × ((s'.printed ≡ s.printed ++ print_all s.syslog_lost (held s)) × (s'.syslog_count ≡ 0)))
unfolding print_all held print_read read_log
fls_loop_prints zero s v h l = (
  s,
  (
    fls_loop_stop 0 s h,
    (
      sym (
          ap (λ (es : List Syslog). s.printed ++ print_all s.syslog_lost es) (held_none s h)
          ∙ append-nil s.printed),
      h,
    ),
  ),
)
fls_loop_prints (suc c) s v h l =
    let e = s.syslog_buffer s.syslog_head in
    let s1 = (read_log s).1.1 in
    let s2 = print_read s.syslog_lost (some e) s1 in
    let (first, ring) = held_first s v (omega arith) in
    let less : s2.syslog_count ≡ c = ground arith in
    let none_lost : s2.syslog_lost ≡ 0 = ground arith in
    let (s', (ends, (out, empty))) =
      fls_loop_prints c s2 (print_read-IsBuffer s.syslog_lost e s1 ring) less (ground arith) in
    (
      s',
      (
        fls_loop_next (suc c) s (omega arith) l ∙ ends,
        (
          let pr = s.printed in
              let message = lost_message s.syslog_lost in
              let later = print_all 0 (held s1) in
              let same : s1.printed ≡ pr = ground arith in
              let head : s2.printed ≡ (pr ++ message) ++ (syslog_print e ∷ []) =
                printed_one s.syslog_lost e s1
                ∙ ap (λ (r : List Printed). (r ++ message) ++ (syslog_print e ∷ [])) same in
              out
              ∙ ap (λ (n : ℕ). s2.printed ++ print_all n (held s1)) none_lost
              ∙ ap (λ (r : List Printed). r ++ later) head
              ∙ append_assoc (pr ++ message) (syslog_print e ∷ []) later
              ∙ append_assoc pr message (syslog_print e ∷ later)
              ∙ ap (λ (es : List Syslog). pr ++ print_all s.syslog_lost es) (sym first),
          empty,
        ),
      ),
    )

-- _syslog_fls_log comes to an end, with the buffer empty, and prints the logs that the buffer
-- held, oldest first, after a message on the lost ones where there are some; where the indices are
-- consistent and fewer than 2^31 logs were lost.
pub syslog_fls_log-printed :
    (s : Logger)
    → IsBuffer s
    → s.syslog_lost < 2 ^ 31
    → (s' : Logger) × ((syslog_fls_log s ≡ some (ercd_ok, s'))
        × ((s'.printed ≡ s.printed ++ print_all s.syslog_lost (held s)) × (s'.syslog_count ≡ 0)))
unfolding syslog_fls_log
syslog_fls_log-printed s v l =
    let (s', (ends, done)) = fls_loop_prints s.syslog_count s v refl l in
    (s', (rw (ends, syslog_fls_log) refl, done))
