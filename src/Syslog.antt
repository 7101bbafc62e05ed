-- ===== src/Syslog.antt =====
-- syssvc/syslog.c: the system log, with the buffer of 32 logs and the low-level output.
pub mod Buffer
pub mod Flush
use toppers_hrp3_gr_rose.Common.{
  ℕ, zero, suc, ◌+◌, ◌-◌, ◌^◌, ◌%◌, Bool, true, false, not, Option, none, some, List, [], ◌∷◌, ◌++◌,
  ltb, leb, ◌==◌, if◌then◌else◌, update, bit_and, bit_not,
}
use toppers_hrp3_gr_rose.TimeManage.{ℤ, pos, negsuc}

-- SYSLOG.
pub record Syslog : Type 0 where
  pub logtype : ℕ
  pub logtim : ℕ
  pub logpar : ℕ → ℕ

-- What goes to the low-level output: a log, or the message on a number of lost logs.
pub data Printed : Type 0 where
  syslog_print : Syslog → Printed
  syslog_lostmsg : ℕ → Printed

-- The variables of the module, the timer that SYSLOG_GET_LOGTIM reads, and what has been printed.
pub record Logger : Type 0 where
  pub syslog_buffer : ℕ → Syslog
  pub syslog_count : ℕ
  pub syslog_head : ℕ
  pub syslog_tail : ℕ
  pub syslog_lost : ℕ
  pub syslog_logmask : ℕ
  pub syslog_lowmask_not : ℕ
  pub hrt : ℕ → ℕ
  pub hrt_reads : ℕ
  pub printed : List Printed

abbrev pub tcnt_syslog_buffer : ℕ
tcnt_syslog_buffer = 32

abbrev pub log_mask : ℕ → ℕ
log_mask prio = 2 ^ prio

-- Return codes: E_OK, E_OBJ (-41) and E_MACV (-26).
abbrev pub ercd_ok : ℤ
ercd_ok = pos 0

abbrev pub ercd_obj : ℤ
ercd_obj = negsuc 40

abbrev pub ercd_macv : ℤ
ercd_macv = negsuc 25

-- A conversion of an unsigned number of 32 bits to ER_UINT, which is signed.
abbrev pub to_er_uint : ℕ → ℤ
to_er_uint n = if ltb n (2 ^ 31) then pos n else negsuc (2 ^ 32 - 1 - n)

unfoldable pub syslog_initialize : Logger → Logger
syslog_initialize s = record s {
  syslog_count = 0;
  syslog_head = 0;
  syslog_tail = 0;
  syslog_lost = 0;
  syslog_logmask = 0;
  syslog_lowmask_not = 0;
}

-- A log with the time of its output.
abbrev pub stamped : Syslog → Logger → Syslog
stamped log s = record log { logtim = s.hrt s.hrt_reads }

-- The part of _syslog_wri_log that puts the log into the buffer.
unfoldable pub put_log : Syslog → Logger → Logger
put_log log s =
    let tail = if leb tcnt_syslog_buffer (s.syslog_tail + 1) then 0 else s.syslog_tail + 1 in
    let s1 = record s {
      syslog_buffer = update s.syslog_buffer s.syslog_tail (stamped log s);
      hrt_reads = s.hrt_reads + 1;
      syslog_tail = tail;
    } in
    if ltb s.syslog_count tcnt_syslog_buffer
    then record s1 { syslog_count = s.syslog_count + 1 }
    else record s1 { syslog_head = tail; syslog_lost = (s.syslog_lost + 1) % 2 ^ 32 }

-- The part that prints it at once.
unfoldable pub put_low : Syslog → Logger → Logger
put_low log s = record s {
  printed = s.printed ++ syslog_print (stamped log s) ∷ [];
  hrt_reads = s.hrt_reads + 1;
}

unfoldable pub syslog_wri_log : ℕ → Syslog → Logger → ℤ × Logger
unfolding put_log put_low
syslog_wri_log prio log s =
    let s1 = if not (bit_and s.syslog_logmask (log_mask prio) == 0) then put_log log s else s in
    let low = bit_and (bit_not 32 s1.syslog_lowmask_not) (log_mask prio) in
    (ercd_ok, if not (low == 0) then put_low log s1 else s1)

-- What read_log returns, the log that it stores through its argument, and the state.
unfoldable pub read_log : Logger → ℤ × (Option Syslog × Logger)
read_log s =
    if ltb 0 s.syslog_count
    then (
      to_er_uint s.syslog_lost,
      (
        some (s.syslog_buffer s.syslog_head),
        record s {
          syslog_count = s.syslog_count - 1;
          syslog_head = if leb tcnt_syslog_buffer (s.syslog_head + 1) then 0 else s.syslog_head + 1;
          syslog_lost = 0;
        },
      ),
    )
    else (ercd_obj, (none, s))

unfoldable pub syslog_rea_log : Logger → ℤ × (Option Syslog × Logger)
unfolding read_log
syslog_rea_log s = read_log s

unfoldable pub syslog_msk_log : ℕ → ℕ → Logger → ℤ × Logger
syslog_msk_log logmask lowmask s =
    (ercd_ok, record s { syslog_logmask = logmask; syslog_lowmask_not = bit_not 32 lowmask })

-- The fields of T_SYSLOG_RLOG.
unfoldable pub syslog_ref_log : Logger → ℤ × List ℕ
syslog_ref_log s = (
  ercd_ok,
  s.syslog_count ∷ s.syslog_lost ∷ s.syslog_logmask ∷ bit_not 32 s.syslog_lowmask_not ∷ [],
)

-- The body of the loop of _syslog_fls_log, after read_log has returned `lost`, with the log.
unfoldable pub print_read : ℕ → Option Syslog → Logger → Logger
print_read lost none s = s
print_read lost (some log) s = record s {
  printed =
      (if ltb 0 lost then s.printed ++ syslog_lostmsg lost ∷ [] else s.printed)
      ++ syslog_print log ∷ [];
}

-- The loop, with fuel.
unfoldable pub fls_loop : ℕ → Logger → Option Logger
unfolding read_log print_read
fls_loop zero s = none
fls_loop (suc fuel) s =
    let (rercd, read) = read_log s in
    let (log, s1) = read in
    elim rercd [ negsuc n ↦ some s1 | pos lost ↦ fls_loop fuel (print_read lost log s1) ]

-- Each round takes a log out of the buffer, and one more finds it empty.
unfoldable pub syslog_fls_log : Logger → Option (ℤ × Logger)
unfolding fls_loop
syslog_fls_log s = elim (fls_loop (suc s.syslog_count) s) [
  | none ↦ none
  | some s1 ↦ some (ercd_ok, s1)
]

-- The extended service calls: `readable` and `writable` are what the probes of memory say.
unfoldable extsvc_syslog_wri_log : ℕ → Syslog → Bool → Logger → ℤ × Logger
unfolding syslog_wri_log
extsvc_syslog_wri_log prio log readable s =
    if not readable then (ercd_macv, s) else syslog_wri_log prio log s

unfoldable extsvc_syslog_rea_log : Bool → Logger → ℤ × (Option Syslog × Logger)
unfolding syslog_rea_log
extsvc_syslog_rea_log writable s = if not writable then (ercd_macv, (none, s)) else syslog_rea_log s

unfoldable extsvc_syslog_ref_log : Bool → Logger → ℤ × List ℕ
unfolding syslog_ref_log
extsvc_syslog_ref_log writable s = if not writable then (ercd_macv, []) else syslog_ref_log s
