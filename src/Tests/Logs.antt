-- ===== src/Tests/Logs.antt =====
-- Tests of the system log.
use toppers_hrp3_gr_rose.Common.{
  ◌+◌, ◌*◌, ◌≡◌, refl, some, [], ◌++◌, arith, not, bit_and, ltb, ◌==◌, if◌then◌else◌,
}
use toppers_hrp3_gr_rose.Syslog.{
  Syslog, Logger, syslog_wri_log, syslog_fls_log, read_log, stamped, log_mask, to_er_uint, ercd_ok,
  ercd_obj, put_log, put_low,
}
use toppers_hrp3_gr_rose.Syslog.Buffer.{
  log_of, held, IsBuffer, enter, leave, syslog_wri_log-enter, read_log-leave,
}
use toppers_hrp3_gr_rose.Syslog.Flush.{print_all, syslog_fls_log-printed}

abbrev hello : Syslog
hello = record { logtype = 1; logtim = 0; logpar = λ n. n * 7 }

-- The buffer records the logs of priority 3.
abbrev fresh : Logger
fresh = record {
  syslog_buffer = λ _. hello;
  syslog_count = 0;
  syslog_head = 0;
  syslog_tail = 0;
  syslog_lost = 0;
  syslog_logmask = 8;
  syslog_lowmask_not = 0;
  hrt = λ n. n + 100;
  hrt_reads = 0;
  printed = [];
}

fresh-IsBuffer : IsBuffer fresh
fresh-IsBuffer = record { count_le = omega arith; head_lt = omega arith; tail_at = refl }

one_logged : Logger
one_logged = (syslog_wri_log 3 hello fresh).1

syslog_wri_log-enter_example :
    (log_of (syslog_wri_log 3 hello fresh).1 ≡ (
      if not (bit_and fresh.syslog_logmask (log_mask 3) == 0)
      then enter (stamped hello fresh) (log_of fresh)
      else log_of fresh))
    × IsBuffer (syslog_wri_log 3 hello fresh).1
syslog_wri_log-enter_example = syslog_wri_log-enter 3 hello fresh fresh-IsBuffer

one_logged-IsBuffer : IsBuffer one_logged
unfolding one_logged
one_logged-IsBuffer = syslog_wri_log-enter_example.1

read_log-leave_example :
    ((read_log one_logged).0
      ≡ (if ltb 0 one_logged.syslog_count then to_er_uint one_logged.syslog_lost else ercd_obj))
    × (((read_log one_logged).1.0 ≡ (leave (log_of one_logged)).0)
        × ((log_of (read_log one_logged).1.1 ≡ (leave (log_of one_logged)).1)
            × IsBuffer (read_log one_logged).1.1))
read_log-leave_example = read_log-leave one_logged one_logged-IsBuffer

syslog_fls_log-printed_example :
    (s' : Logger) × ((syslog_fls_log one_logged ≡ some (ercd_ok, s'))
      × ((s'.printed ≡ one_logged.printed ++ print_all one_logged.syslog_lost (held one_logged))
          × (s'.syslog_count ≡ 0)))
unfolding one_logged syslog_wri_log put_log put_low
syslog_fls_log-printed_example = syslog_fls_log-printed one_logged one_logged-IsBuffer (omega arith)
