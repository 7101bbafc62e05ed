-- ===== src/Tests.antt =====
-- A small configuration, a state of the kernel with one ready task, and what they satisfy: the
-- data of the tests in the modules below.
mod Scheduling
mod Timing
mod Queues
mod Objects
mod Notifications
mod Whole
mod Logs
mod Creation
use toppers_hrp3_gr_rose.Common.{
  ℕ, ◌+◌, ◌*◌, ◌≡◌, refl, ◌≢◌, Bool, true, false, Option, none, some, List, [], ◌∷◌, arith,
  bit-empty, update,
}
use toppers_hrp3_gr_rose.TimeEvent.{Tmevt, wait_tmout, none_set}
use toppers_hrp3_gr_rose.Kernel.{
  Kernel, Config, Acvct, Tinib, Dominib, Seminib, Flginib, Dtqinib, e_ok, wercd, ts_runnable,
  unlock_cpu, dispatch, queue_insert_prev,
}
use toppers_hrp3_gr_rose.Task.{make_runnable, primap_set, set_predtsk, precedes, choose_schedtsk}
use toppers_hrp3_gr_rose.Task.Consistent.{IsConsistent, make_runnable-IsConsistent}
use toppers_hrp3_gr_rose.Service.{IsSettled, dispatch-IsSettled}

abbrev acvct : Acvct
acvct = record { acptn1 = 1; acptn2 = 1; acptn3 = 1; acptn4 = 1 }

abbrev cfg : Config
cfg = record {
  tmax_tskid = 2;
  tinib = λ _. record { domid = 0; tskatr = 0; exinf = 0; ipriority = 3; acvct = acvct };
  dominib = λ _. record { p_schedcb = 0; p_tmevt_heap = 0; acvct = acvct };
  tmax_semid = 1;
  seminib = λ _. record { isemcnt = 0; maxsem = 1; acvct = acvct };
  tmax_flgid = 1;
  flginib = λ _. record { flgatr = 0; iflgptn = 0; acvct = acvct };
  tmax_dtqid = 1;
  dtqinib = λ _. record { dtqcnt = 2; acvct = acvct };
  wobjatr = λ _. 0;
  tmax_mtxid = 1;
  mtxinib = λ _. record { mtxatr = 3; ceilpri = 2; acvct = acvct };
  tmax_pdqid = 1;
  pdqinib = λ _. record { pdqcnt = 2; maxdpri = 16; acvct = acvct };
  tmax_mpfid = 1;
  mpfinib = λ _. record { blkcnt = 2; blksz = 32; mpf = 4096; acvct = acvct };
  tmax_mbfid = 1;
  mbfinib = λ _. record { maxmsz = 8; mbfsz = 24; acvct = acvct };
  tmax_cycid = 1;
  cycinib =
      λ _. record { p_tmevt_heap = 0; cycatr = 0; cyctim = 1000; cycphs = 100; acvct = acvct };
  tmax_almid = 1;
  alminib = λ _. record { p_tmevt_heap = 0; acvct = acvct };
  sysstat_acvct = acvct;
  tmax_domid = 1;
  tnum_schedcb = 0;
  system_cyctim = 0;
  tmax_somid = 0;
  sominib = λ _. record { p_twdinib = 0; p_nxtsom = none };
  twdinib = λ _. record { twdlen = 100; p_dominib = 0; nfyhdr = false };
  p_inisom = none;
}

abbrev pub clock : Tmevt
clock = record {
  evttim = λ _. 0;
  p_tmevtn = λ _. 0;
  callback = λ _. wait_tmout;
  cback_arg = λ _. 0;
  heap_node = λ _ _. 0;
  heap_last = λ _. 0;
  boundary_evttim = 0;
  current_evttim = 100;
  current_hrtcnt = 100;
  monotonic_evttim = 100;
  systim_offset = 0;
  in_signal_time = false;
  hrt_event = none_set;
  hrt = λ n. n * 10 + 150;
  hrt_reads = 0;
}

-- No task is ready.
abbrev pub blank : Kernel
blank = record {
  cfg = cfg;
  p_dominib = λ _. 0;
  p_schedcb = λ _. 0;
  tstat = λ _. 0;
  svclevel = λ _. 0;
  bpriority = λ _. 3;
  priority = λ _. 3;
  actque = λ _. false;
  wupque = λ _. false;
  raster = λ _. false;
  enater = λ _. true;
  winfo = λ _. wercd e_ok;
  p_wobjcb = λ _. 0;
  waiptn = λ _. 0;
  wfmode = λ _. 0;
  wdata = λ _. 0;
  wdatapri = λ _. 0;
  wblk = λ _. 0;
  wmsg = λ _. [];
  p_lastmtx = λ _. none;
  queue = λ _. [];
  p_predtsk = λ _. none;
  ready_primap = λ _. 0;
  p_runtsk = none;
  p_schedtsk = none;
  enadsp = true;
  dspflg = true;
  p_twdsched = 0;
  p_idlesched = 0;
  rundom = 0;
  kerflg = true;
  cpu_locked = false;
  nontask_context = false;
  tmevt = clock;
  semcnt = λ _. 0;
  flgptn = λ _. 0;
  dtq_count = λ _. 0;
  dtq_head = λ _. 0;
  dtq_tail = λ _. 0;
  dtqmb = λ _ _. 0;
  mtx = record { p_loctsk = λ _. none; p_prevmtx = λ _. none };
  pdq = record {
    count = λ _. 0;
    p_head = λ _. none;
    unused = λ _. 0;
    p_freelist = λ _. none;
    p_next = λ _ _. none;
    datum = λ _ _. 0;
    datapri = λ _ _. 0;
  };
  mpf = record { fblkcnt = λ _. 2; unused = λ _. 0; freelist = λ _. 4294967295; next = λ _ _. 0 };
  mbf = record {
    fmbfsz = λ _. 24;
    head = λ _. 0;
    tail = λ _. 0;
    smbfcnt = λ _. 0;
    mbuffer = λ _ _. 0;
  };
  cycsta = λ _. false;
  almsta = λ _. false;
  ipm_enaall = true;
  twd = record {
    p_cursom = none;
    p_nxtsom = none;
    pending_scycswitch = false;
    p_runtwd = none;
    pending_twdswitch = false;
    twdtimer_enable = false;
    twdtimer_flag = false;
    left_twdtim = 0;
    twdtimer = λ _. 0;
    twdtimer_reads = 0;
    twdtimer_set = 0;
  };
}

pub blank-IsConsistent : IsConsistent blank
unfolding choose_schedtsk
blank-IsConsistent = record {
  ready = λ s. record {
    width = omega arith;
    mapped = λ p _. bit-empty p;
    ours = λ p t l r. ground arith;
    none_ready = λ _ _ _. refl;
    top = λ t e. ground arith;
  };
  priorities = λ _. omega arith;
  scheduled = λ _. refl;
  in_ready = λ s p t l r. ground arith;
}

-- Task 0 is ready.
unfoldable pub one_ready : Kernel
one_ready = make_runnable 0 (record blank { tstat = update blank.tstat 0 ts_runnable })

pub one_ready-IsConsistent : IsConsistent one_ready
unfolding one_ready
one_ready-IsConsistent = make_runnable-IsConsistent blank 0 blank-IsConsistent

-- Task 0 runs.
unfoldable pub one_running : Kernel
one_running = unlock_cpu (dispatch one_ready)

pub one_running-IsSettled : IsSettled one_running
unfolding one_running
one_running-IsSettled = dispatch-IsSettled one_ready one_ready-IsConsistent

pub one_running_runtsk : one_running.p_runtsk ≡ some 0
unfolding one_running one_ready dispatch make_runnable choose_schedtsk
one_running_runtsk = refl
