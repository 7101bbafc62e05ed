-- ===== src/Kernel/State.antt =====
-- The data of the kernel: include/t_stddef.h, kernel/task.h, kernel/domain.h, kernel/wait.h and
-- the control blocks of the synchronisation objects.
use toppers_hrp3_gr_rose.Common.{ℕ, ◌+◌, ◌*◌, Bool, Option, List}
use toppers_hrp3_gr_rose.TimeEvent.{Tmevt}

-- Error codes; `value` is a result that is not negative, where a call returns ER_UINT.
pub data Er : Type 0 where
  e_ok e_sys e_ctx e_id e_par e_oacv e_macv e_obj e_iluse e_qovr e_tmout e_dlt : Er
  e_rlwai e_raster e_rsatr e_noid e_noexs : Er
  value : ℕ → Er

-- WINFO: one cell holds the time event block while the task waits, and the result afterwards.
pub data Winfo : Type 0 where
  wercd : Er → Winfo
  p_tmevtb : Option ℕ → Winfo

-- An access vector.
pub record Acvct : Type 0 where
  pub acptn1 : ℕ
  pub acptn2 : ℕ
  pub acptn3 : ℕ
  pub acptn4 : ℕ

-- The constant part of a task.
pub record Tinib : Type 0 where
  pub domid : ℕ
  pub tskatr : ℕ
  pub exinf : ℕ
  pub ipriority : ℕ
  pub acvct : Acvct

pub record Dominib : Type 0 where
  pub p_schedcb : ℕ
  pub p_tmevt_heap : ℕ
  pub acvct : Acvct

pub record Seminib : Type 0 where
  pub isemcnt : ℕ
  pub maxsem : ℕ
  pub acvct : Acvct

pub record Flginib : Type 0 where
  pub flgatr : ℕ
  pub iflgptn : ℕ
  pub acvct : Acvct

pub record Dtqinib : Type 0 where
  pub dtqcnt : ℕ
  pub acvct : Acvct

pub record Mtxinib : Type 0 where
  pub mtxatr : ℕ
  pub ceilpri : ℕ
  pub acvct : Acvct

pub record Pdqinib : Type 0 where
  pub pdqcnt : ℕ
  pub maxdpri : ℕ
  pub acvct : Acvct

pub record Mpfinib : Type 0 where
  pub blkcnt : ℕ
  pub blksz : ℕ
  pub mpf : ℕ
  pub acvct : Acvct

pub record Mbfinib : Type 0 where
  pub maxmsz : ℕ
  pub mbfsz : ℕ
  pub acvct : Acvct

pub record Cycinib : Type 0 where
  pub p_tmevt_heap : ℕ
  pub cycatr : ℕ
  pub cyctim : ℕ
  pub cycphs : ℕ
  pub acvct : Acvct

pub record Alminib : Type 0 where
  pub p_tmevt_heap : ℕ
  pub acvct : Acvct

-- A time window, and whether a handler is registered for its start.
pub record Twdinib : Type 0 where
  pub twdlen : ℕ
  pub p_dominib : ℕ
  pub nfyhdr : Bool

-- A system operation mode, by the index of its first time window.
pub record Sominib : Type 0 where
  pub p_twdinib : ℕ
  pub p_nxtsom : Option ℕ

-- The tables of kernel_cfg.c, by index. `wobjatr` is the attribute of the object whose control
-- block begins with the given wait queue header.
pub record Config : Type 0 where
  pub tmax_tskid : ℕ
  pub tinib : ℕ → Tinib
  pub dominib : ℕ → Dominib
  pub tmax_semid : ℕ
  pub seminib : ℕ → Seminib
  pub tmax_flgid : ℕ
  pub flginib : ℕ → Flginib
  pub tmax_dtqid : ℕ
  pub dtqinib : ℕ → Dtqinib
  pub wobjatr : ℕ → ℕ
  pub tmax_mtxid : ℕ
  pub mtxinib : ℕ → Mtxinib
  pub tmax_pdqid : ℕ
  pub pdqinib : ℕ → Pdqinib
  pub tmax_mpfid : ℕ
  pub mpfinib : ℕ → Mpfinib
  pub tmax_mbfid : ℕ
  pub mbfinib : ℕ → Mbfinib
  pub tmax_cycid : ℕ
  pub cycinib : ℕ → Cycinib
  pub tmax_almid : ℕ
  pub alminib : ℕ → Alminib
  pub sysstat_acvct : Acvct
  pub tmax_domid : ℕ
  pub tnum_schedcb : ℕ
  pub system_cyctim : ℕ
  pub tmax_somid : ℕ
  pub sominib : ℕ → Sominib
  pub twdinib : ℕ → Twdinib
  pub p_inisom : Option ℕ

-- The control blocks of the mutexes, but for their queues.
pub record Mtxcbs : Type 0 where
  pub p_loctsk : ℕ → Option ℕ
  pub p_prevmtx : ℕ → Option ℕ

-- The control blocks and the management blocks of the priority data queues.
pub record Pdqcbs : Type 0 where
  pub count : ℕ → ℕ
  pub p_head : ℕ → Option ℕ
  pub unused : ℕ → ℕ
  pub p_freelist : ℕ → Option ℕ
  pub p_next : ℕ → ℕ → Option ℕ
  pub datum : ℕ → ℕ → ℕ
  pub datapri : ℕ → ℕ → ℕ

-- The control blocks and the management blocks of the fixed-sized memory pools.
pub record Mpfcbs : Type 0 where
  pub fblkcnt : ℕ → ℕ
  pub unused : ℕ → ℕ
  pub freelist : ℕ → ℕ
  pub next : ℕ → ℕ → ℕ

-- The control blocks and the areas of the message buffers, by bytes.
pub record Mbfcbs : Type 0 where
  pub fmbfsz : ℕ → ℕ
  pub head : ℕ → ℕ
  pub tail : ℕ → ℕ
  pub smbfcnt : ℕ → ℕ
  pub mbuffer : ℕ → ℕ → ℕ

-- The variables of kernel/domain.c for the system cycle and the time windows. `twdtimer` is the
-- sequence of the times left that the time window timer will show, of which `twdtimer_reads` have
-- been read, and `twdtimer_set` is what it was last started with.
pub record Twdvars : Type 0 where
  pub p_cursom : Option ℕ
  pub p_nxtsom : Option ℕ
  pub pending_scycswitch : Bool
  pub p_runtwd : Option ℕ
  pub pending_twdswitch : Bool
  pub twdtimer_enable : Bool
  pub twdtimer_flag : Bool
  pub left_twdtim : ℕ
  pub twdtimer : ℕ → ℕ
  pub twdtimer_reads : ℕ
  pub twdtimer_set : ℕ

-- The variables of the kernel. A field of the task control blocks is a function from the index of
-- the task; `queue` gives the entries of each queue header, in order.
pub record Kernel : Type 0 where
  pub cfg : Config
  pub p_dominib : ℕ → ℕ
  pub p_schedcb : ℕ → ℕ
  pub tstat : ℕ → ℕ
  pub svclevel : ℕ → ℕ
  pub bpriority : ℕ → ℕ
  pub priority : ℕ → ℕ
  pub actque : ℕ → Bool
  pub wupque : ℕ → Bool
  pub raster : ℕ → Bool
  pub enater : ℕ → Bool
  pub winfo : ℕ → Winfo
  pub p_wobjcb : ℕ → ℕ
  pub waiptn : ℕ → ℕ
  pub wfmode : ℕ → ℕ
  pub wdata : ℕ → ℕ
  pub wdatapri : ℕ → ℕ
  pub wblk : ℕ → ℕ
  pub wmsg : ℕ → List ℕ
  pub p_lastmtx : ℕ → Option ℕ
  pub queue : ℕ → List ℕ
  pub p_predtsk : ℕ → Option ℕ
  pub ready_primap : ℕ → ℕ
  pub p_runtsk : Option ℕ
  pub p_schedtsk : Option ℕ
  pub enadsp : Bool
  pub dspflg : Bool
  pub p_twdsched : ℕ
  pub p_idlesched : ℕ
  pub rundom : ℕ
  pub kerflg : Bool
  pub cpu_locked : Bool
  pub nontask_context : Bool
  pub tmevt : Tmevt
  pub semcnt : ℕ → ℕ
  pub flgptn : ℕ → ℕ
  pub dtq_count : ℕ → ℕ
  pub dtq_head : ℕ → ℕ
  pub dtq_tail : ℕ → ℕ
  pub dtqmb : ℕ → ℕ → ℕ
  pub mtx : Mtxcbs
  pub pdq : Pdqcbs
  pub mpf : Mpfcbs
  pub mbf : Mbfcbs
  pub cycsta : ℕ → Bool
  pub almsta : ℕ → Bool
  pub ipm_enaall : Bool
  pub twd : Twdvars

-- The addresses of the queue headers: disjoint, and otherwise of no meaning.
abbrev pub tnum_tpri : ℕ
tnum_tpri = 16

abbrev pub ready_queue : ℕ → ℕ → ℕ
ready_queue s pri = (s * 16 + pri) * 16

abbrev pub sem_wait_queue : ℕ → ℕ
sem_wait_queue i = i * 16 + 1

abbrev pub flg_wait_queue : ℕ → ℕ
flg_wait_queue i = i * 16 + 2

abbrev pub dtq_swait_queue : ℕ → ℕ
dtq_swait_queue i = i * 16 + 3

abbrev pub dtq_rwait_queue : ℕ → ℕ
dtq_rwait_queue i = i * 16 + 4

abbrev pub mtx_wait_queue : ℕ → ℕ
mtx_wait_queue i = i * 16 + 5

abbrev pub pdq_swait_queue : ℕ → ℕ
pdq_swait_queue i = i * 16 + 6

abbrev pub pdq_rwait_queue : ℕ → ℕ
pdq_rwait_queue i = i * 16 + 7

abbrev pub mpf_wait_queue : ℕ → ℕ
mpf_wait_queue i = i * 16 + 8

abbrev pub mbf_swait_queue : ℕ → ℕ
mbf_swait_queue i = i * 16 + 9

abbrev pub mbf_rwait_queue : ℕ → ℕ
mbf_rwait_queue i = i * 16 + 10

-- The scheduling units of the kernel domain and of the idle domain; the others follow.
abbrev pub schedcb_kernel : ℕ
schedcb_kernel = 0

abbrev pub schedcb_idle : ℕ
schedcb_idle = 1

abbrev pub tdom_kernel : ℕ
tdom_kernel = 0
