-- ===== src/Lib.antt =====
-- The kernel of TOPPERS/HRP3 for the GR-ROSE board, as state transitions on an explicit state, with
-- theorems on its scheduler, its time events and its objects for synchronisation.
--
-- The program's parts and where they are modelled:
-- - kernel/time_event.c, kernel/time_event.h: TimeEvent (the time event variables, the clock, the
--   high resolution timer) and TimeEvent/Heap (the binary heap of time event blocks). The counter
--   has the 572662306 values per period of target/gr_rose_gcc; what target_hrt_get_current returns
--   is a sequence in the state, of which each reading takes the next value.
-- - include/queue.h, kernel/task.h, kernel/domain.h, kernel/check.h and the control blocks of the
--   objects: Kernel, with the state in Kernel/State, the queues in Kernel/Queues, the task states in
--   Kernel/Status, and the results and checks of service calls in Kernel/Calls. The fields of the
--   task control blocks are functions from the index of the task (tskid - 1), a scheduling unit is
--   its index, and a queue is the list of the tasks that it links, found by the address of its
--   header. A time event block on the stack of a task is the block of that task.
-- - kernel/task.c: Task (ready queues, the bitmap of priorities, p_predtsk, p_schedtsk), with
--   change_priority in Wait, and initialize_task and task_terminate in TaskManage.
-- - kernel/wait.c, kernel/wait.h: Wait. The end of a wait is a step of its own, without the moment in
--   which the code unlocks the CPU before it returns from the callback.
-- - kernel/semaphore.c: Semaphore. kernel/eventflag.c: Eventflag. kernel/dataqueue.c: Dataqueue
--   (the ring buffer, sending and receiving) and Dataqueue/Calls (the service calls).
-- - kernel/pridataq.c: Pridataq, with the service calls in Pridataq/Calls. kernel/mutex.c: Mutex and
--   Mutex/Calls. kernel/messagebuf.c: Messagebuf and Messagebuf/Calls. kernel/mempfix.c: Mempfix
--   and Mempfix/Calls. The pointers p_prevmtx, p_next and p_freelist are indices of mutexes and
--   blocks, and NULL is none; the area of a message buffer is a function from places to bytes.
-- - kernel/task_sync.c: TaskSync. kernel/task_manage.c: TaskManage. kernel/task_term.c: TaskTerm.
--   kernel/task_refer.c: TaskRefer.
-- - kernel/cyclic.c, kernel/alarm.c, and signal_time of kernel/time_event.c: Notify.
-- - kernel/time_manage.c, and check_adjtim of kernel/time_event.c: TimeManage.
-- - kernel/domain.c: Domain (scheduling units) and Domain/Windows (the cycle, the windows), with
--   tmevt_proc_top of kernel/time_event.c. A time window is its index in the table of all windows, so
--   that `p_runtwd + 1` is the next one, and the last of a mode is the one before the first of the
--   next.
-- - kernel/sys_manage.c: SysManage.
-- - extension/dcre/kernel/semaphore.c: Dcre, with the lists of free control blocks by domain, as the
--   byte of the attribute that names it. The part of a service call after its checks is that of
--   Semaphore.
-- - syssvc/syslog.c: Syslog, with the buffer against its list of logs in Syslog/Buffer. What goes to
--   the low-level output is a list in the state, and the timer a sequence of readings, of which each
--   log takes the next.
-- - arch/rx_gcc/common: lock_cpu, unlock_cpu and the dispatcher, in Kernel; the entry of an interrupt
--   handler and the return from it, in System/Interrupts.
-- - System is about the kernel as a whole: what a steady kernel is (System/Linked, System/Steady), the
--   transitions of tasks that keep it (System/Moves, Waits, Releases, Messages, Contexts), the service
--   calls of each file (System/Semaphores, Flags, Dataqueues, Pridataqs, Buffers, Pools, Tasks,
--   Manage, with FlagLoop, DataMoves, PridataMoves and what sending and receiving share in Transfers),
--   the calls as values (System/Calls, after kernel/svc_table.c), the same in a handler
--   (System/Handlers), and the steps of the kernel (System/Steps, with System/Progress on semaphores).
--
-- How a service call is modelled. A call is a function from its arguments and the state to a Svc: the
-- result and the new state, or a task that waits, with the state in which the dispatcher has switched
-- to another task, or `exited`, where the call has ended the task that made it. When a task that waits
-- runs again its result is in its wait information (resumed, resumed_flg, resumed_rdtq, resumed_mpf,
-- resumed_rpdq, resumed_rmbf). A call's name without suffix has the checks at its head; the name with
-- _locked is the part between lock_cpu and the return, for the index of the object. Between lock_cpu
-- and unlock_cpu nothing else runs, so a call is one step. IDs are natural numbers: a negative ID
-- takes the same branch as one that is too large. The model has `fault` where the code would use
-- p_runtsk while it is NULL.
--
-- Terms. The scheduler is consistent (Task/Consistent) if in each scheduling unit the bitmap, the
-- ready queues and the task of highest precedence agree, the ready tasks are in the runnable state
-- and have one of the 16 priorities, and, while dispatching is enabled, the task to run is the one
-- that update_schedtsk would choose. It is settled (Service) if it is consistent and, in a task
-- context, the running task is the task to run. It is steady (System/Steady) if it is settled, each
-- task is in at most one queue, and once, the tasks in the queues of the objects wait for an object,
-- and the task states fit in 7 bits.
--
-- The steps (System/Steps). A step is a service call of the running task, the entry of an interrupt
-- handler, a service call of a handler, the return from the outermost handler, or the end of a wait
-- with its time, which the timer handler makes. System/Calls lists the 49 calls that a step may be,
-- and rot_rdq is a step of a task besides. No steps are: the calls of mutexes; chg_pri, ena_dsp and
-- mrot_rdq; those that end tasks or ask for it, dis_ter and ena_ter; prcv_mbf and trcv_mbf; sta_cyc,
-- stp_cyc, sta_alm and stp_alm; set_tim, adj_tim and chg_som; the handlers of notifications; and the
-- calls that only read the state. That the event of a task is registered only while the task waits,
-- that a delay waits for no object, and that the base priority of a task is one of the 16, are
-- conditions of the steps that need them. The domain that a return from an interrupt restores is any
-- number.
--
-- Parameters: the hooks mbfhook_dequeue_wobj, mtxhook_release_all, mtxhook_check_ceilpri and
-- mtxhook_scan_ceilmtx, where the files that call them come before kernel/messagebuf.c and
-- kernel/mutex.c, which install messagebuf_dequeue_wobj, mutex_release_all, mutex_check_ceilpri and
-- mutex_scan_ceilmtx (TaskTerm has these in their place); set_dspflg in TaskTerm and SysManage,
-- which is in Domain/Windows; the handlers of the application for notifications, time windows and an
-- overrun of the cycle; the callback that a time event runs, which is run_callback of Notify, whose
-- handlers of notifications and whose step of the system cycle are parameters; the readings of the
-- timers; whether a memory area may be read or written (`readable`, `writable`); the tables that the
-- configurator generates (Config).
--
-- Bounds and fuel. Event times are 32 bits wide, the system time 64; addresses have no bound; the
-- bitmap of priorities has 16 bits, and its complement is taken at the 32 bits of unsigned int.
-- tmevt_up has the index of its node as fuel and tmevt_down the size of the heap, which is enough
-- since the index halves or doubles in each round; init_wait_queue and messagebuf_signal have the
-- length of the queue, of which each round takes an entry. The loops over the mutexes of a task have
-- the number of mutexes as fuel, and the search of enqueue_pridata the number of data in the queue.
-- signal_time and twd_start take their fuel as an argument, since it depends on the callbacks how
-- often they go round. _syslog_fls_log has the number of logs and one more. The other loops are
-- recursions on lists or numbers.
--
-- Not modelled: memory protection, the interrupt controller and exceptions, the order of the
-- initialisation, the rest of the tables of service calls, the logging macros (LOG_*), which do not
-- change the state of the kernel, and the assembly code other than the choice of the running task and
-- the way into and out of interrupt handlers. The other system services, the libraries, the
-- configurator, the other extensions, the samples and the tests are not modelled either.
mod Common
pub mod TimeEvent
pub mod Kernel
pub mod Task
pub mod Wait
pub mod Semaphore
pub mod Eventflag
pub mod Dataqueue
pub mod Mutex
pub mod Mempfix
pub mod Pridataq
pub mod Messagebuf
pub mod TimeManage
pub mod Notify
pub mod Domain
pub mod TaskSync
pub mod TaskManage
pub mod TaskTerm
pub mod TaskRefer
pub mod System
pub mod Syslog
pub mod Dcre
pub mod SysManage
pub mod Service
pub mod Tests
