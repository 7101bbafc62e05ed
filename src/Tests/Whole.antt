-- ===== src/Tests/Whole.antt =====
-- Tests of the kernel as a whole.
use toppers_hrp3_gr_rose.Common.{
  ℕ, ◌%◌, ◌≤◌, ◌≡◌, ◌≢◌, ◌⊎◌, inl, refl, true, false, Option, none, some, [], ◌∷◌, arith, has,
  update,
}
use toppers_hrp3_gr_rose.Kernel.{
  Kernel, check, violate_acptn, tstat_dormant, dispatch_or_request, ts_runnable, tstat_wait_wobj,
  dispatch, dispatch_if_needed, ready_queue, schedcb_kernel, sem_wait_queue, ts_waiting_sem,
}
use toppers_hrp3_gr_rose.Task.{choose_schedtsk, make_runnable, make_active}
use toppers_hrp3_gr_rose.Task.Consistent.{IsConsistent, IsReady-cong}
use toppers_hrp3_gr_rose.Service.{Leaves}
use toppers_hrp3_gr_rose.System.Moves.{IsSound, make_runnable-IsSound}
use toppers_hrp3_gr_rose.System.Steady.{IsSteady, dispatch-IsSteady}
use toppers_hrp3_gr_rose.System.Calls.{call_act_tsk, call_twai_sem, perform, perform-IsSteady}
use toppers_hrp3_gr_rose.System.Handlers.{perform_in_handler-IsSteady}
use toppers_hrp3_gr_rose.TaskSync.{with_task}
use toppers_hrp3_gr_rose.TaskManage.{act_tsk, act_tsk_locked}
use toppers_hrp3_gr_rose.System.Interrupts.{enter_interrupt, leave_interrupt}
use toppers_hrp3_gr_rose.System.Steps.{
  by_entry, by_return, by_handler, Reach, start, next, state_after, Reach-IsSteady, Reach-runs_best,
  Reach-one_queue,
}
use toppers_hrp3_gr_rose.System.Progress.{signals, IsReleased, signals-release}
use toppers_hrp3_gr_rose.Tests.{
  blank, blank-IsConsistent, one_ready, one_running, one_running_runtsk,
}

blank-IsSound : IsSound blank
blank-IsSound = record {
  consistent = blank-IsConsistent;
  linked = record {
    single = λ _. refl;
    once = λ q r t a b. ground arith;
    waiting = λ q t n a. ground arith;
    small = λ _. omega arith;
  };
}

one_running-IsSteady : IsSteady one_running
unfolding one_running one_ready
one_running-IsSteady =
    dispatch-IsSteady one_ready (make_runnable-IsSound blank 0 blank-IsSound (λ _. refl))

perform-IsSteady_example : Leaves IsSteady (perform (call_twai_sem 1 1000) one_running)
perform-IsSteady_example =
    perform-IsSteady (call_twai_sem 1 1000) one_running 0 one_running-IsSteady one_running_runtsk

-- Task 1 is activated in an interrupt of task 0.
interrupted : Kernel
interrupted = enter_interrupt one_running

interrupted-Reach : Reach one_running interrupted
unfolding interrupted
interrupted-Reach = next _ _ start (by_entry one_running)

in_handler : interrupted.nontask_context ≡ true
unfolding interrupted enter_interrupt one_running one_ready dispatch make_runnable
in_handler = refl

perform_in_handler-IsSteady_example : Leaves IsSteady (perform (call_act_tsk 2) interrupted)
perform_in_handler-IsSteady_example =
    perform_in_handler-IsSteady interrupted
      (Reach-IsSteady one_running interrupted one_running-IsSteady interrupted-Reach) in_handler
      (call_act_tsk 2)

given : Option Kernel → Kernel
given none = blank
given (some k) = k

activated : Kernel
activated = given (state_after (perform (call_act_tsk 2) interrupted))

activated-Reach : Reach one_running activated
unfolding activated given state_after perform act_tsk with_task act_tsk_locked make_active
    interrupted enter_interrupt one_running one_ready dispatch make_runnable check violate_acptn
    tstat_dormant
activated-Reach =
    next interrupted activated interrupted-Reach
      (by_handler (call_act_tsk 2) interrupted activated in_handler refl)

returned_to_tasks : Kernel
returned_to_tasks = leave_interrupt 0 activated

returned_to_tasks-Reach : Reach one_running returned_to_tasks
unfolding returned_to_tasks
returned_to_tasks-Reach = next activated _ activated-Reach (by_return 0 activated)

Reach-IsSteady_example : IsSteady returned_to_tasks
Reach-IsSteady_example =
    Reach-IsSteady one_running returned_to_tasks one_running-IsSteady returned_to_tasks-Reach

is_ready :
    (returned_to_tasks.nontask_context ≡ false)
    × ((returned_to_tasks.dspflg ≡ true)
        × (has 1 (returned_to_tasks.queue (ready_queue schedcb_kernel 3)) ≡ true))
unfolding returned_to_tasks leave_interrupt dispatch_if_needed activated given state_after perform
    act_tsk with_task act_tsk_locked make_active interrupted enter_interrupt one_running one_ready
    dispatch make_runnable check violate_acptn tstat_dormant dispatch_or_request
is_ready = (refl, (refl, refl))

Reach-runs_best_example :
    (t : ℕ) × ((returned_to_tasks.p_runtsk ≡ some t)
      × (returned_to_tasks.priority t ≤ returned_to_tasks.priority 1))
Reach-runs_best_example =
    Reach-runs_best one_running returned_to_tasks schedcb_kernel 3 1 one_running-IsSteady
      returned_to_tasks-Reach is_ready.0 is_ready.1.0 (inl refl) (omega arith) is_ready.1.1

Reach-one_queue_example :
    (ready_queue schedcb_kernel 3 ≡ ready_queue schedcb_kernel 3)
    × (((ready_queue schedcb_kernel 3 % 16 ≡ 0) × (returned_to_tasks.tstat 1 ≡ ts_runnable))
        ⊎ ((ready_queue schedcb_kernel 3 % 16 ≢ 0)
            × (tstat_wait_wobj (returned_to_tasks.tstat 1) ≡ true)))
Reach-one_queue_example =
    Reach-one_queue one_running returned_to_tasks 1 (ready_queue schedcb_kernel 3)
      (ready_queue schedcb_kernel 3) one_running-IsSteady returned_to_tasks-Reach is_ready.1.1
      is_ready.1.1

-- Tasks 2 and 1 wait for semaphore 0.
abbrev two_wait : Kernel
two_wait = record blank {
  queue = update blank.queue (sem_wait_queue 0) (2 ∷ 1 ∷ []);
  tstat = update (update blank.tstat 1 ts_waiting_sem) 2 ts_waiting_sem;
}

two_wait-IsConsistent : IsConsistent two_wait
unfolding choose_schedtsk
two_wait-IsConsistent = record {
  ready = λ s.
      IsReady-cong blank two_wait s refl refl refl refl (λ p q. ground arith)
        (blank-IsConsistent.ready s);
  priorities = λ _. omega arith;
  scheduled = λ _. refl;
  in_ready = λ s p t l r. ground arith;
}

two_wait-IsSteady : IsSteady two_wait
unfolding tstat_wait_wobj
two_wait-IsSteady = record {
  settled = record { consistent = two_wait-IsConsistent; running = λ _. refl };
  linked = record {
    single = λ q. ground arith;
    once = λ q r t a b. ground arith;
    waiting = λ q t n a. ground arith;
    small = λ t. ground arith;
  };
}

signals-release_example :
    (k' : Kernel) × ((signals 2 0 two_wait ≡ some k')
      × ((k'.queue (sem_wait_queue 0) ≡ []) × IsReleased 1 two_wait k'))
signals-release_example = signals-release 0 1 (2 ∷ []) [] two_wait two_wait-IsSteady refl
