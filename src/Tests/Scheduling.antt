-- ===== src/Tests/Scheduling.antt =====
-- Tests of the scheduler and of the service calls that wait and wake.
use toppers_hrp3_gr_rose.Common.{ℕ, ◌≡◌, refl, some, update, ◌⊎◌}
use toppers_hrp3_gr_rose.Kernel.{schedcb_kernel, ts_runnable, ts_suspended}
use toppers_hrp3_gr_rose.Task.{choose_schedtsk, make_runnable, make_non_runnable}
use toppers_hrp3_gr_rose.Task.Ready.{IsTop}
use toppers_hrp3_gr_rose.Task.Consistent.{
  IsConsistent, make_runnable-IsConsistent, make_non_runnable-IsConsistent,
}
use toppers_hrp3_gr_rose.Task.Schedule.{IsBefore, choose_schedtsk_best}
use toppers_hrp3_gr_rose.Tests.{one_ready, one_ready-IsConsistent}

one_ready_chosen : choose_schedtsk one_ready ≡ some 0
unfolding one_ready make_runnable choose_schedtsk
one_ready_chosen = refl

choose_schedtsk_best_example :
    (IsBefore one_ready 0 schedcb_kernel × IsBefore one_ready 0 one_ready.p_twdsched)
    × ((IsTop one_ready schedcb_kernel 0
          ⊎ (IsTop one_ready one_ready.p_twdsched 0 ⊎ IsTop one_ready one_ready.p_idlesched 0))
        × ((u : ℕ)
            → one_ready.p_predtsk schedcb_kernel ≡ some u
            → one_ready.priority u ≡ one_ready.priority 0
            → u ≡ 0))
choose_schedtsk_best_example =
    choose_schedtsk_best one_ready 0 one_ready-IsConsistent one_ready_chosen

make_runnable-IsConsistent_example :
    IsConsistent
      (make_runnable 1 (record one_ready { tstat = update one_ready.tstat 1 ts_runnable }))
make_runnable-IsConsistent_example = make_runnable-IsConsistent one_ready 1 one_ready-IsConsistent

make_non_runnable-IsConsistent_example :
    IsConsistent
      (make_non_runnable 0 (record one_ready { tstat = update one_ready.tstat 0 ts_suspended }))
make_non_runnable-IsConsistent_example =
    make_non_runnable-IsConsistent one_ready 0 one_ready-IsConsistent ts_suspended
